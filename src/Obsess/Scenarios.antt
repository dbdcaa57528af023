-- ===== src/Obsess/Scenarios.antt =====
-- internal/obsess/controller.go: a controller with two targets, on which the calls run, and the calls'
-- theorems at it.
use flameping.Prelude.{
  ℕ, ◌+◌, ◌-◌, ◌*◌, ◌/◌, List, [], ◌∷◌, Bool, true, false, ltb, none, some, arith, ◌≡◌, refl,
}
use flameping.Prelude.Int.{pos}
use flameping.Obsess.{
  Floats, Net, Policy, ProbeEvent, Probe, TargetState, Controller, unset, find, put,
}
use flameping.Obsess.Samples.{limit, interrupt_target, clear_history}
use flameping.Obsess.Settle.{
  fifo_of, update_probe, finish, write_probe, fault, fault_target, opened, changed, exceeds, settle,
  drop_head, judge,
}
use flameping.Obsess.Api.{find_probe, probe_in, observe_own, reply, answered, observe_reply}
use flameping.Obsess.Store.{IsDistinct}
use flameping.Obsess.Books.{IsCounted, Stands}
use flameping.Obsess.Requests.{
  NewTarget, Request, begin, complete, observe, gap, relocate, tick, new, new_from, state_of, run,
}
use flameping.Obsess.Runs.{run-new-IsCounted}
use flameping.Obsess.Transitions.{active_of}
use flameping.Obsess.Reports.{Reports, observe_reply-Reports}

abbrev whole : Floats ℕ
whole = record {
  of_nat = λ n. n;
  add = λ a b. a + b;
  sub = λ a b. a - b;
  mul = λ a b. a * b;
  div = λ a b. a / b;
  above = λ a b. ltb b a;
  is_inf = λ a. false;
}

abbrev flat : Net
flat = record { is_valid = λ a. ltb 0 a; plain = λ a. a }

abbrev fast : Policy
fast = record { interval = 10; baseline_window = 1000; recover_after = 50; min_samples = 1 }

abbrev ping : ℕ → ℕ → ProbeEvent
ping key sent_at = record {
  key = key;
  target_id = 1;
  endpoint = 7;
  sent_at = sent_at;
  timeout = 30;
  reply_at = none;
  rtt = pos 0;
  late = false;
  responder = 0;
  icmp_type = 0;
  icmp_code = 0;
}

abbrev echo : ℕ → ℕ → ProbeEvent
echo key rtt = record (ping key 0) { reply_at = some 130; rtt = pos rtt; responder = 7 }

abbrev flying : ℕ → ℕ → ℕ → Bool → Probe ℕ
flying ref key sent_at accepted = record {
  ref = ref;
  event = ping key sent_at;
  on_heap = accepted;
  accepted = accepted;
  done = false;
  good = false;
  rtt = 0;
  early = none;
  baseline = 5;
  baseline_count = 1;
  threshold = some 10;
}

abbrev watched : TargetState ℕ
watched = record {
  id = 1;
  endpoint = 7;
  interval = 100;
  policy = some fast;
  absolute = 10;
  percent = 0;
  active = false;
  reason = unset;
  since = none;
  baseline = 0;
  baseline_count = 0;
  threshold = none;
  healthy_since = none;
  healthy_through = none;
  last_bad = 0;
  history = record { sent_at = 90; rtt = 5 } ∷ [];
  fifo = flying 0 40 100 true ∷ flying 1 41 110 false ∷ [];
  tracking_limited = false;
}

abbrev plain_target : TargetState ℕ
plain_target = record watched { id = 2; policy = none; history = []; fifo = [] }

abbrev probing : Controller ℕ
probing = record {
  targets = plain_target ∷ watched ∷ [];
  tracked = 2;
  samples = 1;
  next_ref = 2;
  running = true;
  wake = false;
  changes = [];
}

probing-IsDistinct : IsDistinct probing.targets
unfolding IsDistinct find
probing-IsDistinct = (refl, (refl, tt))

probing-IsCounted : IsCounted probing
probing-IsCounted = record {
  distinct = probing-IsDistinct;
  tracks = refl;
  holds = refl;
  fits = omega arith;
}

find_probe-first : find_probe 40 probing.targets ≡ some (watched, flying 0 40 100 true)
unfolding find_probe probe_in
find_probe-first = refl

find_probe-second : find_probe 41 probing.targets ≡ some (watched, flying 1 41 110 false)
unfolding find_probe probe_in
find_probe-second = refl

-- A slow reply to the first probe opens an incident.
observe_reply-Reports_example :
    Reports 1 (active_of 1 probing.targets) (observe_reply whole flat (echo 40 25) 130 probing)
observe_reply-Reports_example =
    observe_reply-Reports whole flat (echo 40 25) 130 probing watched (flying 0 40 100 true)
      probing-IsDistinct find_probe-first

probing-Stands : Stands 1 watched.fifo probing
unfolding fifo_of find
probing-Stands = record { counted = probing-IsCounted; queue = refl }

-- The slow reply makes the target's probes fast.
observe_reply_opens : (observe_reply whole flat (echo 40 25) 130 probing).0.changes ≡ (1, 10) ∷ []
unfolding observe_reply observe_own find_probe probe_in reply answered write_probe update_probe find
    put fault fault_target opened limit changed interrupt_target clear_history exceeds finish settle
    drop_head judge fifo_of
observe_reply_opens = refl

-- A controller for one target, and calls on it: a probe that is answered, and one that is lost.
abbrev wanted : List (NewTarget ℕ)
wanted = record { id = 1; endpoint = 7; interval = 100; policy = some (fast, some (40, 0)) } ∷ []

abbrev asked : List (Request × ℕ)
asked =
    (begin (ping 50 100), 100)
    ∷ (complete 50 true, 101)
    ∷ (observe (echo 50 6), 130)
    ∷ (begin (ping 51 200), 200)
    ∷ (complete 51 true, 201)
    ∷ (tick, 300)
    ∷ (gap 1 2, 310)
    ∷ (relocate 1 8, 320)
    ∷ []

abbrev started : Controller ℕ
started = record {
  targets =
      record {
        id = 1;
        endpoint = 7;
        interval = 100;
        policy = some fast;
        absolute = 40;
        percent = 0;
        active = false;
        reason = unset;
        since = none;
        baseline = 0;
        baseline_count = 0;
        threshold = none;
        healthy_since = none;
        healthy_through = none;
        last_bad = 0;
        history = [];
        fifo = [];
        tracking_limited = false;
      }
      ∷ [];
  tracked = 0;
  samples = 0;
  next_ref = 0;
  running = false;
  wake = false;
  changes = [];
}

started-new : new whole wanted ≡ some started
unfolding new new_from state_of find
started-new = refl

run-new-IsCounted_example : IsCounted (run whole flat asked started).0
run-new-IsCounted_example = run-new-IsCounted whole flat wanted started asked started-new
