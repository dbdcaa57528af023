-- ===== src/Obsess/Requests.antt =====
-- internal/obsess/controller.go: `New`, and the calls on what it returns, with the rounds of `expire`.
use flameping.Prelude.{
  ℕ, List, [], ◌∷◌, ◌++◌, Bool, false, leb, ◌==◌, ◌||◌, ◌&&◌, if◌then◌else◌, Option, none, some,
}
use flameping.Obsess.{
  Floats, Net, Policy, ProbeEvent, Probe, TargetState, Transition, Controller, unset, find,
  deadline,
}
use flameping.Obsess.Api.{
  present, observe_gap, snapshot, update_endpoint, begin_probe, complete_probe, observe_reply,
  expire_one,
}

-- `Target`, with what `Threshold` makes of its policy.
pub record NewTarget (F : Type 0) : Type 0 where
  pub id : ℕ
  pub endpoint : ℕ
  pub interval : ℕ
  pub policy : Option (Policy × Option (ℕ × F))

-- The checks of a policy.
abbrev pub is_refused : ℕ → Policy → Bool
is_refused interval p =
    p.interval == 0
    || (leb interval p.interval
        || (p.baseline_window == 0 || (p.recover_after == 0 || p.min_samples == 0)))

-- The calls of the engine, the scheduler, the resolver, the status page and the timer.
pub data Request : Type 0 where
  begin : ProbeEvent → Request
  complete : ℕ → Bool → Request
  observe : ProbeEvent → Request
  gap : ℕ → ℕ → Request
  relocate : ℕ → ℕ → Request
  look : ℕ → Request
  tick : Request

module _ {F : Type 0} where
  module _ (floats : Floats F) where
    abbrev pub fresh_state : NewTarget F → Option Policy → ℕ → F → TargetState F
    fresh_state t policy absolute percent = record {
      id = t.id;
      endpoint = t.endpoint;
      interval = t.interval;
      policy = policy;
      absolute = absolute;
      percent = percent;
      active = false;
      reason = unset;
      since = none;
      baseline = floats.of_nat 0;
      baseline_count = 0;
      threshold = none;
      healthy_since = none;
      healthy_through = none;
      last_bad = 0;
      history = [];
      fifo = [];
      tracking_limited = false;
    }

    -- The state of a target, or an error.
    unfoldable pub state_of : NewTarget F → Option (TargetState F)
    state_of t = elim t.policy [
      | none ↦ some (fresh_state t none 0 (floats.of_nat 0))
      | some (policy, threshold) ↦ if is_refused t.interval policy then none else elim threshold [
        | none ↦ none
        | some (absolute, percent) ↦ some (fresh_state t (some policy) absolute percent)
      ]
    ]

    unfoldable pub new_from :
        List (TargetState F) → List (NewTarget F) → Option (List (TargetState F))
    new_from made [] = some made
    new_from made (t ∷ ts) =
        if present (find t.id made)
        then none
        else elim (state_of t) [ none ↦ none | some state ↦ new_from (made ++ state ∷ []) ts ]

    -- `New`; an error is `none`.
    unfoldable pub new : List (NewTarget F) → Option (Controller F)
    new ts = elim (new_from [] ts) [
      | none ↦ none
      | some targets ↦ some (record {
        targets = targets;
        tracked = 0;
        samples = 0;
        next_ref = 0;
        running = false;
        wake = false;
        changes = [];
      })
    ]

  -- The top of the heap: of the probes on it, one with the least deadline.
  unfoldable pub soonest_in : List (Probe F) → Option (Probe F)
  soonest_in [] = none
  soonest_in (p ∷ ps) = elim (soonest_in ps) [
    | none ↦ if p.on_heap then some p else none
    | some q ↦ if p.on_heap && leb (deadline p.event) (deadline q.event) then some p else some q
  ]

  unfoldable pub soonest : List (TargetState F) → Option (TargetState F × Probe F)
  soonest [] = none
  soonest (t ∷ ts) = elim (soonest_in t.fifo) [
    | none ↦ soonest ts
    | some p ↦ elim (soonest ts) [
      | none ↦ some (t, p)
      | some (u, q) ↦ if leb (deadline p.event) (deadline q.event) then some (t, p) else some (u, q)
    ]
  ]

  module _ (floats : Floats F) (net : Net) where
    -- A round of the loop of `expire`, where the top of the heap is due.
    unfoldable pub expire_due : ℕ → Controller F → Controller F × List (Transition F)
    expire_due now c = elim (soonest c.targets) [
      | none ↦ (c, [])
      | some (t, p) ↦ elim t.policy [
        | none ↦ (c, [])
        | some policy ↦
            if leb (deadline p.event) now then expire_one floats policy t.id now p c else (c, [])
      ]
    ]

    unfoldable pub answer : Request → ℕ → Controller F → Controller F × List (Transition F)
    answer (begin event) now c = (begin_probe floats net event now c, [])
    answer (complete key success) now c = complete_probe floats key success now c
    answer (observe event) now c = observe_reply floats net event now c
    answer (gap id missed) now c = (observe_gap id missed now c, [])
    answer (relocate id endpoint) now c = update_endpoint floats id endpoint now c
    answer (look id) now c = (snapshot id now c, [])
    answer tick now c = expire_due now c

    unfoldable pub run : List (Request × ℕ) → Controller F → Controller F × List (Transition F)
    run [] c = (c, [])
    run ((request, now) ∷ rest) c =
        let (c', changes) = answer request now c in
        let (c'', more) = run rest c' in (c'', changes ++ more)
