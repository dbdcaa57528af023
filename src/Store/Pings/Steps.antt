-- ===== src/Store/Pings/Steps.antt =====
-- internal/store/sqlite/rollup.go: the steps for a row add to any other aggregate.
use flameping.Prelude.{
  ℕ, ◌+◌, ◌^◌, ◌≤◌, ◌<◌, ◌≡◌, refl, ap, ◌∙◌, List, [], ◌∷◌, Bool, true, false, if◌then◌else◌,
  Option, none, some, arith, length,
}
use flameping.Histogram.{Floats, observe, add_at, Entry}
use flameping.Histogram.Invariant.{IsValid, observe-IsValid}
use flameping.Store.Pings.{
  PingAggregate, PingSample, add_row, add_sent, observe_rtt, observe_timeout,
}
use flameping.Store.Pings.Sums.{HasRoom, IsTallied, observe_rtt-plus, observe_timeout-plus, plus}

length-add_at : (i n : ℕ) (es : List Entry) → length (add_at i n es) ≤ length es + 1
unfolding add_at
length-add_at i n [] = omega arith
length-add_at i n (e ∷ es) = ground (arith, length-add_at i n es)

-- At most `n` values were observed on the way from `a` to `b`.
abbrev pub Grows : ℕ → PingAggregate → PingAggregate → Type 0
Grows n a b =
    (b.hist.count ≤ a.hist.count + n) × (length b.hist.buckets ≤ length a.hist.buckets + n)

-- A step that takes in at most `n` values, and whose effect adds to any other aggregate.
pub record Adds (n : ℕ) (step : PingAggregate → PingAggregate) : Type 0 where
  pub adds :
      (a b : PingAggregate)
      → IsTallied a
      → IsTallied b
      → HasRoom a b n
      → step (plus a b) ≡ plus (step a) b
  pub keeps :
      (a : PingAggregate)
      → IsTallied a
      → a.hist.count + n < 2 ^ 64
      → IsTallied (step a) × Grows n a (step a)

-- One step after another.
chain :
    (m n : ℕ) (f g : PingAggregate → PingAggregate)
    → Adds m f
    → Adds n g
    → Adds (m + n) (λ a. g (f a))
chain m n f g p q = record {
  adds = λ a b v w room.
      let (v', (grown, _)) = p.keeps a v (omega arith) in
      ap g (p.adds a b v w (omega arith)) ∙ q.adds (f a) b v' w (omega (arith, grown));
  keeps = λ a v room.
      let (v', (grown, longer)) = p.keeps a v (omega arith) in
      let (v'', (grown', longer')) = q.keeps (f a) v' (omega (arith, grown)) in
      (v'', (omega (arith, grown, grown'), omega (arith, longer, longer')));
}

-- A step that only counts a kind of row.
count-Adds :
    (step : PingAggregate → PingAggregate)
    → ((a b : PingAggregate) → step (plus a b) ≡ plus (step a) b)
    → ((a : PingAggregate) → IsTallied a → IsTallied (step a))
    → ((a : PingAggregate) → (step a).hist ≡ a.hist)
    → Adds 0 step
count-Adds step p q same = record {
  adds = λ a b v w room. p a b;
  keeps = λ a v room. (q a v, ground (arith, same a));
}

late-Adds : Adds 0 (λ a. record a { late = a.late + 1 })
late-Adds =
    count-Adds (λ a. record a { late = a.late + 1 }) (λ a b. unfold plus in ground arith)
      (λ a v. ground (arith, v.none_seen, v.no_timeout)) (λ a. refl)

on_time-Adds : Adds 0 (λ a. record a { on_time = a.on_time + 1 })
on_time-Adds =
    count-Adds (λ a. record a { on_time = a.on_time + 1 }) (λ a b. unfold plus in ground arith)
      (λ a v. ground (arith, v.none_seen, v.no_timeout)) (λ a. refl)

unanswered-Adds : Adds 0 (λ a. record a { unanswered = a.unanswered + 1 })
unanswered-Adds =
    count-Adds (λ a. record a { unanswered = a.unanswered + 1 })
      (λ a b. unfold plus in ground arith) (λ a v. ground (arith, v.none_seen, v.no_timeout))
      (λ a. refl)

sent-Adds : Adds 0 (λ a. record a { sent = a.sent + 1 })
sent-Adds =
    count-Adds (λ a. record a { sent = a.sent + 1 }) (λ a b. unfold plus in ground arith)
      (λ a v. ground (arith, v.none_seen, v.no_timeout)) (λ a. refl)

error-Adds : Adds 0 (λ a. record a { send_error = a.send_error + 1 })
error-Adds =
    count-Adds (λ a. record a { send_error = a.send_error + 1 })
      (λ a b. unfold plus in ground arith) (λ a v. ground (arith, v.none_seen, v.no_timeout))
      (λ a. refl)

attempted-Adds : Adds 0 (λ a. record a { attempted = a.attempted + 1 })
attempted-Adds =
    count-Adds (λ a. record a { attempted = a.attempted + 1 }) (λ a b. unfold plus in ground arith)
      (λ a v. ground (arith, v.none_seen, v.no_timeout)) (λ a. refl)

observe_timeout-Adds : (t : ℕ) → Adds 0 (λ a. observe_timeout a t)
observe_timeout-Adds t =
    count-Adds (λ a. observe_timeout a t) (λ a b. observe_timeout-plus a b t)
      (λ a v. unfold observe_timeout in ground (arith, v.no_timeout, v.none_seen))
      (λ a. unfold observe_timeout in ground arith)

observe_rtt-IsTallied :
    (floats : Floats) (a : PingAggregate) (rtt : Option ℕ)
    → IsTallied a
    → a.hist.count + 1 < 2 ^ 64
    → IsTallied (observe_rtt floats a rtt) × Grows 1 a (observe_rtt floats a rtt)
unfolding observe_rtt
observe_rtt-IsTallied floats a none v room = (v, (omega arith, omega arith))
observe_rtt-IsTallied floats a (some rtt) v room =
    let valid : IsValid (observe floats a.hist rtt) =
      observe-IsValid floats a.hist rtt v.hist_valid room in
    let counted : (observe floats a.hist rtt).count ≡ a.hist.count + 1 =
      unfold observe in omega arith in
    (
      record {
        hist_valid = valid;
        rtt_counted = omega (arith, counted, v.rtt_counted);
        sum_fits = omega arith;
        min_fits = ground (arith, v.min_fits);
        none_seen = λ z. absurd (omega (arith, z));
        timeouts_ordered = v.timeouts_ordered;
        no_timeout = v.no_timeout;
      },
      (omega (arith, counted), unfold observe in length-add_at _ 1 a.hist.buckets),
    )

observe_rtt-Adds : (floats : Floats) (rtt : Option ℕ) → Adds 1 (λ a. observe_rtt floats a rtt)
observe_rtt-Adds floats rtt = record {
  adds = λ a b v w room. observe_rtt-plus floats a b rtt v w room;
  keeps = λ a v room. observe_rtt-IsTallied floats a rtt v room;
}

weaken : (step : PingAggregate → PingAggregate) → Adds 0 step → Adds 1 step
weaken step p = record {
  adds = λ a b v w room. p.adds a b v w (omega arith);
  keeps = λ a v room.
      let (v', (grown, longer)) = p.keeps a v (omega arith) in
      (v', (omega (arith, grown), omega (arith, longer)));
}

answered-Adds :
    (floats : Floats) (is_late : Bool) (rtt : Option ℕ)
    → Adds 1 (λ a.
      observe_rtt floats
        (if is_late then record a { late = a.late + 1 } else record a { on_time = a.on_time + 1 })
        rtt)
answered-Adds floats true rtt =
    chain 0 1 (λ a. record a { late = a.late + 1 }) (λ a. observe_rtt floats a rtt) late-Adds
      (observe_rtt-Adds floats rtt)
answered-Adds floats false rtt =
    chain 0 1 (λ a. record a { on_time = a.on_time + 1 }) (λ a. observe_rtt floats a rtt)
      on_time-Adds (observe_rtt-Adds floats rtt)

replied-Adds :
    (floats : Floats) (reply : Option ℕ) (is_late : Bool) (rtt : Option ℕ)
    → Adds 1 (λ a. elim reply [
      | none ↦ record a { unanswered = a.unanswered + 1 }
      | some at ↦
          observe_rtt floats
            (if is_late
              then record a { late = a.late + 1 }
              else record a { on_time = a.on_time + 1 })
            rtt
    ])
replied-Adds floats none is_late rtt =
    weaken (λ a. record a { unanswered = a.unanswered + 1 }) unanswered-Adds
replied-Adds floats (some at) is_late rtt = answered-Adds floats is_late rtt

add_sent-Adds : (floats : Floats) (x : PingSample) → Adds 1 (λ a. add_sent floats a x)
unfolding add_sent
add_sent-Adds floats x = replied-Adds floats x.reply_at_us x.is_late x.rtt_ns

outcome-Adds :
    (floats : Floats) (is_local : Bool) (x : PingSample)
    → Adds 1 (λ a.
      if is_local
      then record a { send_error = a.send_error + 1 }
      else add_sent floats (record a { sent = a.sent + 1 }) x)
outcome-Adds floats true x = weaken (λ a. record a { send_error = a.send_error + 1 }) error-Adds
outcome-Adds floats false x =
    chain 0 1 (λ a. record a { sent = a.sent + 1 }) (λ a. add_sent floats a x) sent-Adds
      (add_sent-Adds floats x)

pub add_row-Adds : (floats : Floats) (x : PingSample) → Adds 1 (λ a. add_row floats a x)
unfolding add_row
add_row-Adds floats x =
    chain 0 1 (λ a. record a { attempted = a.attempted + 1 })
      (λ a.
        let b = observe_timeout a x.timeout_ns in
        if x.is_local
        then record b { send_error = b.send_error + 1 }
        else add_sent floats (record b { sent = b.sent + 1 }) x)
      attempted-Adds
      (chain 0 1 (λ a. observe_timeout a x.timeout_ns)
        (λ b.
          if x.is_local
          then record b { send_error = b.send_error + 1 }
          else add_sent floats (record b { sent = b.sent + 1 }) x)
        (observe_timeout-Adds x.timeout_ns) (outcome-Adds floats x.is_local x))
