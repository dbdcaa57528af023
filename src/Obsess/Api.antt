-- ===== src/Obsess/Api.antt =====
-- internal/obsess/controller.go: the operations that the probe engine, the scheduler, the resolver and
-- the controller's own timer call.
use flameping.Prelude.{
  ℕ, ◌+◌, ◌-◌, List, [], ◌∷◌, ◌++◌, Bool, true, false, ltb, ◌==◌, if◌then◌else◌, Option, none, some,
  not, ◌&&◌, ◌||◌, length,
}
use flameping.Prelude.Int.{ℤ, pos, negsuc, pos_part}
use flameping.Obsess.{
  Floats, Net, Policy, Probe, ProbeEvent, TargetState, Transition, Controller, unset, loss, latency,
  endpoint_changed, find, store, deadline,
}
use flameping.Obsess.Samples.{
  average, limit, clear_history, interrupt_target, interrupt, prune_history, make_room,
}
use flameping.Obsess.Settle.{changed, write_probe, fault, finish, exceeds}

abbrev pub present : {A : Type 0} → Option A → Bool
present none = false
present (some a) = true

abbrev pub is_negative : ℤ → Bool
is_negative (pos n) = false
is_negative (negsuc n) = true

abbrev pub reply_time : ProbeEvent → ℕ → ℕ
reply_time reply now = elim reply.reply_at [ none ↦ now | some at ↦ at ]

module _ {F : Type 0} where
  -- `probes[key]`: the unsettled probe with the key, and its target.
  unfoldable pub probe_in : ℕ → List (Probe F) → Option (Probe F)
  probe_in key [] = none
  probe_in key (p ∷ ps) =
      let rest = probe_in key ps in if key == p.event.key && not p.done then some p else rest

  unfoldable pub find_probe : ℕ → List (TargetState F) → Option (TargetState F × Probe F)
  find_probe key [] = none
  find_probe key (t ∷ ts) = elim (probe_in key t.fifo) [
    | some p ↦ some (t, p)
    | none ↦ find_probe key ts
  ]

  -- `ObserveGap`, for the target and the missed count of the gap.
  unfoldable pub observe_gap : ℕ → ℕ → ℕ → Controller F → Controller F
  observe_gap id missed_count now c = elim (find id c.targets) [
    | none ↦ c
    | some t ↦ elim t.policy [
      | none ↦ c
      | some policy ↦ if missed_count == 0 then c else interrupt_target now t c
    ]
  ]

  -- `Snapshot`, without the status that it reports.
  unfoldable pub snapshot : ℕ → ℕ → Controller F → Controller F
  snapshot id now c = elim (find id c.targets) [
    | none ↦ c
    | some t ↦ elim t.policy [ none ↦ c | some policy ↦ prune_history policy now t c ]
  ]

  -- No room: the target is marked, and no recovery may cross the probe's lifetime.
  unfoldable pub lose_track : ProbeEvent → TargetState F → Controller F → Controller F
  lose_track event t c =
      interrupt_target (event.sent_at + event.timeout) (record t { tracking_limited = true }) c

  -- The probe's event after a reply.
  unfoldable pub answered : ProbeEvent → ℕ → Probe F → Probe F
  answered reply now p = record p {
    event = record p.event {
      rtt = reply.rtt;
      late = reply.late;
      responder = reply.responder;
      icmp_type = reply.icmp_type;
      icmp_code = reply.icmp_code;
      reply_at = some (elim reply.reply_at [ none ↦ now | some at ↦ at ]);
    };
  }

  abbrev pub limit_for : TargetState F → Probe F → Option F
  limit_for t p = if t.active then t.threshold else p.threshold

  unfoldable pub accept : Probe F → Probe F
  accept p = record p { accepted = true }

  unfoldable pub arm : Probe F → Probe F
  arm p = record p { accepted = true; on_heap = true }

  unfoldable pub keep_early : ProbeEvent → Probe F → Probe F
  keep_early event p = record p {
    early = elim p.early [ none ↦ some event | some first ↦ some first ];
  }

module _ {F : Type 0} (floats : Floats F) where
  -- The target as it is after a new address, with no history.
  unfoldable pub relocated : ℕ → TargetState F → TargetState F
  relocated endpoint t = record t {
    endpoint = endpoint;
    fifo = [];
    active = false;
    tracking_limited = false;
    reason = unset;
    since = none;
    baseline = floats.of_nat 0;
    baseline_count = 0;
    threshold = none;
    healthy_since = none;
    healthy_through = none;
    last_bad = 0;
  }

  -- `UpdateEndpoint`; a target without a policy is never active.
  unfoldable pub update_endpoint : ℕ → ℕ → ℕ → Controller F → Controller F × List (Transition F)
  update_endpoint id endpoint now c = elim (find id c.targets) [
    | none ↦ (c, [])
    | some t ↦
        let t' = relocated endpoint t in
        let c' = clear_history t' (record c { tracked = c.tracked - length t.fifo; wake = true }) in
        if endpoint == t.endpoint
        then (c, [])
        else if t.active
        then elim t.policy [
          | none ↦ (c', [])
          | some policy ↦ changed policy endpoint_changed now none t' c'
        ]
        else (c', [])
  ]

  -- The probe that `BeginProbe` tracks; its limits are the incident's, where there is one.
  unfoldable pub new_probe : Policy → ProbeEvent → TargetState F → ℕ → Probe F
  new_probe policy event t ref =
      let (mean, count) = average floats t in
      record {
        ref = ref;
        event = event;
        on_heap = false;
        accepted = false;
        done = false;
        good = false;
        rtt = floats.of_nat 0;
        early = none;
        baseline = if t.active then t.baseline else mean;
        baseline_count = if t.active then t.baseline_count else count;
        threshold = if t.active then t.threshold else limit floats policy t mean count;
      }

  -- The append at the end of `BeginProbe`.
  unfoldable pub track : Policy → ProbeEvent → TargetState F → Controller F → Controller F
  track policy event t c =
      store (record t { fifo = t.fifo ++ new_probe policy event t c.next_ref ∷ [] })
        (record c { tracked = c.tracked + 1; next_ref = c.next_ref + 1 })

  unfoldable pub admit : Policy → ProbeEvent → ℕ → TargetState F → Controller F → Controller F
  admit policy event now t c =
      let (c', room) = make_room now (prune_history policy event.sent_at t c) in
      elim (find event.target_id c'.targets) [
        | none ↦ c'
        | some t' ↦ if room then track policy event t' c' else lose_track event t' c'
      ]

  -- `BeginProbe`.
  unfoldable pub begin_probe : Net → ProbeEvent → ℕ → Controller F → Controller F
  begin_probe net event now c = elim (find event.target_id c.targets) [
    | none ↦ c
    | some t ↦ elim t.policy [
      | none ↦ c
      | some policy ↦
          if not (event.endpoint == t.endpoint)
            || not (net.is_valid event.endpoint)
            || (event.timeout == 0 || present (find_probe event.key c.targets))
          then c
          else admit policy event now t c
    ]
  ]

  -- `reply`; its event has a round-trip time that is not negative.
  unfoldable pub reply :
      Policy
      → TargetState F
      → Probe F
      → ProbeEvent
      → ℕ
      → Controller F
      → Controller F × List (Transition F)
  reply policy t p event now c =
      let p' = answered event now p in
      let c' = write_probe t.id p.ref (answered event now) c in
      let rtt = floats.of_nat (pos_part event.rtt) in
      let (lost, losses) = fault floats policy t.id p' loss (deadline p'.event) c' in
      let (slow, slows) = fault floats policy t.id p' latency (reply_time event now) c' in
      let (after_loss, more_loss) = finish floats policy t.id now p' false rtt lost in
      let (after_slow, more_slow) = finish floats policy t.id now p' false rtt slow in
      if event.late || ltb p.event.timeout (pos_part event.rtt)
      then (after_loss, losses ++ more_loss)
      else if exceeds floats (limit_for t p) rtt
      then (after_slow, slows ++ more_slow)
      else finish floats policy t.id now p' true rtt c'

  -- `CompleteProbe`, for a probe that is not yet accepted.
  unfoldable pub complete :
      Policy
      → TargetState F
      → Probe F
      → Bool
      → ℕ
      → Controller F
      → Controller F × List (Transition F)
  complete policy t p success now c =
      let c' = write_probe t.id p.ref accept c in
      if not success
      then finish floats policy t.id now (accept p) false (floats.of_nat 0) (interrupt t.id now c')
      else elim p.early [
        | some event ↦ reply policy t (accept p) event now c'
        | none ↦ (record (write_probe t.id p.ref arm c) { wake = true }, [])
      ]

  unfoldable pub complete_own :
      TargetState F → Probe F → Bool → ℕ → Controller F → Controller F × List (Transition F)
  complete_own t p success now c = elim t.policy [
    | none ↦ (c, [])
    | some policy ↦ if p.accepted then (c, []) else complete policy t p success now c
  ]

  -- `CompleteProbe`.
  unfoldable pub complete_probe : ℕ → Bool → ℕ → Controller F → Controller F × List (Transition F)
  complete_probe key success now c = elim (find_probe key c.targets) [
    | none ↦ (c, [])
    | some (t, p) ↦ complete_own t p success now c
  ]

  unfoldable pub observe_own :
      Net
      → ProbeEvent
      → ℕ
      → TargetState F
      → Probe F
      → Controller F
      → Controller F × List (Transition F)
  observe_own net event now t p c = elim t.policy [
    | none ↦ (c, [])
    | some policy ↦
        if not (net.plain p.event.endpoint == net.plain event.responder) || is_negative event.rtt
        then (c, [])
        else if p.accepted
        then reply policy t p event now c
        else (write_probe t.id p.ref (keep_early event) c, [])
  ]

  -- `ObserveReply`.
  unfoldable pub observe_reply :
      Net → ProbeEvent → ℕ → Controller F → Controller F × List (Transition F)
  observe_reply net event now c = elim (find_probe event.key c.targets) [
    | none ↦ (c, [])
    | some (t, p) ↦ observe_own net event now t p c
  ]

  -- One round of the loop of `expire`.
  unfoldable pub expire_one :
      Policy → ℕ → ℕ → Probe F → Controller F → Controller F × List (Transition F)
  expire_one policy id now p c =
      let (c', changes) = fault floats policy id p loss (deadline p.event) c in
      let (c'', more) = finish floats policy id now p false (floats.of_nat 0) c' in
      (c'', changes ++ more)
