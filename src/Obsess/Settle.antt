-- ===== src/Obsess/Settle.antt =====
-- internal/obsess/controller.go: faults, and what a target's settled probes say in the order in which
-- they were sent.
use flameping.Prelude.{
  ℕ, ◌-◌, List, [], ◌∷◌, ◌++◌, Bool, true, false, ltb, leb, ◌==◌, if◌then◌else◌, Option, none, some,
  not, ◌&&◌,
}
use flameping.Obsess.{
  Floats, Policy, Sample, Probe, ProbeEvent, TargetState, Transition, Controller, Reason, unset,
  latency, recovered, find, store,
}
use flameping.Obsess.Samples.{limit, interrupt_target, interrupt, add_sample}

module _ {F : Type 0} where
  -- `changed`: the caller is told the probe interval, and the transition is built.
  unfoldable pub changed :
      Policy
      → Reason
      → ℕ
      → Option ProbeEvent
      → TargetState F
      → Controller F
      → Controller F × List (Transition F)
  changed policy reason at trigger t c =
      let transition : Transition F = record {
        target_id = t.id;
        active = t.active;
        endpoint = elim trigger [ none ↦ t.endpoint | some e ↦ e.endpoint ];
        reason = reason;
        at = at;
        trigger = trigger;
      } in
      (
        record c { changes = (t.id, if t.active then policy.interval else t.interval) ∷ c.changes },
        transition ∷ [],
      )

  -- The check of send continuity: more than twice the fast cadence since the last healthy probe.
  unfoldable pub discontinuous : Policy → ℕ → TargetState F → Bool
  discontinuous policy sent_at t = elim t.healthy_through [
    | none ↦ false
    | some through ↦
        let gap = sent_at - through in
        ltb policy.interval gap && ltb policy.interval (gap - policy.interval)
  ]

  -- The healthy span reaches the probe.
  unfoldable pub extended : ℕ → TargetState F → TargetState F
  extended sent_at t = record t {
    healthy_since = elim t.healthy_since [ none ↦ some sent_at | some since ↦ some since ];
    healthy_through = some sent_at;
  }

  unfoldable pub mark_healthy : Policy → ℕ → ℕ → TargetState F → Controller F → Controller F
  mark_healthy policy id sent_at t c =
      let c' = if discontinuous policy sent_at t then interrupt id sent_at c else c in
      elim (find id c'.targets) [ none ↦ c' | some t' ↦ store (extended sent_at t') c' ]

  -- `healthyThrough.Sub(healthySince)`; both are zero after an interruption.
  unfoldable pub healthy_span : TargetState F → ℕ
  healthy_span t = elim t.healthy_through [
    | none ↦ 0
    | some through ↦ elim t.healthy_since [ none ↦ 0 | some since ↦ through - since ]
  ]

  unfoldable pub calmed : TargetState F → TargetState F
  calmed t = record t {
    active = false;
    tracking_limited = false;
    reason = unset;
    since = none;
    healthy_since = none;
    healthy_through = none;
  }

  -- The end of an incident, where the healthy span is long enough.
  unfoldable pub recover : Policy → ℕ → ℕ → Controller F → Controller F × List (Transition F)
  recover policy id now c = elim (find id c.targets) [
    | none ↦ (c, [])
    | some t ↦
        if leb policy.recover_after (healthy_span t)
        then changed policy recovered now none (calmed t) (store (calmed t) c)
        else (c, [])
  ]

  abbrev pub sample_of : Probe F → Sample F
  sample_of p = record { sent_at = p.event.sent_at; rtt = p.rtt }

  -- `next.event.ReplyAt`; a probe that is good has one.
  abbrev pub replied_at : Probe F → ℕ
  replied_at p = elim p.event.reply_at [ none ↦ 0 | some at ↦ at ]

  unfoldable pub drop_head : ℕ → List (Probe F) → Controller F → Controller F
  drop_head id ps c = elim (find id c.targets) [
    | none ↦ c
    | some t ↦ store (record t { fifo = ps }) (record c { tracked = c.tracked - 1 })
  ]

  -- The probe behind the pointer is written.
  unfoldable pub update_probe : ℕ → (Probe F → Probe F) → List (Probe F) → List (Probe F)
  update_probe ref f [] = []
  update_probe ref f (p ∷ ps) = if ref == p.ref then f p ∷ ps else p ∷ update_probe ref f ps

  abbrev pub settled : Bool → F → Probe F → Probe F
  settled good rtt p = record p {
    done = true;
    good = good;
    rtt = rtt;
    early = none;
    on_heap = false;
  }

  unfoldable pub write_probe : ℕ → ℕ → (Probe F → Probe F) → Controller F → Controller F
  write_probe id ref f c = elim (find id c.targets) [
    | none ↦ c
    | some t ↦ store (record t { fifo = update_probe ref f t.fifo }) c
  ]

  -- The FIFO of the target under the id.
  unfoldable pub fifo_of : ℕ → List (TargetState F) → List (Probe F)
  fifo_of id ts = elim (find id ts) [ none ↦ [] | some t ↦ t.fifo ]

module _ {F : Type 0} (floats : Floats F) where
  -- What opens an incident: the probe's baseline is frozen, and the threshold with it.
  unfoldable pub opened : Policy → Probe F → Reason → ℕ → TargetState F → TargetState F
  opened policy p reason at t = record t {
    active = true;
    reason = reason;
    since = some at;
    baseline = p.baseline;
    baseline_count = p.baseline_count;
    threshold = limit floats policy t p.baseline p.baseline_count;
  }

  -- `fault`, for the target found under the id.
  unfoldable pub fault_target :
      Policy
      → Probe F
      → Reason
      → ℕ
      → TargetState F
      → Controller F
      → Controller F × List (Transition F)
  fault_target policy p reason at t c =
      let t' = opened policy p reason at t in
      if t.active
      then (interrupt_target at t c, [])
      else changed policy reason at (some p.event) t' (interrupt_target at t' c)

  unfoldable pub fault :
      Policy → ℕ → Probe F → Reason → ℕ → Controller F → Controller F × List (Transition F)
  fault policy id p reason at c = elim (find id c.targets) [
    | none ↦ (c, [])
    | some t ↦ fault_target policy p reason at t c
  ]

  unfoldable pub exceeds : Option F → F → Bool
  exceeds none rtt = false
  exceeds (some threshold) rtt = floats.above rtt threshold

  -- A good probe of a target with an incident.
  unfoldable pub judge_active :
      Policy → ℕ → ℕ → Probe F → TargetState F → Controller F → Controller F × List (Transition F)
  judge_active policy id now p t c =
      if exceeds t.threshold p.rtt
      then fault policy id p latency (replied_at p) c
      else if ltb p.event.sent_at t.last_bad
      then (c, [])
      else recover policy id now
          (add_sample policy id now (sample_of p) (mark_healthy policy id p.event.sent_at t c))

  -- The body of the loop of `finish`, after the probe has left the FIFO.
  unfoldable pub judge :
      Policy → ℕ → ℕ → Probe F → Controller F → Controller F × List (Transition F)
  judge policy id now p c = elim (find id c.targets) [
    | none ↦ (c, [])
    | some t ↦
        if not p.good
        then (c, [])
        else if t.active
        then judge_active policy id now p t c
        else (add_sample policy id now (sample_of p) c, [])
  ]

  -- The loop of `finish`: the probes at the head of the FIFO that are done.
  unfoldable pub settle :
      Policy → ℕ → ℕ → List (Probe F) → Controller F → Controller F × List (Transition F)
  settle policy id now [] c = (c, [])
  settle policy id now (p ∷ ps) c =
      let (c', changes) = judge policy id now p (drop_head id ps c) in
      let (c'', more) = settle policy id now ps c' in
      if p.done then (c'', changes ++ more) else (c, [])

  -- `finish`; the caller passes the probe that it holds, as it is in the FIFO.
  unfoldable pub finish :
      Policy → ℕ → ℕ → Probe F → Bool → F → Controller F → Controller F × List (Transition F)
  finish policy id now p good rtt c =
      let c' = write_probe id p.ref (settled good rtt) c in
      settle policy id now (fifo_of id c'.targets)
        (record c' { wake = if p.on_heap then true else c'.wake })
