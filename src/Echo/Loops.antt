-- ===== src/Echo/Loops.antt =====
-- internal/echo/engine.go: `TrySubmit`, `UpdateEndpoint`, `RecordGap`, `DrainInputs`, the send loops, the
-- loop over the gaps and the failure of a family. `Input` orders the steps of all goroutines; a loop that
-- has stopped may go on here, so a run of the engine is one of these, and a blocked call takes its step
-- when it can.
use flameping.Prelude.{
  ℕ, ◌+◌, ◌-◌, ◌^◌, Bool, true, false, not, ◌||◌, ◌==◌, ltb, if◌then◌else◌, List, [], ◌∷◌, ◌++◌,
  Option, none, some, length,
}
use flameping.Prelude.Int.{pos}
use flameping.Scheduler.{Job, Gap}
use flameping.Echo.{
  EchoTarget, Setup, Line, Engine, SentProbe, Act, accepted, refused, reserved, cancelled, stopped,
  gap_stopped, moved, gap_observed, gap_published, gap_recorded, gap_passed, begun, written,
  completed, published,
}
use flameping.Echo.Payload.{encode_payload}

-- `current[id]`, and a write to it.
unfoldable pub endpoint_of : ℕ → List (ℕ × ℕ) → Option ℕ
endpoint_of id [] = none
endpoint_of id ((k, endpoint) ∷ m) = if id == k then some endpoint else endpoint_of id m

-- The target with its current endpoint, where it has one.
abbrev pub located : List (ℕ × ℕ) → EchoTarget → EchoTarget
located current t = elim (endpoint_of t.id current) [
  | none ↦ t
  | some endpoint ↦ record t { endpoint = endpoint }
]

abbrev pub line : Bool → Engine → Line
line true e = e.v4
line false e = e.v6

abbrev pub with_line : Bool → Line → Engine → Engine
with_line true l e = record e { v4 = l }
with_line false l e = record e { v6 = l }

-- What happens around one send: whether the bus grants a place, the time and the offset, whether the
-- socket takes the packet, and whether the bus takes the event.
pub record Luck : Type 0 where
  pub reserves : Bool
  pub sent_at : ℕ
  pub offset : ℕ
  pub writes : Bool
  pub publishes : Bool

pub data Input : Type 0 where
  submit : Job (Option EchoTarget) → Input
  move : ℕ → ℕ → Input
  send : Bool → Luck → Input
  note : Gap → Input
  pass : Bool → Input
  drain : Input
  fail : Bool → Input
  finish : Input

module _ (setup : Setup) where
  -- The non-blocking send at the end of `TrySubmit`, on the queue of the target's family.
  unfoldable pub enqueue : Job (Option EchoTarget) → EchoTarget → Engine → Engine × List Act
  enqueue job t e =
      let family = setup.is_4 t.endpoint in
      let l = line family e in
      let job' = record job { target = record (job.target) { value = some t } } in
      if not l.is_open || (l.failed || not (ltb (length l.jobs) setup.send_queue))
      then (e, refused job ∷ [])
      else (with_line family (record l { jobs = l.jobs ++ job' ∷ [] }) e, accepted job' ∷ [])

  -- `TrySubmit`.
  unfoldable pub try_submit : Job (Option EchoTarget) → Engine → Engine × List Act
  try_submit job e =
      if e.inputs_closed || e.done then (e, refused job ∷ []) else elim job.target.value [
        | none ↦ (e, refused job ∷ [])
        | some target ↦
            let t = located e.current target in
            if not (setup.is_valid t.endpoint) then (e, refused job ∷ []) else enqueue job t e
      ]

  -- `publishUnsentGap`.
  unfoldable pub unsent_gap : Luck → Job (Option EchoTarget) → List Act
  unsent_gap luck job =
      let gap : Gap = record {
        target_id = job.target.id;
        first_scheduled = job.scheduled_at;
        interval = job.target.interval;
        missed_count = 1;
      } in
      (if setup.watched then gap_observed gap ∷ [] else [])
      ++ (if luck.publishes
          then gap_published gap ∷ []
          else stopped job.target.id job.scheduled_at ∷ [])

  -- From `BeginProbe` on.
  unfoldable pub write_probe : Bool → Luck → SentProbe → List Act
  write_probe family luck p =
      (if setup.watched then begun p ∷ [] else [])
      ++ (written family p.endpoint p.sequence ∷ [])
      ++ (if setup.watched then completed p.sequence luck.writes ∷ [] else [])
      ++ (if luck.publishes
          then published p luck.writes ∷ []
          else stopped p.target_id p.scheduled_at ∷ [])

  -- The endpoint after the wait for a place: that of the job, a new one of the same family, or none.
  unfoldable pub endpoint_for : List (ℕ × ℕ) → EchoTarget → Option ℕ
  endpoint_for current t = elim (endpoint_of t.id current) [
    | none ↦ some t.endpoint
    | some endpoint ↦
        let same : Bool = elim (setup.is_4 endpoint) [
          | true ↦ setup.is_4 t.endpoint
          | false ↦ not (setup.is_4 t.endpoint)
        ] in
        if not (setup.is_valid endpoint) || not same then none else some endpoint
  ]

  -- After a place is granted; `sequence` is the new one.
  unfoldable pub send_reserved :
      Bool → List (ℕ × ℕ) → ℕ → Luck → Job (Option EchoTarget) → EchoTarget → List Act
  send_reserved family current sequence luck job t =
      if ltb (2 ^ 63 - 1) sequence
      then cancelled ∷ stopped job.target.id job.scheduled_at ∷ []
      else elim (encode_payload setup.mac
          (record {
            run_id = setup.run_id;
            sequence = sequence;
            send_offset = pos luck.offset;
            timeout = pos t.timeout;
          })
          setup.secret) [
            | none ↦ cancelled ∷ stopped job.target.id job.scheduled_at ∷ []
            | some payload ↦ elim (endpoint_for current t) [
              | none ↦ cancelled ∷ unsent_gap luck job
              | some endpoint ↦ write_probe family luck (record {
                sequence = sequence;
                target_id = t.id;
                endpoint = endpoint;
                scheduled_at = job.scheduled_at;
                sent_at = luck.sent_at;
                timeout = t.timeout;
              })
            ]
          ]

  -- One round of `sendLoop`; a job in the queue has a target. It is one step: a change of an endpoint
  -- comes before the round or after it, not between the taking of the job and the reading of the
  -- endpoint.
  unfoldable pub send_job :
      Bool → Luck → Bool → Job (Option EchoTarget) → Engine → Engine × List Act
  send_job family luck failed job e =
      if failed
      then (e, unsent_gap luck job)
      else if not luck.reserves
      then (e, stopped job.target.id job.scheduled_at ∷ [])
      else elim job.target.value [
        | none ↦ (e, stopped job.target.id job.scheduled_at ∷ [])
        | some t ↦
            let sequence = (e.sequence + 1) in
            (
              record e { sequence = sequence },
              reserved ∷ send_reserved family e.current sequence luck job t,
            )
      ]

  -- A send loop takes the first job of its queue.
  unfoldable pub send_first : Luck → Bool → Engine → Engine × List Act
  send_first luck family e =
      let l = line family e in
      elim l.jobs [
        | [] ↦ (e, [])
        | job ∷ jobs ↦
            send_job family luck l.failed job (with_line family (record l { jobs = jobs }) e)
      ]

  -- `RecordGap`, where the queue of gaps has room.
  unfoldable pub record_gap : Gap → Engine → Engine × List Act
  record_gap gap e =
      if e.inputs_closed || e.done
      then (e, [])
      else (record e { gaps = e.gaps ++ gap ∷ [] }, gap_recorded gap ∷ [])

  -- One round of the loop over the gaps.
  unfoldable pub pass_gap : Bool → Engine → Engine × List Act
  pass_gap publishes e = elim e.gaps [
    | [] ↦ (e, [])
    | gap ∷ gaps ↦
        (record e { gaps = gaps }, if publishes then gap_passed gap ∷ [] else gap_stopped gap ∷ [])
  ]

  unfoldable pub act : Input → Engine → Engine × List Act
  act (submit job) e = try_submit job e
  act (move id endpoint) e = (
    record e { current = (id, endpoint) ∷ e.current },
    if setup.watched then moved id endpoint ∷ [] else [],
  )
  act (send family luck) e = send_first luck family e
  act (note gap) e = record_gap gap e
  act (pass publishes) e = pass_gap publishes e
  act drain e = (record e { inputs_closed = true }, [])
  act (fail family) e = (with_line family (record (line family e) { failed = true }) e, [])
  act finish e = (record e { done = true }, [])

  -- A run, with its log.
  unfoldable pub run : List Input → Engine → Engine × List Act
  run [] e = (e, [])
  run (i ∷ is) e = let (e', log) = act i e in let (e'', more) = run is e' in (e'', log ++ more)
