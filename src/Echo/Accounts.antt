-- ===== src/Echo/Accounts.antt =====
-- internal/echo/engine.go: what becomes of each job and each gap that the engine accepts.
use flameping.Prelude.{
  ℕ, ◌+◌, ◌-◌, ◌^◌, ◌≡◌, refl, Bool, true, false, not, ◌||◌, ltb, List, [], ◌∷◌, Option, none, some,
  ◌==◌, ◌&&◌, ◌++◌, ap, sym, subst, ◌∙◌, append-nil, append_assoc, All, All-append, if◌then◌else◌,
  length, total, total-append, arith, if_cases, option_cases, list_cases_known,
}
use flameping.Scheduler.{Job, Gap}
use flameping.Scheduler.Gaps.{hits}
use flameping.Echo.{
  EchoTarget, Setup, Engine, SentProbe, Act, accepted, refused, reserved, cancelled, stopped,
  gap_stopped, gap_published, gap_recorded, gap_passed, published,
}
use flameping.Echo.Payload.{encode_payload}
use flameping.Echo.Loops.{
  located, endpoint_of, line, with_line, Luck, Input, submit, move, send, note, pass, drain, fail,
  finish, enqueue, try_submit, unsent_gap, write_probe, endpoint_for, send_reserved, send_job,
  send_first, record_gap, pass_gap, act, run,
}

-- Whether a job is for the slot of the target at the time.
abbrev pub waits : ℕ → ℕ → Job (Option EchoTarget) → ℕ
waits id t job = if id == job.target.id && t == job.scheduled_at then 1 else 0

-- The jobs in the queues for the slot.
abbrev pub queued : ℕ → ℕ → Engine → ℕ
queued id t e = total (waits id t) e.v4.jobs + total (waits id t) e.v6.jobs

-- Whether a job for the slot is taken, and how often the slot is settled: the event of its probe is
-- published, or a gap that takes it in, or the send loop ends with it.
abbrev pub takes : ℕ → ℕ → Act → ℕ
takes id t (accepted job) = waits id t job
takes id t _ = 0

abbrev pub settles : ℕ → ℕ → Act → ℕ
settles id t (published p sent) = if id == p.target_id && t == p.scheduled_at then 1 else 0
settles id t (gap_published gap) =
    if id == gap.target_id then hits gap.first_scheduled gap.interval gap.missed_count t else 0
settles id t (stopped target scheduled_at) = if id == target && t == scheduled_at then 1 else 0
settles id t _ = 0

-- The gaps of the scheduler: those that are taken, and those passed on or lost as their loop ends.
abbrev pub gap_taken : Act → List Gap
gap_taken (gap_recorded gap) = gap ∷ []
gap_taken _ = []

abbrev pub gap_settled : Act → List Gap
gap_settled (gap_passed gap) = gap ∷ []
gap_settled (gap_stopped gap) = gap ∷ []
gap_settled _ = []

abbrev pub gather : (Act → List Gap) → List Act → List Gap
gather f [] = []
gather f (a ∷ log) = f a ++ gather f log

gather-append :
    (f : Act → List Gap) (xs ys : List Act) → gather f (xs ++ ys) ≡ gather f xs ++ gather f ys
gather-append f [] ys = refl
gather-append f (a ∷ xs) ys =
    ap (λ l. f a ++ l) (gather-append f xs ys)
    ∙ sym (append_assoc (f a) (gather f xs) (gather f ys))

-- The gaps of one part of a run and of the next.
follows :
    (before middle after : List Gap) (log more : List Act)
    → before ++ gather gap_taken log ≡ gather gap_settled log ++ middle
    → middle ++ gather gap_taken more ≡ gather gap_settled more ++ after
    → before ++ gather gap_taken (log ++ more) ≡ gather gap_settled (log ++ more) ++ after
follows before middle after log more first second =
    ap (λ l. before ++ l) (gather-append gap_taken log more)
    ∙ sym (append_assoc before (gather gap_taken log) (gather gap_taken more))
    ∙ ap (λ l. l ++ gather gap_taken more) first
    ∙ append_assoc (gather gap_settled log) middle (gather gap_taken more)
    ∙ ap (λ l. gather gap_settled log ++ l) second
    ∙ sym (append_assoc (gather gap_settled log) (gather gap_settled more) after)
    ∙ ap (λ l. l ++ after) (sym (gather-append gap_settled log more))

-- What a step or a run takes for a slot is what it settles of it and what it leaves in the queues, and
-- the gaps settled are those taken, in their order, up to those that are left.
abbrev pub Balances : ℕ → ℕ → Engine → Engine × List Act → Type 0
Balances id t e (e', log) =
    (queued id t e + total (takes id t) log ≡ queued id t e' + total (settles id t) log)
    × (e.gaps ++ gather gap_taken log ≡ gather gap_settled log ++ e'.gaps)

-- The value that a job carries has the id of its target.
abbrev pub HasId : ℕ → Option EchoTarget → Type 0
HasId id none = Unit
HasId id (some t) = t.id ≡ id

abbrev pub IsWhole : Job (Option EchoTarget) → Type 0
IsWhole job = HasId job.target.id job.target.value

abbrev pub AreWhole : Engine → Type 0
AreWhole e = All IsWhole e.v4.jobs × All IsWhole e.v6.jobs

abbrev pub IsProper : Input → Type 0
IsProper (submit job) = IsWhole job
IsProper _ = Unit

located_id : (current : List (ℕ × ℕ)) (t : EchoTarget) → (located current t).id ≡ t.id
located_id current t =
    option_cases (λ (u : EchoTarget). u.id ≡ t.id) (endpoint_of t.id current) t
      (λ endpoint. record t { endpoint = endpoint }) (λ e. refl) (λ endpoint e. refl)

module _ (setup : Setup) (id t : ℕ) where
  -- The calls that settle one job and no gap.
  abbrev Settles : Job (Option EchoTarget) → List Act → Type 0
  Settles job log =
      (total (takes id t) log ≡ 0)
      × (total (settles id t) log ≡ waits id t job)
      × (gather gap_taken log ≡ [])
      × (gather gap_settled log ≡ [])

  -- A place that is taken or given back settles nothing.
  reserved_first :
      (job : Job (Option EchoTarget)) (log : List Act)
      → Settles job log
      → Settles job (reserved ∷ log)
  reserved_first job log (none_taken, one, g, h) =
      (omega (arith, none_taken), omega (arith, one), g, h)

  cancelled_first :
      (job : Job (Option EchoTarget)) (log : List Act)
      → Settles job log
      → Settles job (cancelled ∷ log)
  cancelled_first job log (none_taken, one, g, h) =
      (omega (arith, none_taken), omega (arith, one), g, h)

  unsent_gap-Settles :
      (luck : Luck) (job : Job (Option EchoTarget)) → Settles job (unsent_gap setup luck job)
  unfolding unsent_gap hits
  unsent_gap-Settles luck job = ground arith

  write_probe-Settles :
      (family : Bool) (luck : Luck) (p : SentProbe) (job : Job (Option EchoTarget))
      → p.target_id ≡ job.target.id
      → p.scheduled_at ≡ job.scheduled_at
      → Settles job (write_probe setup family luck p)
  unfolding write_probe
  write_probe-Settles family luck p job same at = ground (arith, same, at)

  send_reserved-Settles :
      (family : Bool) (current : List (ℕ × ℕ)) (sequence : ℕ) (luck : Luck)
      (job : Job (Option EchoTarget)) (target : EchoTarget)
      → target.id ≡ job.target.id
      → Settles job (send_reserved setup family current sequence luck job target)
  unfolding send_reserved
  send_reserved-Settles family current sequence luck job target same =
      if_cases (Settles job) (ltb (2 ^ 63 - 1) sequence) _ _
        (λ spent. (refl, omega arith, refl, refl))
        (λ fresh.
          option_cases (Settles job) (encode_payload setup.mac _ setup.secret) _ _
            (λ unencoded. (refl, omega arith, refl, refl))
            (λ payload e.
              option_cases (Settles job) (endpoint_for setup current target) _ _
                (λ gone. cancelled_first job _ (unsent_gap-Settles luck job))
                (λ endpoint e'. write_probe-Settles family luck _ job same refl)))

  -- One round of a send loop, on a job that is already out of its queue.
  send_job-Settles :
      (family : Bool) (luck : Luck) (failed : Bool) (job : Job (Option EchoTarget)) (e : Engine)
      → IsWhole job
      → let (e', log) = send_job setup family luck failed job e in
        (e'.v4 ≡ e.v4) × (e'.v6 ≡ e.v6) × (e'.gaps ≡ e.gaps) × Settles job log
  unfolding send_job
  send_job-Settles family luck failed job e whole =
      let P : Engine × List Act → Type 0 = λ (r : Engine × List Act).
        (r.0.v4 ≡ e.v4) × (r.0.v6 ≡ e.v6) × (r.0.gaps ≡ e.gaps) × Settles job r.1 in
      if_cases P failed _ _ (λ down. (refl, refl, refl, unsent_gap-Settles luck job))
        (λ up.
          if_cases P (not luck.reserves) _ _
            (λ closed. (refl, refl, refl, (refl, omega arith, refl, refl)))
            (λ granted.
              option_cases P job.target.value _ _
                (λ other. (refl, refl, refl, (refl, omega arith, refl, refl)))
                (λ target has. (
                  refl,
                  refl,
                  refl,
                  reserved_first job _ (
                      send_reserved-Settles family e.current (e.sequence + 1) luck job target
                        (subst (HasId job.target.id) has whole)),
                ))))

  -- What a step keeps and what it settles.
  abbrev Steps : Engine → Engine × List Act → Type 0
  Steps e r = AreWhole r.0 × Balances id t e r

  send_first-Steps :
      (luck : Luck) (family : Bool) (e : Engine)
      → AreWhole e
      → Steps e (send_first setup luck family e)
  unfolding send_first
  send_first-Steps luck true e (whole4, whole6) =
      list_cases_known (Steps e) e.v4.jobs _ _
        (λ none_left. ((whole4, whole6), (omega arith, append-nil e.gaps)))
        (λ job jobs first.
          let e' : Engine = record e { v4 = record (e.v4) { jobs = jobs } } in
          let (whole, wholes) = subst (All IsWhole) first whole4 in
          let (v4, v6, gaps, s) = send_job-Settles true luck e.v4.failed job e' whole in
          (
            (rw v4 wholes, rw v6 whole6),
            (rw (v4, v6, first) (omega (arith, s.0, s.1)), rw (gaps, s.2, s.3) (append-nil e.gaps)),
          ))
  send_first-Steps luck false e (whole4, whole6) =
      list_cases_known (Steps e) e.v6.jobs _ _
        (λ none_left. ((whole4, whole6), (omega arith, append-nil e.gaps)))
        (λ job jobs first.
          let e' : Engine = record e { v6 = record (e.v6) { jobs = jobs } } in
          let (whole, wholes) = subst (All IsWhole) first whole6 in
          let (v4, v6, gaps, s) = send_job-Settles false luck e.v6.failed job e' whole in
          (
            (rw v4 whole4, rw v6 wholes),
            (rw (v4, v6, first) (omega (arith, s.0, s.1)), rw (gaps, s.2, s.3) (append-nil e.gaps)),
          ))

  -- A step that changes no queue and logs nothing of jobs or gaps.
  idle-Steps : (e : Engine) → AreWhole e → Steps e (e, [])
  idle-Steps e whole = (whole, (omega arith, append-nil e.gaps))

  abbrev with_target : Job (Option EchoTarget) → EchoTarget → Job (Option EchoTarget)
  with_target job target = record job { target = record (job.target) { value = some target } }

  -- The queue of a family, with room or without.
  enqueue_on :
      (family : Bool) (job : Job (Option EchoTarget)) (target : EchoTarget) (e : Engine)
      → target.id ≡ job.target.id
      → AreWhole e
      → let l = line family e in
        let jobs = l.jobs ++ with_target job target ∷ [] in
        Steps e (
          if not l.is_open || (l.failed || not (ltb (length l.jobs) setup.send_queue))
          then (e, refused job ∷ [])
          else (
            with_line family (record l { jobs = jobs }) e,
            accepted (with_target job target) ∷ [],
          ))
  enqueue_on true job target e same (whole4, whole6) =
      let one = with_target job target ∷ [] in
      if_cases (Steps e)
        (not e.v4.is_open || (e.v4.failed || not (ltb (length e.v4.jobs) setup.send_queue))) _ _
        (λ full. ((whole4, whole6), (omega arith, append-nil e.gaps)))
        (λ room. (
          (All-append IsWhole e.v4.jobs one whole4 (same, tt), whole6),
          (omega (arith, total-append (waits id t) e.v4.jobs one), append-nil e.gaps),
        ))
  enqueue_on false job target e same (whole4, whole6) =
      let one = with_target job target ∷ [] in
      if_cases (Steps e)
        (not e.v6.is_open || (e.v6.failed || not (ltb (length e.v6.jobs) setup.send_queue))) _ _
        (λ full. ((whole4, whole6), (omega arith, append-nil e.gaps)))
        (λ room. (
          (whole4, All-append IsWhole e.v6.jobs one whole6 (same, tt)),
          (omega (arith, total-append (waits id t) e.v6.jobs one), append-nil e.gaps),
        ))

  enqueue-Steps :
      (job : Job (Option EchoTarget)) (target : EchoTarget) (e : Engine)
      → target.id ≡ job.target.id
      → AreWhole e
      → Steps e (enqueue setup job target e)
  unfolding enqueue
  enqueue-Steps job target e same whole =
      enqueue_on (setup.is_4 target.endpoint) job target e same whole

  try_submit-Steps :
      (job : Job (Option EchoTarget)) (e : Engine)
      → IsWhole job
      → AreWhole e
      → Steps e (try_submit setup job e)
  unfolding try_submit
  try_submit-Steps job e proper whole =
      let refused_step : Steps e (e, refused job ∷ []) =
        (whole, (omega arith, append-nil e.gaps)) in
      if_cases (Steps e) (e.inputs_closed || e.done) _ _ (λ over. refused_step)
        (λ takes_more.
          option_cases (Steps e) job.target.value _ _ (λ other. refused_step)
            (λ target has.
              if_cases (Steps e) (not (setup.is_valid (located e.current target).endpoint)) _ _
                (λ invalid. refused_step)
                (λ valid.
                  enqueue-Steps job (located e.current target) e
                    (located_id e.current target ∙ subst (HasId job.target.id) has proper) whole)))

  pass_gap-Steps :
      (publishes : Bool) (e : Engine) → AreWhole e → Steps e (pass_gap setup publishes e)
  unfolding pass_gap
  pass_gap-Steps true e whole =
      list_cases_known (Steps e) e.gaps _ _ (λ none_left. idle-Steps e whole)
        (λ gap gaps first. (whole, (omega arith, rw first (append-nil (gap ∷ gaps)))))
  pass_gap-Steps false e whole =
      list_cases_known (Steps e) e.gaps _ _ (λ none_left. idle-Steps e whole)
        (λ gap gaps first. (whole, (omega arith, rw first (append-nil (gap ∷ gaps)))))

  act-Steps : (i : Input) (e : Engine) → IsProper i → AreWhole e → Steps e (act setup i e)
  unfolding act record_gap
  act-Steps (submit job) e proper whole = try_submit-Steps job e proper whole
  act-Steps (move target endpoint) e proper whole =
      if_cases
        (λ (log : List Act). Steps e (record e { current = (target, endpoint) ∷ e.current }, log))
        setup.watched _ _ (λ watched. (whole, (omega arith, append-nil e.gaps)))
        (λ unwatched. (whole, (omega arith, append-nil e.gaps)))
  act-Steps (send family luck) e proper whole = send_first-Steps luck family e whole
  act-Steps (note gap) e proper whole =
      if_cases (Steps e) (e.inputs_closed || e.done) _ _ (λ over. idle-Steps e whole)
        (λ takes_more. (whole, (omega arith, refl)))
  act-Steps (pass publishes) e proper whole = pass_gap-Steps publishes e whole
  act-Steps drain e proper whole = (whole, (omega arith, append-nil e.gaps))
  act-Steps (fail true) e proper whole = (whole, (omega arith, append-nil e.gaps))
  act-Steps (fail false) e proper whole = (whole, (omega arith, append-nil e.gaps))
  act-Steps finish e proper whole = (whole, (omega arith, append-nil e.gaps))

  -- In any run, whatever order its steps have, and for each slot of each target: the jobs for it that
  -- TrySubmit accepted, with those queued before, are exactly as many as its settlements and those still
  -- queued. It is settled by the event of its probe, by a published gap that takes in this slot of this
  -- target, or by the error that ends its send loop. The gaps that RecordGap takes are passed on or lost
  -- to the error that ends their loop, each once, whole and in their order, up to those still queued. The
  -- value of a job has the id of its target.
  pub run-Balances :
      (is : List Input) (e : Engine)
      → All IsProper is
      → AreWhole e
      → Balances id t e (run setup is e)
  unfolding run
  run-Balances [] e proper whole = (omega arith, append-nil e.gaps)
  run-Balances (i ∷ is) e (first, proper) whole =
      let (e', log) = act setup i e in
      let (e'', more) = run setup is e' in
      let (whole', (counted, gaps)) = act-Steps i e first whole in
      let (counted', gaps') = run-Balances is e' proper whole' in
      (
        omega (
          arith,
          counted,
          counted',
          total-append (takes id t) log more,
          total-append (settles id t) log more,
        ),
        follows e.gaps e'.gaps e''.gaps log more gaps gaps',
      )
