-- ===== src/Echo/Families.antt =====
-- internal/echo/engine.go: on which family's socket a probe goes out.
use flameping.Prelude.{
  ℕ, ◌+◌, ◌-◌, ◌^◌, ◌≡◌, refl, Bool, true, false, not, ◌||◌, ltb, List, [], ◌∷◌, Option, some,
  length, arith, if_cases, Bool-cases, inl, inr, option_cases, list_cases_known, All, All-append,
  subst,
}
use flameping.Scheduler.{Job}
use flameping.Echo.{EchoTarget, Setup, Engine, SentProbe, Act, written}
use flameping.Echo.Payload.{encode_payload}
use flameping.Echo.Loops.{
  located, Luck, Input, submit, move, send, note, pass, drain, fail, finish, enqueue, try_submit,
  unsent_gap, write_probe, endpoint_for, send_reserved, send_job, send_first, record_gap, pass_gap,
  act, run,
}

module _ (setup : Setup) where
  -- An address that a family's socket takes.
  abbrev pub Takes : Bool → ℕ → Type 0
  Takes family endpoint = (setup.is_4 endpoint ≡ family) × (setup.is_valid endpoint ≡ true)

  abbrev pub Fits : Bool → Job (Option EchoTarget) → Type 0
  Fits family job =
      (t : EchoTarget) × ((job.target.value ≡ some t)
        × (setup.is_4 t.endpoint ≡ family)
        × (setup.is_valid t.endpoint ≡ true))

  abbrev pub IsSorted : Engine → Type 0
  IsSorted e = All (Fits true) e.v4.jobs × All (Fits false) e.v6.jobs

  abbrev pub Writes : Act → Type 0
  Writes (written family endpoint sequence) = Takes family endpoint
  Writes _ = Unit

  abbrev pub Sorts : Engine × List Act → Type 0
  Sorts (e, log) = IsSorted e × All Writes log

  unsent_gap-Writes :
      (luck : Luck) (job : Job (Option EchoTarget)) → All Writes (unsent_gap setup luck job)
  unfolding unsent_gap
  unsent_gap-Writes luck job = ground arith

  write_probe-Writes :
      (family : Bool) (luck : Luck) (p : SentProbe)
      → Takes family p.endpoint
      → All Writes (write_probe setup family luck p)
  unfolding write_probe
  write_probe-Writes family luck p (its, valid) = ground (arith, its, valid)

  -- A new endpoint is used only if it is valid and of the family of the old one.
  endpoint_for-Takes :
      (family : Bool) (current : List (ℕ × ℕ)) (t : EchoTarget) (endpoint : ℕ)
      → Takes family t.endpoint
      → endpoint_for setup current t ≡ some endpoint
      → Takes family endpoint
  unfolding endpoint_for
  endpoint_for-Takes family current t endpoint (its, valid) h = ground (arith, its, valid, h)

  send_reserved-Writes :
      (family : Bool) (current : List (ℕ × ℕ)) (sequence : ℕ) (luck : Luck)
      (job : Job (Option EchoTarget)) (t : EchoTarget)
      → Takes family t.endpoint
      → All Writes (send_reserved setup family current sequence luck job t)
  unfolding send_reserved
  send_reserved-Writes family current sequence luck job t ok =
      if_cases (All Writes) (ltb (2 ^ 63 - 1) sequence) _ _ (λ spent. (tt, (tt, tt)))
        (λ fresh.
          option_cases (All Writes) (encode_payload setup.mac _ setup.secret) _ _
            (λ unencoded. (tt, (tt, tt)))
            (λ payload e.
              option_cases (All Writes) (endpoint_for setup current t) _ _
                (λ gone. (tt, unsent_gap-Writes luck job))
                (λ endpoint e'.
                  write_probe-Writes family luck _
                    (endpoint_for-Takes family current t endpoint ok e'))))

  send_job-Sorts :
      (family : Bool) (luck : Luck) (failed : Bool) (job : Job (Option EchoTarget)) (e : Engine)
      → Fits family job
      → IsSorted e
      → Sorts (send_job setup family luck failed job e)
  unfolding send_job
  send_job-Sorts family luck failed job e (own, (has, its, valid)) h =
      if_cases Sorts failed _ _ (λ down. (h, unsent_gap-Writes luck job))
        (λ up.
          if_cases Sorts (not luck.reserves) _ _ (λ closed. (h, (tt, tt)))
            (λ granted.
              option_cases Sorts job.target.value _ _ (λ other. (h, (tt, tt)))
                (λ t has'. (
                  h,
                  (
                    tt,
                    send_reserved-Writes family e.current (e.sequence + 1) luck job t
                        (ground (arith, has, has', its, valid)),
                  ),
                ))))

  send_first-Sorts :
      (luck : Luck) (family : Bool) (e : Engine)
      → IsSorted e
      → Sorts (send_first setup luck family e)
  unfolding send_first
  send_first-Sorts luck true e (in_4, in_6) =
      list_cases_known Sorts e.v4.jobs _ _ (λ none_left. ((in_4, in_6), tt))
        (λ job jobs first.
          let (own, rest) : All (Fits true) (job ∷ jobs) = subst (All (Fits true)) first in_4 in
          send_job-Sorts true luck e.v4.failed job (record e { v4 = record (e.v4) { jobs = jobs } })
            own (rest, in_6))
  send_first-Sorts luck false e (in_4, in_6) =
      list_cases_known Sorts e.v6.jobs _ _ (λ none_left. ((in_4, in_6), tt))
        (λ job jobs first.
          let (own, rest) : All (Fits false) (job ∷ jobs) = subst (All (Fits false)) first in_6 in
          send_job-Sorts false luck e.v6.failed job
            (record e { v6 = record (e.v6) { jobs = jobs } }) own (in_4, rest))

  enqueue-Sorts :
      (job : Job (Option EchoTarget)) (t : EchoTarget) (e : Engine)
      → setup.is_valid t.endpoint ≡ true
      → IsSorted e
      → Sorts (enqueue setup job t e)
  unfolding enqueue
  enqueue-Sorts job t e valid (in_4, in_6) =
      let job' : Job (Option EchoTarget) = record job {
        target = record (job.target) { value = some t };
      } in
      elim (Bool-cases (setup.is_4 t.endpoint)) [
        | inl e4 ↦ rw (e4) (
            if_cases Sorts
              (not e.v4.is_open || (e.v4.failed || not (ltb (length e.v4.jobs) setup.send_queue))) _
              _ (λ full. ((in_4, in_6), (tt, tt)))
              (λ room. (
                (
                  All-append (Fits true) e.v4.jobs (job' ∷ []) in_4 ((t, (refl, e4, valid)), tt),
                  in_6,
                ),
                (tt, tt),
              )))
        | inr e6 ↦ rw (e6) (
            if_cases Sorts
              (not e.v6.is_open || (e.v6.failed || not (ltb (length e.v6.jobs) setup.send_queue))) _
              _ (λ full. ((in_4, in_6), (tt, tt)))
              (λ room. (
                (
                  in_4,
                  All-append (Fits false) e.v6.jobs (job' ∷ []) in_6 ((t, (refl, e6, valid)), tt),
                ),
                (tt, tt),
              )))
      ]

  try_submit-Sorts :
      (job : Job (Option EchoTarget)) (e : Engine) → IsSorted e → Sorts (try_submit setup job e)
  unfolding try_submit
  try_submit-Sorts job e h =
      if_cases Sorts (e.inputs_closed || e.done) _ _ (λ over. (h, (tt, tt)))
        (λ takes_more.
          option_cases Sorts job.target.value _ _ (λ other. (h, (tt, tt)))
            (λ target has.
              if_cases Sorts (not (setup.is_valid (located e.current target).endpoint)) _ _
                (λ invalid. (h, (tt, tt)))
                (λ valid.
                  enqueue-Sorts job (located e.current target) e (ground (arith, valid)) h)))

  act-Sorts : (i : Input) (e : Engine) → IsSorted e → Sorts (act setup i e)
  unfolding act record_gap pass_gap
  act-Sorts (submit job) e h = try_submit-Sorts job e h
  act-Sorts (move id endpoint) e h =
      (h, if_cases (All Writes) setup.watched _ _ (λ on. (tt, tt)) (λ off. tt))
  act-Sorts (send family luck) e h = send_first-Sorts luck family e h
  act-Sorts (note gap) e h =
      if_cases Sorts (e.inputs_closed || e.done) _ _ (λ over. (h, tt)) (λ takes_more. (h, (tt, tt)))
  act-Sorts (pass publishes) e h =
      list_cases_known Sorts e.gaps _ _ (λ none_left. (h, tt))
        (λ gap gaps first.
          (h, if_cases (All Writes) publishes _ _ (λ on. (tt, tt)) (λ off. (tt, tt))))
  act-Sorts drain e h = (h, tt)
  act-Sorts (fail true) e h = (h, tt)
  act-Sorts (fail false) e h = (h, tt)
  act-Sorts finish e h = (h, tt)

  -- In any run from an engine whose queues hold valid targets of their own family, as an engine does
  -- whose queues are empty, in whatever order endpoints change and jobs are sent: every packet is written
  -- to a valid address of the family of its socket, and the queues stay sorted.
  pub run-Sorts : (is : List Input) (e : Engine) → IsSorted e → Sorts (run setup is e)
  unfolding run
  run-Sorts [] e h = (h, tt)
  run-Sorts (i ∷ is) e h =
      let (e', log) = act setup i e in
      let (sorted, writes) = act-Sorts i e h in
      let (sorted', writes') = run-Sorts is e' sorted in
      (sorted', All-append Writes log (run setup is e').1 writes writes')
