-- ===== src/Obsess/Reports.antt =====
-- internal/obsess/controller.go: the transitions that settling a probe reports.
use flameping.Prelude.{
  ℕ, List, [], ◌∷◌, ◌++◌, Bool, true, false, ltb, leb, ◌==◌, ◌||◌, some, not, arith, ◌≡◌, ◌∙◌, refl,
  sym, if_cases, option_cases, subst,
}
use flameping.Prelude.Int.{pos_part}
use flameping.Obsess.{
  Floats, Net, Policy, Reason, loss, latency, ProbeEvent, Probe, TargetState, Transition,
  Controller, find, put, deadline,
}
use flameping.Obsess.Samples.{interrupt_target, add_sample, clear_history}
use flameping.Obsess.Settle.{
  changed, healthy_span, calmed, recover, sample_of, replied_at, drop_head, write_probe, opened,
  fault_target, fault, exceeds, judge_active, judge, settle, settled, finish,
}
use flameping.Obsess.Api.{
  find_probe, answered, reply_time, limit_for, reply, accept, arm, complete, complete_own,
  complete_probe, keep_early, is_negative, observe_own, observe_reply, expire_one,
}
use flameping.Obsess.Store.{IsDistinct, find_id, find-put, put-IsDistinct}
use flameping.Obsess.Transitions.{
  active_of, Toggles, Toggles-append, active_of-some, Holds, interrupt_target-Holds,
  interrupt-Holds, add_sample-Holds, mark_healthy-Holds, drop_head-Holds, write_probe-Holds,
}

module _ {F : Type 0} (id : ℕ) where
  -- What a call leaves and reports: the transitions lead from the state before to the state after.
  abbrev pub Reports : Bool → Controller F × List (Transition F) → Type 0
  Reports a (c, changes) = Toggles id a changes (active_of id c.targets) × IsDistinct c.targets

  -- A call that goes on after another one.
  chain :
      (a : Bool) (r : Controller F × List (Transition F))
      (go_on : Controller F → Controller F × List (Transition F))
      → Reports a r
      → ((b : Bool) → Holds id b r.0 → Reports b (go_on r.0))
      → Reports a ((go_on r.0).0, r.1 ++ (go_on r.0).1)
  chain a (c, xs) go_on (toggles, distinct) next =
      let (more, distinct') = next (active_of id c.targets) (refl, distinct) in
      (Toggles-append id a (active_of id c.targets) _ xs (go_on c).1 toggles more, distinct')

  -- A target's write that turns it over.
  turned :
      (a : Bool) (c : Controller F) (old t : TargetState F)
      → Holds id a c
      → find id c.targets ≡ some old
      → t.id ≡ id
      → active_of id (put t c.targets) ≡ t.active
  turned a c old t h found own = active_of-some id (put t c.targets) t (
      subst (λ k. find k (put t c.targets) ≡ some t) own
        (find-put c.targets old t (subst (λ k. find k c.targets ≡ some old) (sym own) found)))

  quiet : (a : Bool) (c : Controller F) → Holds id a c → Reports a (c, [])
  unfolding Toggles
  quiet a c (state, distinct) = (sym state, distinct)

  module _ (policy : Policy) (a : Bool) where
    recover-Reports :
        (now : ℕ) (c : Controller F) → Holds id a c → a ≡ true → Reports a (recover policy id now c)
    unfolding recover changed calmed Toggles
    recover-Reports now c h on =
        option_cases (Reports a) (find id c.targets) _ _ (λ unknown. quiet a c h)
          (λ t e.
            if_cases (Reports a) (leb policy.recover_after (healthy_span t)) _ _
              (λ long. (
                (
                  find_id id c.targets t e,
                  ground (arith, on),
                  sym (turned a c t (calmed t) h e (find_id id c.targets t e)),
                ),
                put-IsDistinct c.targets (calmed t) h.1,
              ))
              (λ short. quiet a c h))

    module _ (floats : Floats F) where
      fault-Reports :
          (p : Probe F) (reason : Reason) (at : ℕ) (c : Controller F)
          → Holds id a c
          → Reports a (fault floats policy id p reason at c)
      unfolding fault fault_target changed opened interrupt_target clear_history Toggles
      fault-Reports p reason at c h =
          option_cases (Reports a) (find id c.targets) _ _ (λ unknown. quiet a c h)
            (λ t e.
              let own = find_id id c.targets t e in
              if_cases (Reports a) t.active _ _
                (λ on.
                  quiet a (interrupt_target at t c) (interrupt_target-Holds id a id at c t h e))
                (λ off. (
                  (
                    own,
                    ground (arith, off, h.0, active_of-some id c.targets t e),
                    sym (turned a c t _ h e own),
                  ),
                  put-IsDistinct c.targets _ h.1,
                )))

      judge_active-Reports :
          (now : ℕ) (p : Probe F) (t : TargetState F) (c : Controller F)
          → Holds id a c
          → a ≡ true
          → Reports a (judge_active floats policy id now p t c)
      unfolding judge_active
      judge_active-Reports now p t c h on =
          if_cases (Reports a) (exceeds floats t.threshold p.rtt) _ _
            (λ slow. fault-Reports p latency (replied_at p) c h)
            (λ quick.
              if_cases (Reports a) (ltb p.event.sent_at t.last_bad) _ _ (λ before. quiet a c h)
                (λ after.
                  recover-Reports now _
                    (add_sample-Holds id a policy id now (sample_of p) _
                      (mark_healthy-Holds id a policy id p.event.sent_at t c h))
                    on))

      judge-Reports :
          (now : ℕ) (p : Probe F) (c : Controller F)
          → Holds id a c
          → Reports a (judge floats policy id now p c)
      unfolding judge
      judge-Reports now p c h =
          option_cases (Reports a) (find id c.targets) _ _ (λ unknown. quiet a c h)
            (λ t e.
              if_cases (Reports a) (not p.good) _ _ (λ bad. quiet a c h)
                (λ good.
                  if_cases (Reports a) t.active _ _
                    (λ on.
                      judge_active-Reports now p t c h
                        (sym h.0 ∙ active_of-some id c.targets t e ∙ on))
                    (λ off.
                      quiet a (add_sample policy id now (sample_of p) c)
                        (add_sample-Holds id a policy id now (sample_of p) c h))))

module _ {F : Type 0} (floats : Floats F) (policy : Policy) (id now : ℕ) where
  settle-Reports :
      (a : Bool) (ps : List (Probe F)) (c : Controller F)
      → Holds id a c
      → Reports id a (settle floats policy id now ps c)
  unfolding settle
  settle-Reports a [] c h = quiet id a c h
  settle-Reports a (p ∷ ps) c h =
      if_cases (Reports id a) p.done _ _
        (λ over.
          chain id a (judge floats policy id now p (drop_head id ps c))
            (settle floats policy id now ps)
            (judge-Reports id policy a floats now p _ (drop_head-Holds id a id ps c h))
            (λ b h'. settle-Reports b ps _ h'))
        (λ waits. quiet id a c h)

  finish-Reports :
      (a : Bool) (p : Probe F) (good : Bool) (rtt : F) (c : Controller F)
      → Holds id a c
      → Reports id a (finish floats policy id now p good rtt c)
  unfolding finish
  finish-Reports a p good rtt c h =
      settle-Reports a _ _ (write_probe-Holds id a id p.ref (settled good rtt) c h)

  -- A round of `expire`.
  pub expire_one-Reports :
      (p : Probe F) (c : Controller F)
      → IsDistinct c.targets
      → Reports id (active_of id c.targets) (expire_one floats policy id now p c)
  unfolding expire_one
  expire_one-Reports p c distinct =
      chain id _ (fault floats policy id p loss (deadline p.event) c)
        (finish floats policy id now p false (floats.of_nat 0))
        (fault-Reports id policy _ floats p loss (deadline p.event) c (refl, distinct))
        (λ b h. finish-Reports b p false _ _ h)

module _ {F : Type 0} (floats : Floats F) where
  reply-Reports :
      (policy : Policy) (t : TargetState F) (p : Probe F) (event : ProbeEvent) (now : ℕ)
      (c : Controller F) (a : Bool)
      → Holds t.id a c
      → Reports t.id a (reply floats policy t p event now c)
  unfolding reply
  reply-Reports policy t p event now c a h =
      let written = write_probe-Holds t.id a t.id p.ref (answered event now) c h in
      let p' = answered event now p in
      let c' = write_probe t.id p.ref (answered event now) c in
      if_cases (Reports t.id a) (event.late || ltb p.event.timeout (pos_part event.rtt)) _ _
        (λ late.
          chain t.id a (fault floats policy t.id p' loss (deadline p'.event) c')
            (finish floats policy t.id now p' false (floats.of_nat (pos_part event.rtt)))
            (fault-Reports t.id policy a floats p' loss (deadline p'.event) _ written)
            (λ b h'. finish-Reports floats policy t.id now b p' false _ _ h'))
        (λ timely.
          if_cases (Reports t.id a)
            (exceeds floats (limit_for t p) (floats.of_nat (pos_part event.rtt))) _ _
            (λ slow.
              chain t.id a (fault floats policy t.id p' latency (reply_time event now) c')
                (finish floats policy t.id now p' false (floats.of_nat (pos_part event.rtt)))
                (fault-Reports t.id policy a floats p' latency (reply_time event now) _ written)
                (λ b h'. finish-Reports floats policy t.id now b p' false _ _ h'))
            (λ quick. finish-Reports floats policy t.id now a p' true _ _ written))

  observe_own-Reports :
      (net : Net) (event : ProbeEvent) (now : ℕ) (t : TargetState F) (p : Probe F)
      (c : Controller F) (a : Bool)
      → Holds t.id a c
      → Reports t.id a (observe_own floats net event now t p c)
  unfolding observe_own
  observe_own-Reports net event now t p c a h =
      option_cases (Reports t.id a) t.policy _ _ (λ plain. quiet t.id a c h)
        (λ policy set_up.
          if_cases (Reports t.id a)
            (not (net.plain p.event.endpoint == net.plain event.responder) || is_negative event.rtt)
            _ _ (λ foreign. quiet t.id a c h)
            (λ own.
              if_cases (Reports t.id a) p.accepted _ _
                (λ armed. reply-Reports policy t p event now c a h)
                (λ early.
                  quiet t.id a (write_probe t.id p.ref (keep_early event) c)
                    (write_probe-Holds t.id a t.id p.ref (keep_early event) c h))))

  -- ObserveReply, for a reply whose probe is known and where no two targets have one id: every
  -- transition that it reports is the target's and takes it from normal to active or back, starting
  -- from the state before the call and ending in the state after it; the targets stay distinct.
  pub observe_reply-Reports :
      (net : Net) (event : ProbeEvent) (now : ℕ) (c : Controller F) (t : TargetState F)
      (p : Probe F)
      → IsDistinct c.targets
      → find_probe event.key c.targets ≡ some (t, p)
      → Reports t.id (active_of t.id c.targets) (observe_reply floats net event now c)
  unfolding observe_reply
  observe_reply-Reports net event now c t p distinct known =
      rw (known, observe_reply)
        (observe_own-Reports net event now t p c (active_of t.id c.targets) (refl, distinct))

  complete_own-Reports :
      (t : TargetState F) (p : Probe F) (success : Bool) (now : ℕ) (c : Controller F) (a : Bool)
      → Holds t.id a c
      → Reports t.id a (complete_own floats t p success now c)
  unfolding complete_own complete
  complete_own-Reports t p success now c a h =
      let written = write_probe-Holds t.id a t.id p.ref accept c h in
      option_cases (Reports t.id a) t.policy _ _ (λ plain. quiet t.id a c h)
        (λ policy set_up.
          if_cases (Reports t.id a) p.accepted _ _ (λ again. quiet t.id a c h)
            (λ first.
              if_cases (Reports t.id a) (not success) _ _
                (λ failed.
                  finish-Reports floats policy t.id now a (accept p) false _ _
                    (interrupt-Holds t.id a t.id now _ written))
                (λ sent.
                  option_cases (Reports t.id a) p.early _ _
                    (λ pending.
                      quiet t.id a (record (write_probe t.id p.ref arm c) { wake = true })
                        (write_probe-Holds t.id a t.id p.ref arm c h))
                    (λ event replied. reply-Reports policy t (accept p) event now _ a written))))

  -- CompleteProbe, for a probe that is known and where no two targets have one id: every transition
  -- that it reports is the target's and takes it from normal to active or back, starting from the
  -- state before the call and ending in the state after it; the targets stay distinct.
  pub complete_probe-Reports :
      (key : ℕ) (success : Bool) (now : ℕ) (c : Controller F) (t : TargetState F) (p : Probe F)
      → IsDistinct c.targets
      → find_probe key c.targets ≡ some (t, p)
      → Reports t.id (active_of t.id c.targets) (complete_probe floats key success now c)
  unfolding complete_probe
  complete_probe-Reports key success now c t p distinct known =
      rw (known, complete_probe)
        (complete_own-Reports t p success now c (active_of t.id c.targets) (refl, distinct))
