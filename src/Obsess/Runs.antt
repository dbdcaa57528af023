-- ===== src/Obsess/Runs.antt =====
-- internal/obsess/controller.go: the counters after any sequence of calls on what `New` returns.
use flameping.Prelude.{
  ℕ, ◌≡◌, refl, List, [], ◌∷◌, ◌++◌, leb, ◌==◌, if◌then◌else◌, none, some, total, total-append,
  arith, if_cases, option_cases, Bool-cases, Option-cases, inl, inr, subst, sym, ◌∙◌,
}
use flameping.Obsess.{Floats, Net, Probe, TargetState, Controller, find, deadline}
use flameping.Obsess.Store.{IsDistinct}
use flameping.Obsess.Books.{IsCounted, probes_of, samples_of}
use flameping.Obsess.Calls.{
  CountedAfter, observe_gap-IsCounted, begin_probe-IsCounted, complete_probe-IsCounted,
  observe_reply-IsCounted, update_endpoint-IsCounted, expire_one-IsCounted, snapshot-IsCounted,
}
use flameping.Obsess.Requests.{
  NewTarget, Request, begin, complete, observe, gap, relocate, look, tick, state_of, new_from, new,
  soonest, expire_due, answer, run,
}

module _ {F : Type 0} where
  module _ (floats : Floats F) (net : Net) where
    expire_due-IsCounted :
        (now : ℕ) (c : Controller F) → IsCounted c → CountedAfter (expire_due floats net now c)
    unfolding expire_due
    expire_due-IsCounted now c h =
        option_cases CountedAfter (soonest c.targets) _ _ (λ idle. h)
          (λ (top : TargetState F × Probe F) e.
            option_cases CountedAfter top.0.policy _ _ (λ plain. h)
              (λ policy set_up.
                if_cases CountedAfter (leb (deadline top.1.event) now) _ _
                  (λ due. expire_one-IsCounted floats policy top.0.id now top.1 c h) (λ early. h)))

    answer-IsCounted :
        (r : Request) (now : ℕ) (c : Controller F)
        → IsCounted c
        → CountedAfter (answer floats net r now c)
    unfolding answer
    answer-IsCounted (begin event) now c h = begin_probe-IsCounted floats net event now c h
    answer-IsCounted (complete key success) now c h =
        complete_probe-IsCounted floats key success now c h
    answer-IsCounted (observe event) now c h = observe_reply-IsCounted floats net event now c h
    answer-IsCounted (gap id missed) now c h = observe_gap-IsCounted id missed now c h
    answer-IsCounted (relocate id endpoint) now c h =
        update_endpoint-IsCounted floats id endpoint now c h
    answer-IsCounted (look id) now c h = snapshot-IsCounted id now c h
    answer-IsCounted tick now c h = expire_due-IsCounted now c h

    run-IsCounted :
        (rs : List (Request × ℕ)) (c : Controller F)
        → IsCounted c
        → CountedAfter (run floats net rs c)
    unfolding run
    run-IsCounted [] c h = h
    run-IsCounted ((request, now) ∷ rest) c h =
        run-IsCounted rest (answer floats net request now c).0 (answer-IsCounted request now c h)

  find-snoc :
      (id : ℕ) (ts : List (TargetState F)) (t : TargetState F)
      → find id ts ≡ none
      → find id (ts ++ t ∷ []) ≡ (if id == t.id then some t else none)
  unfolding find
  find-snoc id [] t h = refl
  find-snoc id (u ∷ ts) t h = elim (Bool-cases (id == u.id)) [
    | inl e ↦ ground (arith, e, h)
    | inr e ↦ ground (arith, e, h, find-snoc id ts t)
  ]

  snoc-IsDistinct :
      (ts : List (TargetState F)) (t : TargetState F)
      → find t.id ts ≡ none
      → IsDistinct ts
      → IsDistinct (ts ++ t ∷ [])
  unfolding find IsDistinct
  snoc-IsDistinct [] t h d = (refl, tt)
  snoc-IsDistinct (u ∷ ts) t h (fresh, d) = elim (Bool-cases (t.id == u.id)) [
    | inl e ↦ ground (arith, e, h)
    | inr e ↦ (
      ground (arith, e, find-snoc u.id ts t fresh),
      snoc-IsDistinct ts t (ground (arith, e, h)) d,
    )
  ]

  -- Targets that are distinct, with no probe and no sample.
  abbrev IsBlank : List (TargetState F) → Type 0
  IsBlank ts = IsDistinct ts × (total probes_of ts ≡ 0) × (total samples_of ts ≡ 0)

  module _ (floats : Floats F) where
    state_of-blank :
        (t : NewTarget F) (state : TargetState F)
        → state_of floats t ≡ some state
        → (state.id ≡ t.id) × (state.fifo ≡ []) × (state.history ≡ [])
    unfolding state_of
    state_of-blank t state h = ground (arith, h)

    new_from-IsBlank :
        (made : List (TargetState F)) (ts : List (NewTarget F)) (targets : List (TargetState F))
        → IsBlank made
        → new_from floats made ts ≡ some targets
        → IsBlank targets
    unfolding new_from
    new_from-IsBlank made [] targets h e = subst IsBlank (ground (arith, e)) h
    new_from-IsBlank made (t ∷ ts) targets (distinct, no_probes, no_samples) e =
        elim (Option-cases (find t.id made)) [
          | inr (u, known) ↦ ground (arith, known, e)
          | inl absent ↦ elim (Option-cases (state_of floats t)) [
            | inl refused ↦ ground (arith, absent, refused, e)
            | inr (state, taken) ↦
                let (own, no_fifo, no_history) = state_of-blank t state taken in
                new_from-IsBlank (made ++ state ∷ []) ts targets
                  (
                    snoc-IsDistinct made state (ground (arith, own, absent)) distinct,
                    total-append probes_of made (state ∷ []) ∙ ground (arith, no_probes, no_fifo),
                    total-append samples_of made (state ∷ [])
                        ∙ ground (arith, no_samples, no_history),
                  )
                  (ground (arith, absent, taken, e))
          ]
        ]

    new-IsCounted :
        (ts : List (NewTarget F)) (c : Controller F) → new floats ts ≡ some c → IsCounted c
    unfolding new IsDistinct
    new-IsCounted ts c h = elim (Option-cases (new_from floats [] ts)) [
      | inl refused ↦ ground (arith, refused, h)
      | inr (targets, made) ↦
          let (distinct, no_probes, no_samples) =
            new_from-IsBlank [] ts targets (tt, refl, refl) made in
          let same : targets ≡ c.targets = ground (arith, made, h) in
          let tracked : c.tracked ≡ 0 = ground (arith, made, h) in
          let samples : c.samples ≡ 0 = ground (arith, made, h) in
          record {
            distinct = subst IsDistinct same distinct;
            tracks = tracked ∙ sym (subst (λ us. total probes_of us ≡ 0) same no_probes);
            holds = samples ∙ sym (subst (λ us. total samples_of us ≡ 0) same no_samples);
            fits = omega (arith, tracked, samples);
          }
    ]

    -- From a controller that New returned, after any sequence of calls and of rounds of expire, with any
    -- arguments and times: no two targets have one id, `tracked` is the number of probes in the FIFOs,
    -- `samples` the number of samples in the histories, and together they are at most 100000.
    pub run-new-IsCounted :
        (net : Net) (ts : List (NewTarget F)) (c : Controller F) (rs : List (Request × ℕ))
        → new floats ts ≡ some c
        → IsCounted (run floats net rs c).0
    run-new-IsCounted net ts c rs h = run-IsCounted floats net rs c (new-IsCounted ts c h)
