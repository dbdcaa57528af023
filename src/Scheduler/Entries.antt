-- ===== src/Scheduler/Entries.antt =====
-- internal/scheduler/scheduler.go: the heap of deadlines as a collection of entries, and the rule by
-- which a property of every entry passes through the loop of `submitDue`.
use flameping.Prelude.{
  ℕ, zero, suc, ◌+◌, ◌^◌, ◌≤◌, ◌<◌, ◌≡◌, ◌≢◌, refl, List, [], ◌∷◌, ◌++◌, map, true, false, leb, All,
  All-append, arith, Bool-cases, leb→le, sym, inl, inr,
}
use mathlib.Core.List.{Perm, perm_append_singleton}
use mathlib.Core.List.Perm
use mathlib.Core.Path.{subst}
use flameping.Scheduler.{
  Gap, Target, Entry, Call, Env, State, pop, push, serve, catch_up, submit, observe_gap,
  flush_target, submit_due_from, submit_due,
}

module _ {V : Type 0} where
  abbrev pub Others : ℕ → List (Entry V) → Type 0
  Others id = All (λ (f : Entry V). id ≢ f.target.id)

  -- No two entries are of one target.
  abbrev pub IsDistinct : List (Entry V) → Type 0
  IsDistinct [] = Unit
  IsDistinct (e ∷ es) = Others e.target.id es × IsDistinct es

  -- What holds of every entry holds of the popped one and of the rest.
  pub All-pop :
      (P : Entry V → Type 0) (e : Entry V) (es : List (Entry V))
      → P e
      → All P es
      → P (pop e es).0 × All P (pop e es).1
  unfolding pop
  All-pop P e [] h k = (h, tt)
  All-pop P e (f ∷ es) h k = elim (Bool-cases (leb e.next (pop f es).0.next)) [
    | inl first ↦ rw first (h, k)
    | inr later ↦ rw later ((All-pop P f es k.0 k.1).0, (h, (All-pop P f es k.0 k.1).1))
  ]

  pop_least_mono :
      (low low' : ℕ) (es : List (Entry V))
      → low ≤ low'
      → All (λ (f : Entry V). low' ≤ f.next) es
      → All (λ (f : Entry V). low ≤ f.next) es
  pop_least_mono low low' [] h k = tt
  pop_least_mono low low' (e ∷ es) h k = (omega arith, pop_least_mono low low' es h k.1)

  pop_first :
      (e f : Entry V) (es : List (Entry V))
      → leb e.next (pop f es).0.next ≡ true
      → (e, f ∷ es) ≡ pop e (f ∷ es)
  unfolding pop
  pop_first e f es h = rw h

  pop_later :
      (e f : Entry V) (es : List (Entry V))
      → leb e.next (pop f es).0.next ≡ false
      → ((pop f es).0, e ∷ (pop f es).1) ≡ pop e (f ∷ es)
  unfolding pop
  pop_later e f es h = rw h

  abbrev From : ℕ → List (Entry V) → Type 0
  From low = All (λ (f : Entry V). low ≤ f.next)

  -- The popped entry has the least deadline.
  pub pop_least : (e : Entry V) (es : List (Entry V)) → From (pop e es).0.next (e ∷ es)
  pop_least e [] = unfold pop in omega arith
  pop_least e (f ∷ es) = elim (Bool-cases (leb e.next (pop f es).0.next)) [
    | inl first ↦
        subst (λ (p : Entry V × List (Entry V)). From p.0.next (e ∷ f ∷ es))
          (pop_first e f es first)
          (omega arith, pop_least_mono e.next _ (f ∷ es) (ground arith) (pop_least f es))
    | inr later ↦
        subst (λ (p : Entry V × List (Entry V)). From p.0.next (e ∷ f ∷ es))
          (pop_later e f es later) (ground arith, pop_least f es)
  ]

  pop-IsDistinct :
      (e : Entry V) (es : List (Entry V))
      → IsDistinct (e ∷ es)
      → Others (pop e es).0.target.id (pop e es).1 × IsDistinct (pop e es).1
  unfolding pop
  pop-IsDistinct e [] h = (tt, tt)
  pop-IsDistinct e (f ∷ es) h = elim (Bool-cases (leb e.next (pop f es).0.next)) [
    | inl first ↦ rw first h
    | inr later ↦
        let id : ℕ = e.target.id in
        let apart : (id ≢ (pop f es).0.target.id) × Others id (pop f es).1 =
          All-pop (λ (g : Entry V). id ≢ g.target.id) f es h.0.0 h.0.1 in
        let (alone, rest) = pop-IsDistinct f es h.1 in
        rw later (((λ p. apart.0 (sym p)), alone), (apart.1, rest))
  ]

  append-IsDistinct :
      (es : List (Entry V)) (e : Entry V)
      → Others e.target.id es
      → IsDistinct es
      → IsDistinct (es ++ e ∷ [])
  append-IsDistinct [] e h k = (tt, tt)
  append-IsDistinct (f ∷ es) e h k = (
    All-append (λ (g : Entry V). f.target.id ≢ g.target.id) es (e ∷ []) k.0
        ((λ p. h.0 (sym p)), tt),
    append-IsDistinct es e h.1 k.1,
  )

  -- The targets of the entries.
  abbrev pub targets : List (Entry V) → List (Target V)
  targets = map (λ (e : Entry V). e.target)

  -- Popping takes out one entry and leaves all others.
  pub pop-Perm : (e : Entry V) (es : List (Entry V)) → Perm ((pop e es).0 ∷ (pop e es).1) (e ∷ es)
  unfolding pop
  pop-Perm e [] = Perm.refl _
  pop-Perm e (f ∷ es) = elim (Bool-cases (leb e.next (pop f es).0.next)) [
    | inl first ↦ rw first (Perm.refl _)
    | inr later ↦ rw later (Perm.trans (Perm.swap _ _ _) (Perm.cons e (pop-Perm f es)))
  ]

  -- The interval is positive, and times stay in range.
  abbrev pub IsReady : ℕ → Entry V → Type 0
  IsReady now e = (0 < e.target.interval) × (now + e.target.interval < 2 ^ 64)

module _ {V : Type 0} (env : Env V) (now : ℕ) where
  pub serve_target :
      (item : Entry V) (s : State V)
      → ((serve env now item s).0.target ≡ item.target)
        × ((serve env now item s).1.entries ≡ s.entries)
  unfolding serve catch_up submit observe_gap flush_target
  serve_target item s = ground arith

  -- One round puts an entry of the same target back.
  round_targets :
      (e : Entry V) (es : List (Entry V)) (s : State V)
      → let (item, others) = pop e es in
        Perm
          (targets (push (serve env now item (record s { entries = others }))).entries)
          (targets (e ∷ es))
  unfolding push
  round_targets e es s =
      let (item, others) = pop e es in
      let (same, kept) = serve_target item (record s { entries = others }) in
      let item' : Entry V = (serve env now item (record s { entries = others })).0 in
      let popped : Perm (item.target ∷ targets others) (targets (e ∷ es)) =
        Perm.map (λ (x : Entry V). x.target) (pop-Perm e es) in
      rw kept (
        Perm.trans (Perm.map (λ (x : Entry V). x.target) (perm_append_singleton item' others))
          (rw same popped))

  submit_due_from-targets :
      (fuel : ℕ) (s : State V) (es : List (Entry V))
      → s.entries ≡ es
      → Perm (targets (submit_due_from env fuel now s es).entries) (targets es)
  unfolding submit_due_from
  submit_due_from-targets fuel s [] e = rw e (Perm.refl _)
  submit_due_from-targets zero s (x ∷ es) e = rw e (Perm.refl _)
  submit_due_from-targets (suc fuel) s (x ∷ es) e =
      let (item, others) = pop x es in
      let s' : State V = push (serve env now item (record s { entries = others })) in
      elim (Bool-cases (leb item.next now)) [
        | inl due ↦
            rw due
              (Perm.trans (submit_due_from-targets fuel s' s'.entries refl) (round_targets x es s))
        | inr early ↦ rw (early, e) (Perm.refl _)
      ]

  -- The loop loses no target and adds none.
  pub submit_due-targets :
      (s : State V) → Perm (targets (submit_due env now s).entries) (targets s.entries)
  unfolding submit_due
  submit_due-targets s = submit_due_from-targets _ s s.entries refl

  module _ (P : List Gap → List (Call V) → Entry V → Type 0)
      (served : (item : Entry V) (s : State V)
        → IsReady now item
        → item.next ≤ now
        → P s.pending s.log item
        → let (item', s') = serve env now item s in P s'.pending s'.log item')
      (untouched : (item other : Entry V) (s : State V)
        → item.target.id ≢ other.target.id
        → P s.pending s.log other
        → let s' = (serve env now item s).1 in P s'.pending s'.log other) where
    abbrev AllKeep : List (Entry V) → State V → Type 0
    AllKeep es s = IsDistinct es × All (IsReady now) es × All (P s.pending s.log) es

    untouched-All :
        (item : Entry V) (s : State V) (es : List (Entry V))
        → Others item.target.id es
        → All (P s.pending s.log) es
        → let s' = (serve env now item s).1 in All (P s'.pending s'.log) es
    untouched-All item s [] h k = tt
    untouched-All item s (e ∷ es) h k =
        (untouched item e s h.0 k.0, untouched-All item s es h.1 k.1)

    -- One round of the loop.
    round_keeps :
        (item : Entry V) (others : List (Entry V)) (s : State V)
        → Others item.target.id others
        → IsDistinct others
        → IsReady now item
        → All (IsReady now) others
        → P s.pending s.log item
        → All (P s.pending s.log) others
        → item.next ≤ now
        → let s' = push (serve env now item (record s { entries = others })) in
          AllKeep s'.entries s'
    unfolding push
    round_keeps item others s apart distinct ready readies p ps due =
        let (same, kept) = serve_target item start in
        let item' : Entry V = (serve env now item start).0 in
        let s' : State V = (serve env now item start).1 in
        rw kept (
          append-IsDistinct others item' (rw same apart) distinct,
          All-append (IsReady now) others (item' ∷ []) readies (rw same ready, tt),
          All-append (P s'.pending s'.log) others (item' ∷ [])
              (untouched-All item start others apart ps) (served item start ready due p, tt),
        )
      where
        start : State V
        start = record s { entries = others }

    submit_due_from-AllKeep :
        (fuel : ℕ) (s : State V) (es : List (Entry V))
        → s.entries ≡ es
        → AllKeep es s
        → let s' = submit_due_from env fuel now s es in AllKeep s'.entries s'
    unfolding submit_due_from
    submit_due_from-AllKeep fuel s [] e k = subst (λ l. AllKeep l s) (sym e) k
    submit_due_from-AllKeep zero s (x ∷ es) e k = subst (λ l. AllKeep l s) (sym e) k
    submit_due_from-AllKeep (suc fuel) s (x ∷ es) e k =
        let item : Entry V = (pop x es).0 in
        let others : List (Entry V) = (pop x es).1 in
        let s' : State V = push (serve env now item (record s { entries = others })) in
        let (apart, distinct) = pop-IsDistinct x es k.0 in
        let (ready, readies) = All-pop (IsReady now) x es k.1.0 k.1.1 in
        let (p, ps) = All-pop (P s.pending s.log) x es k.2.0 k.2.1 in
        elim (Bool-cases (leb item.next now)) [
          | inl due ↦ rw due (
              submit_due_from-AllKeep fuel s' s'.entries refl
                (round_keeps item others s apart distinct ready readies p ps (leb→le _ _ due)))
          | inr early ↦ rw early (subst (λ l. AllKeep l s) (sym e) k)
        ]

    -- What every round keeps for the entry that it serves and for the others, the loop keeps.
    pub submit_due-keeps :
        (s : State V)
        → IsDistinct s.entries
        → All (IsReady now) s.entries
        → All (P s.pending s.log) s.entries
        → let s' = submit_due env now s in
          IsDistinct s'.entries
          × All (IsReady now) s'.entries
          × All (P s'.pending s'.log) s'.entries
    unfolding submit_due
    submit_due-keeps s d r p = submit_due_from-AllKeep _ s s.entries refl (d, r, p)
