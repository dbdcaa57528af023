-- ===== src/Obsess/Transitions.antt =====
-- internal/obsess/controller.go: the transitions that a call reports against the state of its target.
use flameping.Prelude.{
  ℕ, ◌+◌, ◌-◌, List, [], ◌∷◌, ◌++◌, Bool, false, ltb, ◌==◌, if◌then◌else◌, none, some, not, arith,
  ◌≡◌, ◌∙◌, refl, sym, if_cases, option_cases, subst, Bool-cases, inl, inr,
}
use flameping.Obsess.{
  Policy, Sample, Probe, TargetState, Transition, Controller, find, put, store, max_tracked_samples,
}
use flameping.Obsess.Samples.{
  interrupt_target, interrupt, prune_history, prune, make_room, find_history, append_sample,
  add_sample, clear_history,
}
use flameping.Obsess.Settle.{discontinuous, extended, mark_healthy, drop_head, write_probe}
use flameping.Obsess.Store.{IsDistinct, find_id, put-IsDistinct, find_history-find}

module _ {F : Type 0} (id : ℕ) where
  -- Whether the target under the id has an incident.
  unfoldable pub active_of : List (TargetState F) → Bool
  active_of ts = elim (find id ts) [ none ↦ false | some t ↦ t.active ]

  -- From one state to another, each transition is the target's and reports the other state.
  unfoldable pub Toggles : Bool → List (Transition F) → Bool → Type 0
  Toggles before [] after = before ≡ after
  Toggles before (x ∷ xs) after =
      (x.target_id ≡ id) × (x.active ≡ not before) × Toggles x.active xs after

  pub Toggles-append :
      (a b d : Bool) (xs ys : List (Transition F))
      → Toggles a xs b
      → Toggles b ys d
      → Toggles a (xs ++ ys) d
  unfolding Toggles
  Toggles-append a b d [] ys hx hy = subst (λ s. Toggles s ys d) (sym hx) hy
  Toggles-append a b d (x ∷ xs) ys (own, toggled, hx) hy =
      (own, toggled, Toggles-append x.active b d xs ys hx hy)

  active_of-put :
      (ts : List (TargetState F)) (old t : TargetState F)
      → find t.id ts ≡ some old
      → t.active ≡ old.active
      → active_of (put t ts) ≡ active_of ts
  unfolding find put active_of
  active_of-put [] old t h same = refl
  active_of-put (u ∷ ts) old t h same = elim (Bool-cases (t.id == u.id)) [
    | inl e ↦ ground (arith, e, h, same)
    | inr e ↦ ground (arith, e, h, same, active_of-put ts old t)
  ]

  pub active_of-some :
      (ts : List (TargetState F)) (t : TargetState F)
      → find id ts ≡ some t
      → active_of ts ≡ t.active
  unfolding active_of
  active_of-some ts t h = ground (arith, h)

  module _ (a : Bool) where
    -- The target under the id is in the given state, and no two targets have one id.
    abbrev pub Holds : Controller F → Type 0
    Holds c = (active_of c.targets ≡ a) × IsDistinct c.targets

    store-Holds :
        (c : Controller F) (old t : TargetState F)
        → Holds c
        → find t.id c.targets ≡ some old
        → t.active ≡ old.active
        → Holds (store t c)
    store-Holds c old t (state, distinct) found same =
        (active_of-put c.targets old t found same ∙ state, put-IsDistinct c.targets t distinct)

    -- The same for the target that a look-up of some id has given.
    pub update-Holds :
        (key : ℕ) (c : Controller F) (old t : TargetState F)
        → Holds c
        → find key c.targets ≡ some old
        → t.id ≡ old.id
        → t.active ≡ old.active
        → Holds (store t c)
    update-Holds key c old t h found own same =
        store-Holds c old t h (ground (arith, found, own, find_id key c.targets old found)) same

    pub interrupt_target-Holds :
        (key at : ℕ) (c : Controller F) (t : TargetState F)
        → Holds c
        → find key c.targets ≡ some t
        → Holds (interrupt_target at t c)
    unfolding interrupt_target clear_history
    interrupt_target-Holds key at c t h e =
        if_cases Holds t.active _ _ (λ on. update-Holds key c t _ h e refl refl)
          (λ off. update-Holds key c t _ h e refl refl)

    pub interrupt-Holds : (key at : ℕ) (c : Controller F) → Holds c → Holds (interrupt key at c)
    unfolding interrupt
    interrupt-Holds key at c h =
        option_cases Holds (find key c.targets) _ _ (λ unknown. h)
          (λ t e. interrupt_target-Holds key at c t h e)

    prune-Holds :
        (policy : Policy) (key now : ℕ) (c : Controller F)
        → Holds c
        → Holds (prune policy key now c)
    unfolding prune prune_history
    prune-Holds policy key now c h =
        option_cases Holds (find key c.targets) _ _ (λ unknown. h)
          (λ t e. update-Holds key c t _ h e refl refl)

    make_room-Holds : (now : ℕ) (c : Controller F) → Holds c → Holds (make_room now c).0
    unfolding make_room
    make_room-Holds now c h =
        if_cases (λ (r : Controller F × Bool). Holds r.0)
          (ltb (c.tracked + c.samples) max_tracked_samples) _ _ (λ free. h)
          (λ full.
            option_cases (λ (r : Controller F × Bool). Holds r.0) (find_history c.targets) _ _
              (λ no_samples. h)
              (λ (t, rest) oldest.
                interrupt-Holds t.id now _
                  (store-Holds c t _ h (find_history-find c.targets t rest h.1 oldest).0 refl)))

    append_sample-Holds :
        (key : ℕ) (value : Sample F) (c : Controller F)
        → Holds c
        → Holds (append_sample key value c)
    unfolding append_sample
    append_sample-Holds key value c h =
        option_cases Holds (find key c.targets) _ _ (λ unknown. h)
          (λ t e. update-Holds key c t _ h e refl refl)

    pub add_sample-Holds :
        (policy : Policy) (key now : ℕ) (value : Sample F) (c : Controller F)
        → Holds c
        → Holds (add_sample policy key now value c)
    unfolding add_sample
    add_sample-Holds policy key now value c h =
        let pruned = prune-Holds policy key now c h in
        let roomy = make_room-Holds now _ pruned in
        if_cases Holds (ltb value.sent_at (now - policy.baseline_window)) _ _ (λ old. pruned)
          (λ recent.
            if_cases Holds (make_room now (prune policy key now c)).1 _ _
              (λ free. append_sample-Holds key value _ roomy) (λ full. roomy))

    pub mark_healthy-Holds :
        (policy : Policy) (key sent_at : ℕ) (t : TargetState F) (c : Controller F)
        → Holds c
        → Holds (mark_healthy policy key sent_at t c)
    unfolding mark_healthy extended
    mark_healthy-Holds policy key sent_at t c h =
        let c' = if discontinuous policy sent_at t then interrupt key sent_at c else c in
        let h' : Holds c' =
          if_cases Holds (discontinuous policy sent_at t) _ _
            (λ gap. interrupt-Holds key sent_at c h) (λ steady. h) in
        option_cases Holds (find key c'.targets) _ _ (λ unknown. h')
          (λ u e. update-Holds key c' u _ h' e refl refl)

    pub drop_head-Holds :
        (key : ℕ) (ps : List (Probe F)) (c : Controller F) → Holds c → Holds (drop_head key ps c)
    unfolding drop_head
    drop_head-Holds key ps c h =
        option_cases Holds (find key c.targets) _ _ (λ unknown. h)
          (λ t e. update-Holds key c t _ h e refl refl)

    pub write_probe-Holds :
        (key ref : ℕ) (f : Probe F → Probe F) (c : Controller F)
        → Holds c
        → Holds (write_probe key ref f c)
    unfolding write_probe
    write_probe-Holds key ref f c h =
        option_cases Holds (find key c.targets) _ _ (λ unknown. h)
          (λ t e. update-Holds key c t _ h e refl refl)
