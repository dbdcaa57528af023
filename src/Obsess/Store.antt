-- ===== src/Obsess/Store.antt =====
-- internal/obsess/controller.go: the map of targets, and what is written through the pointer to one.
use flameping.Prelude.{
  ℕ, suc, ◌+◌, ◌≤◌, List, [], ◌∷◌, ◌==◌, none, some, length, total, arith, ◌≡◌, refl, Bool-cases,
  inl, inr,
}
use flameping.Obsess.{Sample, TargetState, find, put}
use flameping.Obsess.Samples.{find_history}
use flameping.Obsess.Settle.{fifo_of}

-- No two targets have the same id.
unfoldable pub IsDistinct : {F : Type 0} → List (TargetState F) → Type 0
IsDistinct [] = Unit
IsDistinct (t ∷ ts) = (find t.id ts ≡ none) × IsDistinct ts

module _ {F : Type 0} where
  pub find_id :
      (id : ℕ) (ts : List (TargetState F)) (t : TargetState F) → find id ts ≡ some t → t.id ≡ id
  unfolding find
  find_id id [] t h = ground (arith, h)
  find_id id (u ∷ ts) t h = elim (Bool-cases (id == u.id)) [
    | inl e ↦ ground (arith, e, h)
    | inr e ↦ find_id id ts t (ground (arith, e, h))
  ]

  pub total-put :
      (w : TargetState F → ℕ) (ts : List (TargetState F)) (old t : TargetState F)
      → find t.id ts ≡ some old
      → total w (put t ts) + w old ≡ total w ts + w t
  unfolding find put
  total-put w [] old t h = ground (arith, h)
  total-put w (u ∷ ts) old t h = elim (Bool-cases (t.id == u.id)) [
    | inl e ↦ ground (arith, e, h)
    | inr e ↦ ground (arith, e, h, total-put w ts old t)
  ]

  pub find-put :
      (ts : List (TargetState F)) (old t : TargetState F)
      → find t.id ts ≡ some old
      → find t.id (put t ts) ≡ some t
  unfolding find put
  find-put [] old t h = ground (arith, h)
  find-put (u ∷ ts) old t h = elim (Bool-cases (t.id == u.id)) [
    | inl e ↦ ground (arith, e, h)
    | inr e ↦ ground (arith, e, h, find-put ts old t)
  ]

  pub find-put-none :
      (id : ℕ) (ts : List (TargetState F)) (t : TargetState F)
      → find id ts ≡ none
      → find id (put t ts) ≡ none
  unfolding find put
  find-put-none id [] t h = refl
  find-put-none id (u ∷ ts) t h = elim (Bool-cases (t.id == u.id)) [
    | inl e ↦ ground (arith, e, h)
    | inr e ↦ ground (arith, e, h, find-put-none id ts t)
  ]

  pub put-IsDistinct :
      (ts : List (TargetState F)) (t : TargetState F) → IsDistinct ts → IsDistinct (put t ts)
  unfolding put IsDistinct
  put-IsDistinct [] t h = h
  put-IsDistinct (u ∷ ts) t (fresh, h) = elim (Bool-cases (t.id == u.id)) [
    | inl e ↦ rw (e) (ground (arith, e, fresh), h)
    | inr e ↦ rw (e) (find-put-none u.id ts t fresh, put-IsDistinct ts t h)
  ]

  pub fifo_of-put :
      (id : ℕ) (ts : List (TargetState F)) (old t : TargetState F)
      → find t.id ts ≡ some old
      → t.fifo ≡ old.fifo
      → fifo_of id (put t ts) ≡ fifo_of id ts
  unfolding find put fifo_of
  fifo_of-put id [] old t h same = refl
  fifo_of-put id (u ∷ ts) old t h same = elim (Bool-cases (t.id == u.id)) [
    | inl e ↦ ground (arith, e, h, same)
    | inr e ↦ ground (arith, e, h, same, fifo_of-put id ts old t)
  ]

  pub fifo_of-some :
      (id : ℕ) (ts : List (TargetState F)) (t : TargetState F)
      → find id ts ≡ some t
      → fifo_of id ts ≡ t.fifo
  unfolding fifo_of
  fifo_of-some id ts t h = ground (arith, h)

  pub fifo_of-none : (id : ℕ) (ts : List (TargetState F)) → find id ts ≡ none → fifo_of id ts ≡ []
  unfolding fifo_of
  fifo_of-none id ts h = ground (arith, h)

  -- The target whose sample is evicted is the one in the map, and the sample is its oldest.
  pub find_history-find :
      (ts : List (TargetState F)) (t : TargetState F) (rest : List (Sample F))
      → IsDistinct ts
      → find_history ts ≡ some (t, rest)
      → (find t.id ts ≡ some t) × (length t.history ≡ suc (length rest))
  unfolding find_history find IsDistinct
  find_history-find [] t rest d h = ground (arith, h)
  find_history-find (u ∷ ts) t rest (fresh, d) h =
      ground (arith, fresh, h, find_history-find ts t rest d)

  -- One target's share is at most the sum.
  pub find-total :
      (w : TargetState F → ℕ) (id : ℕ) (ts : List (TargetState F)) (t : TargetState F)
      → find id ts ≡ some t
      → w t ≤ total w ts
  unfolding find
  find-total w id [] t h = ground (arith, h)
  find-total w id (u ∷ ts) t h = elim (Bool-cases (id == u.id)) [
    | inl e ↦ ground (arith, e, h)
    | inr e ↦ ground (arith, e, h, find-total w id ts t)
  ]
