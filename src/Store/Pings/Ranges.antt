-- ===== src/Store/Pings/Ranges.antt =====
-- internal/store/sqlite/rollup.go: the rows of adjacent ranges of time.
use flameping.Prelude.{
  ℕ, ◌+◌, ◌^◌, ◌≤◌, ◌<◌, ◌≡◌, refl, ap, ◌∙◌, List, [], ◌∷◌, Bool, true, false, arith, length, ◌⊎◌,
  inl, inr,
}
use flameping.Histogram.{Floats}
use flameping.Store.Pings.{PingAggregate, PingSample, add_row, add_rows, is_between, select}
use flameping.Store.Pings.Steps.{Adds, Grows, add_row-Adds}
use flameping.Store.Pings.Sums.{HasRoom, IsTallied, plus, plus_comm}

-- All the rows of a list.
pub add_rows-IsTallied :
    (floats : Floats) (a : PingAggregate) (xs : List PingSample)
    → IsTallied a
    → a.hist.count + length xs < 2 ^ 64
    → IsTallied (add_rows floats a xs) × Grows (length xs) a (add_rows floats a xs)
unfolding add_rows
add_rows-IsTallied floats a [] v room = (v, (omega arith, omega arith))
add_rows-IsTallied floats a (x ∷ xs) v room =
    let (v', (grown, longer)) = (add_row-Adds floats x).keeps a v (omega arith) in
    let (v'', (grown', longer')) =
      add_rows-IsTallied floats (add_row floats a x) xs v' (omega (arith, grown)) in
    (v'', (omega (arith, grown, grown'), omega (arith, longer, longer')))

-- A value on the right of a sum.
Adds-right :
    (n : ℕ) (step : PingAggregate → PingAggregate)
    → Adds n step
    → (a b : PingAggregate) → IsTallied a
    → IsTallied b
    → HasRoom a b n
    → step (plus a b) ≡ plus a (step b)
Adds-right n step p a b v w room =
    let (w', (grown, _)) = p.keeps b w (omega arith) in
    ap step (plus_comm a b v w (omega arith))
    ∙ p.adds b a w v (omega arith)
    ∙ plus_comm (step b) a w' v (omega (arith, grown))

abbrev pub Known : Bool → Bool → Bool → (p q r : Bool) → Type 0
Known x y z p q r = (p ≡ x) × (q ≡ y) × (r ≡ z)

-- A row of two adjacent ranges stands in exactly one of them.
is_between-adjacent :
    (target start middle end : ℕ) (x : PingSample)
    → start ≤ middle
    → middle ≤ end
    → let whole = is_between target start end x in
      let first = is_between target start middle x in
      let second = is_between target middle end x in
      Known true true false whole first second
      ⊎ (Known true false true whole first second ⊎ Known false false false whole first second)
unfolding is_between
is_between-adjacent target start middle end x h k = ground arith

-- The rows of two adjacent ranges of time add up to those of both, in whatever order they stand.
pub add_rows-adjacent :
    (floats : Floats) (target start middle end : ℕ) (xs : List PingSample) (a b : PingAggregate)
    → start ≤ middle
    → middle ≤ end
    → IsTallied a
    → IsTallied b
    → HasRoom a b (length (select target start end xs))
    → add_rows floats (plus a b) (select target start end xs)
      ≡ plus
          (add_rows floats a (select target start middle xs))
          (add_rows floats b (select target middle end xs))
unfolding select add_rows
add_rows-adjacent floats target start middle end [] a b h k v w room = refl
add_rows-adjacent floats target start middle end (x ∷ xs) a b h k v w room =
    elim (is_between-adjacent target start middle end x h k) [
      | inl (whole, first, second) ↦
          let space : HasRoom a b (length (select target start end xs) + 1) =
            ground (arith, whole) in
          let step = add_row-Adds floats x in
          let (v', (grown, _)) = step.keeps a v (omega (arith, space)) in
          rw (whole, first, second)
            (ap (λ c. add_rows floats c (select target start end xs))
                (step.adds a b v w (omega (arith, space)))
              ∙ add_rows-adjacent floats target start middle end xs (add_row floats a x) b h k v' w
                  (omega (arith, space, grown)))
      | inr (inl (whole, first, second)) ↦
          let space : HasRoom a b (length (select target start end xs) + 1) =
            ground (arith, whole) in
          let step = add_row-Adds floats x in
          let (w', (grown, _)) = step.keeps b w (omega (arith, space)) in
          rw (whole, first, second)
            (ap (λ c. add_rows floats c (select target start end xs))
                (Adds-right 1 (λ c. add_row floats c x) step a b v w (omega (arith, space)))
              ∙ add_rows-adjacent floats target start middle end xs a (add_row floats b x) h k v w'
                  (omega (arith, space, grown)))
      | inr (inr (whole, first, second)) ↦
          rw (whole, first, second)
            (add_rows-adjacent floats target start middle end xs a b h k v w
              (ground (arith, whole)))
    ]
