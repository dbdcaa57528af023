-- ===== src/Store/Interfaces/Deltas.antt =====
-- internal/store/sqlite/rollup.go, `aggregateInterfaceRows`: the loop over the counters of two rows.
use flameping.Prelude.{
  ℕ, zero, suc, ◌+◌, ◌-◌, ◌≤◌, ◌≡◌, refl, ap, List, [], ◌∷◌, some, arith, length, Option-cases, inl,
  inr,
}
use flameping.Store.Interfaces.{add_deltas, counter}

-- No counter goes down.
abbrev pub NotLower : List ℕ → List ℕ → Type 0
NotLower ps cs = (j : ℕ) → counter j ps ≤ counter j cs

unfoldable pub HasGrown : List ℕ → List ℕ → List ℕ → List ℕ → Type 0
HasGrown ds ps cs sums = (j : ℕ) → counter j sums + counter j ps ≡ counter j ds + counter j cs

pub add_deltas-some :
    (ds ps cs : List ℕ)
    → length ps ≡ length ds
    → length cs ≡ length ds
    → NotLower ps cs
    → (sums : List ℕ) × (add_deltas ds ps cs ≡ some sums)
unfolding add_deltas counter
add_deltas-some [] ps cs p c h = ([], refl)
add_deltas-some (d ∷ ds) [] cs p c h = absurd (omega (arith, p))
add_deltas-some (d ∷ ds) (x ∷ ps) [] p c h = absurd (omega (arith, c))
add_deltas-some (d ∷ ds) (x ∷ ps) (y ∷ cs) p c h =
    let (rest, done) =
      add_deltas-some ds ps cs (omega (arith, p)) (omega (arith, c)) (λ j. h (suc j)) in
    ((d + (y - x)) ∷ rest, ground (arith, h 0, done))

add_deltas-tail :
    (d x y : ℕ) (ds ps cs sums : List ℕ)
    → add_deltas (d ∷ ds) (x ∷ ps) (y ∷ cs) ≡ some sums
    → (rest : List ℕ) × (add_deltas ds ps cs ≡ some rest) × (x ≤ y) × (sums ≡ (d + (y - x)) ∷ rest)
unfolding add_deltas
add_deltas-tail d x y ds ps cs sums h = elim (Option-cases (add_deltas ds ps cs)) [
  | inl bad ↦ absurd (ground (arith, h, bad))
  | inr (rest, good) ↦ (rest, good, ground (arith, h, good), ground (arith, h, good))
]

pub add_deltas_grown :
    (ds ps cs sums : List ℕ)
    → length ps ≡ length ds
    → length cs ≡ length ds
    → add_deltas ds ps cs ≡ some sums
    → (length sums ≡ length ds) × NotLower ps cs × HasGrown ds ps cs sums
unfolding add_deltas counter HasGrown
add_deltas_grown [] [] [] sums p c h =
    let none_left : sums ≡ [] = ground (arith, h) in
    rw none_left (refl, λ j. omega arith, λ j. refl)
add_deltas_grown [] (x ∷ ps) cs sums p c h = absurd (omega (arith, p))
add_deltas_grown [] [] (y ∷ cs) sums p c h = absurd (omega (arith, c))
add_deltas_grown (d ∷ ds) [] cs sums p c h = absurd (omega (arith, p))
add_deltas_grown (d ∷ ds) (x ∷ ps) [] sums p c h = absurd (omega (arith, c))
add_deltas_grown (d ∷ ds) (x ∷ ps) (y ∷ cs) sums p c h =
    let (rest, good, low, all) = add_deltas-tail d x y ds ps cs sums h in
    let (same, higher, grown) =
      add_deltas_grown ds ps cs rest (omega (arith, p)) (omega (arith, c)) good in
    rw all (ap suc same, each x y ps cs low higher, each_grown d x y ds ps cs rest low grown)
  where
    each : (x y : ℕ) (ps cs : List ℕ) → x ≤ y → NotLower ps cs → NotLower (x ∷ ps) (y ∷ cs)
    each x y ps cs low higher zero = low
    each x y ps cs low higher (suc j) = higher j

    each_grown :
        (d x y : ℕ) (ds ps cs rest : List ℕ)
        → x ≤ y
        → HasGrown ds ps cs rest
        → HasGrown (d ∷ ds) (x ∷ ps) (y ∷ cs) ((d + (y - x)) ∷ rest)
    each_grown d x y ds ps cs rest low grown zero = omega (arith, low)
    each_grown d x y ds ps cs rest low grown (suc j) = grown j
