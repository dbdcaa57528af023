-- ===== src/Histogram/Quantiles/Sorting.antt =====
-- internal/histogram/histogram.go, `Quantiles`: the order in which requests are written does not
-- matter, since their indices differ.
use flameping.Prelude.{
  ℕ, zero, suc, ◌≤◌, ◌≡◌, ◌≢◌, refl, ap, List, [], ◌∷◌, set, Option, none, some, All, arith,
  Option-cases, inl, inr, ◌∙◌, sym,
}
use flameping.Histogram.Quantiles.{Request, insert, sort}

-- The values after a write for each request whose rank has a value.
abbrev pub write : Request → (ℕ → Option ℕ) → List ℕ → List ℕ
write r f values = elim (f r.rank) [ none ↦ values | some v ↦ set values r.index v ]

unfoldable pub assign : List Request → (ℕ → Option ℕ) → List ℕ → List ℕ
assign [] f values = values
assign (r ∷ rs) f values = assign rs f (write r f values)

pub assign-cons :
    (r : Request) (rs : List Request) (f : ℕ → Option ℕ) (values : List ℕ)
    → assign (r ∷ rs) f values ≡ assign rs f (write r f values)
unfolding assign
assign-cons r rs f values = refl

abbrev pub IsSorted : List Request → Type 0
IsSorted [] = Unit
IsSorted (r ∷ rs) = All (λ (s : Request). r.rank ≤ s.rank) rs × IsSorted rs

abbrev pub Fresh : ℕ → List Request → Type 0
Fresh i = All (λ (s : Request). i ≢ s.index)

-- No two requests have one index.
abbrev pub IsDistinct : List Request → Type 0
IsDistinct [] = Unit
IsDistinct (r ∷ rs) = Fresh r.index rs × IsDistinct rs

abbrev FromRank : ℕ → List Request → Type 0
FromRank n = All (λ (s : Request). n ≤ s.rank)

FromRank-mono : (m n : ℕ) (rs : List Request) → m ≤ n → FromRank n rs → FromRank m rs
FromRank-mono m n [] h k = tt
FromRank-mono m n (r ∷ rs) h k = (omega arith, FromRank-mono m n rs h k.1)

insert-FromRank :
    (n : ℕ) (r : Request) (rs : List Request)
    → n ≤ r.rank
    → FromRank n rs
    → FromRank n (insert r rs)
unfolding insert
insert-FromRank n r [] h k = (h, tt)
insert-FromRank n r (s ∷ rs) h k = ground (arith, insert-FromRank n r rs h k.1)

insert-IsSorted : (r : Request) (rs : List Request) → IsSorted rs → IsSorted (insert r rs)
unfolding insert
insert-IsSorted r [] h = (tt, tt)
insert-IsSorted r (s ∷ rs) h =
    ground
      (arith, insert-IsSorted r rs h.1, insert-FromRank s.rank r rs, FromRank-mono r.rank s.rank rs)

pub sort-IsSorted : (rs : List Request) → IsSorted (sort rs)
unfolding sort
sort-IsSorted [] = tt
sort-IsSorted (r ∷ rs) = insert-IsSorted r (sort rs) (sort-IsSorted rs)

set_comm :
    (values : List ℕ) (i j v w : ℕ) → i ≢ j → set (set values i v) j w ≡ set (set values j w) i v
set_comm [] i j v w h = refl
set_comm (x ∷ xs) zero zero v w h = absurd (h refl)
set_comm (x ∷ xs) zero (suc j) v w h = refl
set_comm (x ∷ xs) (suc i) zero v w h = refl
set_comm (x ∷ xs) (suc i) (suc j) v w h = ap (λ l. x ∷ l) (set_comm xs i j v w (λ e. h (ap suc e)))

assign_swap :
    (r s : Request) (rs : List Request) (f : ℕ → Option ℕ) (values : List ℕ)
    → r.index ≢ s.index
    → assign (r ∷ s ∷ rs) f values ≡ assign (s ∷ r ∷ rs) f values
unfolding assign
assign_swap r s rs f values h = elim (Option-cases (f r.rank)) [
  | inl a ↦ ground (arith, a)
  | inr (v, a) ↦ elim (Option-cases (f s.rank)) [
    | inl b ↦ ground (arith, a, b)
    | inr (w, b) ↦ ground (arith, a, b, set_comm values r.index s.index v w h)
  ]
]

assign-insert :
    (r : Request) (rs : List Request) (f : ℕ → Option ℕ) (values : List ℕ)
    → Fresh r.index rs
    → assign (insert r rs) f values ≡ assign (r ∷ rs) f values
unfolding insert
assign-insert r [] f values h = refl
assign-insert r (s ∷ rs) f values h = ground (
  arith,
  assign_swap r s rs f values h.0,
  assign-cons s (insert r rs) f values,
  assign-cons s (r ∷ rs) f values,
  assign-insert r rs f (write s f values) h.1,
)

insert-Fresh :
    (i : ℕ) (r : Request) (rs : List Request) → i ≢ r.index → Fresh i rs → Fresh i (insert r rs)
unfolding insert
insert-Fresh i r [] h k = (h, tt)
insert-Fresh i r (s ∷ rs) h k = ground (arith, insert-Fresh i r rs h k.1)

sort-Fresh : (i : ℕ) (rs : List Request) → Fresh i rs → Fresh i (sort rs)
unfolding sort
sort-Fresh i [] h = tt
sort-Fresh i (r ∷ rs) h = insert-Fresh i r (sort rs) h.0 (sort-Fresh i rs h.1)

-- Sorting requests of different indices does not change what they write.
pub assign-sort :
    (rs : List Request) (f : ℕ → Option ℕ) (values : List ℕ)
    → IsDistinct rs
    → assign (sort rs) f values ≡ assign rs f values
unfolding sort
assign-sort [] f values h = refl
assign-sort (r ∷ rs) f values h =
    assign-insert r (sort rs) f values (sort-Fresh r.index rs h.0)
    ∙ assign-cons r (sort rs) f values
    ∙ assign-sort rs f (write r f values) h.1
    ∙ sym (assign-cons r rs f values)
