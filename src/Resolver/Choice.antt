-- ===== src/Resolver/Choice.antt =====
-- internal/resolver/resolver.go: the chosen address fits the family and does not depend on the order of
-- the answers.
use Prim.Native.String.{String}
use flameping.Prelude.{
  ℕ, ◌≡◌, refl, sym, ◌∙◌, Bool, true, false, ◌&&◌, ◌||◌, ◌==◌, if◌then◌else◌, List, [], ◌∷◌, none,
  some, arith, if_cases, Bool-cases, Option-cases, inl, inr, All,
}
use mathlib.Core.List.{Perm, foldr}
use mathlib.Core.List.Perm
use native.Mathlib.Decide.{ℕ_discrete}
use flameping.Resolver.{
  Family, Names, family_matches, filtered, before, insert, sort, first, contains, choose, resolve,
}

module _ (names : Names) (family : Family) where
  insert_comm :
      (a b : ℕ) (known : List ℕ)
      → insert names family a (insert names family b known)
        ≡ insert names family b (insert names family a known)
  unfolding insert before
  insert_comm a b [] = ground arith
  insert_comm a b (c ∷ known) = ground (arith, insert_comm a b known)

  -- The sorted addresses of the family, taken in one by one.
  abbrev gather : ℕ → List ℕ → List ℕ
  gather a known =
      if family_matches names family (names.unmap a)
      then insert names family (names.unmap a) known
      else known

  gather_comm : (a b : ℕ) (known : List ℕ) → gather a (gather b known) ≡ gather b (gather a known)
  gather_comm a b known = ground (arith, insert_comm (names.unmap a) (names.unmap b) known)

  sort-filtered :
      (known : List ℕ) → sort names family (filtered names family known) ≡ foldr gather [] known
  unfolding sort filtered
  sort-filtered [] = refl
  sort-filtered (a ∷ known) = ground (arith, sort-filtered known)

  -- Whether an address is among those of the family.
  abbrev meets : ℕ → ℕ → Bool → Bool
  meets p a found =
      if family_matches names family (names.unmap a) then p == names.unmap a || found else found

  contains-filtered :
      (p : ℕ) (known : List ℕ)
      → contains names p (filtered names family known) ≡ foldr (meets p) false known
  unfolding contains filtered
  contains-filtered p [] = refl
  contains-filtered p (a ∷ known) = ground (arith, contains-filtered p known)

  choose-perm :
      (previous : ℕ) (known bs : List ℕ)
      → Perm known bs
      → choose names family previous (filtered names family known)
        ≡ choose names family previous (filtered names family bs)
  unfolding choose
  choose-perm previous known bs h =
      let sorted : sort names family (filtered names family known)
          ≡ sort names family (filtered names family bs) =
        sort-filtered known
        ∙ Perm.foldr-eq (hlevel ℕ_discrete) gather gather_comm h []
        ∙ sym (sort-filtered bs) in
      let kept : contains names previous (filtered names family known)
          ≡ contains names previous (filtered names family bs) =
        contains-filtered previous known
        ∙ Perm.foldr-eq (hlevel ℕ_discrete) (meets previous) (λ a b found. ground arith) h false
        ∙ sym (contains-filtered previous bs) in
      rw (sorted, kept) refl

  abbrev Fit : List ℕ → Type 0
  Fit known = All (λ a. family_matches names family a ≡ true) known

  filtered-Fit : (known : List ℕ) → Fit (filtered names family known)
  unfolding filtered
  filtered-Fit [] = tt
  filtered-Fit (a ∷ known) =
      if_cases Fit (family_matches names family (names.unmap a)) _ _
        (λ fits. (fits, filtered-Fit known)) (λ unfit. filtered-Fit known)

  insert-Fit :
      (a : ℕ) (known : List ℕ)
      → family_matches names family a ≡ true
      → Fit known
      → Fit (insert names family a known)
  unfolding insert
  insert-Fit a [] fits h = (fits, tt)
  insert-Fit a (b ∷ known) fits (own, h) =
      if_cases Fit (before names family b a) _ _ (λ later. (own, insert-Fit a known fits h))
        (λ sooner. (fits, (own, h)))

  sort-Fit : (known : List ℕ) → Fit known → Fit (sort names family known)
  unfolding sort
  sort-Fit [] h = tt
  sort-Fit (a ∷ known) (fits, h) = insert-Fit a (sort names family known) fits (sort-Fit known h)

  first-Fit :
      (known : List ℕ) (a : ℕ)
      → Fit known
      → first names known ≡ some a
      → family_matches names family a ≡ true
  first-Fit [] a h e = cc
  first-Fit (b ∷ known) a (fits, h) e = ground (arith, fits, e)

  contains-Fit :
      (known : List ℕ) (a : ℕ)
      → Fit known
      → contains names a known ≡ true
      → family_matches names family a ≡ true
  unfolding contains
  contains-Fit [] a h e = ground (arith, e)
  contains-Fit (b ∷ known) a (fits, h) e = elim (Bool-cases (a == b)) [
    | inl same ↦ ground (arith, fits, same)
    | inr apart ↦ contains-Fit known a h (ground (arith, apart, e))
  ]

  choose-Fit :
      (previous : ℕ) (known : List ℕ) (a : ℕ)
      → Fit known
      → choose names family previous known ≡ some a
      → family_matches names family a ≡ true
  unfolding choose
  choose-Fit previous known a h e =
      elim (Bool-cases (names.is_valid previous && contains names previous known)) [
        | inl stays ↦ contains-Fit known a h (ground (arith, stays, e))
        | inr leaves ↦
            first-Fit (sort names family known) a (sort-Fit known h) (ground (arith, leaves, e))
      ]

-- Resolve returns only addresses of the configured family, for a literal address and for a name alike, and
-- whatever the address before was.
pub resolve-family_matches :
    (names : Names) (address : String) (family : Family) (previous a : ℕ)
    → resolve names address family previous ≡ some a
    → family_matches names family a ≡ true
unfolding resolve
resolve-family_matches names address family previous a h =
    elim (Option-cases (names.parse address)) [
      | inr (literal, parsed) ↦ ground (arith, parsed, h)
      | inl unparsed ↦ elim (Option-cases (names.lookup address)) [
        | inl missing ↦ ground (arith, unparsed, missing, h)
        | inr (known, found) ↦
            choose-Fit names family previous (filtered names family known) a
              (filtered-Fit names family known) (ground (arith, unparsed, found, h))
      ]
    ]

-- For two names whose answers are the same addresses in another order, Resolve makes the same choice,
-- under the same family and after the same address: that address while it is among the answers, and
-- otherwise one that the order of the answers has no part in.
pub resolve-perm :
    (names : Names) (address address' : String) (family : Family) (previous : ℕ)
    (known known' : List ℕ)
    → names.parse address ≡ none
    → names.parse address' ≡ none
    → names.lookup address ≡ some known
    → names.lookup address' ≡ some known'
    → Perm known known'
    → resolve names address family previous ≡ resolve names address' family previous
unfolding resolve
resolve-perm names address address' family previous known known' unparsed unparsed' found found' h =
    ground
      (arith, unparsed, unparsed', found, found', choose-perm names family previous known known' h)
