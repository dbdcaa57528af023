-- ===== src/Resolver.antt =====
-- internal/resolver/resolver.go: the choice of a target's address. An address is a number, in the order
-- of `Compare`. The parser of addresses, the lookup of names and the predicates of `netip.Addr` are
-- outside.
pub mod Choice
mod Scenarios
use Prim.Native.String.{String}
use flameping.Prelude.{
  ℕ, Bool, true, false, not, ◌&&◌, ◌||◌, ◌==◌, ltb, if◌then◌else◌, List, [], ◌∷◌, Option, none,
  some,
}

-- The configured family: none, `auto`, `4`, `6` or another text.
pub data Family : Type 0 where
  unset auto four six other : Family

-- What the code uses of the packages `net` and `netip`; an error is `none`.
pub record Names : Type 0 where
  pub parse : String → Option ℕ
  pub lookup : String → Option (List ℕ)
  pub is_valid : ℕ → Bool
  pub is_4 : ℕ → Bool
  pub is_6 : ℕ → Bool
  pub unmap : ℕ → ℕ

module _ (names : Names) where
  -- `familyMatches`.
  unfoldable pub family_matches : Family → ℕ → Bool
  family_matches unset a = true
  family_matches auto a = true
  family_matches four a = names.is_4 a
  family_matches six a = names.is_6 a
  family_matches other a = false

  -- The addresses of the family, unmapped.
  unfoldable pub filtered : Family → List ℕ → List ℕ
  filtered family [] = []
  filtered family (a ∷ known) =
      let rest = filtered family known in
      if family_matches family (names.unmap a) then names.unmap a ∷ rest else rest

  abbrev pub is_auto : Family → Bool
  is_auto auto = true
  is_auto _ = false

  -- The order of the sort: under `auto` the addresses of IPv4 come first.
  unfoldable pub before : Family → ℕ → ℕ → Bool
  before family a b =
      if is_auto family && (names.is_4 a && not (names.is_4 b))
      then true
      else if is_auto family && (names.is_4 b && not (names.is_4 a))
      then false
      else ltb a b

  unfoldable pub insert : Family → ℕ → List ℕ → List ℕ
  insert family a [] = a ∷ []
  insert family a (b ∷ bs) =
      let rest = insert family a bs in if before family b a then b ∷ rest else a ∷ b ∷ bs

  unfoldable pub sort : Family → List ℕ → List ℕ
  sort family [] = []
  sort family (a ∷ known) = insert family a (sort family known)

  abbrev pub first : List ℕ → Option ℕ
  first [] = none
  first (a ∷ known) = some a

  unfoldable pub contains : ℕ → List ℕ → Bool
  contains a [] = false
  contains a (b ∷ bs) = a == b || contains a bs

  -- The choice among the addresses of the family.
  unfoldable pub choose : Family → ℕ → List ℕ → Option ℕ
  choose family previous known =
      if names.is_valid previous && contains previous known
      then some previous
      else first (sort family known)

  -- `Resolve`.
  unfoldable pub resolve : String → Family → ℕ → Option ℕ
  resolve address family previous = elim (names.parse address) [
    | some a ↦ if family_matches family a then some a else none
    | none ↦ elim (names.lookup address) [
      | none ↦ none
      | some known ↦ choose family previous (filtered family known)
    ]
  ]
