-- ===== src/Resolver/Scenarios.antt =====
-- internal/resolver/resolver.go: a name with two addresses of IPv4, here below 100, and one of IPv6.
use text.Mathlib.Text as Text
use flameping.Prelude.{◌≡◌, refl, true, ltb, leb, if◌then◌else◌, [], ◌∷◌, ◌++◌, none, some}
use mathlib.Core.List.{perm_append_comm}
use flameping.Resolver.{
  auto, four, Names, family_matches, filtered, before, insert, sort, contains, choose, resolve,
}
use flameping.Resolver.Choice.{resolve-family_matches, resolve-perm}

abbrev names : Names
names = record {
  parse = λ address. none;
  lookup = λ address.
      if Text.◌==◌ address "a.example"
      then some ((200 ∷ []) ++ (9 ∷ 7 ∷ []))
      else some ((9 ∷ 7 ∷ []) ++ (200 ∷ []));
  is_valid = λ a. ltb 0 a;
  is_4 = λ a. ltb a 100;
  is_6 = λ a. leb 100 a;
  unmap = λ a. a;
}

chosen : resolve names "a.example" four 0 ≡ some 7
unfolding resolve filtered family_matches choose contains sort insert before
chosen = refl

resolve-family_matches_example : family_matches names four 7 ≡ true
resolve-family_matches_example = resolve-family_matches names "a.example" four 0 7 chosen

resolve-perm_example : resolve names "a.example" auto 200 ≡ resolve names "b.example" auto 200
resolve-perm_example =
    resolve-perm names "a.example" "b.example" auto 200 ((200 ∷ []) ++ (9 ∷ 7 ∷ []))
      ((9 ∷ 7 ∷ []) ++ (200 ∷ [])) refl refl refl refl (perm_append_comm (200 ∷ []) (9 ∷ 7 ∷ []))
