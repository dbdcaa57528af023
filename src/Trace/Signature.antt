-- ===== src/Trace/Signature.antt =====
-- internal/trace/runner.go: the signature of a route, before it is written as JSON.
use flameping.Prelude.{
  ℕ, ◌≡◌, refl, List, [], ◌∷◌, Option, none, some, ltb, ◌==◌, if◌then◌else◌, arith,
}
use mathlib.Core.List.{Perm, foldr}
use mathlib.Core.List.Perm
use native.Mathlib.Decide.{ℕ_discrete}
use flameping.Trace.{Reply, TraceProbe}

-- A sorted list of texts, each once.
unfoldable pub insert : ℕ → List ℕ → List ℕ
insert r [] = r ∷ []
insert r (x ∷ xs) = if ltb r x then r ∷ x ∷ xs else if r == x then x ∷ xs else x ∷ insert r xs

-- The hops, sorted by TTL, with the responders of each.
unfoldable pub insert_hop : ℕ → ℕ → List (ℕ × List ℕ) → List (ℕ × List ℕ)
insert_hop ttl r [] = (ttl, r ∷ []) ∷ []
insert_hop ttl r ((t, rs) ∷ hops) =
    if ltb ttl t
    then (ttl, r ∷ []) ∷ (t, rs) ∷ hops
    else if ttl == t
    then (t, insert r rs) ∷ hops
    else (t, rs) ∷ insert_hop ttl r hops

-- One more probe; one with no responder is left out.
abbrev sign_hop : ℕ → Option Reply → List (ℕ × List ℕ) → List (ℕ × List ℕ)
sign_hop ttl none hops = hops
sign_hop ttl (some reply) hops = insert_hop ttl reply.responder hops

abbrev pub sign : TraceProbe → List (ℕ × List ℕ) → List (ℕ × List ℕ)
sign p hops = sign_hop p.ttl p.reply hops

-- `routeSignature`, before it is written as JSON.
unfoldable pub route_signature : List TraceProbe → List (ℕ × List ℕ)
route_signature ps = foldr sign [] ps

insert_comm : (a b : ℕ) (xs : List ℕ) → insert a (insert b xs) ≡ insert b (insert a xs)
unfolding insert
insert_comm a b [] = ground arith
insert_comm a b (x ∷ xs) = ground (arith, insert_comm a b xs)

insert_two : (a b : ℕ) → insert a (b ∷ []) ≡ insert b (a ∷ [])
unfolding insert
insert_two a b = insert_comm a b []

insert_hop_comm :
    (t a u b : ℕ) (hops : List (ℕ × List ℕ))
    → insert_hop t a (insert_hop u b hops) ≡ insert_hop u b (insert_hop t a hops)
unfolding insert_hop
insert_hop_comm t a u b [] = ground (arith, insert_two a b)
insert_hop_comm t a u b ((v, rs) ∷ hops) =
    ground (arith, insert_two a b, insert_comm a b rs, insert_hop_comm t a u b hops)

sign_hop_comm :
    (t u : ℕ) (a b : Option Reply) (hops : List (ℕ × List ℕ))
    → sign_hop t a (sign_hop u b hops) ≡ sign_hop u b (sign_hop t a hops)
sign_hop_comm t u none b hops = refl
sign_hop_comm t u (some a) none hops = refl
sign_hop_comm t u (some a) (some b) hops = insert_hop_comm t a.responder u b.responder hops

sign_comm :
    (p q : TraceProbe) (hops : List (ℕ × List ℕ)) → sign p (sign q hops) ≡ sign q (sign p hops)
sign_comm p q hops = sign_hop_comm p.ttl q.ttl p.reply q.reply hops

-- routeSignature does not depend on the order of the probes: two lists that are permutations of each
-- other have the same signature.
pub route_signature-perm :
    (ps qs : List TraceProbe) → Perm ps qs → route_signature ps ≡ route_signature qs
unfolding route_signature
route_signature-perm ps qs h = Perm.foldr-eq (hlevel ℕ_discrete) sign sign_comm h []
