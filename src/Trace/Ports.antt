-- ===== src/Trace/Ports.antt =====
-- internal/trace/runner.go: the ports of a flow, and the rate at which probes are sent.
use flameping.Prelude.{
  ℕ, ◌+◌, ◌-◌, ◌/◌, ◌%◌, ◌^◌, ◌≤◌, ◌<◌, List, [], ◌∷◌, ltb, if◌then◌else◌, arith, All,
}
use flameping.Scheduler.Run.{fnv64a}
use native.Mathlib.Nat.{mod-lt}

-- `stableFlowPorts`, for the hash of a target's id: the base port and the source port.
unfoldable pub ports_of : ℕ → ℕ → ℕ × ℕ
ports_of value span = (
  if ltb 33434 (65535 - span) then 33434 + value % (65535 - span - 33434) else 33434,
  40000 + value / 2 ^ 32 % 20000,
)

unfoldable pub stable_flow_ports : List ℕ → ℕ → ℕ × ℕ
stable_flow_ports id span = ports_of (fnv64a 14695981039346656037 id) span

-- stableFlowPorts, for a span of at most 32100 ports and any target: the base port is at least 33434
-- and leaves room for the span below 65536, and the source port is from 40000 to 59999.
pub stable_flow_ports_lem :
    (id : List ℕ) (span : ℕ)
    → span ≤ 32100
    → (33434 ≤ (stable_flow_ports id span).0)
      × ((stable_flow_ports id span).0 + span < 2 ^ 16)
      × (40000 ≤ (stable_flow_ports id span).1)
      × ((stable_flow_ports id span).1 < 60000)
unfolding stable_flow_ports ports_of
stable_flow_ports_lem id span h = ground (
  arith,
  h,
  mod-lt (fnv64a 14695981039346656037 id) {m = 65535 - span - 33434} (omega (arith, h)),
)

-- The first part of `waitRate`, under its lock: the time at which the caller may send, and the new
-- `nextSend`.
unfoldable pub claim : ℕ → ℕ → ℕ → ℕ × ℕ
claim interval now next_send =
    let send_at = if ltb now next_send then next_send else now in (send_at, send_at + interval)

-- `time.Second / MaxPacketsPerSecond`.
unfoldable pub packet_interval : ℕ → ℕ
packet_interval rate = 10 ^ 9 / rate

-- Callers that come at the given times, one after the other.
unfoldable pub claims : ℕ → ℕ → List ℕ → List ℕ
claims interval next_send [] = []
claims interval next_send (now ∷ nows) =
    let (send_at, next_send') = claim interval now next_send in
    send_at ∷ claims interval next_send' nows

-- Each time is the given distance after the one before it, or more.
abbrev pub Spaced : ℕ → List ℕ → Type 0
Spaced distance [] = Unit
Spaced distance (t ∷ ts) = All (λ u. t + distance ≤ u) ts × Spaced distance ts

-- One time for each call, and not before it.
abbrev pub Later : List ℕ → List ℕ → Type 0
Later [] [] = Unit
Later (now ∷ nows) (t ∷ ts) = (now ≤ t) × Later nows ts
Later [] (t ∷ ts) = ⊥
Later (now ∷ nows) [] = ⊥

claims_from :
    (interval next_send bound : ℕ) (nows : List ℕ)
    → bound ≤ next_send
    → All (λ u. bound ≤ u) (claims interval next_send nows)
unfolding claims claim
claims_from interval next_send bound [] h = tt
claims_from interval next_send bound (now ∷ nows) h =
    let send_at = if ltb now next_send then next_send else now in
    (ground (arith, h), claims_from interval (send_at + interval) bound nows (ground (arith, h)))

-- waitRate, for callers that come at any times: each may send no earlier than it came, and any two
-- send times are at least the packet interval apart, in the order of the calls.
pub claims-Spaced :
    (rate next_send : ℕ) (nows : List ℕ)
    → Spaced (packet_interval rate) (claims (packet_interval rate) next_send nows)
      × Later nows (claims (packet_interval rate) next_send nows)
unfolding claims claim
claims-Spaced rate next_send [] = (tt, tt)
claims-Spaced rate next_send (now ∷ nows) =
    let send_at = if ltb now next_send then next_send else now in
    let (spaced, later) = claims-Spaced rate (send_at + packet_interval rate) nows in
    (
      (
        claims_from (packet_interval rate) (send_at + packet_interval rate)
            (send_at + packet_interval rate) nows (omega arith),
        spaced,
      ),
      (ground arith, later),
    )
