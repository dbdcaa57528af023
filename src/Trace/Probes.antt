-- ===== src/Trace/Probes.antt =====
-- internal/trace/runner.go: `traceOnce` and `Trace`. The environment says what happens at each probe
-- and what is heard in each window, so every behaviour of the network, the clock, the deadlines and
-- the rate limit is one environment. A map of outstanding probes is an association list.
use flameping.Prelude.{
  ℕ, zero, suc, ◌+◌, ◌-◌, ◌%◌, ◌^◌, min, List, [], ◌∷◌, ◌++◌, Bool, true, false, ◌&&◌, ◌||◌, ltb,
  leb, ◌==◌, if◌then◌else◌, Option, none, some, length, get_elem?, set,
}
use flameping.Checksum.{Addr, paris_payload}
use flameping.Trace.{Limits, Response, Reply, TraceProbe}
use flameping.Trace.Signature.{route_signature}

-- What is fixed before the first probe: the method, the addresses and the ports. `endpoint` is the
-- target's number, and `plain` is `Unmap`.
pub record Flow : Type 0 where
  pub classic : Bool
  pub source_addr : Addr
  pub endpoint_addr : Addr
  pub endpoint : ℕ
  pub plain : ℕ → ℕ
  pub base_port : ℕ
  pub source_port : ℕ

-- At the place of a probe: the context is done, the socket refuses, or the probe leaves.
pub data Turn : Type 0 where
  over refused : Turn
  leaves : ℕ → Turn

-- A response with the time at which it is read, or an error that is not a timeout.
pub data Heard : Type 0 where
  response : ℕ → Response → Heard
  broken : Heard

-- `heard` is what is read before the deadline of the window that starts at a TTL.
pub record Env : Type 0 where
  pub turn : ℕ → Turn
  pub heard : ℕ → List Heard

pub record Tracing : Type 0 where
  pub probes : List TraceProbe
  pub sequence : ℕ
  pub outstanding : List (ℕ × ℕ)
  pub reached_hop : ℕ

pub data Outcome : Type 0 where
  going timed_out : Tracing → Outcome
  failed : Outcome

-- A map's write, look-up and delete.
unfoldable pub put : ℕ → ℕ → List (ℕ × ℕ) → List (ℕ × ℕ)
put key i [] = (key, i) ∷ []
put key i ((k, j) ∷ m) = if key == k then (key, i) ∷ m else (k, j) ∷ put key i m

unfoldable pub lookup : ℕ → List (ℕ × ℕ) → Option ℕ
lookup key [] = none
lookup key ((k, j) ∷ m) = if key == k then some j else lookup key m

unfoldable pub delete : ℕ → List (ℕ × ℕ) → List (ℕ × ℕ)
delete key [] = []
delete key ((k, j) ∷ m) = if key == k then delete key m else (k, j) ∷ delete key m

module _ (flow : Flow) where
  -- What a response to the probe with the token quotes: the destination port or the checksum.
  unfoldable pub match_of : ℕ → ℕ
  match_of token = if flow.classic then (flow.base_port + token) % 2 ^ 16 else token

  unfoldable pub quoted_match : Response → ℕ
  quoted_match r = if flow.classic then r.destination_port else r.checksum

  -- Whether there is a payload: `parisPayload` may fail, the classic one does not.
  unfoldable pub has_payload : ℕ → Bool
  has_payload token =
      flow.classic
      || (elim (paris_payload flow.source_addr flow.endpoint_addr flow.source_port flow.base_port
          token) [ none ↦ false | some payload ↦ true ])

  abbrev pub sent : ℕ → ℕ → ℕ → Tracing → Tracing
  sent ttl index at s =
      let token = (s.sequence + 1) % 2 ^ 16 in
      record s {
        probes =
            s.probes
            ++ record { ttl = ttl; index = index; token = token; sent_at = at; reply = none } ∷ [];
        sequence = s.sequence + 1;
        outstanding = put (match_of token) (length s.probes) s.outstanding;
      }

  unfoldable pub send_at : Turn → ℕ → ℕ → Tracing → Outcome
  send_at over ttl index s = timed_out s
  send_at refused ttl index s = failed
  send_at (leaves at) ttl index s =
      if has_payload ((s.sequence + 1) % 2 ^ 16) then going (sent ttl index at s) else failed

  abbrev pub send_probe : Env → ℕ → ℕ → Tracing → Outcome
  send_probe env ttl index s = send_at (env.turn s.sequence) ttl index s

  -- The probes of a hop, from an index on, and the hops of a window, from a TTL on.
  unfoldable pub send_hop : Env → ℕ → ℕ → ℕ → Tracing → Outcome
  send_hop env ttl index zero s = going s
  send_hop env ttl index (suc left) s = elim (send_probe env ttl index s) [
    | going s' ↦ send_hop env ttl (index + 1) left s'
    | timed_out s' ↦ timed_out s'
    | failed ↦ failed
  ]

  unfoldable pub send_hops : Env → ℕ → ℕ → ℕ → Tracing → Outcome
  send_hops env per_hop ttl zero s = going s
  send_hops env per_hop ttl (suc left) s = elim (send_hop env ttl 0 per_hop s) [
    | going s' ↦ send_hops env per_hop (ttl + 1) left s'
    | timed_out s' ↦ timed_out s'
    | failed ↦ failed
  ]

  -- A probe is answered.
  unfoldable pub answer : ℕ → Response → ℕ → TraceProbe → Tracing → Tracing
  answer at r i p s =
      let reply : Reply = record {
        reply_at = at;
        responder = r.source;
        icmp_type = r.icmp_type;
        icmp_code = r.icmp_code;
      } in
      record s {
        probes = set s.probes i (record p { reply = some reply });
        outstanding = delete (quoted_match r) s.outstanding;
        reached_hop =
            if (r.reached && flow.plain r.source == flow.plain flow.endpoint)
              && (s.reached_hop == 0 || ltb p.ttl s.reached_hop)
            then p.ttl
            else s.reached_hop;
      }

  -- One response: of another flow, to no outstanding probe, or to one.
  unfoldable pub take_in : ℕ → Response → Tracing → Tracing
  take_in at r s =
      if r.source_port == flow.source_port
      then elim (lookup (quoted_match r) s.outstanding) [
        | none ↦ s
        | some i ↦ elim (get_elem? s.probes i) [ none ↦ s | some p ↦ answer at r i p s ]
      ]
      else s

  unfoldable pub listen : List Heard → Tracing → Outcome
  listen [] s = going s
  listen (broken ∷ hs) s = elim s.outstanding [ [] ↦ going s | o ∷ os ↦ failed ]
  listen (response at r ∷ hs) s = elim s.outstanding [
    | [] ↦ going s
    | o ∷ os ↦ listen hs (take_in at r s)
  ]

  -- The loop over the windows.
  unfoldable pub windows : Limits → Env → ℕ → ℕ → Tracing → Outcome
  windows limits env zero first s = going s
  windows limits env (suc fuel) first s =
      let hops = min limits.pipeline_hops (limits.max_hops + 1 - first) in
      let sending =
        send_hops env limits.probes_per_hop first hops (record s { outstanding = [] }) in
      let rest : Outcome = elim sending [
        | going s' ↦ elim (listen (env.heard first) s') [
          | going s'' ↦ windows limits env fuel (first + limits.pipeline_hops) s''
          | timed_out s'' ↦ timed_out s''
          | failed ↦ failed
        ]
        | timed_out s' ↦ timed_out s'
        | failed ↦ failed
      ] in
      if leb first limits.max_hops && s.reached_hop == 0 then rest else going s

  abbrev pub begun : Tracing
  begun = record { probes = []; sequence = 0; outstanding = []; reached_hop = 0 }

  unfoldable pub trace_loop : Limits → Env → Outcome
  trace_loop limits env = windows limits env limits.max_hops 1 begun

-- `model.TraceResult`, where there is no error.
pub record TraceResult : Type 0 where
  pub completed : Bool
  pub probes : List TraceProbe
  pub reached_hop : ℕ
  pub signature : List (ℕ × List ℕ)

-- A trace that timed out reports no hop as reached. `Reached` is whether `reached_hop` is not 0.
abbrev pub report : Outcome → Option TraceResult
report (going s) = some (record {
  completed = true;
  probes = s.probes;
  reached_hop = s.reached_hop;
  signature = route_signature s.probes;
})
report (timed_out s) = some (record {
  completed = false;
  probes = s.probes;
  reached_hop = 0;
  signature = route_signature s.probes;
})
report failed = none

-- `traceOnce`, once the flow is set up; an error is `none`.
unfoldable pub trace_once : Flow → Limits → Env → Option TraceResult
trace_once flow limits env = report (trace_loop flow limits env)

-- `traceHasReply`.
unfoldable pub trace_has_reply : List TraceProbe → Bool
trace_has_reply [] = false
trace_has_reply (p ∷ ps) = elim p.reply [ none ↦ trace_has_reply ps | some reply ↦ true ]

-- `Trace` with the method `auto`: the result of the Paris attempt, if it heard anything, or else that of
-- the classic one. The code's two errors of the classic attempt differ in their text only.
unfoldable pub trace_auto : Option TraceResult → Option TraceResult → Option TraceResult
trace_auto paris classic = elim paris [
  | none ↦ classic
  | some result ↦ if trace_has_reply result.probes then some result else classic
]
