-- ===== src/Trace/Scenarios.antt =====
-- internal/trace/runner.go and internal/trace/raw.go: a classic trace of a target two hops away, with two
-- probes for each hop and one hop in each window.
use flameping.Prelude.{
  ℕ, ◌+◌, ◌≡◌, refl, true, false, List, [], ◌∷◌, ◌++◌, none, some, leb, if◌then◌else◌, arith,
}
use mathlib.Core.List.{perm_append_comm}
use flameping.Trace.{Limits, Response, TraceProbe}
use flameping.Trace.Ports.{claims, packet_interval, claims-Spaced, Spaced, Later}
use flameping.Trace.Quoted.{quoted_udp, udp_header, quoted_udp-udp_header}
use flameping.Trace.Signature.{insert_hop, route_signature, route_signature-perm}
use flameping.Trace.Probes.{
  Flow, Env, Heard, response, leaves, TraceResult, trace_once, trace_loop, windows, send_hop,
  send_hops, send_at, listen, take_in, answer, put, lookup, delete, match_of, quoted_match,
  has_payload,
}
use flameping.Trace.Coverage.{After, Covers, trace_loop-Covers}
use flameping.Trace.Answers.{Genuine, Reaches, Told, trace_once-Genuine}

abbrev flow : Flow
flow = record {
  classic = true;
  source_addr = record { is_4 = true; bytes = 192 ∷ 0 ∷ 2 ∷ 1 ∷ [] };
  endpoint_addr = record { is_4 = true; bytes = 198 ∷ 51 ∷ 100 ∷ 7 ∷ [] };
  endpoint = 7;
  plain = λ address. address;
  base_port = 33434;
  source_port = 40000;
}

abbrev limits : Limits
limits = record { probes_per_hop = 2; max_hops = 5; pipeline_hops = 1; max_packets_per_second = 50 }

abbrev from_router : Response
from_router = record {
  source = 3;
  source_port = 40000;
  destination_port = 33436;
  checksum = 0;
  icmp_type = 11;
  icmp_code = 0;
  reached = false;
}

abbrev from_target : Response
from_target = record {
  source = 7;
  source_port = 40000;
  destination_port = 33437;
  checksum = 0;
  icmp_type = 3;
  icmp_code = 3;
  reached = true;
}

-- A response of another flow comes first.
abbrev heard_at : ℕ → List Heard
heard_at first =
    if leb first 1
    then response 12 (record from_target { source_port = 40001 }) ∷ response 15 from_router ∷ []
    else response 25 from_target ∷ []

abbrev env : Env
env = record { turn = λ sequence. leaves (10 + sequence); heard = heard_at }

-- The four probes in the order in which they leave; the second and the third are answered.
abbrev answered : List TraceProbe
answered =
    record { ttl = 1; index = 0; token = 1; sent_at = 10; reply = none }
    ∷ record {
      ttl = 1;
      index = 1;
      token = 2;
      sent_at = 11;
      reply = some (record { reply_at = 15; responder = 3; icmp_type = 11; icmp_code = 0 });
    }
    ∷ record {
      ttl = 2;
      index = 0;
      token = 3;
      sent_at = 12;
      reply = some (record { reply_at = 25; responder = 7; icmp_type = 3; icmp_code = 3 });
    }
    ∷ record { ttl = 2; index = 1; token = 4; sent_at = 13; reply = none }
    ∷ []

-- Probes of three hops, each answered from its own address.
abbrev get_probe : ℕ → TraceProbe
get_probe i = record {
  ttl = i + 1;
  index = 0;
  token = i;
  sent_at = 0;
  reply = some (record { reply_at = 9; responder = i; icmp_type = 11; icmp_code = 0 });
}

abbrev traced : TraceResult
traced = record {
  completed = true;
  probes = answered;
  reached_hop = 2;
  signature = (1, 3 ∷ []) ∷ (2, 7 ∷ []) ∷ [];
}

trace_once_run : trace_once flow limits env ≡ some traced
unfolding trace_once trace_loop windows send_hops send_hop send_at has_payload listen take_in answer
    put lookup delete match_of quoted_match route_signature insert_hop
trace_once_run = refl

trace_loop-Covers_example : After (Covers flow limits env) (trace_loop flow limits env)
trace_loop-Covers_example = trace_loop-Covers flow limits env (omega arith)

trace_once-Genuine_example :
    Genuine flow (Told env) traced.probes × Reaches flow (Told env) traced.probes traced.reached_hop
trace_once-Genuine_example = trace_once-Genuine flow limits env traced trace_once_run

-- The hops of the signature do not depend on which hop's probes come first.
route_signature-perm_example :
    route_signature ((get_probe 0 ∷ get_probe 1 ∷ []) ++ (get_probe 2 ∷ []))
    ≡ route_signature ((get_probe 2 ∷ []) ++ (get_probe 0 ∷ get_probe 1 ∷ []))
route_signature-perm_example =
    route_signature-perm ((get_probe 0 ∷ get_probe 1 ∷ []) ++ (get_probe 2 ∷ []))
      ((get_probe 2 ∷ []) ++ (get_probe 0 ∷ get_probe 1 ∷ []))
      (perm_append_comm (get_probe 0 ∷ get_probe 1 ∷ []) (get_probe 2 ∷ []))

claims-Spaced_example :
    Spaced (packet_interval 50) (claims (packet_interval 50) 0 (5 ∷ 6 ∷ 7 ∷ []))
    × Later (5 ∷ 6 ∷ 7 ∷ []) (claims (packet_interval 50) 0 (5 ∷ 6 ∷ 7 ∷ []))
claims-Spaced_example = claims-Spaced 50 0 (5 ∷ 6 ∷ 7 ∷ [])

-- An IPv4 header of twenty bytes, and a parser that finds it.
abbrev ipv4_front : List ℕ
ipv4_front =
    69 ∷ 0 ∷ 0 ∷ 34 ∷ 0 ∷ 0 ∷ 0 ∷ 0 ∷ 1 ∷ 17 ∷ 0 ∷ 0 ∷ 192 ∷ 0 ∷ 2 ∷ 1 ∷ 198 ∷ 51 ∷ 100 ∷ 7 ∷ []

quoted_udp-udp_header_example :
    quoted_udp (λ bytes. some 20) true (ipv4_front ++ (udp_header 40000 33437 14 7 ++ 70 ∷ []))
    ≡ some (40000, 33437, 7)
quoted_udp-udp_header_example =
    quoted_udp-udp_header (λ bytes. some 20) true ipv4_front (70 ∷ []) 40000 33437 14 7 refl refl
