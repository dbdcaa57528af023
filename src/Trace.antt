-- ===== src/Trace.antt =====
-- internal/trace/runner.go and internal/trace/raw.go: the traceroute runner. Times are numbers of
-- nanoseconds, and an address is a number; where the order of their texts counts, the number is the
-- rank of the text.
pub mod Ports
pub mod Quoted
pub mod Signature
pub mod Probes
pub mod Coverage
pub mod Answers
mod Scenarios
use flameping.Prelude.{ℕ, Bool, List, Option}

-- The fields of an enabled `config.TracerouteConfig` that the runner reads.
pub record Limits : Type 0 where
  pub probes_per_hop : ℕ
  pub max_hops : ℕ
  pub pipeline_hops : ℕ
  pub max_packets_per_second : ℕ

-- `response`.
pub record Response : Type 0 where
  pub source : ℕ
  pub source_port : ℕ
  pub destination_port : ℕ
  pub checksum : ℕ
  pub icmp_type : ℕ
  pub icmp_code : ℕ
  pub reached : Bool

-- What a probe was answered with; `time.Since` is taken from the probe's own time.
pub record Reply : Type 0 where
  pub reply_at : ℕ
  pub responder : ℕ
  pub icmp_type : ℕ
  pub icmp_code : ℕ

-- `model.TraceProbe`, with the fields of its answer together.
pub record TraceProbe : Type 0 where
  pub ttl : ℕ
  pub index : ℕ
  pub token : ℕ
  pub sent_at : ℕ
  pub reply : Option Reply
