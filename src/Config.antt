-- ===== src/Config.antt =====
-- internal/config/config.go: the settings and what a target makes of them. Durations, sizes and counts
-- are signed integers. The YAML decoder fills these records; it is not modelled, and neither is what
-- it keeps of a mapping but the names of its fields, `present`.
pub mod Effective
pub mod Slots
pub mod Validate
pub mod Sound
pub mod Usable
pub mod Retention
pub mod Budget
mod Scenarios
use Prim.Native.String.{String}
use flameping.Prelude.{ℕ, Bool, List, Option}
use flameping.Prelude.Int.{ℤ}

pub record ServerConfig : Type 0 where
  pub listen : String
  pub allow_public : Bool

pub record StorageConfig : Type 0 where
  pub path : String
  pub durability : String
  pub raw_retention : ℤ
  pub minute_retention : ℤ
  pub hour_retention : ℤ
  pub trace_retention : ℤ
  pub max_bytes : ℤ
  pub free_space_reserve : ℤ
  pub free_space_reserve_percent : ℤ

pub record PingConfig : Type 0 where
  pub interval : ℤ
  pub timeout : ℤ
  pub min_interval : ℤ
  pub event_queue : ℤ
  pub send_queue : ℤ
  pub max_probes_per_second : ℤ

-- The pointers are options.
pub record TargetPingConfig : Type 0 where
  pub interval : Option ℤ
  pub timeout : Option ℤ
  pub min_interval : Option ℤ

pub record ObsessConfig : Type 0 where
  pub enabled : Option Bool
  pub interval : ℤ
  pub latency_threshold : String
  pub baseline_window : ℤ
  pub min_samples : ℤ
  pub recover_after : ℤ
  pub present : List String

pub record TargetConfig : Type 0 where
  pub id : String
  pub name : String
  pub address : String
  pub family : String
  pub interval : ℤ
  pub timeout : ℤ
  pub ping : Option TargetPingConfig
  pub traceroute : Option Bool
  pub obsess : Option ObsessConfig

pub record InterfaceConfig : Type 0 where
  pub name : String
  pub display_name : String
  pub interval : ℤ

pub record TracerouteConfig : Type 0 where
  pub enabled : Bool
  pub method : String
  pub interval : ℤ
  pub probes_per_hop : ℤ
  pub max_hops : ℤ
  pub hop_timeout : ℤ
  pub overall_timeout : ℤ
  pub pipeline_hops : ℤ
  pub max_packets_per_second : ℤ

pub record LoggingConfig : Type 0 where
  pub level : String
  pub format : String

pub record Config : Type 0 where
  pub server : ServerConfig
  pub storage : StorageConfig
  pub ping : PingConfig
  pub refresh_interval : ℤ
  pub targets : List TargetConfig
  pub interfaces : List InterfaceConfig
  pub traceroute : TracerouteConfig
  pub logging : LoggingConfig
