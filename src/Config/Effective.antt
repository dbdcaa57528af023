-- ===== src/Config/Effective.antt =====
-- internal/config/config.go: the settings that hold for a target, and the latency threshold.
use Prim.Native.String.{String}
use text.Mathlib.Text as Text
use flameping.Prelude.{
  ℕ, ◌*◌, ◌^◌, Bool, true, false, not, ◌&&◌, ◌||◌, if◌then◌else◌, List, [], ◌∷◌, Option, none, some,
}
use flameping.Prelude.Int.{ℤ, pos, ltb_ℤ, leb_ℤ}
use flameping.Config.{TargetPingConfig, ObsessConfig, TargetConfig, Config}

-- Nanoseconds.
abbrev pub millisecond : ℕ
millisecond = 1000000

abbrev pub second : ℕ
second = 1000 * millisecond

abbrev pub minute : ℕ
minute = 60 * second

abbrev pub hour : ℕ
hour = 60 * minute

abbrev pub max_ℤ : ℤ → ℤ → ℤ
max_ℤ a b = if ltb_ℤ a b then b else a

abbrev pub min_ℤ : ℤ → ℤ → ℤ
min_ℤ a b = if ltb_ℤ b a then b else a

-- A setting under `ping`, where it is given, or else what follows.
abbrev pub override : Option TargetPingConfig → (TargetPingConfig → Option ℤ) → ℤ → ℤ
override ping field otherwise = elim ping [
  | none ↦ otherwise
  | some p ↦ elim (field p) [ none ↦ otherwise | some v ↦ v ]
]

unfoldable pub effective_interval : TargetConfig → Config → ℤ
effective_interval t c =
    override t.ping (λ p. p.interval)
      (if ltb_ℤ (pos 0) t.interval then t.interval else c.ping.interval)

unfoldable pub effective_timeout : TargetConfig → Config → ℤ
effective_timeout t c =
    override t.ping (λ p. p.timeout) (if ltb_ℤ (pos 0) t.timeout then t.timeout else c.ping.timeout)

unfoldable pub effective_min_interval : TargetConfig → Config → ℤ
effective_min_interval t c = override t.ping (λ p. p.min_interval) c.ping.min_interval

unfoldable pub trace_enabled : TargetConfig → Bool → Bool
trace_enabled t global = elim t.traceroute [ none ↦ global | some enabled ↦ enabled ]

unfoldable pub contains : List String → String → Bool
contains [] name = false
contains (x ∷ xs) name = Text.◌==◌ x name || contains xs name

-- A number that is 0 and was not written takes the default.
abbrev pub default_to : List String → String → ℤ → ℤ → ℤ
default_to present field default value =
    if leb_ℤ value (pos 0) && leb_ℤ (pos 0) value && not (contains present field)
    then default
    else value

-- `EffectiveObsess`, for a target that has opted in.
unfoldable pub resolved : ObsessConfig → ℤ → ObsessConfig
resolved o min_interval = record o {
  interval =
      default_to o.present "interval" (max_ℤ (pos (100 * millisecond)) min_interval) o.interval;
  latency_threshold =
      if Text.◌==◌ o.latency_threshold "" && not (contains o.present "latency_threshold")
      then "50%"
      else o.latency_threshold;
  baseline_window = default_to o.present "baseline_window" (pos minute) o.baseline_window;
  min_samples = default_to o.present "min_samples" (pos 3) o.min_samples;
  recover_after = default_to o.present "recover_after" (pos minute) o.recover_after;
}

unfoldable pub effective_obsess : TargetConfig → Config → Option ObsessConfig
effective_obsess t c = elim t.obsess [
  | none ↦ none
  | some o ↦ elim o.enabled [
    | some false ↦ none
    | some true ↦ some (resolved o (effective_min_interval t c))
    | none ↦ some (resolved o (effective_min_interval t c))
  ]
]

-- What the code uses of the `strings`, `strconv`, `time`, `net` and `math` packages, over a type for
-- float64. `without_suffix` is `HasSuffix` with `TrimSuffix`; a parser's error is `none`.
pub record Go (F : Type 0) : Type 0 where
  pub trim_space : String → String
  pub without_suffix : String → String → Option String
  pub parse_float : String → Option F
  pub parse_duration : String → Option ℤ
  pub split_host : String → Option String
  pub equal_fold : String → String → Bool
  pub is_loopback_ip : String → Bool
  pub of_ℤ : ℤ → F
  pub add : F → F → F
  pub mul : F → F → F
  pub div : F → F → F
  pub above : F → F → Bool
  pub is_nan : F → Bool
  pub is_inf : F → Bool
  pub seconds : ℤ → F

module _ {F : Type 0} (go : Go F) where
  -- `1 + percent/100`.
  abbrev pub growth : F → F
  growth percent = go.add (go.of_ℤ (pos 1)) (go.div percent (go.of_ℤ (pos 100)))

  -- `Threshold`: an absolute duration, or 0 and a percentage.
  unfoldable pub threshold : ObsessConfig → Option (ℤ × F)
  threshold o =
      let raw = go.trim_space o.latency_threshold in
      elim (go.without_suffix raw "%") [
        | some number ↦ elim (go.parse_float (go.trim_space number)) [
          | none ↦ none
          | some percent ↦
              if go.is_nan percent
                || go.is_inf percent
                || not (go.above percent (go.of_ℤ (pos 0)))
                || go.is_inf (growth percent)
              then none
              else some (pos 0, percent)
        ]
        | none ↦ elim (go.parse_duration raw) [
          | none ↦ none
          | some absolute ↦
              if leb_ℤ absolute (pos 0) then none else some (absolute, go.of_ℤ (pos 0))
        ]
      ]

-- `Defaults`.
abbrev pub defaults : Config
defaults = record {
  server = record { listen = "127.0.0.1:8080"; allow_public = false };
  storage = record {
    path = "./flameping.db";
    durability = "normal";
    raw_retention = pos (7 * 24 * hour);
    minute_retention = pos (90 * 24 * hour);
    hour_retention = pos (5 * 365 * 24 * hour);
    trace_retention = pos (30 * 24 * hour);
    max_bytes = pos (5 * 2 ^ 30);
    free_space_reserve = pos (2 ^ 30);
    free_space_reserve_percent = pos 10;
  };
  ping = record {
    interval = pos (5 * second);
    timeout = pos second;
    min_interval = pos (100 * millisecond);
    event_queue = pos 8192;
    send_queue = pos 1024;
    max_probes_per_second = pos 5000;
  };
  refresh_interval = pos (5 * minute);
  targets = [];
  interfaces = [];
  traceroute = record {
    enabled = true;
    method = "auto";
    interval = pos (15 * minute);
    probes_per_hop = pos 3;
    max_hops = pos 30;
    hop_timeout = pos second;
    overall_timeout = pos (10 * second);
    pipeline_hops = pos 4;
    max_packets_per_second = pos 50;
  };
  logging = record { level = "info"; format = "json" };
}
