-- ===== src/Config/Scenarios.antt =====
-- internal/config/config.go: the defaults with two targets, one of which has opted in to obsess.
use flameping.Prelude.{
  ℕ, ◌+◌, ◌*◌, ◌/◌, ◌≤◌, ◌≡◌, refl, true, [], ◌∷◌, none, some, All, arith, ltb, map, false, ◌⊎◌,
}
use flameping.Prelude.Int.{pos, pos_part, ◌+ℤ◌, ◌≤ℤ◌, ◌<ℤ◌, wrap_64}
use flameping.Config.{TargetConfig, Config}
use flameping.Config.Effective.{
  Go, defaults, threshold, millisecond, second, minute, effective_interval, effective_timeout,
  effective_min_interval, effective_obsess, resolved, contains,
}
use flameping.Config.Slots.{
  max_obsess_state_slots, obsess_enabled, duration_slots, add_slots, obsess_slots, fastest,
}
use flameping.Config.Validate.{
  validate, reported, is_stable, all_of, listen_problems, storage_problems, ping_problems,
  target_problems, threshold_problems, obsess_problems, targets_problems, rate_from,
  largest_timeout, total_problems, interface_problems, other_problems,
}
use flameping.Config.Sound.{AreDistinct, IsUsable}
use flameping.Config.Usable.{AreMonitorable, IsSendable, IsStorable, IsTraceable, validate-IsUsable}
use flameping.Config.Retention.{validate_retention}
use flameping.Config.Budget.{slots_needed, validate_slots}

-- Numbers in place of float64; every duration parses to 80 milliseconds, and no text is a percentage.
abbrev go : Go ℕ
go = record {
  trim_space = λ s. s;
  without_suffix = λ s suffix. none;
  parse_float = λ s. none;
  parse_duration = λ s. some (pos (80 * millisecond));
  split_host = λ s. some "localhost";
  equal_fold = λ s t. true;
  is_loopback_ip = λ s. false;
  of_ℤ = pos_part;
  add = λ a b. a + b;
  mul = λ a b. a * b;
  div = λ a b. a / b;
  above = λ a b. ltb b a;
  is_nan = λ a. false;
  is_inf = λ a. false;
  seconds = λ v. pos_part v / second + 1;
}

abbrev router : TargetConfig
router = record {
  id = "router";
  name = "";
  address = "192.0.2.1";
  family = "4";
  interval = pos 0;
  timeout = pos 0;
  ping = none;
  traceroute = none;
  obsess = none;
}

abbrev uplink : TargetConfig
uplink = record router {
  id = "uplink";
  family = "";
  ping = some (record { interval = none; timeout = some (pos (2 * second)); min_interval = none });
  obsess = some (record {
    enabled = none;
    interval = pos 0;
    latency_threshold = "80ms";
    baseline_window = pos 0;
    min_samples = pos 0;
    recover_after = pos 0;
    present = "latency_threshold" ∷ [];
  });
}

abbrev config : Config
config = record defaults {
  targets = router ∷ uplink ∷ [];
  interfaces =
      record { name = "eth0"; display_name = ""; interval = pos 0 }
      ∷ record { name = "eth1"; display_name = ""; interval = pos second }
      ∷ [];
}

config_valid : validate go config ≡ []
unfolding validate listen_problems storage_problems ping_problems targets_problems target_problems
    obsess_problems threshold_problems threshold total_problems interface_problems other_problems
    reported is_stable all_of contains effective_interval effective_timeout effective_min_interval
    effective_obsess resolved obsess_enabled obsess_slots add_slots duration_slots fastest rate_from
    largest_timeout wrap_64 ◌+ℤ◌
config_valid = refl

config_enabled : obsess_enabled config config.targets ≡ true
unfolding obsess_enabled effective_obsess
config_enabled = refl

validate-IsUsable_example :
    IsStorable config
    × IsSendable config
    × ((config.traceroute.enabled ≡ false) ⊎ IsTraceable config)
    × (pos 0 <ℤ config.refresh_interval)
    × AreMonitorable config.interfaces
    × AreDistinct (map (λ (t : TargetConfig). t.id) config.targets)
    × All (IsUsable go config) config.targets
validate-IsUsable_example = validate-IsUsable go config config_valid

validate_retention_example :
    All
      (λ (t : TargetConfig).
        effective_timeout t config +ℤ pos minute ≤ℤ config.storage.raw_retention)
      config.targets
validate_retention_example = validate_retention go config config_valid (omega arith)

validate_slots_example :
    slots_needed config config.targets + 2 * pos_part config.ping.send_queue
    ≤ max_obsess_state_slots
validate_slots_example = validate_slots go config config_valid config_enabled
