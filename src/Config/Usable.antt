-- ===== src/Config/Usable.antt =====
-- internal/config/config.go, `Validate`: the bounds and names on which the store, the engine, the traces
-- and the interface monitor rely.
use Prim.Native.String.{String}
use flameping.Prelude.{
  ◌*◌, ◌^◌, ◌≡◌, ◌⊎◌, inl, inr, false, List, [], ◌∷◌, All, map, arith, Bool-cases,
}
use flameping.Prelude.Int.{pos, ◌≤ℤ◌, ◌<ℤ◌}
use flameping.Config.{TargetConfig, InterfaceConfig, Config}
use flameping.Config.Effective.{Go, hour, millisecond}
use flameping.Config.Sound.{
  AreDistinct, IsFresh, IsFresh-AreDistinct, IsUsable, IsUsable-from, append_nil_iff, reported_nil,
}
use flameping.Config.Validate.{
  interface_problems, listen_problems, other_problems, ping_problems, storage_problems,
  targets_problems, total_problems, validate,
}

-- What the store relies on: raw data is kept for a day or longer, minutes for 30 days and not less
-- than raw data, hours not less than minutes, traces for some time; the database may have 64 MiB.
pub record IsStorable (c : Config) : Type 0 where
  pub raw : pos (24 * hour) ≤ℤ c.storage.raw_retention
  pub minutes : pos (30 * 24 * hour) ≤ℤ c.storage.minute_retention
  pub raw_first : c.storage.raw_retention ≤ℤ c.storage.minute_retention
  pub minutes_first : c.storage.minute_retention ≤ℤ c.storage.hour_retention
  pub traces : pos 0 <ℤ c.storage.trace_retention
  pub bytes : pos (64 * 2 ^ 20) ≤ℤ c.storage.max_bytes
  pub reserve : pos 0 ≤ℤ c.storage.free_space_reserve
  pub percent :
      (pos 0 ≤ℤ c.storage.free_space_reserve_percent)
      × (c.storage.free_space_reserve_percent ≤ℤ pos 100)

-- What the engine relies on: the room of the event bus and of the send queues, the rate, and the
-- defaults of the targets.
pub record IsSendable (c : Config) : Type 0 where
  pub minimum : pos (100 * millisecond) ≤ℤ c.ping.min_interval
  pub paced : c.ping.min_interval ≤ℤ c.ping.interval
  pub waits : (pos 0 <ℤ c.ping.timeout) × (c.ping.timeout <ℤ c.storage.raw_retention)
  pub events : pos 64 ≤ℤ c.ping.event_queue
  pub jobs : pos 1 ≤ℤ c.ping.send_queue
  pub rate : pos 1 ≤ℤ c.ping.max_probes_per_second

-- What the traces rely on, where they are enabled.
pub record IsTraceable (c : Config) : Type 0 where
  pub interval : pos 0 <ℤ c.traceroute.interval
  pub hop_timeout : pos 0 <ℤ c.traceroute.hop_timeout
  pub overall_timeout : pos 0 <ℤ c.traceroute.overall_timeout
  pub probes : pos 1 ≤ℤ c.traceroute.probes_per_hop
  pub hops : (pos 1 ≤ℤ c.traceroute.max_hops) × (c.traceroute.max_hops ≤ℤ pos 255)
  pub pipeline : pos 1 ≤ℤ c.traceroute.pipeline_hops
  pub packets : pos 1 ≤ℤ c.traceroute.max_packets_per_second

-- The interfaces have different names, and no interval is negative.
abbrev pub AreMonitorable : List InterfaceConfig → Type 0
AreMonitorable is =
    AreDistinct (map (λ (i : InterfaceConfig). i.name) is)
    × All (λ (i : InterfaceConfig). pos 0 ≤ℤ i.interval) is

module _ {F : Type 0} (go : Go F) (c : Config) where
  storage_problems_nil : storage_problems go c ≡ [] → IsStorable c
  unfolding storage_problems
  storage_problems_nil h =
      let checks = reported_nil _ h in
      record {
        raw = ground (arith, checks);
        minutes = ground (arith, checks);
        raw_first = ground (arith, checks);
        minutes_first = ground (arith, checks);
        traces = ground (arith, checks);
        bytes = ground (arith, checks);
        reserve = ground (arith, checks);
        percent = ground (arith, checks);
      }

  ping_problems_nil : ping_problems go c ≡ [] → IsSendable c
  unfolding ping_problems
  ping_problems_nil h =
      let checks = reported_nil _ h in
      record {
        minimum = ground (arith, checks);
        paced = ground (arith, checks);
        waits = ground (arith, checks);
        events = ground (arith, checks);
        jobs = ground (arith, checks);
        rate = ground (arith, checks);
      }

  interface_problems_nil :
      (seen : List String) (is : List InterfaceConfig)
      → interface_problems go seen is ≡ []
      → IsFresh seen (map (λ (i : InterfaceConfig). i.name) is)
        × All (λ (i : InterfaceConfig). pos 0 ≤ℤ i.interval) is
  unfolding interface_problems
  interface_problems_nil seen [] h = (tt, tt)
  interface_problems_nil seen (i ∷ is) h =
      let (own, rest) = append_nil_iff _ _ h in
      let checks = reported_nil _ own in
      let (fresh, all) = interface_problems_nil (i.name ∷ seen) is rest in
      ((ground (arith, checks), fresh), (ground (arith, checks), all))

  other_problems_nil :
      other_problems go c ≡ []
      → ((c.traceroute.enabled ≡ false) ⊎ IsTraceable c) × (pos 0 <ℤ c.refresh_interval)
  unfolding other_problems
  other_problems_nil h =
      let checks = reported_nil _ h in
      (
        elim (Bool-cases c.traceroute.enabled) [
          | inl on ↦ inr (record {
            interval = ground (arith, on, checks);
            hop_timeout = ground (arith, on, checks);
            overall_timeout = ground (arith, on, checks);
            probes = ground (arith, on, checks);
            hops = ground (arith, on, checks);
            pipeline = ground (arith, on, checks);
            packets = ground (arith, on, checks);
          })
          | inr off ↦ inl off
        ],
        ground (arith, checks),
      )

  -- Where Validate reports nothing: the retentions of the store are a day for raw data and 30 days
  -- for minutes at least, in ascending order up to hours, that of traces is positive, the database
  -- may have 64 MiB, and its reserves are not negative, the one in percent at most 100; the default
  -- minimal interval is 100 milliseconds at least, the default interval not below it, and the
  -- default timeout positive and shorter than the retention of raw data; the interval of refreshing
  -- addresses is positive; the event bus has room for 64 events, the send queues for one job, and
  -- the rate is positive; where traces are enabled, their intervals, timeouts and rates are
  -- positive, the hops between 1 and 255, and the window is one hop at least; interfaces have
  -- different names and no negative interval; and the targets have different ids, and each one has
  -- a minimal interval of 100 milliseconds or more, an interval that is not below it, and a
  -- positive timeout shorter than the retention of raw data; and its obsess settings, if it has
  -- opted in, have a positive interval between the minimal and the normal one, a threshold that can
  -- be parsed, and a positive window, recovery time and number of samples.
  pub validate-IsUsable :
      validate go c ≡ []
      → IsStorable c
        × IsSendable c
        × ((c.traceroute.enabled ≡ false) ⊎ IsTraceable c)
        × (pos 0 <ℤ c.refresh_interval)
        × AreMonitorable c.interfaces
        × AreDistinct (map (λ (t : TargetConfig). t.id) c.targets)
        × All (IsUsable go c) c.targets
  unfolding validate
  validate-IsUsable h =
      let (listening, h1) = append_nil_iff (listen_problems go c.server) _ h in
      let (stored, h2) = append_nil_iff (storage_problems go c) _ h1 in
      let (pinging, h3) = append_nil_iff (ping_problems go c) _ h2 in
      let (targets, h4) = append_nil_iff (targets_problems go c [] c.targets) _ h3 in
      let (totals, h5) = append_nil_iff (total_problems go c) _ h4 in
      let (interfaces, others) = append_nil_iff (interface_problems go [] c.interfaces) _ h5 in
      let (fresh, usable) = IsUsable-from go c [] c.targets targets in
      let (names, intervals) = interface_problems_nil [] c.interfaces interfaces in
      let (traced, refreshed) = other_problems_nil others in
      (
        storage_problems_nil stored,
        ping_problems_nil pinging,
        traced,
        refreshed,
        (IsFresh-AreDistinct [] _ names, intervals),
        IsFresh-AreDistinct [] _ fresh,
        usable,
      )
