-- ===== src/Config/Validate.antt =====
-- internal/config/config.go: `Validate`. Its errors are listed in the order in which the code joins
-- them; the texts of the errors are left out.
use Prim.Native.String.{String}
use Prim.Native.Char.{code}
use text.Mathlib.Text as Text
use flameping.Prelude.{
  ℕ, ◌+◌, ◌*◌, ◌^◌, ◌-◌, ◌/◌, Bool, true, false, not, ◌&&◌, ◌||◌, ◌==◌, ltb, leb, if◌then◌else◌,
  List, [], ◌∷◌, ◌++◌, Option, none, some, length,
}
use flameping.Prelude.Int.{ℤ, pos, pos_part, ◌+ℤ◌, ltb_ℤ, leb_ℤ, wrap_64}
use flameping.Config.{ServerConfig, ObsessConfig, TargetConfig, InterfaceConfig, Config}
use flameping.Config.Effective.{
  Go, growth, threshold, millisecond, minute, hour, max_ℤ, min_ℤ, effective_interval,
  effective_timeout, effective_min_interval, effective_obsess, contains,
}
use flameping.Config.Slots.{max_obsess_state_slots, obsess_slots, obsess_enabled, fastest}

pub data Problem : Type 0 where
  listen not_loopback path durability raw_retention minute_retention raw_over_minute : Problem
  hour_retention trace_retention max_bytes reserve ping_minimum ping_interval ping_timeout : Problem
  ping_queues target_id duplicate_target address family negative interval_twice : Problem
  timeout_twice target_minimum target_interval target_timeout obsess_interval obsess_not_faster :
      Problem
  obsess_threshold obsess_range obsess_positive obsess_samples slots max_timeout rate : Problem
  interface_name duplicate_interface interface_interval method tracing refresh level format :
      Problem

-- The errors whose tests hold.
unfoldable pub reported : List (Bool × Problem) → List Problem
reported [] = []
reported ((holds, problem) ∷ rest) = if holds then problem ∷ reported rest else reported rest

abbrev pub codes : String → List ℕ
codes String.[] = []
codes (String.◌∷◌ c s) = code c ∷ codes s

abbrev is_letter_or_digit : ℕ → Bool
is_letter_or_digit c =
    (leb b'A' c && leb c b'Z') || (leb b'a' c && leb c b'z') || (leb b'0' c && leb c b'9')

unfoldable pub all_of : (ℕ → Bool) → List ℕ → Bool
all_of test [] = true
all_of test (c ∷ cs) = test c && all_of test cs

-- `stableIDRE`.
unfoldable pub is_stable : List ℕ → Bool
is_stable [] = false
is_stable (c ∷ cs) =
    is_letter_or_digit c
    && (ltb (length cs) 64
        && all_of (λ x. is_letter_or_digit x || (x == b'.' || (x == b'_' || x == b'-'))) cs)

abbrev pub is_one_of : String → List String → Bool
is_one_of s [] = false
is_one_of s (x ∷ xs) = Text.◌==◌ s x || is_one_of s xs

module _ {F : Type 0} (go : Go F) where
  -- `validateListen`.
  unfoldable pub listen_problems : ServerConfig → List Problem
  listen_problems s = elim (go.split_host s.listen) [
    | none ↦ listen ∷ []
    | some host ↦
        if s.allow_public || (go.equal_fold host "localhost" || go.is_loopback_ip host)
        then []
        else not_loopback ∷ []
  ]

  unfoldable pub storage_problems : Config → List Problem
  storage_problems c =
      let s = c.storage in
      reported (
        (Text.◌==◌ s.path "", path)
        ∷ (not (is_one_of s.durability ("normal" ∷ "full" ∷ [])), durability)
        ∷ (ltb_ℤ s.raw_retention (pos (24 * hour)), raw_retention)
        ∷ (ltb_ℤ s.minute_retention (pos (30 * 24 * hour)), minute_retention)
        ∷ (ltb_ℤ s.minute_retention s.raw_retention, raw_over_minute)
        ∷ (ltb_ℤ s.hour_retention s.minute_retention, hour_retention)
        ∷ (leb_ℤ s.trace_retention (pos 0), trace_retention)
        ∷ (ltb_ℤ s.max_bytes (pos (64 * 2 ^ 20)), max_bytes)
        ∷ (
          ltb_ℤ s.free_space_reserve (pos 0)
              || (ltb_ℤ s.free_space_reserve_percent (pos 0)
                  || ltb_ℤ (pos 100) s.free_space_reserve_percent),
          reserve,
        )
        ∷ [])

  unfoldable pub ping_problems : Config → List Problem
  ping_problems c =
      let p = c.ping in
      reported (
        (ltb_ℤ p.min_interval (pos (100 * millisecond)), ping_minimum)
        ∷ (ltb_ℤ p.interval p.min_interval, ping_interval)
        ∷ (leb_ℤ p.timeout (pos 0) || leb_ℤ c.storage.raw_retention p.timeout, ping_timeout)
        ∷ (
          ltb_ℤ p.event_queue (pos 64)
              || (ltb_ℤ p.send_queue (pos 1) || ltb_ℤ p.max_probes_per_second (pos 1)),
          ping_queues,
        )
        ∷ [])

  abbrev pub given : Option ℤ → Bool
  given none = false
  given (some v) = true

  abbrev pub is_zero : ℤ → Bool
  is_zero v = leb_ℤ v (pos 0) && leb_ℤ (pos 0) v

  -- A target's own checks; `seen` are the ids before it.
  unfoldable pub target_problems : Config → List String → TargetConfig → List Problem
  target_problems c seen t =
      let interval = effective_interval t c in
      let timeout = effective_timeout t c in
      let minimum = effective_min_interval t c in
      let doubled : Bool × Bool = elim t.ping [
        | none ↦ (false, false)
        | some p ↦ (
          given p.interval && not (is_zero t.interval),
          given p.timeout && not (is_zero t.timeout),
        )
      ] in
      reported (
        (not (is_stable (codes t.id)), target_id)
        ∷ (contains seen t.id, duplicate_target)
        ∷ (Text.◌==◌ (go.trim_space t.address) "", address)
        ∷ (not (is_one_of t.family ("" ∷ "auto" ∷ "4" ∷ "6" ∷ [])), family)
        ∷ (ltb_ℤ t.interval (pos 0) || ltb_ℤ t.timeout (pos 0), negative)
        ∷ (doubled.0, interval_twice)
        ∷ (doubled.1, timeout_twice)
        ∷ (ltb_ℤ minimum (pos (100 * millisecond)), target_minimum)
        ∷ (leb_ℤ interval (pos 0) || ltb_ℤ interval minimum, target_interval)
        ∷ (leb_ℤ timeout (pos 0) || leb_ℤ c.storage.raw_retention timeout, target_timeout)
        ∷ [])

  -- The percentage that `Threshold` returns, 0 with an error.
  abbrev pub percent_of : Option (ℤ × F) → F
  percent_of none = go.of_ℤ (pos 0)
  percent_of (some (absolute, percent)) = percent

  unfoldable pub threshold_problems : ℤ → Option (ℤ × F) → List Problem
  threshold_problems timeout none = obsess_threshold ∷ []
  threshold_problems timeout (some (absolute, percent)) = reported (
      (
        go.above percent (go.of_ℤ (pos 0))
            && (ltb_ℤ (pos 0) timeout
                && go.above (go.mul (go.of_ℤ timeout) (growth go percent))
                    (go.of_ℤ (pos (2 ^ 63 - 1)))),
        obsess_range,
      )
      ∷ [])

  -- The checks of a target's obsess settings.
  unfoldable pub obsess_problems : Config → TargetConfig → ObsessConfig → List Problem
  obsess_problems c t o =
      let interval = effective_interval t c in
      let timeout = effective_timeout t c in
      let minimum = effective_min_interval t c in
      reported (
        (ltb_ℤ o.interval minimum || leb_ℤ o.interval (pos 0), obsess_interval)
        ∷ (leb_ℤ interval o.interval, obsess_not_faster)
        ∷ [])
      ++ (threshold_problems timeout (threshold go o)
          ++ reported (
              (
                leb_ℤ o.baseline_window (pos 0)
                    || (leb_ℤ o.recover_after (pos 0) || leb_ℤ o.min_samples (pos 0)),
                obsess_positive,
              )
              ∷ (
                go.above (percent_of (threshold go o)) (go.of_ℤ (pos 0))
                    && (ltb_ℤ (pos 0) interval
                        && (ltb_ℤ (pos 0) o.baseline_window
                            && ltb_ℤ (pos (pos_part o.baseline_window / pos_part interval))
                                o.min_samples)),
                obsess_samples,
              )
              ∷ []))

  unfoldable pub targets_problems : Config → List String → List TargetConfig → List Problem
  targets_problems c seen [] = []
  targets_problems c seen (t ∷ ts) =
      target_problems c seen t
      ++ ((elim (effective_obsess t c) [ none ↦ [] | some o ↦ obsess_problems c t o ])
          ++ targets_problems c (t.id ∷ seen) ts)

  -- The sum of the rates at which the targets are probed.
  unfoldable pub rate_from : Config → F → List TargetConfig → F
  rate_from c sum [] = sum
  rate_from c sum (t ∷ ts) =
      rate_from c
        (if ltb_ℤ (pos 0) (fastest t c)
          then go.add sum (go.div (go.of_ℤ (pos 1)) (go.seconds (fastest t c)))
          else sum)
        ts

  unfoldable pub largest_timeout : Config → ℤ → List TargetConfig → ℤ
  largest_timeout c largest [] = largest
  largest_timeout c largest (t ∷ ts) = largest_timeout c (max_ℤ largest (effective_timeout t c)) ts

  unfoldable pub total_problems : Config → List Problem
  total_problems c =
      let queue = min_ℤ c.ping.send_queue (pos (max_obsess_state_slots + 1)) in
      let largest = largest_timeout c c.ping.timeout c.targets in
      reported (
        (
          obsess_enabled c c.targets
              && ltb_ℤ (pos max_obsess_state_slots)
                  (pos (obsess_slots c c.targets 0) +ℤ (queue +ℤ queue)),
          slots,
        )
        ∷ (ltb_ℤ c.storage.raw_retention (wrap_64 (largest +ℤ pos minute)), max_timeout)
        ∷ (
          go.above (rate_from c (go.of_ℤ (pos 0)) c.targets) (go.of_ℤ c.ping.max_probes_per_second),
          rate,
        )
        ∷ [])

  unfoldable pub interface_problems : List String → List InterfaceConfig → List Problem
  interface_problems seen [] = []
  interface_problems seen (i ∷ is) =
      reported (
        (
          Text.◌==◌ (go.trim_space i.name) ""
              || not (all_of (λ c. not (c == b'/') && not (c == b'\\')) (codes i.name)),
          interface_name,
        )
        ∷ (contains seen i.name, duplicate_interface)
        ∷ (ltb_ℤ i.interval (pos 0), interface_interval)
        ∷ [])
      ++ interface_problems (i.name ∷ seen) is

  unfoldable pub other_problems : Config → List Problem
  other_problems c =
      let tr = c.traceroute in
      let l = c.logging in
      reported (
        (not (is_one_of tr.method ("auto" ∷ "paris-udp" ∷ "classic-udp" ∷ [])), method)
        ∷ (
          tr.enabled
              && (leb_ℤ tr.interval (pos 0)
                  || (leb_ℤ tr.hop_timeout (pos 0)
                      || (leb_ℤ tr.overall_timeout (pos 0)
                          || (ltb_ℤ tr.probes_per_hop (pos 1)
                              || (ltb_ℤ tr.max_hops (pos 1)
                                  || (ltb_ℤ (pos 255) tr.max_hops
                                      || (ltb_ℤ tr.pipeline_hops (pos 1)
                                          || ltb_ℤ tr.max_packets_per_second (pos 1)))))))),
          tracing,
        )
        ∷ (leb_ℤ c.refresh_interval (pos 0), refresh)
        ∷ (not (is_one_of l.level ("debug" ∷ "info" ∷ "warn" ∷ "error" ∷ [])), level)
        ∷ (not (is_one_of l.format ("json" ∷ "text" ∷ [])), format)
        ∷ [])

  -- `Validate`: no problem is no error.
  unfoldable pub validate : Config → List Problem
  validate c =
      listen_problems c.server
      ++ (storage_problems c
          ++ (ping_problems c
              ++ (targets_problems c [] c.targets
                  ++ (total_problems c
                      ++ (interface_problems [] c.interfaces ++ other_problems c)))))
