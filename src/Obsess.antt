-- ===== src/Obsess.antt =====
-- internal/obsess/controller.go: the controller that probes a target faster while it deteriorates.
-- Times and durations are natural numbers of nanoseconds, and 0 is the zero `time.Time` of `lastBad`;
-- a duration that is not positive is 0 where the code treats both alike. An address and a probe key
-- are numbers that stand for them. float64 is a parameter type, with its operations in `Floats`.
--
-- The linked list of a target's probes is the list `fifo`. The map `probes` holds exactly the probes
-- that have not settled, under keys that are used once, and the heap `deadlines` the probes whose
-- `on_heap` is set, so both are read off the lists. A history is its live part, behind
-- `historyHead`. An operation reads the clock as one value, `now`.
pub mod Samples
pub mod Settle
pub mod Api
mod Store
pub mod Books
pub mod Probes
pub mod Calls
pub mod Requests
pub mod Runs
pub mod Transitions
pub mod Reports
mod Scenarios
use flameping.Prelude.{
  ℕ, suc, ◌+◌, ◌*◌, ◌^◌, List, [], ◌∷◌, Bool, true, false, ◌==◌, if◌then◌else◌, Option, none, some,
  length, total,
}
use flameping.Prelude.Int.{ℤ}

abbrev pub max_tracked_samples : ℕ
max_tracked_samples = 100000

pub record Floats (F : Type 0) : Type 0 where
  pub of_nat : ℕ → F
  pub add : F → F → F
  pub sub : F → F → F
  pub mul : F → F → F
  pub div : F → F → F
  pub above : F → F → Bool
  pub is_inf : F → Bool

-- `netip.Addr`: `IsValid`, and `Unmap().WithZone("")`.
pub record Net : Type 0 where
  pub is_valid : ℕ → Bool
  pub plain : ℕ → ℕ

-- The effective `config.ObsessConfig`.
pub record Policy : Type 0 where
  pub interval : ℕ
  pub baseline_window : ℕ
  pub recover_after : ℕ
  pub min_samples : ℕ

-- The fields of `model.ProbeEvent` that the controller reads; `late` is the class `ReplyLate`.
pub record ProbeEvent : Type 0 where
  pub key : ℕ
  pub target_id : ℕ
  pub endpoint : ℕ
  pub sent_at : ℕ
  pub timeout : ℕ
  pub reply_at : Option ℕ
  pub rtt : ℤ
  pub late : Bool
  pub responder : ℕ
  pub icmp_type : ℕ
  pub icmp_code : ℕ

pub data Reason : Type 0 where
  unset loss latency recovered endpoint_changed : Reason

module _ (F : Type 0) where
  pub record Sample : Type 0 where
    pub sent_at : ℕ
    pub rtt : F

  -- `probe`; `ref` is the pointer's identity.
  pub record Probe : Type 0 where
    pub ref : ℕ
    pub event : ProbeEvent
    pub on_heap : Bool
    pub accepted : Bool
    pub done : Bool
    pub good : Bool
    pub rtt : F
    pub early : Option ProbeEvent
    pub baseline : F
    pub baseline_count : ℕ
    pub threshold : Option F

  -- `targetState`; `threshold` is `none` where `hasThreshold` is false.
  pub record TargetState : Type 0 where
    pub id : ℕ
    pub endpoint : ℕ
    pub interval : ℕ
    pub policy : Option Policy
    pub absolute : ℕ
    pub percent : F
    pub active : Bool
    pub reason : Reason
    pub since : Option ℕ
    pub baseline : F
    pub baseline_count : ℕ
    pub threshold : Option F
    pub healthy_since : Option ℕ
    pub healthy_through : Option ℕ
    pub last_bad : ℕ
    pub history : List Sample
    pub fifo : List Probe
    pub tracking_limited : Bool

  -- `Transition`, with what `Status` says of the state: whether the target is active.
  pub record Transition : Type 0 where
    pub target_id : ℕ
    pub active : Bool
    pub endpoint : ℕ
    pub reason : Reason
    pub at : ℕ
    pub trigger : Option ProbeEvent

  -- `wake` is the channel of capacity 1, and `changes` the calls of `change`, newest first: a target
  -- and its new probe interval.
  pub record Controller : Type 0 where
    pub targets : List TargetState
    pub tracked : ℕ
    pub samples : ℕ
    pub next_ref : ℕ
    pub running : Bool
    pub wake : Bool
    pub changes : List (ℕ × ℕ)

-- `deadline`.
abbrev pub deadline : ProbeEvent → ℕ
deadline e = e.sent_at + e.timeout

module _ {F : Type 0} where
  -- `targets[id]`.
  unfoldable pub find : ℕ → List (TargetState F) → Option (TargetState F)
  find id [] = none
  find id (t ∷ ts) = if id == t.id then some t else find id ts

  -- What is written through the pointer to a target.
  unfoldable pub put : TargetState F → List (TargetState F) → List (TargetState F)
  put new [] = []
  put new (t ∷ ts) = if new.id == t.id then new ∷ ts else t ∷ put new ts

  abbrev pub store : TargetState F → Controller F → Controller F
  store t c = record c { targets = put t c.targets }
