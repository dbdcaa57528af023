-- ===== src/Echo.antt =====
-- internal/echo: the engine that sends the probes which the scheduler submits, and takes in their
-- replies. A socket, the clock and the sum that authenticates a payload are outside. An address is a
-- number; times are numbers of nanoseconds.
pub mod Payload
pub mod Loops
pub mod Accounts
pub mod Families
pub mod Replies
mod Scenarios
use flameping.Prelude.{ℕ, Bool, List, Option}
use flameping.Scheduler.{Job, Gap}

-- `Target`, as far as the engine reads it.
pub record EchoTarget : Type 0 where
  pub id : ℕ
  pub endpoint : ℕ
  pub timeout : ℕ

-- What is fixed: the addresses' `IsValid` and `Is4`, the room of a queue, the run, the secret and the
-- sum under it, and whether there is an observer.
pub record Setup : Type 0 where
  pub is_valid : ℕ → Bool
  pub is_4 : ℕ → Bool
  pub send_queue : ℕ
  pub run_id : List ℕ
  pub secret : List ℕ
  pub mac : List ℕ → List ℕ → List ℕ
  pub watched : Bool

-- A family's socket and its queue. A job whose value is of another type has no target.
pub record Line : Type 0 where
  pub is_open : Bool
  pub failed : Bool
  pub jobs : List (Job (Option EchoTarget))

-- `Engine`; `current` is the map of endpoints, and `done` whether `Run` has returned.
pub record Engine : Type 0 where
  pub current : List (ℕ × ℕ)
  pub v4 : Line
  pub v6 : Line
  pub gaps : List Gap
  pub sequence : ℕ
  pub inputs_closed : Bool
  pub done : Bool

-- `model.ProbeEvent`, as it is sent.
pub record SentProbe : Type 0 where
  pub sequence : ℕ
  pub target_id : ℕ
  pub endpoint : ℕ
  pub scheduled_at : ℕ
  pub sent_at : ℕ
  pub timeout : ℕ

-- The calls that the engine makes, of the event bus, of the observer and of a socket, with the answers
-- of `TrySubmit`, the gaps that `RecordGap` takes, and the end of a send loop or of the
-- gaps' loop by an error. `written` says which family's socket it is. A gap that the
-- engine finds itself is `gap_published`, one of the queue `gap_passed`.
pub data Act : Type 0 where
  accepted refused : Job (Option EchoTarget) → Act
  reserved cancelled : Act
  -- A send loop ends with the error of the job in hand, of a target and a slot, and the loop over
  -- the gaps with that of a gap.
  stopped : ℕ → ℕ → Act
  gap_stopped : Gap → Act
  moved : ℕ → ℕ → Act
  gap_observed gap_published gap_recorded gap_passed : Gap → Act
  begun : SentProbe → Act
  written : Bool → ℕ → ℕ → Act
  completed : ℕ → Bool → Act
  published : SentProbe → Bool → Act
