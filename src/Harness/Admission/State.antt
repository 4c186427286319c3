-- ===== src/Harness/Admission/State.antt =====
-- harness/admission.py: the records, the fields of `Admission`, and the reads of them.
-- Times are in microseconds; the futures of a ticket are found by its serial number, which is its
-- object identity.
use ach_agent.Base.{
  ℕ, ◌*◌, String, Bool, true, false, not, ◌&&◌, ◌||◌, Option, none, some, List, leb, bit, Eq, ◌==◌,
  nat_eq, string_eq, if◌then◌else◌, ◌≡◌, ◌↔◌, arith,
}
use ach_agent.Base.Dict.{Dict, has, get, sum}
use ach_agent.Channels.Event.{Value, Event, RoutedEvent}
use ach_agent.Harness.Refs.{Hashing}

abbrev pub Set : Type 0
Set = Dict String (Unit {0})

-- timedelta(seconds=n)
abbrev pub seconds : ℕ → ℕ
seconds n = n * 1000000

-- _RATE_WINDOW
abbrev pub rate_window : ℕ
rate_window = seconds 3600

-- The exceptions that a future can be given.
pub data Failure : Type 0 where
  deadline_exceeded : String → Failure
  admission_closed admission_cancelled no_started_signal unknown_started owner_lost : Failure
  runner_raised : String → Failure

-- An asyncio.Future. Whoever holds a ticket can cancel its futures.
pub data Future : Type 0 where
  pending : Future
  result : Value → Future
  failed : Failure → Future
  cancelled : Future

-- not future.done()
abbrev pub is_pending : Future → Bool
is_pending pending = true
is_pending _ = false

-- `if not future.done(): future.set_result(...)`, and likewise with an exception
unfoldable pub settle : Future → Future → Future
settle outcome pending = outcome
settle outcome done = done

-- AdmissionTicket and ScriptAdmissionTicket.
pub data Delivery : Type 0 where
  to_agent : (workspace_ref session_ref : String) → RoutedEvent → Delivery
  to_script : Event → Delivery

pub record Ticket : Type 0 where
  pub serial : ℕ
  pub invocation_id : String
  pub deadline_at : ℕ
  pub delivery : Delivery

-- ticket.routed_event.channel, ticket.event.channel
unfoldable pub ticket_channel : Delivery → String
ticket_channel (to_agent w s e) = e.event.channel
ticket_channel (to_script e) = e.channel

abbrev pub is_script : Delivery → Bool
is_script (to_agent w s e) = false
is_script (to_script e) = true

pub record RecoveredRun : Type 0 where
  pub serial : ℕ
  pub invocation_id : String
  pub channel : String
  pub workspace_ref : String
  pub session_ref : String
  pub config_version : String
  pub deadline_at : ℕ
  pub instance_id : String
  pub run_id : Option String

pub record ChannelRateLimit : Type 0 where
  pub max_per_hour : Option ℕ
  pub per_key : List ℕ

-- (channel,) for the channel's cap, (channel, index, key) for a key's.
pub data RateKey : Type 0 where
  whole_channel : String → RateKey
  per_key : String → ℕ → String → RateKey

pub rate_key_beq : RateKey → RateKey → Bool
rate_key_beq (whole_channel a) (whole_channel b) = a == b
rate_key_beq (per_key a i k) (per_key b j l) = a == b && i == j && k == l
rate_key_beq _ _ = false

pub rate_key_beq_iff : (a b : RateKey) → (rate_key_beq a b ≡ true) ↔ (a ≡ b)
unfolding rate_key_beq
rate_key_beq_iff (whole_channel a) (whole_channel b) = ground (arith, string_eq.beq_iff a b)
rate_key_beq_iff (per_key a i k) (per_key b j l) =
    ground (arith, string_eq.beq_iff a b, string_eq.beq_iff k l)
rate_key_beq_iff (whole_channel a) (per_key b j l) = ground arith
rate_key_beq_iff (per_key a i k) (whole_channel b) = ground arith

instance abbrev pub rate_key_eq : Eq RateKey
unfolding rate_key_beq
rate_key_eq = record { beq = rate_key_beq; beq_iff = rate_key_beq_iff }

-- The arguments of the constructor.
pub record Config : Type 0 where
  pub hashing : Hashing
  pub namespace : String
  pub agent_uid : String
  pub max_concurrent_invocations : ℕ
  pub max_queued_total : ℕ
  pub idempotency_window_seconds : ℕ
  pub max_invocation_seconds : ℕ
  pub workspace_max_concurrent_sessions : ℕ
  pub channel_concurrency : Dict String ℕ
  -- `none`: scripts share the agents' pool
  pub max_concurrent_scripts : Option ℕ
  pub rate_limits : Dict String ChannelRateLimit

-- An asyncio.Semaphore's value, and the cap that it was made with.
pub record Semaphore : Type 0 where
  pub value : ℕ
  pub cap : ℕ

-- The entry that a lane's consumer is busy with. It holds its permits exactly while the runner is
-- at work; before that it polls for them.
pub record Current : Type 0 where
  pub key : String
  pub ticket : Ticket
  pub holding : Bool

-- _Lane
pub record Lane : Type 0 where
  pub queue : List (String × Ticket)
  pub current : Option Current
  -- the task has run
  pub ran : Bool

pub record State : Type 0 where
  -- what self._clock() reads
  pub clock : ℕ
  pub next_serial : ℕ
  pub started : ℕ → Future
  pub completed : ℕ → Future
  pub alarms : List String
  pub rate_admits : Dict RateKey (List ℕ)
  pub global_value : ℕ
  -- unused where scripts share the agents' pool
  pub script_value : ℕ
  pub channel_sems : Dict String Semaphore
  pub workspace_sems : Dict String Semaphore
  pub queued_total : ℕ
  pub tickets : Dict String Ticket
  pub recovered : Dict String RecoveredRun
  pub recovery_tasks : Set
  pub completed_at : Dict String ℕ
  pub released : Set
  pub monitor_expired : Set
  -- each monitor task with the ticket that it watches
  pub monitors : Dict String Ticket
  pub lanes : Dict String Lane
  pub closed : Bool

-- sum(... for key, record in records.items()) over the records that are not released
abbrev pub unreleased {ℓ} : {V : Type ℓ} → (V → Bool) → Set → Dict String V → ℕ
unreleased p released records = sum (λ k v. bit (not (has k released) && p v)) records

-- _recovered_count, with no, one or the other filter, and _recovered_owns_session
unfoldable pub recovered_count : State → ℕ
recovered_count s = unreleased (λ run. true) s.released s.recovered

unfoldable pub recovered_in_channel : String → State → ℕ
recovered_in_channel c s = unreleased (λ run. run.channel == c) s.released s.recovered

unfoldable pub recovered_in_workspace : String → State → ℕ
recovered_in_workspace w s = unreleased (λ run. run.workspace_ref == w) s.released s.recovered

unfoldable pub recovered_owns_session : String → String → State → Bool
recovered_owns_session w r s =
    leb 1
      (unreleased (λ run. run.workspace_ref == w && run.session_ref == r) s.released s.recovered)

-- has_work
abbrev pub targets : String → Option String → Delivery → Bool
targets w none (to_agent w' r' e) = w' == w
targets w (some r) (to_agent w' r' e) = w' == w && r' == r
targets w r (to_script e) = false

abbrev pub run_targets : String → Option String → RecoveredRun → Bool
run_targets w none run = run.workspace_ref == w
run_targets w (some r) run = run.workspace_ref == w && run.session_ref == r

unfoldable pub has_work : String → Option String → State → Bool
has_work w r s =
    leb 1 (unreleased (λ t. targets w r t.delivery) s.released s.tickets)
    || leb 1 (unreleased (run_targets w r) s.released s.recovered)

-- recovered_run
unfoldable pub recovered_run : String → State → Option RecoveredRun
recovered_run k s = if has k s.released then none else get k s.recovered
