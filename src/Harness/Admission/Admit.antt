-- ===== src/Harness/Admission/Admit.antt =====
-- harness/admission.py: `admit`, `admit_script`, `recover` and the rate limits. A call that raises
-- keeps what it changed before.
use ach_agent.Base.{
  ℕ, ◌+◌, String, Bool, true, false, ◌&&◌, Option, none, some, List, [], ◌∷◌, ◌++◌, leb, ◌==◌,
  nat_eq, string_eq, if◌then◌else◌,
}
use Prim.Native.String
use ach_agent.Base.Dict.{get, put}
use ach_agent.Channels.Event.{Event, RoutedEvent, get_field, object}
use ach_agent.Harness.Refs.{Hashing, workspace_ref, session_ref, invocation_digest}
use ach_agent.Harness.Admission.State.{
  State, Config, Ticket, RecoveredRun, Lane, pending, failed, unknown_started, to_agent, to_script,
  seconds, rate_window, RateKey, whole_channel, per_key, rate_key_eq, is_script,
}
use ach_agent.Harness.Admission.Ledger.{
  Known, known, ticket, recovered_run, sweep_expired, existing_ticket, update,
}

pub data AdmitError : Type 0 where
  closed queue_full rate_limited zip_length_mismatch conflicting_ownership : AdmitError

pub data Result {ℓ} (A : Type ℓ) : Type ℓ where
  ok : A → Result A
  err : AdmitError → Result A

abbrev pub raise_alarm : String → State → State
raise_alarm reason s = record s { alarms = reason ∷ s.alarms }

-- while admits and now - admits[0] >= _RATE_WINDOW: admits.popleft()
unfoldable pub drop_old : ℕ → List ℕ → List ℕ
drop_old now [] = []
drop_old now (a ∷ rest) =
    let later = drop_old now rest in if leb (a + rate_window) now then later else a ∷ rest

abbrev pub admits_at : RateKey → State → List ℕ
admits_at k s = elim (get k s.rate_admits) [ none ↦ [] | some admits ↦ admits ]

abbrev pub count : List ℕ → ℕ
count [] = 0
count (a ∷ rest) = 1 + count rest

-- zip(limits.per_key, routed_event.rate_keys, strict=True), numbered
unfoldable pub zip_strict : String → ℕ → List ℕ → List String → Option (List (RateKey × ℕ))
zip_strict c i [] [] = some []
zip_strict c i (cap ∷ caps) (k ∷ ks) = elim (zip_strict c (i + 1) caps ks) [
  | none ↦ none
  | some rest ↦ some ((per_key c i k, cap) ∷ rest)
]
zip_strict c i _ _ = none

abbrev pub with_channel_cap :
    String → Option ℕ → Option (List (RateKey × ℕ)) → Option (List (RateKey × ℕ))
with_channel_cap c none checks = checks
with_channel_cap c (some cap) none = none
with_channel_cap c (some cap) (some checks) = some ((whole_channel c, cap) ∷ checks)

-- the list `checks` of _check_rate
unfoldable pub rate_checks : Config → RoutedEvent → Option (List (RateKey × ℕ))
unfolding zip_strict
rate_checks cfg e = elim (get e.event.channel cfg.rate_limits) [
  | none ↦ some []
  | some limits ↦
      with_channel_cap e.event.channel limits.max_per_hour
        (zip_strict e.event.channel 0 limits.per_key e.rate_keys)
]

-- the loop over `checks`: each window is trimmed before it is held to its cap
unfoldable pub check_windows : List (RateKey × ℕ) → State → State × Result (Unit {0})
unfolding drop_old
check_windows [] s = (s, ok tt)
check_windows ((k, cap) ∷ checks) s =
    let admits = drop_old s.clock (admits_at k s) in
    let trimmed : State = record s { rate_admits = put k admits s.rate_admits } in
    let rest = check_windows checks trimmed in
    if leb cap (count admits)
    then (raise_alarm "rate limit rejected" trimmed, err rate_limited)
    else rest

-- for admits in rate_windows: admits.append(now)
unfoldable pub append_admits : List (RateKey × ℕ) → State → State
append_admits [] s = s
append_admits ((k, cap) ∷ checks) s =
    append_admits checks
      (record s { rate_admits = put k (admits_at k s ++ s.clock ∷ []) s.rate_admits })

abbrev pub lane_at : String → State → Lane
lane_at k s = elim (get k s.lanes) [
  | none ↦ record { queue = []; current = none; ran = false }
  | some l ↦ l
]

-- the ticket enters the ledger before the lane; the monitor's task is created with it
unfoldable pub enqueue : String → String → Ticket → State → State
enqueue k lane_key t s = record s {
  next_serial = s.next_serial + 1;
  started = update s.started t.serial pending;
  completed = update s.completed t.serial pending;
  tickets = put k t s.tickets;
  queued_total = s.queued_total + 1;
  monitors = put k t s.monitors;
  lanes =
      put lane_key
        (record {
          queue = (lane_at lane_key s).queue ++ (k, t) ∷ [];
          current = (lane_at lane_key s).current;
          ran = (lane_at lane_key s).ran;
        })
        s.lanes;
}

abbrev new_ticket : Config → String → RoutedEvent → State → Ticket
new_ticket cfg k e s =
    let w = workspace_ref cfg.hashing cfg.namespace cfg.agent_uid e.workspace_key in
    record {
      serial = s.next_serial;
      invocation_id = k;
      deadline_at = s.clock + seconds cfg.max_invocation_seconds;
      delivery = to_agent w (session_ref cfg.hashing w e.session_key) e;
    }

-- admit, behind the look-up and the rate limits
unfoldable pub admit_new :
    Config → String → RoutedEvent → List (RateKey × ℕ) → State → State × Result Known
unfolding append_admits enqueue
admit_new cfg k e checks s =
    if leb cfg.max_queued_total s.queued_total
    then (raise_alarm "admission queue capacity rejected" s, err queue_full)
    else (let w = workspace_ref cfg.hashing cfg.namespace cfg.agent_uid e.workspace_key in
        let t : Ticket = new_ticket cfg k e s in
        (
          append_admits checks (enqueue k (session_ref cfg.hashing w e.session_key) t s),
          ok (ticket t),
        ))

-- A delivery that finds its key again gets what the key stands for.
unfoldable pub known_again : Known → State → State
known_again (ticket t) s = s
known_again (recovered_run r) s = raise_alarm "recovered Started outcome is unknown" s

-- behind the rate limits
unfoldable pub admit_allowed :
    Config
    → String
    → RoutedEvent
    → List (RateKey × ℕ)
    → Result (Unit {0})
    → State
    → State × Result Known
unfolding admit_new
admit_allowed cfg k e checks (ok _) s = admit_new cfg k e checks s
admit_allowed cfg k e checks (err error) s = (s, err error)

unfoldable pub admit_limited :
    Config → String → RoutedEvent → Option (List (RateKey × ℕ)) → State → State × Result Known
unfolding check_windows admit_allowed
admit_limited cfg k e none s = (s, err zip_length_mismatch)
admit_limited cfg k e (some checks) s =
    let (s', allowed) = check_windows checks s in admit_allowed cfg k e checks allowed s'

-- behind the look-up: a known key is answered, a new one is held to the limits
unfoldable pub admit_found :
    Config → String → RoutedEvent → Option Known → State → State × Result Known
unfolding known_again rate_checks admit_limited
admit_found cfg k e (some r) s = (known_again r s, ok r)
admit_found cfg k e none s = admit_limited cfg k e (rate_checks cfg e) s

-- _dedup_key
unfoldable pub dedup_key : Config → Event → String
dedup_key cfg e = invocation_digest cfg.hashing cfg.agent_uid e.channel e.event_id

-- admit
unfoldable pub admit : Config → RoutedEvent → State → State × Result Known
unfolding dedup_key sweep_expired existing_ticket admit_found
admit cfg e s =
    if s.closed
    then (s, err closed)
    else (let k = dedup_key cfg e.event in
        let (s', existing) = existing_ticket cfg k (sweep_expired cfg s) in
        admit_found cfg k e existing s')

-- context.get("projectId", "") of the event's GitLab context, "" if there is none
unfoldable pub script_project : Hashing → Event → String
script_project h e = elim (get_field "gitlab" e.context) [
  | some (object fs) ↦ elim (get_field "projectId" fs) [ none ↦ "" | some v ↦ h.py_str v ]
  | _ ↦ ""
]

unfoldable pub script_lane : Config → Event → String
unfolding script_project
script_lane cfg e =
    String.◌++◌ "script:"
      (invocation_digest cfg.hashing cfg.agent_uid e.channel (script_project cfg.hashing e))

-- admit_script, behind the look-up
unfoldable pub admit_script_fresh : Config → String → Event → State → State × Result Ticket
unfolding script_lane enqueue
admit_script_fresh cfg k e s =
    if leb cfg.max_queued_total s.queued_total
    then (raise_alarm "admission queue capacity rejected" s, err queue_full)
    else (let t : Ticket = record {
      serial = s.next_serial;
      invocation_id = k;
      deadline_at = s.clock + seconds cfg.max_invocation_seconds;
      delivery = to_script e;
    } in
        (enqueue k (script_lane cfg e) t s, ok t))

-- an existing ticket must be a script's
unfoldable pub script_again : Known → State → State × Result Ticket
script_again (ticket t) s =
    if is_script t.delivery then (s, ok t) else (s, err conflicting_ownership)
script_again (recovered_run r) s =
    (raise_alarm "recovered Started outcome is unknown" s, err conflicting_ownership)

unfoldable pub admit_script_found :
    Config → String → Event → Option Known → State → State × Result Ticket
unfolding script_again admit_script_fresh
admit_script_found cfg k e (some r) s = script_again r s
admit_script_found cfg k e none s = admit_script_fresh cfg k e s

-- admit_script
unfoldable pub admit_script : Config → Event → State → State × Result Ticket
unfolding dedup_key sweep_expired existing_ticket admit_script_found
admit_script cfg e s =
    if s.closed
    then (s, err closed)
    else (let k = dedup_key cfg e in
        let (s', existing) = existing_ticket cfg k (sweep_expired cfg s) in
        admit_script_found cfg k e existing s')

-- the two run identifiers do not contradict one another
abbrev compatible_run : Option String → Option String → Bool
compatible_run (some a) (some b) = a == b
compatible_run _ _ = true

-- `same` of recover: the run that is known against the one that is claimed
unfoldable pub same_run : RecoveredRun → RecoveredRun → Bool
same_run old new =
    old.channel == new.channel
    && old.workspace_ref == new.workspace_ref
    && old.session_ref == new.session_ref
    && old.config_version == new.config_version
    && old.deadline_at == new.deadline_at
    && old.instance_id == new.instance_id
    && compatible_run old.run_id new.run_id

-- The run is claimed with the next serial number, whatever number the argument carries.
unfoldable pub claim : RecoveredRun → State → State
claim run s = record s {
  next_serial = s.next_serial + 1;
  started = update s.started s.next_serial (failed unknown_started);
  completed = update s.completed s.next_serial pending;
  recovered = put run.invocation_id (record run { serial = s.next_serial }) s.recovered;
  queued_total = s.queued_total + 1;
  alarms = "recovered Started outcome is unknown" ∷ s.alarms;
  recovery_tasks = put run.invocation_id tt s.recovery_tasks;
}

-- what the key stands for against the run that is claimed
unfoldable pub recover_known : Option Known → RecoveredRun → State → State × Result RecoveredRun
unfolding same_run claim
recover_known none run s = (claim run s, ok (record run { serial = s.next_serial }))
recover_known (some (ticket t)) run s = (s, err conflicting_ownership)
recover_known (some (recovered_run old)) run s =
    if same_run old run
    then (raise_alarm "recovered Started outcome is unknown" s, ok old)
    else (s, err conflicting_ownership)

-- recover
unfoldable pub recover : Config → RecoveredRun → State → State × Result RecoveredRun
unfolding sweep_expired recover_known
recover cfg run s =
    if s.closed
    then (s, err closed)
    else (let s' = sweep_expired cfg s in
        recover_known
          (known (get run.invocation_id s'.tickets) (get run.invocation_id s'.recovered)) run s')
