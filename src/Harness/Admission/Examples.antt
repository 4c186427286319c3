-- ===== src/Harness/Admission/Examples.antt =====
-- harness/admission.py: a small agent, and what its object does on one schedule.
use ach_agent.Base.{
  ℕ, ◌+◌, ◌↔◌, ◌==◌, arith, if◌then◌else◌, ◌≤◌, String, ◌≡◌, refl, Bool, true, false, Option, none,
  some, List, [], ◌∷◌, string_eq,
}
use Prim.Native.String
use ach_agent.Base.Dict.{Dict, empty, put, get, get-put, get-empty}
use ach_agent.Channels.Event.{end, null, Event, RoutedEvent}
use ach_agent.Harness.Refs.{Hashing}
use ach_agent.Harness.Admission.State.{
  failed, admission_closed, RateKey, whole_channel, rate_key_eq, State, Config, ChannelRateLimit,
  RecoveredRun, Delivery, to_agent, Ticket,
}
use ach_agent.Harness.Admission.Ledger.{ticket}
use ach_agent.Harness.Admission.Permits.{channel_cap}
use ach_agent.Harness.Admission.Admit.{admit, admits_at, check_windows, ok}
use ach_agent.Harness.Admission.Again.{admit_known, Answered}
use ach_agent.Harness.Admission.Balance.{IsBalanced}
use ach_agent.Harness.Admission.Balance.Closed.{IsClosed}
use ach_agent.Harness.Admission.Permitted.{IsPermitted, running, uses_global}
use ach_agent.Harness.Admission.Pool.{available}
use ach_agent.Harness.Admission.Close.{close}
use ach_agent.Harness.Admission.Tasks.{returned, observed}
use ach_agent.Harness.Admission.Run.{
  init, Action, clock_reads, admits, admits_script, recovers, lane_runs, runner_comes_back,
  observer_comes_back, completed_cancelled, run,
}
use ach_agent.Harness.Admission.Run.Accounting.{run-IsBalanced, run-close}
use ach_agent.Harness.Admission.Run.Queue.{run-claimed, claimed}
use ach_agent.Harness.Admission.Rates.{InOrder, Roomy, WindowsInOrder, check_windows-Roomy}
use ach_agent.Harness.Admission.Permits.{acquire, ensure_permits, taken, again}
use ach_agent.Harness.Admission.Run.Room.{run-Room, Room}
use ach_agent.Harness.Admission.Run.Permits.{run-IsPermitted, close-all_free}

joined : List String → String
joined [] = ""
joined (a ∷ rest) = String.◌++◌ a (String.◌++◌ "," (joined rest))

abbrev readable : Hashing
unfolding joined
readable = record { dumps = joined; sha256_hex = λ text. text; py_str = λ v. "1" }

abbrev small_agent : Config
small_agent = record {
  hashing = readable;
  namespace = "prod";
  agent_uid = "agent";
  max_concurrent_invocations = 2;
  max_queued_total = 3;
  idempotency_window_seconds = 60;
  max_invocation_seconds = 30;
  workspace_max_concurrent_sessions = 1;
  channel_concurrency = put "hooks" 1 empty;
  max_concurrent_scripts = some 1;
  rate_limits = put "hooks" (record { max_per_hour = some 2; per_key = [] }) empty;
}

event_on : String → String → Event
event_on channel name = record {
  event_id = name;
  channel = channel;
  type = "push";
  source = "gitlab";
  payload = end;
  context = end;
  actor = "dev";
}

routed : String → String → RoutedEvent
unfolding event_on
routed channel name = record {
  event = event_on channel name;
  workspace_key = "repo";
  session_key = name;
  rate_keys = [];
}

abbrev old_run : RecoveredRun
old_run = record {
  serial = 0;
  invocation_id = "before";
  channel = "hooks";
  workspace_ref = "old";
  session_ref = "old";
  config_version = "1";
  deadline_at = 9000000;
  instance_id = "pod";
  run_id = none;
}

abbrev lane_of : String → String
lane_of name = String.◌++◌ "prod,agent,repo,," (String.◌++◌ name ",")

-- Two deliveries of one workspace, one of them twice, a script and a recovered run.
abbrev busy_morning : List Action
unfolding event_on routed
busy_morning =
    recovers old_run
    ∷ admits (routed "chat" "first")
    ∷ admits (routed "chat" "first")
    ∷ admits (routed "hooks" "second")
    ∷ admits_script (event_on "hooks" "third")
    ∷ lane_runs (lane_of "first")
    ∷ lane_runs (lane_of "second")
    ∷ completed_cancelled 1
    ∷ clock_reads 5000000
    ∷ observer_comes_back "before" observed
    ∷ lane_runs (lane_of "second")
    ∷ runner_comes_back (lane_of "first") (returned null)
    ∷ lane_runs (lane_of "second")
    ∷ []

test_one_runner_at_work :
    running (uses_global small_agent) (run small_agent busy_morning (init small_agent 0)).lanes ≡ 1
unfolding run init joined event_on routed get ach_agent.Base.Dict.keys empty put
    ach_agent.Harness.Refs.invocation_digest ach_agent.Harness.Refs.session_ref
    ach_agent.Harness.Refs.workspace_ref ach_agent.Base.Dict.sum ach_agent.Base.Dict.filter
    ach_agent.Base.Dict.remove ach_agent.Harness.Admission.State.recovered_count
    ach_agent.Harness.Admission.State.recovered_in_channel
    ach_agent.Harness.Admission.State.recovered_in_workspace
    ach_agent.Harness.Admission.State.recovered_owns_session
test_one_runner_at_work = refl

run-IsBalanced_example : IsBalanced (run small_agent busy_morning (init small_agent 0))
run-IsBalanced_example = run-IsBalanced small_agent 0 busy_morning

run-close_example : IsClosed (close small_agent (run small_agent busy_morning (init small_agent 0)))
run-close_example = run-close small_agent 0 busy_morning

-- A lane that is cancelled before its task ran does not fail its ticket: `close` does.
test_never_ran :
    let s = run small_agent (admits (routed "chat" "first") ∷ []) (init small_agent 0) in
    (close small_agent s).completed 0 ≡ failed admission_closed
unfolding close run init joined event_on routed get ach_agent.Base.Dict.keys empty put
    ach_agent.Base.Dict.items ach_agent.Base.Dict.remove ach_agent.Base.Dict.filter
    ach_agent.Harness.Refs.invocation_digest ach_agent.Harness.Refs.session_ref
    ach_agent.Harness.Refs.workspace_ref ach_agent.Harness.Admission.Ledger.update
    ach_agent.Harness.Admission.State.settle
test_never_ran = refl

run-IsPermitted_example :
    IsPermitted small_agent (run small_agent busy_morning (init small_agent 0))
run-IsPermitted_example = run-IsPermitted small_agent 0 busy_morning

-- While the recovered run has the one permit of "hooks", a delivery of it waits.
abbrev hooks_waits : Delivery
unfolding event_on routed
hooks_waits = to_agent "repo" "fourth" (routed "hooks" "fourth")

test_hooks_waits :
    let s = run small_agent (recovers old_run ∷ []) (init small_agent 0) in
    (acquire small_agent 100 hooks_waits (ensure_permits small_agent hooks_waits s)).1 ≡ again
unfolding run init acquire ensure_permits get empty put event_on routed ach_agent.Base.Dict.sum
    ach_agent.Base.Dict.filter ach_agent.Base.Dict.keys
    ach_agent.Harness.Admission.State.recovered_count
    ach_agent.Harness.Admission.State.recovered_in_channel
    ach_agent.Harness.Admission.State.recovered_in_workspace
    ach_agent.Harness.Admission.State.recovered_owns_session
test_hooks_waits = refl

run-Room_example :
    let s = run small_agent (recovers old_run ∷ []) (init small_agent 0) in
    ((acquire small_agent 100 hooks_waits (ensure_permits small_agent hooks_waits s)).1 ≡ taken)
    ↔ Room small_agent 100 hooks_waits s
run-Room_example = run-Room small_agent 0 (recovers old_run ∷ []) 100 hooks_waits

close-all_free_example :
    let s = close small_agent (run small_agent busy_morning (init small_agent 0)) in
    (s.global_value ≡ 2)
    × (s.script_value ≡ 1)
    × ((c : String)
        → available (channel_cap small_agent) c s.channel_sems ≡ channel_cap small_agent c)
    × ((w : String) → available (λ _. 1) w s.workspace_sems ≡ 1)
close-all_free_example = close-all_free small_agent 0 busy_morning

abbrev first_ticket : Ticket
unfolding routed event_on
first_ticket = record {
  serial = 0;
  invocation_id = "agent,chat,first,";
  deadline_at = 30000000;
  delivery = to_agent "prod,agent,repo," (lane_of "first") (routed "chat" "first");
}

abbrev opening : State
opening = run small_agent (admits (routed "chat" "first") ∷ []) (init small_agent 0)

admit_known_example :
    Answered opening
      (admit small_agent (routed "chat" "first") opening).0
      (admit small_agent (routed "chat" "first") opening).1
      (ticket first_ticket)
unfolding run init joined event_on routed admit get ach_agent.Base.Dict.keys empty put
    ach_agent.Harness.Refs.invocation_digest ach_agent.Harness.Refs.session_ref
    ach_agent.Harness.Refs.workspace_ref
admit_known_example =
    admit_known small_agent (routed "chat" "first") (ticket first_ticket) opening refl refl refl

run-claimed_example :
    (run small_agent busy_morning (init small_agent 0)).queued_total
    ≤ 3 + claimed small_agent busy_morning (init small_agent 0)
run-claimed_example = run-claimed small_agent 0 busy_morning

-- Two admissions on a channel in the last hour.
abbrev two_times : List ℕ
two_times = 10 ∷ 20 ∷ []

abbrev rated : State
rated = record (init small_agent 50) { rate_admits = put (whole_channel "hooks") two_times empty }

times_at :
    (k : RateKey) → admits_at k rated ≡ (if whole_channel "hooks" == k then two_times else [])
times_at k =
    ground (arith, get-put (whole_channel "hooks") k two_times empty, get-empty {V = List ℕ} k)

rated-WindowsInOrder : WindowsInOrder rated
rated-WindowsInOrder k = rw (times_at k) (by_key (whole_channel "hooks" == k))
  where
    by_key : (b : Bool) → InOrder (if b then two_times else [])
    by_key true = ((omega arith, tt), (tt, tt))
    by_key false = tt

check_windows-Roomy_example :
    ((check_windows ((whole_channel "hooks", 3) ∷ []) rated).1 ≡ ok tt)
    ↔ Roomy rated.clock rated ((whole_channel "hooks", 3) ∷ [])
check_windows-Roomy_example =
    check_windows-Roomy ((whole_channel "hooks", 3) ∷ []) rated rated-WindowsInOrder
