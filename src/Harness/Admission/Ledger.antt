-- ===== src/Harness/Admission/Ledger.antt =====
-- harness/admission.py: futures, release of capacity, monitors and the sweep of old records.
use ach_agent.Base.{
  ℕ, ◌+◌, ◌-◌, String, Bool, true, false, not, ◌&&◌, ◌||◌, Option, none, some, List, [], ◌∷◌, ◌++◌,
  leb, ◌==◌, nat_eq, string_eq, if◌then◌else◌,
}
use ach_agent.Base.Dict.{has, get, put, remove, filter, keys, sum}
use ach_agent.Harness.Admission.State.{
  State, Config, Ticket, RecoveredRun, Semaphore, Failure, Delivery, failed, deadline_exceeded,
  settle, seconds, rate_window, ticket_channel, to_agent, to_script, rate_key_eq,
}

-- An assignment to the future of one ticket.
unfoldable pub update {ℓ} : {A : Type ℓ} → (ℕ → A) → ℕ → A → ℕ → A
update f n v m = if m == n then v else f m

-- _fail
unfoldable pub fail : Ticket → Failure → State → State
fail t exc s = record s {
  started = update s.started t.serial (settle (failed exc) (s.started t.serial));
  completed = update s.completed t.serial (settle (failed exc) (s.completed t.serial));
}

-- _expire
unfoldable pub expire : Ticket → String → State → State
unfolding fail
expire t reason s =
    let s' = fail t (deadline_exceeded reason) s in record s' { alarms = reason ∷ s'.alarms }

-- _release_capacity_once
unfoldable pub release_capacity_once : String → State → State
release_capacity_once k s = if has k s.released then s else record s {
  released = put k tt s.released;
  queued_total = s.queued_total - 1;
  completed_at = put k s.clock s.completed_at;
}

-- self._tickets.get(dedup_key) is ticket
unfoldable pub owns : String → Ticket → State → Bool
owns k t s = elim (get k s.tickets) [ none ↦ false | some t' ↦ t'.serial == t.serial ]

-- _cancel_monitor: the state after it, and whether the monitor had expired this ticket
unfoldable pub cancel_monitor : String → Ticket → State → State × Bool
unfolding owns
cancel_monitor k t s = if not (owns k t s) then (s, false) else (
  record s { monitors = remove k s.monitors; monitor_expired = remove k s.monitor_expired },
  has k s.monitor_expired,
)

-- _retire
unfoldable pub retire : String → Ticket → State → State
unfolding cancel_monitor release_capacity_once
retire k t s = release_capacity_once k (cancel_monitor k t s).0

-- _forget
unfoldable pub forget : String → State → State
forget k s = record s {
  tickets = remove k s.tickets;
  recovered = remove k s.recovered;
  completed_at = remove k s.completed_at;
  released = remove k s.released;
  monitors = remove k s.monitors;
  monitor_expired = remove k s.monitor_expired;
}

-- completed_at is None or now - completed_at >= window
unfoldable pub window_over : Config → ℕ → Option ℕ → Bool
window_over cfg now none = true
window_over cfg now (some at) = leb (at + seconds cfg.idempotency_window_seconds) now

unfoldable pub is_expired : Config → State → String → Bool
unfolding window_over
is_expired cfg s k = has k s.released && window_over cfg s.clock (get k s.completed_at)

-- for key in expired: self._forget(key). The keys are chosen before any is forgotten.
unfoldable pub forget_each : (String → Bool) → List String → State → State
unfolding forget
forget_each p [] s = s
forget_each p (k ∷ ks) s = forget_each p ks (if p k then forget k s else s)

abbrev pub workspace_of : Delivery → String → Bool
workspace_of (to_agent w r e) w' = w == w'
workspace_of (to_script e) w' = false

unfoldable pub workspace_active : State → String → Bool
workspace_active s w =
    leb 1 (sum (λ k t. if workspace_of t.delivery w then 1 else 0) s.tickets)
    || leb 1 (sum (λ k run. if run.workspace_ref == w then 1 else 0) s.recovered)

unfoldable pub channel_active : State → String → Bool
unfolding ticket_channel
channel_active s c =
    leb 1 (sum (λ k t. if ticket_channel t.delivery == c then 1 else 0) s.tickets)
    || leb 1 (sum (λ k run. if run.channel == c then 1 else 0) s.recovered)

-- A semaphore stays while its key is active or a permit of it is out.
abbrev pub stays : (String → Bool) → String → Semaphore → Bool
stays active k sem = active k || not (sem.value == sem.cap)

-- admits and now - admits[-1] < window
unfoldable pub last_within : ℕ → List ℕ → Bool
last_within now [] = false
last_within now (a ∷ []) = not (leb (a + rate_window) now)
last_within now (a ∷ b ∷ rest) = last_within now (b ∷ rest)

-- the part of _sweep_expired behind the loop over the expired keys
unfoldable pub prune : State → State
unfolding workspace_active channel_active last_within
prune s = record s {
  workspace_sems = filter (stays (workspace_active s)) s.workspace_sems;
  channel_sems = filter (stays (channel_active s)) s.channel_sems;
  rate_admits = filter (λ k admits. last_within s.clock admits) s.rate_admits;
}

-- _sweep_expired
unfoldable pub sweep_expired : Config → State → State
unfolding is_expired forget_each prune
sweep_expired cfg s = prune (forget_each (is_expired cfg s) (keys s.tickets ++ keys s.recovered) s)

-- What a delivery's key can stand for.
pub data Known : Type 0 where
  ticket : Ticket → Known
  recovered_run : RecoveredRun → Known

abbrev pub known : Option Ticket → Option RecoveredRun → Option Known
known (some t) r = some (ticket t)
known none (some r) = some (recovered_run r)
known none none = none

abbrev pub lapsed : Config → ℕ → Option ℕ → Bool
lapsed cfg now none = false
lapsed cfg now (some at) = leb (at + seconds cfg.idempotency_window_seconds) now

-- a record that is found: kept while it is unreleased or its window runs, else forgotten
unfoldable pub keep_or_forget : Config → String → Option Known → State → State × Option Known
unfolding forget
keep_or_forget cfg k none s = (s, none)
keep_or_forget cfg k (some r) s =
    if not (has k s.released)
    then (s, some r)
    else if lapsed cfg s.clock (get k s.completed_at)
    then (forget k s, none)
    else (s, some r)

-- _existing_ticket
unfoldable pub existing_ticket : Config → String → State → State × Option Known
unfolding keep_or_forget
existing_ticket cfg k s = keep_or_forget cfg k (known (get k s.tickets) (get k s.recovered)) s
