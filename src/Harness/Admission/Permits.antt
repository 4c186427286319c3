-- ===== src/Harness/Admission/Permits.antt =====
-- harness/admission.py: the permit pools, and one round of the loops that acquire from them. A
-- round runs between two sleeps; `acquire` on a semaphore with a positive value does not suspend.
use ach_agent.Base.{
  ℕ, ◌+◌, ◌-◌, String, Bool, true, false, ◌||◌, none, some, leb, string_eq, if◌then◌else◌,
}
use ach_agent.Base.Dict.{Dict, get, put, has}
use ach_agent.Harness.Admission.State.{
  State, Config, Delivery, to_agent, to_script, Semaphore, recovered_count, recovered_in_channel,
  recovered_in_workspace, recovered_owns_session,
}

-- scripts draw from the agents' pool: self._script_sem is self._global_sem
abbrev pub shared_pool : Config → Bool
shared_pool cfg = elim cfg.max_concurrent_scripts [ none ↦ true | some n ↦ false ]

abbrev pub channel_cap : Config → String → ℕ
channel_cap cfg c = elim (get c cfg.channel_concurrency) [
  | none ↦ cfg.max_concurrent_invocations
  | some n ↦ n
]

-- the look-up of _channel_sem and _workspace_sem, which makes a semaphore at first use
unfoldable pub ensure : String → ℕ → Dict String Semaphore → Dict String Semaphore
ensure k cap sems = if has k sems then sems else put k (record { value = cap; cap = cap }) sems

-- sem._value
abbrev pub sem_value : String → Dict String Semaphore → ℕ
sem_value k sems = elim (get k sems) [ none ↦ 0 | some sem ↦ sem.value ]

-- sem.acquire(), sem.release()
unfoldable pub take_from : String → Dict String Semaphore → Dict String Semaphore
take_from k sems = elim (get k sems) [
  | none ↦ sems
  | some sem ↦ put k (record sem { value = sem.value - 1 }) sems
]

unfoldable pub give_to : String → Dict String Semaphore → Dict String Semaphore
give_to k sems = elim (get k sems) [
  | none ↦ sems
  | some sem ↦ put k (record sem { value = sem.value + 1 }) sems
]

abbrev pub take_global : State → State
take_global s = record s { global_value = s.global_value - 1 }

abbrev pub give_global : State → State
give_global s = record s { global_value = s.global_value + 1 }

abbrev pub take_script : State → State
take_script s = record s { script_value = s.script_value - 1 }

abbrev pub give_script : State → State
give_script s = record s { script_value = s.script_value + 1 }

abbrev pub take_channel : String → State → State
take_channel c s = record s { channel_sems = take_from c s.channel_sems }

abbrev pub give_channel : String → State → State
give_channel c s = record s { channel_sems = give_to c s.channel_sems }

abbrev pub take_workspace : String → State → State
take_workspace w s = record s { workspace_sems = take_from w s.workspace_sems }

abbrev pub give_workspace : String → State → State
give_workspace w s = record s { workspace_sems = give_to w s.workspace_sems }

-- What a round ends in: return False, sleep and loop, return True.
pub data Round : Type 0 where
  expired again taken : Round

-- _acquire_all: one round
unfoldable pub acquire_all : ℕ → String → String → String → State → State × Round
unfolding take_from give_to
acquire_all deadline c w r s =
    if leb deadline s.clock
    then (s, expired)
    else if leb s.global_value (recovered_count s)
    then (s, again)
    else (let s₁ = take_global s in
        if leb (sem_value c s₁.channel_sems) (recovered_in_channel c s₁)
        then (give_global s₁, again)
        else (let s₂ = take_channel c s₁ in
            if leb (sem_value w s₂.workspace_sems) (recovered_in_workspace w s₂)
              || recovered_owns_session w r s₂
            then (give_global (give_channel c s₂), again)
            else (take_workspace w s₂, taken)))

-- _acquire_script: one round
unfoldable pub acquire_script : Config → ℕ → String → State → State × Round
unfolding take_from give_to
acquire_script cfg deadline c s =
    if leb deadline s.clock
    then (s, expired)
    else if (if shared_pool cfg
        then leb s.global_value (recovered_count s)
        else leb s.script_value 0)
    then (s, again)
    else if leb (sem_value c s.channel_sems) (recovered_in_channel c s)
    then (s, again)
    else if shared_pool cfg
    then (take_channel c (take_global s), taken)
    else (let s₁ = take_channel c s in
        if leb s₁.script_value 0 then (give_channel c s₁, again) else (take_script s₁, taken))

-- the semaphores that _run_ticket and _run_script_ticket look up first
unfoldable pub ensure_permits : Config → Delivery → State → State
unfolding ensure
ensure_permits cfg (to_agent w r e) s = record s {
  channel_sems = ensure e.event.channel (channel_cap cfg e.event.channel) s.channel_sems;
  workspace_sems = ensure w cfg.workspace_max_concurrent_sessions s.workspace_sems;
}
ensure_permits cfg (to_script e) s = record s {
  channel_sems = ensure e.channel (channel_cap cfg e.channel) s.channel_sems;
}

-- one round for either kind of delivery, against its deadline
unfoldable pub acquire : Config → ℕ → Delivery → State → State × Round
unfolding acquire_all acquire_script
acquire cfg deadline (to_agent w r e) s = acquire_all deadline e.event.channel w r s
acquire cfg deadline (to_script e) s = acquire_script cfg deadline e.channel s

-- the `finally` blocks that give the permits back
unfoldable pub give_back : Config → Delivery → State → State
unfolding give_to
give_back cfg (to_agent w r e) s = give_global (give_channel e.event.channel (give_workspace w s))
give_back cfg (to_script e) s =
    let s' = give_channel e.channel s in if shared_pool cfg then give_global s' else give_script s'
