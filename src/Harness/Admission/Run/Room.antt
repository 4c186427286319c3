-- ===== src/Harness/Admission/Run/Room.antt =====
-- harness/admission.py: when a waiting delivery gets its permits, next to the runners at work and the
-- recovered runs.
use ach_agent.Base.{
  ℕ, ◌+◌, ◌<◌, String, ◌≡◌, ◌↔◌, refl, Bool, true, false, List, arith, nat_eq, string_eq, ==_refl,
}
use ach_agent.Base.Dict.{Dict, get-put}
use ach_agent.Channels.Event.{Event, RoutedEvent}
use ach_agent.Harness.Admission.State.{
  State, Config, Delivery, to_agent, to_script, Semaphore, recovered_count, recovered_in_channel,
  recovered_in_workspace, recovered_owns_session,
}
use ach_agent.Harness.Admission.Permits.{
  shared_pool, channel_cap, ensure, sem_value, taken, acquire, acquire_all, acquire_script,
  ensure_permits,
}
use ach_agent.Harness.Admission.Pool.{available}
use ach_agent.Harness.Admission.Permitted.{
  running, uses_global, uses_script, uses_channel, uses_workspace, script_cap, IsPermitted,
  PermittedWith,
}
use ach_agent.Harness.Admission.Permitted.Acquire.{ensure_permits-Permitted}
use ach_agent.Harness.Admission.Run.{init, Action, run}
use ach_agent.Harness.Admission.Run.Permits.{run-IsPermitted}

-- What a round looks at.
record AllFree (deadline : ℕ) (c w r : String) (s : State) : Type 0 where
  in_time : s.clock < deadline
  global : recovered_count s < s.global_value
  channel : recovered_in_channel c s < sem_value c s.channel_sems
  workspace : recovered_in_workspace w s < sem_value w s.workspace_sems
  session : recovered_owns_session w r s ≡ false

acquire_all-AllFree :
    (deadline : ℕ) (c w r : String) (s : State)
    → ((acquire_all deadline c w r s).1 ≡ taken) ↔ AllFree deadline c w r s
unfolding acquire_all recovered_count recovered_in_channel recovered_in_workspace
    recovered_owns_session
acquire_all-AllFree deadline c w r s = (sound, complete)
  where
    sound : (acquire_all deadline c w r s).1 ≡ taken → AllFree deadline c w r s
    sound h = record {
      in_time = ground (arith, h);
      global = ground (arith, h);
      channel = ground (arith, h);
      workspace = ground (arith, h);
      session = ground (arith, h);
    }

    complete : AllFree deadline c w r s → (acquire_all deadline c w r s).1 ≡ taken
    complete f = ground (arith, f.in_time, f.global, f.channel, f.workspace, f.session)

-- The pool that a script draws from: the agents', or its own.
abbrev PoolFree : Bool → State → Type 0
PoolFree true s = recovered_count s < s.global_value
PoolFree false s = 0 < s.script_value

record ScriptFree (cfg : Config) (deadline : ℕ) (c : String) (s : State) : Type 0 where
  in_time : s.clock < deadline
  pool : PoolFree (shared_pool cfg) s
  channel : recovered_in_channel c s < sem_value c s.channel_sems

acquire_script-ScriptFree :
    (cfg : Config) (deadline : ℕ) (c : String) (s : State)
    → ((acquire_script cfg deadline c s).1 ≡ taken) ↔ ScriptFree cfg deadline c s
unfolding acquire_script recovered_count recovered_in_channel
acquire_script-ScriptFree cfg deadline c s = (sound, complete)
  where
    sound : (acquire_script cfg deadline c s).1 ≡ taken → ScriptFree cfg deadline c s
    sound h = record {
      in_time = ground (arith, h);
      pool = ground (arith, h);
      channel = ground (arith, h);
    }

    complete : ScriptFree cfg deadline c s → (acquire_script cfg deadline c s).1 ≡ taken
    complete f = ground (arith, f.in_time, f.pool, f.channel)

-- A semaphore that was looked up is there.
looked_up :
    (caps : String → ℕ) (k : String) (sems : Dict String Semaphore)
    → sem_value k (ensure k (caps k) sems) ≡ available caps k (ensure k (caps k) sems)
unfolding ensure
looked_up caps k sems =
    ground (arith, get-put k k (record { value = caps k; cap = caps k }) sems, ==_refl k)

-- The runners at work and the recovered runs leave room for one more, in time.
pub record AgentRoom (cfg : Config) (deadline : ℕ) (c w r : String) (s : State) : Type 0 where
  pub in_time : s.clock < deadline
  pub invocations :
      running (uses_global cfg) s.lanes + recovered_count s < cfg.max_concurrent_invocations
  pub channel : running (uses_channel c) s.lanes + recovered_in_channel c s < channel_cap cfg c
  pub workspace :
      running (uses_workspace w) s.lanes + recovered_in_workspace w s
      < cfg.workspace_max_concurrent_sessions
  pub session : recovered_owns_session w r s ≡ false

abbrev pub PoolRoom : Bool → Config → State → Type 0
PoolRoom true cfg s =
    running (uses_global cfg) s.lanes + recovered_count s < cfg.max_concurrent_invocations
PoolRoom false cfg s = running (uses_script cfg) s.lanes < script_cap cfg

pub record ScriptRoom (cfg : Config) (deadline : ℕ) (c : String) (s : State) : Type 0 where
  pub in_time : s.clock < deadline
  pub pool : PoolRoom (shared_pool cfg) cfg s
  pub channel : running (uses_channel c) s.lanes + recovered_in_channel c s < channel_cap cfg c

abbrev pub Room : Config → ℕ → Delivery → State → Type 0
Room cfg deadline (to_agent w r e) s = AgentRoom cfg deadline e.event.channel w r s
Room cfg deadline (to_script e) s = ScriptRoom cfg deadline e.channel s

module _ (cfg : Config) (deadline : ℕ) (s : State) where
  agent-Room :
      (w r : String) (e : RoutedEvent)
      → PermittedWith cfg s.lanes (ensure_permits cfg (to_agent w r e) s)
      → AllFree deadline e.event.channel w r (ensure_permits cfg (to_agent w r e) s)
        ↔ AgentRoom cfg deadline e.event.channel w r s
  unfolding ensure_permits recovered_count recovered_in_channel recovered_in_workspace
      recovered_owns_session
  agent-Room w r e ok = (
    (λ f. record {
      in_time = f.in_time;
      invocations = omega (arith, f.global, ok.global);
      channel = omega (arith, f.channel, ok.channel.kept c, channels);
      workspace = omega (arith, f.workspace, ok.workspace.kept w, workspaces);
      session = f.session;
    }),
    (λ f. record {
      in_time = f.in_time;
      global = omega (arith, f.invocations, ok.global);
      channel = omega (arith, f.channel, ok.channel.kept c, channels);
      workspace = omega (arith, f.workspace, ok.workspace.kept w, workspaces);
      session = f.session;
    }),
  )
    where
      c : String
      c = e.event.channel

      channels :
          sem_value c (ensure c (channel_cap cfg c) s.channel_sems)
          ≡ available (channel_cap cfg) c (ensure c (channel_cap cfg c) s.channel_sems)
      channels = looked_up (channel_cap cfg) c s.channel_sems

      most : String → ℕ
      most w = cfg.workspace_max_concurrent_sessions

      workspaces :
          sem_value w (ensure w (most w) s.workspace_sems)
          ≡ available most w (ensure w (most w) s.workspace_sems)
      workspaces = looked_up most w s.workspace_sems

  pool-Room :
      (own : Bool) (t : State)
      → PermittedWith cfg s.lanes t
      → recovered_count t ≡ recovered_count s
      → PoolFree own t ↔ PoolRoom own cfg s
  pool-Room true t ok same =
      ((λ f. omega (arith, f, ok.global, same)), (λ f. omega (arith, f, ok.global, same)))
  pool-Room false t ok same =
      ((λ f. omega (arith, f, ok.script)), (λ f. omega (arith, f, ok.script)))

  script-Room :
      (e : Event)
      → PermittedWith cfg s.lanes (ensure_permits cfg (to_script e) s)
      → ScriptFree cfg deadline e.channel (ensure_permits cfg (to_script e) s)
        ↔ ScriptRoom cfg deadline e.channel s
  unfolding ensure_permits recovered_count recovered_in_channel
  script-Room e ok = (
    (λ f. record {
      in_time = f.in_time;
      pool = (pool-Room (shared_pool cfg) (ensure_permits cfg (to_script e) s) ok refl).0 f.pool;
      channel = omega (arith, f.channel, ok.channel.kept e.channel, channels);
    }),
    (λ f. record {
      in_time = f.in_time;
      pool = (pool-Room (shared_pool cfg) (ensure_permits cfg (to_script e) s) ok refl).1 f.pool;
      channel = omega (arith, f.channel, ok.channel.kept e.channel, channels);
    }),
  )
    where
      channels :
          sem_value e.channel (ensure e.channel (channel_cap cfg e.channel) s.channel_sems)
          ≡ available
              (channel_cap cfg)
              e.channel
              (ensure e.channel (channel_cap cfg e.channel) s.channel_sems)
      channels = looked_up (channel_cap cfg) e.channel s.channel_sems

  acquire-Room :
      (d : Delivery)
      → IsPermitted cfg s
      → ((acquire cfg deadline d (ensure_permits cfg d s)).1 ≡ taken) ↔ Room cfg deadline d s
  unfolding acquire
  acquire-Room (to_agent w r e) ok =
      let looked = ensure_permits cfg (to_agent w r e) s in
      let (free, sure) = acquire_all-AllFree deadline e.event.channel w r looked in
      let (there, back) =
        agent-Room w r e (ensure_permits-Permitted cfg s.lanes (to_agent w r e) s ok) in
      ((λ h. there (free h)), (λ h. sure (back h)))
  acquire-Room (to_script e) ok =
      let looked = ensure_permits cfg (to_script e) s in
      let (free, sure) = acquire_script-ScriptFree cfg deadline e.channel looked in
      let (there, back) = script-Room e (ensure_permits-Permitted cfg s.lanes (to_script e) s ok) in
      ((λ h. there (free h)), (λ h. sure (back h)))

-- From the start, under any schedule: a round of `_acquire_all` or `_acquire_script`, behind the look-up
-- of the semaphores, takes its permits exactly if the deadline is not reached and there is room for one
-- more next to the runners at work and the recovered runs: for an agent, within the limits of the
-- agents, of its channel and of its workspace, and with no recovered run of its session; for a script,
-- within the agents' limit, or its own pool's where it has one, which recovered runs do not draw from,
-- and within its channel's.
pub run-Room :
    (cfg : Config) (now : ℕ) (actions : List Action) (deadline : ℕ) (d : Delivery)
    → let s = run cfg actions (init cfg now) in
      ((acquire cfg deadline d (ensure_permits cfg d s)).1 ≡ taken) ↔ Room cfg deadline d s
run-Room cfg now actions deadline d =
    acquire-Room cfg deadline (run cfg actions (init cfg now)) d (run-IsPermitted cfg now actions)
