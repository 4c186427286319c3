-- ===== src/Harness/Admission/Permitted.antt =====
-- harness/admission.py: what the permit pools keep in step with the runners at work.
pub mod Acquire
pub mod Arrivals
pub mod Closing
pub mod Lanes
use ach_agent.Base.{
  ℕ, ◌+◌, ◌-◌, ◌≤◌, ◌<◌, String, ◌≡◌, refl, Bool, true, false, not, ◌&&◌, ◌||◌, Option, none, some,
  arith, bit, ◌==◌, ==_iff, ==_refl, nat_eq, string_eq, if◌then◌else◌, Bool-cases, inl, inr,
  if_cases, leb, Option-cases,
}
use ach_agent.Base.Dict.{
  Dict, has, get, put, remove, filter, sum, get-put, get-remove, get-filter, sum-put, sum-remove,
  weigh-le-sum,
}
use ach_agent.Harness.Admission.State.{
  State, Config, Ticket, Delivery, to_agent, to_script, Semaphore, Current, Lane, is_script,
  ticket_channel, recovered_count, recovered_in_channel, recovered_in_workspace,
  recovered_owns_session,
}
use ach_agent.Harness.Admission.Ledger.{workspace_of, stays}
use ach_agent.Channels.Event.{Event, RoutedEvent}
use ach_agent.Harness.Admission.Permits.{
  take_global, give_global, take_channel, give_channel, take_workspace, take_script, shared_pool,
  channel_cap, ensure, sem_value, take_from, give_to, Round, expired, again, taken, acquire,
  acquire_all, acquire_script, ensure_permits, give_back,
}
use ach_agent.Harness.Admission.Pool.{
  available, PoolOk, PoolOk-out, PoolOk-ensure, PoolOk-take, PoolOk-give, PoolOk-filter,
}

-- The number of runners at work on a delivery that the test picks.
abbrev pub at_work : (Delivery → Bool) → Option Current → ℕ
at_work p none = 0
at_work p (some c) = bit (c.holding && p c.ticket.delivery)

abbrev pub running : (Delivery → Bool) → Dict String Lane → ℕ
running p lanes = sum (λ l lane. at_work p lane.current) lanes

-- The pools that a delivery draws from.
abbrev pub uses_global : Config → Delivery → Bool
uses_global cfg d = not (is_script d) || shared_pool cfg

abbrev pub uses_script : Config → Delivery → Bool
uses_script cfg d = is_script d && not (shared_pool cfg)

unfoldable pub uses_channel : String → Delivery → Bool
unfolding ticket_channel
uses_channel c d = ticket_channel d == c

unfoldable pub uses_workspace : String → Delivery → Bool
uses_workspace w d = workspace_of d w

abbrev pub script_cap : Config → ℕ
script_cap cfg = elim cfg.max_concurrent_scripts [ none ↦ 0 | some n ↦ n ]

-- Every pool's free permits and the runners at work on it make up its size.
pub record Permitted (cfg : Config) (lanes : Dict String Lane) (global_value script_value : ℕ)
    (channels workspaces : Dict String Semaphore) : Type 0 where
  pub global : global_value + running (uses_global cfg) lanes ≡ cfg.max_concurrent_invocations
  pub script : script_value + running (uses_script cfg) lanes ≡ script_cap cfg
  pub channel : PoolOk (channel_cap cfg) (λ c. running (uses_channel c) lanes) channels
  pub workspace :
      PoolOk
        (λ w. cfg.workspace_max_concurrent_sessions)
        (λ w. running (uses_workspace w) lanes)
        workspaces

abbrev pub PermittedWith : Config → Dict String Lane → State → Type 0
PermittedWith cfg lanes s =
    Permitted cfg lanes s.global_value s.script_value s.channel_sems s.workspace_sems

abbrev pub IsPermitted : Config → State → Type 0
IsPermitted cfg s = PermittedWith cfg s.lanes s

-- Steps that leave the runners at work alone.
pub Permitted-lanes :
    (cfg : Config) {L : Dict String Lane} (L' : Dict String Lane) (s : State)
    → ((p : Delivery → Bool) → running p L' ≡ running p L)
    → PermittedWith cfg L s
    → PermittedWith cfg L' s
Permitted-lanes cfg {L} L' s h ok = record {
  global = omega (arith, ok.global, h (uses_global cfg));
  script = omega (arith, ok.script, h (uses_script cfg));
  channel = PoolOk-out ok.channel _ (λ c. h (uses_channel c));
  workspace = PoolOk-out ok.workspace _ (λ w. h (uses_workspace w));
}

-- The second table has one more runner at work, on the delivery.
abbrev pub OneMore : Dict String Lane → Dict String Lane → Delivery → Type 0
OneMore L L' d = (p : Delivery → Bool) → running p L' ≡ running p L + bit (p d)

pub give_back-Permitted :
    (cfg : Config) {L : Dict String Lane} (L' : Dict String Lane) (d : Delivery) (s : State)
    → OneMore L' L d
    → PermittedWith cfg L s
    → PermittedWith cfg L' (give_back cfg d s)
unfolding give_back uses_channel uses_workspace ticket_channel
give_back-Permitted cfg L' (to_agent w r e) s h ok = record {
  global = omega (arith, ok.global, h (uses_global cfg));
  script = omega (arith, ok.script, h (uses_script cfg));
  channel = PoolOk-give ok.channel e.event.channel _ (λ c. ground (arith, h (uses_channel c)));
  workspace = PoolOk-give ok.workspace w _ (λ w'. ground (arith, h (uses_workspace w')));
}
give_back-Permitted cfg L' (to_script e) s h ok =
    if_cases (PermittedWith cfg L') (shared_pool cfg) _ _
      (λ own. record {
        global = ground (arith, ok.global, h (uses_global cfg));
        script = ground (arith, ok.script, h (uses_script cfg));
        channel = channels;
        workspace = workspaces;
      })
      (λ own. record {
        global = ground (arith, ok.global, h (uses_global cfg));
        script = ground (arith, ok.script, h (uses_script cfg));
        channel = channels;
        workspace = workspaces;
      })
  where
    channels :
        PoolOk
          (channel_cap cfg)
          (λ c. running (uses_channel c) L')
          (give_to e.channel s.channel_sems)
    channels = PoolOk-give ok.channel e.channel _ (λ c. ground (arith, h (uses_channel c)))

    workspaces :
        PoolOk
          (λ w. cfg.workspace_max_concurrent_sessions)
          (λ w. running (uses_workspace w) L')
          s.workspace_sems
    workspaces = PoolOk-out ok.workspace _ (λ w. ground (arith, h (uses_workspace w)))

-- Steps that leave the pools and the lanes alone.
pub record SamePools (s s' : State) : Type 0 where
  pub global_value : s'.global_value ≡ s.global_value
  pub script_value : s'.script_value ≡ s.script_value
  pub channel_sems : s'.channel_sems ≡ s.channel_sems
  pub workspace_sems : s'.workspace_sems ≡ s.workspace_sems
  pub lanes : s'.lanes ≡ s.lanes

pub PermittedWith-same :
    (cfg : Config) (L : Dict String Lane) (s s' : State)
    → SamePools s s'
    → PermittedWith cfg L s
    → PermittedWith cfg L s'
PermittedWith-same cfg L s s' e ok =
    rw (e.global_value, e.script_value, e.channel_sems, e.workspace_sems) ok

pub IsPermitted-same :
    (cfg : Config) (s s' : State) → SamePools s s' → IsPermitted cfg s → IsPermitted cfg s'
IsPermitted-same cfg s s' e ok = rw (e.lanes) (PermittedWith-same cfg s.lanes s s' e ok)
