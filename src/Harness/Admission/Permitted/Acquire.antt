-- ===== src/Harness/Admission/Permitted/Acquire.antt =====
-- harness/admission.py: a round of the wait for permits keeps the pools in step with the runners.
use ach_agent.Base.{
  ℕ, ◌+◌, String, ◌≡◌, refl, false, ◌||◌, arith, bit, ◌==◌, nat_eq, string_eq, if◌then◌else◌,
  if_cases, leb,
}
use ach_agent.Base.Dict.{Dict}
use ach_agent.Harness.Admission.State.{
  State, Config, Delivery, to_agent, to_script, Lane, ticket_channel, recovered_count,
  recovered_in_channel, recovered_in_workspace, recovered_owns_session,
}
use ach_agent.Channels.Event.{Event, RoutedEvent}
use ach_agent.Harness.Admission.Permits.{
  take_global, take_channel, shared_pool, channel_cap, sem_value, take_from, Round, taken, acquire,
  acquire_all, acquire_script, ensure_permits,
}
use ach_agent.Harness.Admission.Pool.{PoolOk, PoolOk-out, PoolOk-ensure, PoolOk-take, PoolOk-give}
use ach_agent.Harness.Admission.Permitted.{
  running, uses_global, uses_script, uses_channel, uses_workspace, PermittedWith, OneMore,
}

-- What a round of the wait for permits comes to: nothing has changed hands, or the delivery's.
abbrev pub AfterRound : Config → Dict String Lane → Delivery → State → Round → Type 0
AfterRound cfg L d s taken = (L' : Dict String Lane) → OneMore L L' d → PermittedWith cfg L' s
AfterRound cfg L d s r = PermittedWith cfg L s

acquire_all-Permitted :
    (cfg : Config) (L : Dict String Lane) (deadline : ℕ) (w r : String) (e : RoutedEvent)
    (s : State)
    → PermittedWith cfg L s
    → let (s', round) = acquire_all deadline e.event.channel w r s in
      AfterRound cfg L (to_agent w r e) s' round
unfolding acquire_all
acquire_all-Permitted cfg L deadline w r e s ok =
    if_cases After (leb deadline s.clock) _ _ (λ _. ok)
      λ _.
        if_cases After (leb s.global_value (recovered_count s)) _ _ (λ _. ok)
          λ g.
            if_cases After
              (leb (sem_value c s.channel_sems) (recovered_in_channel c (take_global s))) _ _
              (λ _. record {
                global = ground (arith, ok.global);
                script = ok.script;
                channel = ok.channel;
                workspace = ok.workspace;
              })
              λ ch.
                if_cases After
                  (leb (sem_value w s.workspace_sems)
                      (recovered_in_workspace w (take_channel c (take_global s)))
                    || recovered_owns_session w r (take_channel c (take_global s)))
                  _ _
                  (λ _. record {
                    global = ground (arith, ok.global);
                    script = ok.script;
                    channel =
                        PoolOk-give
                          (PoolOk-take ok.channel c (one_more c) (ground arith) (λ j. refl)) c _
                          (λ j. refl);
                    workspace = ok.workspace;
                  })
                  (λ wk L' h. record {
                    global = ground (arith, ok.global, h (uses_global cfg));
                    script = ground (arith, ok.script, h (uses_script cfg));
                    channel =
                        unfold uses_channel ticket_channel in
                        PoolOk-take ok.channel c _ (ground arith)
                          (λ j. ground (arith, h (uses_channel j)));
                    workspace =
                        unfold uses_workspace in
                        PoolOk-take ok.workspace w _ (ground arith)
                          (λ j. ground (arith, h (uses_workspace j)));
                  })
  where
    c : String
    c = e.event.channel

    one_more : String → String → ℕ
    one_more k j = running (uses_channel j) L + bit (k == j)

    After : State × Round → Type 0
    After (s', round) = AfterRound cfg L (to_agent w r e) s' round

acquire_script-Permitted :
    (cfg : Config) (L : Dict String Lane) (deadline : ℕ) (e : Event) (s : State)
    → PermittedWith cfg L s
    → let (s', round) = acquire_script cfg deadline e.channel s in
      AfterRound cfg L (to_script e) s' round
unfolding acquire_script
acquire_script-Permitted cfg L deadline e s ok =
    if_cases After (leb deadline s.clock) _ _ (λ _. ok)
      λ _.
        if_cases After
          (if shared_pool cfg then leb s.global_value (recovered_count s) else leb s.script_value 0)
          _ _ (λ _. ok)
          λ free.
            if_cases After (leb (sem_value c s.channel_sems) (recovered_in_channel c s)) _ _
              (λ _. ok)
              λ ch.
                if_cases After (shared_pool cfg) _ _
                  (λ own L' h. record {
                    global = ground (arith, ok.global, h (uses_global cfg));
                    script = ground (arith, ok.script, h (uses_script cfg));
                    channel = channels ch L' h;
                    workspace = workspaces L' h;
                  })
                  λ own.
                    if_cases After (leb s.script_value 0) _ _ (λ full. absurd (ground arith))
                      λ _ L' h. record {
                        global = ground (arith, ok.global, h (uses_global cfg));
                        script = ground (arith, ok.script, h (uses_script cfg));
                        channel = channels ch L' h;
                        workspace = workspaces L' h;
                      }
  where
    c : String
    c = e.channel

    After : State × Round → Type 0
    After (s', round) = AfterRound cfg L (to_script e) s' round

    channels :
        leb (sem_value c s.channel_sems) (recovered_in_channel c s) ≡ false
        → (L' : Dict String Lane) → OneMore L L' (to_script e)
        → PoolOk (channel_cap cfg) (λ j. running (uses_channel j) L') (take_from c s.channel_sems)
    channels ch L' h =
        unfold uses_channel ticket_channel in
        PoolOk-take ok.channel c _ (ground arith) (λ j. ground (arith, h (uses_channel j)))

    workspaces :
        (L' : Dict String Lane)
        → OneMore L L' (to_script e)
        → PoolOk
            (λ w. cfg.workspace_max_concurrent_sessions)
            (λ w. running (uses_workspace w) L')
            s.workspace_sems
    workspaces L' h =
        unfold uses_workspace in
        PoolOk-out ok.workspace _ (λ w. ground (arith, h (uses_workspace w)))

pub acquire-Permitted :
    (cfg : Config) (L : Dict String Lane) (deadline : ℕ) (d : Delivery) (s : State)
    → PermittedWith cfg L s
    → AfterRound cfg L d (acquire cfg deadline d s).0 (acquire cfg deadline d s).1
unfolding acquire
acquire-Permitted cfg L deadline (to_agent w r e) s ok =
    acquire_all-Permitted cfg L deadline w r e s ok
acquire-Permitted cfg L deadline (to_script e) s ok = acquire_script-Permitted cfg L deadline e s ok

pub ensure_permits-Permitted :
    (cfg : Config) (L : Dict String Lane) (d : Delivery) (s : State)
    → PermittedWith cfg L s
    → PermittedWith cfg L (ensure_permits cfg d s)
unfolding ensure_permits
ensure_permits-Permitted cfg L (to_agent w r e) s ok = record {
  global = ok.global;
  script = ok.script;
  channel = PoolOk-ensure ok.channel e.event.channel;
  workspace = PoolOk-ensure ok.workspace w;
}
ensure_permits-Permitted cfg L (to_script e) s ok = record {
  global = ok.global;
  script = ok.script;
  channel = PoolOk-ensure ok.channel e.channel;
  workspace = ok.workspace;
}
