-- ===== src/Harness/Admission/Permitted/Closing.antt =====
-- harness/admission.py: `close` gives every permit back that is out.
use ach_agent.Base.{
  ◌+◌, String, ◌≡◌, refl, Bool, true, Option, none, some, List, [], ◌∷◌, arith, string_eq, if_cases,
  ◌∙◌, sym, Option-cases, inl, inr,
}
use ach_agent.Base.Dict.{
  Dict, get, keys, items, empty, remove, sum-empty, sum-remove, sum_zero, elem-keys,
}
use ach_agent.Harness.Admission.State.{
  Failure, State, Config, Ticket, Delivery, RecoveredRun, Current, Lane, admission_cancelled,
  admission_closed,
}
use ach_agent.Harness.Admission.Ledger.{fail, retire, cancel_monitor, release_capacity_once}
use ach_agent.Harness.Admission.Permits.{give_back}
use ach_agent.Harness.Admission.Close.{
  close_run, cancel_observer, cancel_observers, drain, cause, give_back_held, cancel_current,
  cancel_lane, cancel_lanes, close_tickets, close_runs, close,
}
use ach_agent.Harness.Admission.Balance.Closing.{lanes-cancel_lanes}
use ach_agent.Harness.Admission.Permitted.{
  PermittedWith, IsPermitted, IsPermitted-same, PermittedWith-same, Permitted-lanes, SamePools,
  give_back-Permitted, running, at_work,
}

same_trans : (a b c : State) → SamePools a b → SamePools b c → SamePools a c
same_trans a b c p q = record {
  global_value = q.global_value ∙ p.global_value;
  script_value = q.script_value ∙ p.script_value;
  channel_sems = q.channel_sems ∙ p.channel_sems;
  workspace_sems = q.workspace_sems ∙ p.workspace_sems;
  lanes = q.lanes ∙ p.lanes;
}

close_run_same : (k : String) (run : RecoveredRun) (s : State) → SamePools s (close_run k run s)
unfolding close_run release_capacity_once
close_run_same k run s = ground arith

cancel_observers_same : (ks : List String) (s : State) → SamePools s (cancel_observers ks s)
unfolding cancel_observers cancel_observer close_run release_capacity_once
cancel_observers_same [] s = ground arith
cancel_observers_same (k ∷ ks) s = ground (arith, cancel_observers_same ks (cancel_observer k s))

failed_same :
    (why : Failure) (k : String) (t : Ticket) (s : State) → SamePools s (retire k t (fail t why s))
unfolding fail retire cancel_monitor release_capacity_once
failed_same why k t s = ground arith

drain_same : (why : Failure) (q : List (String × Ticket)) (s : State) → SamePools s (drain why q s)
unfolding drain
drain_same why [] s = ground arith
drain_same why ((k, t) ∷ rest) s =
    let s' = retire k t (fail t why s) in
    same_trans s s' (drain why rest s') (failed_same why k t s) (drain_same why rest s')

close_tickets_same : (q : List (String × Ticket)) (s : State) → SamePools s (close_tickets q s)
unfolding close_tickets
close_tickets_same [] s = ground arith
close_tickets_same ((k, t) ∷ rest) s =
    let s' = retire k t (fail t admission_closed s) in
    same_trans s s' (close_tickets rest s') (failed_same admission_closed k t s)
      (close_tickets_same rest s')

close_runs_same : (q : List (String × RecoveredRun)) (s : State) → SamePools s (close_runs q s)
unfolding close_runs
close_runs_same [] s = ground arith
close_runs_same ((k, run) ∷ rest) s =
    same_trans s (close_run k run s) (close_runs rest (close_run k run s)) (close_run_same k run s)
      (close_runs_same rest (close_run k run s))

lanes-give_back_held :
    (cfg : Config) (c : Current) (s : State) → (give_back_held cfg c s).lanes ≡ s.lanes
unfolding give_back_held give_back
lanes-give_back_held cfg c s = ground arith

lanes-cancel_current :
    (cfg : Config) (o : Option Current) (s : State) → (cancel_current cfg o s).lanes ≡ s.lanes
unfolding cancel_current
lanes-cancel_current cfg none s = refl
lanes-cancel_current cfg (some c) s =
    (failed_same admission_cancelled c.key c.ticket (give_back_held cfg c s)).lanes
    ∙ lanes-give_back_held cfg c s

module _ (cfg : Config) where
  -- The permits of a lane's entry go back; the table `L` is without the lane.
  cancel_current-Permitted :
      (o : Option Current) (L : Dict String Lane) (s : State)
      → ((p : Delivery → Bool) → running p s.lanes ≡ running p L + at_work p o)
      → IsPermitted cfg s
      → PermittedWith cfg L (cancel_current cfg o s)
  unfolding cancel_current give_back_held
  cancel_current-Permitted none L s h fine = Permitted-lanes cfg L s (λ p. ground (arith, h p)) fine
  cancel_current-Permitted (some c) L s h fine =
      PermittedWith-same cfg L (give_back_held cfg c s) _
        (failed_same admission_cancelled c.key c.ticket (give_back_held cfg c s))
        (if_cases (PermittedWith cfg L) c.holding _ _
          (λ held. give_back-Permitted cfg L c.ticket.delivery s (λ p. ground (arith, h p)) fine)
          (λ idle. Permitted-lanes cfg L s (λ p. ground (arith, h p)) fine))

  cancel_lane-Permitted :
      (l : String) (s : State) → IsPermitted cfg s → IsPermitted cfg (cancel_lane cfg l s)
  unfolding cancel_lane
  cancel_lane-Permitted l s fine = elim (Option-cases (get l s.lanes)) [
    | inl e ↦ rw (e, cancel_lane) fine
    | inr (lane, e) ↦ rw (e, cancel_lane) (gone lane e)
  ]
    where
      gone :
          (lane : Lane)
          → get l s.lanes ≡ some lane
          → let s' = drain (cause lane.ran) lane.queue (cancel_current cfg lane.current s) in
            IsPermitted cfg (record s' { lanes = remove l s'.lanes })
      gone lane e =
          let s₁ = cancel_current cfg lane.current s in
          let s₂ = drain (cause lane.ran) lane.queue s₁ in
          let kept : PermittedWith cfg (remove l s.lanes) s₂ =
            PermittedWith-same cfg (remove l s.lanes) s₁ s₂
              (drain_same (cause lane.ran) lane.queue s₁)
              (cancel_current-Permitted lane.current (remove l s.lanes) s
                (λ p. ground (arith, sum-remove (λ l lane. at_work p lane.current) l s.lanes))
                fine) in
          rw
            (
              (drain_same (cause lane.ran) lane.queue s₁).lanes,
              lanes-cancel_current cfg lane.current s,
            )
            kept

  cancel_lanes-Permitted :
      (ls : List String) (s : State) → IsPermitted cfg s → IsPermitted cfg (cancel_lanes cfg ls s)
  unfolding cancel_lanes
  cancel_lanes-Permitted [] s fine = fine
  cancel_lanes-Permitted (l ∷ ls) s fine =
      cancel_lanes-Permitted ls (cancel_lane cfg l s) (cancel_lane-Permitted l s fine)

  -- `close` behind the loop over the lanes.
  stopped-Permitted :
      (s : State) → IsPermitted cfg s → PermittedWith cfg empty (cancel_lanes cfg (keys s.lanes) s)
  stopped-Permitted s fine =
      let s' = cancel_lanes cfg (keys s.lanes) s in
      Permitted-lanes cfg empty s'
        (λ p.
          sum-empty (λ l lane. at_work p lane.current)
          ∙ sym (
              sum_zero (λ l lane. at_work p lane.current) s'.lanes
                (λ l lane e. absurd (
                  ground
                    (arith, elem-keys l s.lanes, lanes-cancel_lanes cfg (keys s.lanes) s l, e)))))
        (cancel_lanes-Permitted (keys s.lanes) s fine)

  pub close-Permitted : (s : State) → IsPermitted cfg s → IsPermitted cfg (close cfg s)
  unfolding close
  close-Permitted s fine =
      IsPermitted-same cfg s₃ (close_runs (items s₄.recovered) s₄)
        (same_trans s₃ s₄ _ (close_tickets_same (items s₃.tickets) s₃)
          (close_runs_same (items s₄.recovered) s₄))
        (stopped-Permitted (record s₁ { recovery_tasks = empty })
          (IsPermitted-same cfg (record s { closed = true }) s₁
            (cancel_observers_same (keys s.recovery_tasks) (record s { closed = true })) fine))
    where
      s₁ : State
      s₁ = cancel_observers (keys s.recovery_tasks) (record s { closed = true })

      s₂ : State
      s₂ = cancel_lanes cfg (keys s₁.lanes) (record s₁ { recovery_tasks = empty })

      s₃ : State
      s₃ = record s₂ { lanes = empty; monitors = empty }

      s₄ : State
      s₄ = close_tickets (items s₃.tickets) s₃
