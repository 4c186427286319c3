-- ===== src/Harness/Admission/Cases.antt =====
-- harness/admission.py: what a turn of a lane and the end of a runner can come to.
use ach_agent.Base.{
  refl, String, ◌≡◌, true, false, Option, none, some, Option-cases, Bool-cases, inl, inr, string_eq,
}
use ach_agent.Base.Dict.{get}
use ach_agent.Harness.Admission.State.{State, Config, Current, Lane}
use ach_agent.Harness.Admission.Permits.{give_back}
use ach_agent.Harness.Admission.Tasks.{
  finish, wait_round, take_head, lane_turn, lane_step, RunnerEnd, settle_run, entry_ends,
  runner_ends,
}

module _ {ℓ} (P : State → Type ℓ) (cfg : Config) (l : String) (s : State) (unchanged : P s) where
  lane_turn_cases :
      (lane : Lane) (o : Option Current)
      → (o ≡ none → P (take_head cfg l lane.queue s))
      → ((c : Current) → o ≡ some c → c.holding ≡ false → P (wait_round cfg l lane c s))
      → P (lane_turn cfg l lane o s)
  unfolding lane_turn
  lane_turn_cases lane none head round = head refl
  lane_turn_cases lane (some c) head round = elim (Bool-cases c.holding) [
    | inl h ↦ rw h unchanged
    | inr h ↦ rw h (round c refl h)
  ]

  -- A lane takes its next entry, makes a round for the one it has, or does nothing.
  pub lane_cases :
      ((lane : Lane)
        → get l s.lanes ≡ some lane
        → lane.current ≡ none
        → P (take_head cfg l lane.queue s))
      → ((lane : Lane) (c : Current)
          → get l s.lanes ≡ some lane
          → lane.current ≡ some c
          → c.holding ≡ false
          → P (wait_round cfg l lane c s))
      → P (lane_step cfg l s)
  unfolding lane_step
  lane_cases head round = elim (Option-cases (get l s.lanes)) [
    | inl e ↦ rw (e, lane_step) unchanged
    | inr (lane, e) ↦
        rw (e, lane_step) (lane_turn_cases lane lane.current (head lane e) (λ c. round lane c e))
  ]

  entry_ends_cases :
      (how : RunnerEnd) (lane : Lane) (o : Option Current)
      → ((c : Current)
          → o ≡ some c
          → c.holding ≡ true
          → P (finish l lane c (give_back cfg c.ticket.delivery (settle_run c.ticket how s))))
      → P (entry_ends cfg l lane how o s)
  unfolding entry_ends
  entry_ends_cases how lane none ends = unchanged
  entry_ends_cases how lane (some c) ends = elim (Bool-cases c.holding) [
    | inl h ↦ rw h (ends c refl h)
    | inr h ↦ rw h unchanged
  ]

  -- A runner ends where there is one.
  pub runner_cases :
      (how : RunnerEnd)
      → ((lane : Lane) (c : Current)
          → get l s.lanes ≡ some lane
          → lane.current ≡ some c
          → c.holding ≡ true
          → P (finish l lane c (give_back cfg c.ticket.delivery (settle_run c.ticket how s))))
      → P (runner_ends cfg l how s)
  unfolding runner_ends
  runner_cases how ends = elim (Option-cases (get l s.lanes)) [
    | inl e ↦ rw (e, runner_ends) unchanged
    | inr (lane, e) ↦
        rw (e, runner_ends) (entry_ends_cases how lane lane.current (λ c. ends lane c e))
  ]
