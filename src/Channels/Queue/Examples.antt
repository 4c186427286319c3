-- ===== src/Channels/Queue/Examples.antt =====
-- Tests and witnesses of channels/queue.py: one pending entry that was deleted, one new one that starts.
use ach_agent.Base.{◌≡◌, refl, String, none, some, List, [], ◌∷◌}
use ach_agent.Base.Program.{returns, Environment, execute, Trace}
use ach_agent.Channels.Event.{str, field, end}
use ach_agent.Channels.Queue.{
  Sweep, read_new, read_pending, deliver, acknowledge, loop_time, sleep, QueueReply, run_consumer,
}
use ach_agent.Channels.Queue.Acknowledged.{AllJustified, run_consumer-Justified}

abbrev redis : Environment QueueReply
redis t read_new = returns ((("2-0", some (field "k" (str "v") end)) ∷ []) ∷ [])
redis t (read_pending cursor) = returns ((("1-0", none) ∷ []) ∷ [])
redis t (deliver id fields) = returns tt
redis t (acknowledge id) = returns tt
redis t loop_time = 10
redis t sleep = returns tt

abbrev at_start : Sweep
at_start = record { cursor = "0"; next = 0 }

run_consumer-Justified_example : AllJustified (execute redis [] (run_consumer 1 at_start)).0
run_consumer-Justified_example = run_consumer-Justified 1 at_start redis

abbrev acknowledgements : Trace QueueReply → List String
acknowledgements [] = []
acknowledgements ((acknowledge id, x) ∷ t) = id ∷ acknowledgements t
acknowledgements (e ∷ t) = acknowledgements t

both_acknowledged :
    acknowledgements (execute redis [] (run_consumer 1 at_start)).0 ≡ ("2-0" ∷ "1-0" ∷ [])
unfolding run_consumer
both_acknowledged = refl

-- The pending entries are at their end, which Redis answers with the stream and no entries: the cursor
-- stays where it is.
abbrev drained : Environment QueueReply
drained t (read_pending cursor) = returns ([] ∷ [])
drained t read_new = returns []
drained t (deliver id fields) = returns tt
drained t (acknowledge id) = returns tt
drained t loop_time = 10
drained t sleep = returns tt

cursor_stays :
    (execute drained [] (run_consumer 1 (record { cursor = "5-0"; next = 0 }))).1
    ≡ returns (record { cursor = "5-0"; next = 0 })
unfolding run_consumer
cursor_stays = refl
