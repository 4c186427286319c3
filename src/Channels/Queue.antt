-- ===== src/Channels/Queue.antt =====
-- channels/queue.py: the consumer of a queue channel, as a program over its requests to Redis, to the
-- admission and to the clock. `deliver` stands for the routing, the admission and the wait until Started.
pub mod Acknowledged
mod Examples
use ach_agent.Base.{
  ℕ, zero, suc, ◌+◌, String, Bool, true, false, Option, none, some, List, [], ◌∷◌, ltb,
  if◌then◌else◌,
}
use ach_agent.Base.Program.{Program, give, raise, call, Outcome, returns, raises, ◌>>=◌, attempt}
use ach_agent.Channels.Event.{Fields, end, field}

pub data QueueFailure : Type 0 where
  stopped error : QueueFailure

-- an entry's id with its fields; those of a deleted entry are none or empty
abbrev pub Entries : Type 0
Entries = List (String × Option Fields)

-- what xreadgroup gives: the entries of each stream
abbrev pub Response : Type 0
Response = List Entries

pub data QueueRequest : Type 0 where
  read_new : QueueRequest
  read_pending : String → QueueRequest
  deliver : String → Option Fields → QueueRequest
  acknowledge : String → QueueRequest
  loop_time sleep : QueueRequest

abbrev pub QueueReply : QueueRequest → Type 0
QueueReply read_new = Outcome QueueFailure Response
QueueReply (read_pending cursor) = Outcome QueueFailure Response
QueueReply (deliver id fields) = Outcome QueueFailure (Unit {0})
QueueReply (acknowledge id) = Outcome QueueFailure (Unit {0})
QueueReply loop_time = ℕ
QueueReply sleep = Outcome QueueFailure (Unit {0})

abbrev pub Consumer : Type 0 → Type 0
Consumer A = Program QueueReply QueueFailure A

-- _pending_cursor and _next_pending_sweep, in milliseconds
pub record Sweep : Type 0 where
  pub cursor : String
  pub next : ℕ

-- `except Exception` goes on; a CancelledError is raised
abbrev pub or_go_on : Outcome QueueFailure (Unit {0}) → Consumer (Unit {0})
or_go_on (returns u) = give tt
or_go_on (raises error) = give tt
or_go_on (raises stopped) = raise stopped

abbrev pub acknowledged : String → Outcome QueueFailure (Unit {0}) → Consumer (Unit {0})
acknowledged id (returns u) = call (acknowledge id) or_go_on
acknowledged id (raises error) = give tt
acknowledged id (raises stopped) = raise stopped

-- _handle_message
abbrev pub handle_message : String → Option Fields → Consumer (Unit {0})
handle_message id fields = call (deliver id fields) (acknowledged id)

abbrev pub handle_entries : Entries → Consumer (Unit {0})
handle_entries [] = give tt
handle_entries ((id, fields) ∷ entries) = handle_message id fields >>= λ _. handle_entries entries

abbrev pub handle_response : Response → Consumer (Unit {0})
handle_response [] = give tt
handle_response (entries ∷ streams) = handle_entries entries >>= λ _. handle_response streams

-- `not fields`
abbrev pub is_deleted : Option Fields → Bool
is_deleted none = true
is_deleted (some end) = true
is_deleted (some (field k v fs)) = false

abbrev pub handle_pending : String → Option Fields → Consumer (Unit {0})
handle_pending id fields =
    if is_deleted fields then call (acknowledge id) or_go_on else handle_message id fields

abbrev pub sweep_entries : Sweep → Entries → Consumer Sweep
sweep_entries s [] = give s
sweep_entries s ((id, fields) ∷ entries) =
    handle_pending id fields >>= λ _. sweep_entries (record s { cursor = id }) entries

abbrev pub sweep_streams : Sweep → Response → Consumer Sweep
sweep_streams s [] = give s
sweep_streams s (entries ∷ streams) = sweep_entries s entries >>= λ s'. sweep_streams s' streams

abbrev pub swept : Sweep → Outcome QueueFailure Response → Consumer Sweep
swept s (raises e) = raise e
swept s (returns []) = call loop_time λ now. give (record { cursor = "0"; next = now + 5000 })
swept s (returns (entries ∷ streams)) = sweep_streams s (entries ∷ streams)

-- _consume_pending_once
unfoldable pub consume_pending_once : Sweep → Consumer Sweep
consume_pending_once s =
    call loop_time λ now. if ltb now s.next then give s else call (read_pending s.cursor) (swept s)

abbrev pub consumed_new : Outcome QueueFailure Response → Consumer (Unit {0})
consumed_new (raises e) = raise e
consumed_new (returns response) = handle_response response

-- the fields that an iteration leaves, and how it ended
abbrev pub consumed_pending :
    Sweep → Outcome QueueFailure Sweep → Consumer (Sweep × Outcome QueueFailure (Unit {0}))
consumed_pending s (raises e) = give (s, raises e)
consumed_pending s (returns s') = attempt (call read_new consumed_new) >>= λ o. give (s', o)

-- _consume_once
unfoldable pub consume_once : Sweep → Consumer (Sweep × Outcome QueueFailure (Unit {0}))
unfolding consume_pending_once
consume_once s = attempt (consume_pending_once s) >>= consumed_pending s

-- an error is waited for
abbrev pub went_on : Sweep × Outcome QueueFailure (Unit {0}) → Consumer Sweep
went_on (s, returns u) = give s
went_on (s, raises stopped) = raise stopped
went_on (s, raises error) = call sleep λ u. or_go_on u >>= λ _. give s

-- _run, while it is not stopping; `n` iterations
unfoldable pub run_consumer : ℕ → Sweep → Consumer Sweep
unfolding consume_once
run_consumer zero s = give s
run_consumer (suc n) s = consume_once s >>= λ left. went_on left >>= λ s'. run_consumer n s'
