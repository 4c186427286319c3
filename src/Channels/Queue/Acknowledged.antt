-- ===== src/Channels/Queue/Acknowledged.antt =====
-- channels/queue.py: an entry is acknowledged only when it was started, or was deleted.
use ach_agent.Base.{
  ◌≡◌, refl, ℕ, zero, suc, String, true, Option, [], ◌∷◌, ◌⊎◌, inl, inr, if_cases, ltb, string_eq,
}
use ach_agent.Base.Program.{
  give, call, Outcome, returns, raises, ◌>>=◌, attempt, Trace, Ensures-execute, Environment,
  execute, Ensures-try, Ensures-weaken,
}
use ach_agent.Base.Program.Always.{Always, Always-bind, Always-if, Always-attempt}
use ach_agent.Channels.Event.{Fields}
use ach_agent.Channels.Queue.{
  QueueFailure, stopped, error, Entries, Response, QueueRequest, read_new, read_pending, deliver,
  acknowledge, loop_time, QueueReply, Consumer, Sweep, or_go_on, handle_message, handle_entries,
  handle_response, is_deleted, handle_pending, sweep_entries, sweep_streams, swept,
  consume_pending_once, consumed_new, consumed_pending, consume_once, went_on, run_consumer,
}

-- The last request before was a delivery of the entry that reached Started.
abbrev pub IsStarted : String → Trace QueueReply → Type 0
IsStarted id ((deliver j fields, returns u) ∷ t) = j ≡ id
IsStarted id t = ⊥

-- Among the entries of a read, this one is deleted.
pub data IsDeletedIn (id : String) : Entries → Type 0 where
  here :
      (fields : Option Fields) (entries : Entries)
      → is_deleted fields ≡ true
      → IsDeletedIn id ((id, fields) ∷ entries)
  further :
      (e : String × Option Fields) (entries : Entries)
      → IsDeletedIn id entries
      → IsDeletedIn id (e ∷ entries)

pub data IsDeletedOf (id : String) : Response → Type 0 where
  this_stream :
      (entries : Entries) (streams : Response)
      → IsDeletedIn id entries
      → IsDeletedOf id (entries ∷ streams)
  other_stream :
      (entries : Entries) (streams : Response)
      → IsDeletedOf id streams
      → IsDeletedOf id (entries ∷ streams)

-- A read of the pending entries gave it, deleted.
pub data WasDeleted (id : String) : Trace QueueReply → Type 0 where
  read :
      (cursor : String) (response : Response) (t : Trace QueueReply)
      → IsDeletedOf id response
      → WasDeleted id ((read_pending cursor, returns response) ∷ t)
  earlier :
      (e : (r : QueueRequest) × QueueReply r) (t : Trace QueueReply)
      → WasDeleted id t
      → WasDeleted id (e ∷ t)

abbrev pub AllJustified : Trace QueueReply → Type 0
AllJustified [] = Unit
AllJustified ((acknowledge id, x) ∷ t) = (IsStarted id t ⊎ WasDeleted id t) × AllJustified t
AllJustified (e ∷ t) = AllJustified t

-- While the entries of a response are handled.
module _ (response : Response) where
  abbrev Covered : Trace QueueReply → Type 0
  Covered t = AllJustified t × ((id : String) → IsDeletedOf id response → WasDeleted id t)

  or_go_on-Covered :
      (t : Trace QueueReply) (x : Outcome QueueFailure (Unit {0}))
      → Covered t
      → Always Covered t (or_go_on x)
  or_go_on-Covered t (returns u) p = p
  or_go_on-Covered t (raises error) p = p
  or_go_on-Covered t (raises stopped) p = p

  handle_message-Covered :
      (t : Trace QueueReply) (id : String) (fields : Option Fields)
      → Covered t
      → Always Covered t (handle_message id fields)
  handle_message-Covered t id fields p (raises error) = (p.0, λ j d. earlier _ _ (p.1 j d))
  handle_message-Covered t id fields p (raises stopped) = (p.0, λ j d. earlier _ _ (p.1 j d))
  handle_message-Covered t id fields p (returns u) =
      λ x. or_go_on-Covered _ x ((inl refl, p.0), λ j d. earlier _ _ (earlier _ _ (p.1 j d)))

  handle_entries-Covered :
      (t : Trace QueueReply) (entries : Entries)
      → Covered t
      → Always Covered t (handle_entries entries)
  handle_entries-Covered t [] p = p
  handle_entries-Covered t ((id, fields) ∷ entries) p =
      Always-bind Covered t (handle_message id fields) _ (handle_message-Covered t id fields p)
        λ t₁ _ p₁. handle_entries-Covered t₁ entries p₁

  handle_response-Covered :
      (t : Trace QueueReply) (streams : Response)
      → Covered t
      → Always Covered t (handle_response streams)
  handle_response-Covered t [] p = p
  handle_response-Covered t (entries ∷ streams) p =
      Always-bind Covered t (handle_entries entries) _ (handle_entries-Covered t entries p)
        λ t₁ _ p₁. handle_response-Covered t₁ streams p₁

  handle_pending-Covered :
      (t : Trace QueueReply) (id : String) (fields : Option Fields)
      → (is_deleted fields ≡ true → IsDeletedOf id response)
      → Covered t
      → Always Covered t (handle_pending id fields)
  handle_pending-Covered t id fields known p =
      if_cases (λ q. Always Covered t q) (is_deleted fields) (call (acknowledge id) or_go_on)
        (handle_message id fields)
        (λ deleted x.
          or_go_on-Covered _ x ((inr (p.1 id (known deleted)), p.0), λ j d. earlier _ _ (p.1 j d)))
        (λ _. handle_message-Covered t id fields p)

  sweep_entries-Covered :
      (t : Trace QueueReply) (s : Sweep) (entries : Entries)
      → ((id : String) → IsDeletedIn id entries → IsDeletedOf id response)
      → Covered t
      → Always Covered t (sweep_entries s entries)
  sweep_entries-Covered t s [] known p = p
  sweep_entries-Covered t s ((id, fields) ∷ entries) known p =
      Always-bind Covered t (handle_pending id fields) _
        (handle_pending-Covered t id fields (λ deleted. known id (here fields entries deleted)) p)
        λ t₁ _ p₁.
          sweep_entries-Covered t₁ (record s { cursor = id }) entries
            (λ j d. known j (further (id, fields) entries d)) p₁

  sweep_streams-Covered :
      (t : Trace QueueReply) (s : Sweep) (streams : Response)
      → ((id : String) → IsDeletedOf id streams → IsDeletedOf id response)
      → Covered t
      → Always Covered t (sweep_streams s streams)
  sweep_streams-Covered t s [] known p = p
  sweep_streams-Covered t s (entries ∷ streams) known p =
      Always-bind Covered t (sweep_entries s entries) _
        (sweep_entries-Covered t s entries (λ j d. known j (this_stream entries streams d)) p)
        λ t₁ s' p₁.
          sweep_streams-Covered t₁ s' streams (λ j d. known j (other_stream entries streams d)) p₁

none_deleted : (id : String) (t : Trace QueueReply) → IsDeletedOf id [] → WasDeleted id t
none_deleted id t d = elim d [ ]

forget_response :
    {A : Type 0} (response : Response) (t : Trace QueueReply) (p : Consumer A)
    → Always (Covered response) t p
    → Always AllJustified t p
forget_response response t p h =
    Ensures-weaken (λ t o. Covered response t) (λ t o. AllJustified t) t p h (λ t o c. c.0)

swept-AllJustified :
    (t : Trace QueueReply) (s : Sweep) (x : Outcome QueueFailure Response)
    → AllJustified t
    → Always AllJustified ((read_pending s.cursor, x) ∷ t) (swept s x)
swept-AllJustified t s (raises e) p = p
swept-AllJustified t s (returns []) p = λ now. p
swept-AllJustified t s (returns (entries ∷ streams)) p =
    forget_response (entries ∷ streams) _ (sweep_streams s (entries ∷ streams)) (
      sweep_streams-Covered (entries ∷ streams) _ s (entries ∷ streams) (λ id d. d)
        (p, λ id d. read s.cursor (entries ∷ streams) t d))

consume_pending_once-AllJustified :
    (t : Trace QueueReply) (s : Sweep)
    → AllJustified t
    → Always AllJustified t (consume_pending_once s)
unfolding consume_pending_once
consume_pending_once-AllJustified t s p now =
    Always-if AllJustified _ (ltb now s.next) (give s) (call (read_pending s.cursor) (swept s)) p
      (λ x. swept-AllJustified ((loop_time, now) ∷ t) s x p)

consumed_new-AllJustified :
    (t : Trace QueueReply) (x : Outcome QueueFailure Response)
    → AllJustified t
    → Always AllJustified ((read_new, x) ∷ t) (consumed_new x)
consumed_new-AllJustified t (raises e) p = p
consumed_new-AllJustified t (returns response) p = forget_response [] _ (handle_response response) (
    handle_response-Covered [] ((read_new, returns response) ∷ t) response
      (p, λ id. none_deleted id _))

consumed_pending-AllJustified :
    (t : Trace QueueReply) (s : Sweep) (o : Outcome QueueFailure Sweep)
    → AllJustified t
    → Always AllJustified t (consumed_pending s o)
consumed_pending-AllJustified t s (raises e) p = p
consumed_pending-AllJustified t s (returns s') p =
    Always-bind AllJustified t (attempt (call read_new consumed_new)) _
      (Always-attempt AllJustified t (call read_new consumed_new)
        (λ x. consumed_new-AllJustified t x p))
      λ t₁ o p₁. p₁

slept-AllJustified :
    (t : Trace QueueReply) (s : Sweep) (u : Outcome QueueFailure (Unit {0}))
    → AllJustified t
    → Always AllJustified t (or_go_on u >>= λ _. give s)
slept-AllJustified t s (returns u) p = p
slept-AllJustified t s (raises error) p = p
slept-AllJustified t s (raises stopped) p = p

went_on-AllJustified :
    (t : Trace QueueReply) (s : Sweep) (o : Outcome QueueFailure (Unit {0}))
    → AllJustified t
    → Always AllJustified t (went_on (s, o))
went_on-AllJustified t s (returns u) p = p
went_on-AllJustified t s (raises stopped) p = p
went_on-AllJustified t s (raises error) p = λ u. slept-AllJustified _ s u p

run_consumer-AllJustified :
    (n : ℕ) (t : Trace QueueReply) (s : Sweep)
    → AllJustified t
    → Always AllJustified t (run_consumer n s)
unfolding run_consumer consume_once
run_consumer-AllJustified zero t s p = p
run_consumer-AllJustified (suc n) t s p =
    Always-bind AllJustified t (consume_once s) _
      (Ensures-try (λ t o. AllJustified t) (λ t o. AllJustified t) t (consume_pending_once s)
        (consumed_pending s) (consume_pending_once-AllJustified t s p)
        (λ t₁ o p₁. consumed_pending-AllJustified t₁ s o p₁))
      λ t₁ left p₁.
        Always-bind AllJustified t₁ (went_on left) _ (went_on-AllJustified t₁ left.0 left.1 p₁)
          λ t₂ s' p₂. run_consumer-AllJustified n t₂ s' p₂

-- Whatever Redis, the admission and the clock answer, each acknowledgement of the consumer is of an entry
-- whose delivery reached Started just before, or that a read of the pending entries gave as deleted.
pub run_consumer-Justified :
    (n : ℕ) (s : Sweep) (env : Environment QueueReply)
    → AllJustified (execute env [] (run_consumer n s)).0
run_consumer-Justified n s env =
    Ensures-execute (λ t o. AllJustified t) env [] (run_consumer n s)
      (run_consumer-AllJustified n [] s tt)
