-- ===== src/Channels/Event.antt =====
-- channels/event.py: the events that cross from the channel adapters to the harness, with the
-- JSON-like values that they carry.
use ach_agent.Base.{ℕ, String, Bool, Option, none, some, List, ◌==◌, string_eq, if◌then◌else◌}

-- A Python value of a payload or a context. A float is kept as its text.
mutual
  pub data Value : Type 0 where
    null : Value
    boolean : Bool → Value
    nonneg : ℕ → Value
    negative : ℕ → Value
    float : String → Value
    str : String → Value
    array : Values → Value
    object : Fields → Value

  pub data Values : Type 0 where
    nil : Values
    cons : Value → Values → Values

  pub data Fields : Type 0 where
    end : Fields
    field : String → Value → Fields → Fields

-- d.get(key) of a dict
unfoldable pub get_field : String → Fields → Option Value
get_field k end = none
get_field k (field j v fs) = if j == k then some v else get_field k fs

pub record Event : Type 0 where
  pub event_id : String
  pub channel : String
  pub type : String
  pub source : String
  pub payload : Fields
  pub context : Fields
  pub actor : String

pub record RoutedEvent : Type 0 where
  pub event : Event
  pub workspace_key : String
  pub session_key : String
  -- rendered rateLimit.perKey keys, in config order
  pub rate_keys : List String
