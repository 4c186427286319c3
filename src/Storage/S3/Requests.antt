-- ===== src/Storage/S3/Requests.antt =====
-- storage/s3.py: the requests that `S3Storage` makes of the S3 client, of workers on the staging file
-- and of the clock, and the failures that may come of them. `json.dumps` and `json.loads` stand with the
-- client: a body is the JSON value that it carries.
use ach_agent.Base.{
  ℕ, String, Bool, true, false, ◌||◌, Option, List, [], ◌∷◌, ◌==◌, string_eq, if◌then◌else◌,
}
use ach_agent.Base.Program.{Program, Outcome, returns, Trace}
use ach_agent.Channels.Event.{Value}
use ach_agent.Storage.Cache.{Bytes}
use ach_agent.Storage.Capped.{Owned}
use ach_agent.Storage.Fencing.{Fenced}
use ach_agent.Storage.Refs.{ObjectKey, registry_key}
use ach_agent.Storage.S3.Documents.{Dates}

-- An exception of the client: its error code, or "", its type, and whether it is a TimeoutError or a
-- ConnectionError.
pub record SdkError : Type 0 where
  pub code : String
  pub type_name : String
  pub is_timeout : Bool

pub data StorageFailure : Type 0 where
  sdk : SdkError → StorageFailure
  fenced : Fenced → StorageFailure
  cancelled other_ref storage_unavailable restore_failed snapshot_expired : StorageFailure
  snapshot_transient snapshot_conflict concurrent_modification : StorageFailure
  precondition_failed archive_too_large runtime_error os_error : StorageFailure

abbrev pub is_one_of : List String → String → Bool
is_one_of [] s = false
is_one_of (x ∷ xs) s = (s == x) || is_one_of xs s

-- _error_code: only an exception of the client has a `response`.
abbrev pub error_code : StorageFailure → String
error_code (sdk e) = e.code
error_code _ = ""

unfoldable pub is_not_found : StorageFailure → Bool
is_not_found f = is_one_of ("404" ∷ "NoSuchKey" ∷ "NotFound" ∷ []) (error_code f)

unfoldable pub is_precondition_failed : StorageFailure → Bool
is_precondition_failed f =
    is_one_of ("PreconditionFailed" ∷ "412" ∷ "ConditionalRequestConflict" ∷ []) (error_code f)

-- _TRANSIENT_CODES
abbrev pub transient_codes : List String
transient_codes =
    "408" ∷ "429" ∷ "500" ∷ "502" ∷ "503" ∷ "504" ∷ "RequestTimeout" ∷ "RequestTimeoutException"
    ∷ "SlowDown" ∷ "InternalError" ∷ "ServiceUnavailable" ∷ []

-- _TRANSIENT_SDK_ERRORS
abbrev pub transient_sdk_errors : List String
transient_sdk_errors =
    "EndpointConnectionError" ∷ "ConnectionClosedError" ∷ "ConnectTimeoutError" ∷ "ReadTimeoutError"
    ∷ "HTTPClientError" ∷ []

unfoldable pub is_snapshot_transient : StorageFailure → Bool
is_snapshot_transient (sdk e) =
    e.is_timeout || is_one_of transient_sdk_errors e.type_name || is_one_of transient_codes e.code
is_snapshot_transient f = false

-- `except PreconditionFailed`
abbrev pub lost_race : StorageFailure → Bool
lost_race precondition_failed = true
lost_race e = false

-- A transient error of the client is raised as SnapshotTransientFailure.
abbrev pub as_transient : StorageFailure → StorageFailure
as_transient e = if is_snapshot_transient e then snapshot_transient else e

-- IfNoneMatch="*", or IfMatch
pub data Condition : Type 0 where
  if_none_match : Condition
  if_match : String → Condition

-- What get_object gives: the size of the body, what json.loads makes of it, and the ETag.
pub record Fetched : Type 0 where
  pub size : ℕ
  pub json : Option Value
  pub etag : String

-- The tag of an uploaded object: the epoch, the writer and the base generation. A number stands for
-- its decimal text.
pub record Owner : Type 0 where
  pub epoch : ℕ
  pub writer_instance_id : String
  pub generation : ℕ

-- What head_object gives: the length, and the metadata, where a text that is not a number's counts
-- as missing under a key that holds a number.
pub record Head : Type 0 where
  pub content_length : Option ℕ
  pub sha256 : Option String
  pub writer_epoch : Option ℕ
  pub writer_instance_id : Option String
  pub base_generation : Option ℕ

-- What `_run_owned` gives: whether the caller was cancelled, and what the worker came to.
pub record Drained (A : Type 0) : Type 0 where
  pub was_cancelled : Bool
  pub outcome : Outcome StorageFailure A

-- The worker returned, and the caller was not cancelled.
abbrev pub done : {A : Type 0} → A → Drained A
done a = record { was_cancelled = false; outcome = returns a }

-- What the calls of `write_capped` come to, and the error where it raises one.
pub record Writing : Type 0 where
  pub opens : Owned
  pub chunks : List (ℕ × Owned)
  pub stream_raises : Bool
  pub closes : Owned
  pub unlinks : Owned
  pub error : StorageFailure

pub data StorageRequest : Type 0 where
  get_object : ObjectKey → StorageRequest
  put_object : ObjectKey → Value → Condition → StorageRequest
  put_snapshot : ObjectKey → String → Owner → StorageRequest
  head_object : ObjectKey → StorageRequest
  create_staging write_stream hash_staging unlink_staging clock : StorageRequest
  check_object download_capped : ObjectKey → StorageRequest
  read_staging : StorageRequest
  get_cached : ObjectKey → ℕ → String → StorageRequest
  put_cached : ObjectKey → ℕ → Bytes → StorageRequest

abbrev pub Reply : StorageRequest → Type 0
Reply (get_object key) = Outcome StorageFailure Fetched
Reply (put_object key document condition) = Outcome StorageFailure String
Reply (put_snapshot key checksum owner) = Drained (Unit {0})
Reply (head_object key) = Drained Head
Reply create_staging = Drained (Unit {0})
Reply write_stream = Writing
Reply hash_staging = Drained String
Reply unlink_staging = Drained (Unit {0})
Reply clock = ℕ
Reply (check_object key) = Outcome StorageFailure Head
Reply (download_capped key) = Drained ℕ
Reply read_staging = Drained Bytes
Reply (get_cached key version checksum) = Drained (Option Bytes)
Reply (put_cached key version content) = Drained (Unit {0})

abbrev pub S3 : Type 0 → Type 0
S3 A = Program Reply StorageFailure A

-- The storage's configuration. `configured`: there is a bucket and a client.
pub record Settings : Type 0 where
  pub dates : Dates
  pub configured : Bool
  pub max_snapshot_bytes : ℕ

-- The conditional writes of registries, the last one first.
abbrev pub registry_writes : Trace Reply → List (Value × Condition)
registry_writes [] = []
registry_writes ((put_object (registry_key ref) document condition, x) ∷ t) =
    (document, condition) ∷ registry_writes t
registry_writes (_ ∷ t) = registry_writes t
