-- ===== src/Lanes/Model.antt =====
-- memu/lane_lock.py and memu/swarm_models.py: the data of lane locking. A lane's value is empty,
-- text that is no JSON, or a payload; a field that is missing, or that does not parse, is `none`.
use fumemory.Base.{
  ℕ, ◌==◌, leb, String, str_eq, Bool, true, false, Option, none, some, List, [], ◌∷◌, ◌++◌,
  if◌then◌else◌,
}
use fumemory.Nats.KeyValue.{KeyValue}

abbrev pub lane_ttl : ℕ
lane_ttl = 10000000

pub record Payload : Type 0 where
  pub gateway_id : Option String
  pub task_id : Option String
  pub fencing_token : Option ℕ
  pub acquired_at : Option ℕ

pub data LaneValue : Type 0 where
  blank garbled : LaneValue
  payload : Payload → LaneValue

pub record LaneLock : Type 0 where
  pub lane_id : String
  pub gateway_id : String
  pub task_id : String
  pub fencing_token : ℕ
  pub acquired_at : ℕ
  pub expires_at : ℕ

-- The exceptions that pass through an execution.
pub data Raised : Type 0 where
  invalid_subject bad_json duplicate_claim lane_contested fencing_token : Raised
  other : String → Raised

-- `except (LaneContestedError, FencingTokenError)`: a duplicate claim is a contested lane.
abbrev pub is_structural : Raised → Bool
is_structural duplicate_claim = true
is_structural lane_contested = true
is_structural fencing_token = true
is_structural _ = false

-- The fields of `TaskNode` that an execution reads or writes.
pub record Task : Type 0 where
  pub task_id : String
  pub resource_lanes : List String
  pub rollback_instruction : Option String
  pub checkpoint_state : Option String
  pub failure_count : ℕ
  pub last_error : Option Raised

unfoldable pub is_poison_pill : Task → Bool
is_poison_pill t = leb 3 t.failure_count

pub data Event : Type 0 where
  lane_acquired lane_released : String → ℕ → Event
  heartbeat : List String → Event
  checkpoint_saved : ℕ → String → Event
  task_hydrated : String → Event
  task_completed : String → Event
  task_failed : Raised → ℕ → Event
  rollback_executed : String → Event
  dlq_enqueued : ℕ → Event
  task_orphaned : String → String → ℕ → Event

-- The two buckets, and the events that were published.
pub record World (N : KeyValue LaneValue) (F : KeyValue (Option ℕ)) : Type 0 where
  pub lanes : N.Bucket
  pub fencing : F.Bucket
  pub events : List Event

pub record Executor : Type 0 where
  pub gateway_id : String
  pub task : Task
  -- Was a NATS connection given? Without one nothing is published.
  pub connected : Bool
  pub acquired_locks : List LaneLock
  pub checkpoint_seq : ℕ

-- A field that is compared with a text.
abbrev pub is_text : Option String → String → Bool
is_text none s = false
is_text (some t) s = str_eq t s

-- `int(holder.get("fencing_token", -1)) == token`
abbrev pub is_token : Option ℕ → ℕ → Bool
is_token none n = false
is_token (some m) n = m == n

module _ {N : KeyValue LaneValue} {F : KeyValue (Option ℕ)} where
  -- `publish_event`
  unfoldable pub publish : Executor → Event → World N F → World N F
  publish x e w = if x.connected then record w { events = w.events ++ e ∷ [] } else w
