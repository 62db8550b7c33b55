-- ===== src/Warden.antt =====
-- memu/warden_runtime.py: the watchdog over the gateways' heartbeats and the start of replacements.
-- Times are microseconds. Docker, the policy engine and the clock answer by arguments.
pub mod Raises
pub mod Steps
pub mod Bounds
pub mod Watchdog
mod Tests
use fumemory.Base.{
  ℕ, suc, ◌+◌, ◌-◌, ltb, leb, String, ◌<>◌, str_eq, Bool, true, false, ◌&&◌, ◌||◌, not, Option,
  none, some, List, [], ◌∷◌, ◌++◌, if◌then◌else◌, Result, ok, err,
}
use fumemory.Base.Dict
use fumemory.Base.Dict.{Dict}
use fumemory.Base.Lists.{length, contains, filter}
use fumemory.Base.Texts.{size}

pub record GatewayLiveness : Type 0 where
  pub gateway_id : String
  pub task_id : Option String
  pub last_seen : ℕ
  pub heartbeat_count : ℕ

-- What the warden publishes.
pub data Message : Type 0 where
  task_orphaned : String → String → Message
  suicide : String → Message
  respawn : String → String → Message

pub record WardenRuntime : Type 0 where
  pub max_containers : ℕ
  pub heartbeat_ttl : ℕ
  pub respawn_cooldown : ℕ
  pub use_docker : Bool
  pub liveness : Dict GatewayLiveness
  pub active_containers : Dict String
  pub respawn_retry_after : Dict ℕ
  pub spawn_inflight : List String
  pub published : List Message

-- No client is connected, a task that is not a UUID, a name of more than 64 characters.
pub data WardenError : Type 0 where
  no_connection invalid_task invalid_gateway : WardenError

-- The outside at the moment of a call: which texts are UUIDs, whether a client is connected, what the policy engine allows for a gateway and a number of
-- containers, whether a container of a gateway is listed (or the listing raises), and the container
-- that starts (or what starting it raises).
pub record World : Type 0 where
  pub now : ℕ
  pub is_uuid : String → Bool
  pub connected : Bool
  pub allows : String → Option String → ℕ → Bool
  pub is_listed : String → Option Bool
  pub launch : String → Option String

abbrev pub publish : Message → WardenRuntime → WardenRuntime
publish m w = record w { published = w.published ++ m ∷ [] }

retry_at : String → WardenRuntime → ℕ
retry_at id w = elim (Dict.get w.respawn_retry_after id) [ none ↦ 0 | some t ↦ t ]

-- `_can_spawn`
unfoldable pub can_spawn : World → String → WardenRuntime → Bool
unfolding retry_at
can_spawn o id w = not (contains id w.spawn_inflight) && leb (retry_at id w) o.now

abbrev is_present : Option Bool → Bool
is_present (some true) = true
is_present _ = false

-- `_respawn_lock`: the answer true means that the spawn is skipped. A set is a list.
unfoldable pub respawn_lock : World → String → WardenRuntime → Bool × WardenRuntime
unfolding retry_at
respawn_lock o id w =
    if leb w.max_containers (length w.spawn_inflight)
      || ltb o.now (retry_at id w)
      || contains id w.spawn_inflight
    then (true, w)
    else if not w.use_docker
    then (false, w)
    else if is_present (o.is_listed id)
    then (true, w)
    else (false, record w { spawn_inflight = id ∷ w.spawn_inflight })

abbrev pub discard : String → List String → List String
discard id ids = filter (λ j. not (str_eq j id)) ids

-- The start of the container, after the lock.
unfoldable pub start_container : World → String → WardenRuntime → WardenRuntime
start_container o id w = elim (o.launch id) [
  | some container ↦ record w {
    active_containers = Dict.put w.active_containers id container;
    spawn_inflight = discard id w.spawn_inflight;
    respawn_retry_after = Dict.remove w.respawn_retry_after id;
  }
  | none ↦ record w {
    respawn_retry_after = Dict.put w.respawn_retry_after id (o.now + w.respawn_cooldown);
    spawn_inflight = discard id w.spawn_inflight;
  }
]

abbrev unless_skipped : World → String → Bool × WardenRuntime → WardenRuntime
unfolding start_container
unless_skipped o id (true, w) = w
unless_skipped o id (false, w) = start_container o id w

-- `_spawn_gateway_container`
unfoldable pub spawn_gateway_container :
    World → String → Option String → WardenRuntime → WardenRuntime
unfolding respawn_lock unless_skipped
spawn_gateway_container o id task_id w =
    if not (o.allows id task_id (length w.active_containers))
    then w
    else if not w.use_docker
    then w
    else if leb w.max_containers (length w.active_containers)
    then w
    else unless_skipped o id (respawn_lock o id w)

-- `if state.task_id`
abbrev named_task : Option String → Option String
named_task none = none
named_task (some task) = if str_eq task "" then none else some task

-- `_request_respawn`
unfoldable pub request_respawn :
    World → String → Option String → WardenRuntime → Result WardenError Unit × WardenRuntime
unfolding can_spawn
request_respawn o id task_id w = elim (named_task task_id) [
  | none ↦ (ok tt, w)
  | some task ↦
      if not (can_spawn o id w)
      then (ok tt, w)
      else if ltb 64 (size id)
      then (err invalid_gateway, w)
      else (ok tt, publish (respawn id task) w)
]

-- The events of `_handle_expired_gateway`; only a gateway with a task is announced as orphaning it.
unfoldable pub announce :
    World → GatewayLiveness → WardenRuntime → Result WardenError Unit × WardenRuntime
announce o state w = elim (named_task state.task_id) [
  | none ↦ (ok tt, publish (suicide state.gateway_id) w)
  | some task ↦
      if o.is_uuid task
      then (
        ok tt,
        publish (suicide state.gateway_id) (publish (task_orphaned state.gateway_id task) w),
      )
      else (err invalid_task, w)
]

abbrev pub and_then :
    (WardenRuntime → Result WardenError Unit × WardenRuntime)
    → Result WardenError Unit × WardenRuntime
    → Result WardenError Unit × WardenRuntime
and_then f (err e, w) = (err e, w)
and_then f (ok _, w) = f w

-- `_handle_expired_gateway`
unfoldable pub handle_expired_gateway :
    World → GatewayLiveness → WardenRuntime → Result WardenError Unit × WardenRuntime
unfolding announce request_respawn spawn_gateway_container
handle_expired_gateway o state w =
    if not o.connected
    then (err no_connection, w)
    else and_then
        (λ v. (ok tt, spawn_gateway_container o state.gateway_id (named_task state.task_id) v))
        (and_then (request_respawn o state.gateway_id state.task_id) (announce o state w))

-- The loop of a round over the entries that it began with. What a gateway raises ends the round,
-- and the warden with it.
unfoldable pub check_each :
    World → Dict GatewayLiveness → WardenRuntime → Result WardenError Unit × WardenRuntime
unfolding handle_expired_gateway
check_each o [] w = (ok tt, w)
check_each o ((id, state) ∷ rest) w =
    let kept = check_each o rest w in
    let handled =
      and_then (λ v. check_each o rest (record v { liveness = Dict.remove v.liveness id }))
        (handle_expired_gateway o state w) in
    if leb (o.now - state.last_seen) w.heartbeat_ttl then kept else handled

-- A round of `_heartbeat_watchdog`
unfoldable pub watchdog_round : World → WardenRuntime → Result WardenError Unit × WardenRuntime
unfolding check_each
watchdog_round o w = check_each o w.liveness w

-- `touched`, after the task of the gateway is set.
abbrev pub touched : ℕ → String → GatewayLiveness → GatewayLiveness
touched now task state = record state {
  task_id = some task;
  last_seen = now;
  heartbeat_count = suc state.heartbeat_count;
}

-- The entry of a gateway, or a new one.
abbrev pub known_gateway : ℕ → String → String → Option GatewayLiveness → GatewayLiveness
known_gateway now id task (some state) = state
known_gateway now id task none = record {
  gateway_id = id;
  task_id = some task;
  last_seen = now;
  heartbeat_count = 0;
}

-- `_on_heartbeat`, for a payload that is valid, and `_on_event_heartbeat`: the task is a text.
unfoldable pub on_heartbeat : ℕ → String → String → WardenRuntime → WardenRuntime
on_heartbeat now id task w = record w {
  liveness =
      Dict.put w.liveness id
        (touched now task (known_gateway now id task (Dict.get w.liveness id)));
}

unfoldable pub on_event_heartbeat :
    ℕ → Option String → Option String → WardenRuntime → WardenRuntime
unfolding on_heartbeat
on_event_heartbeat now none task w = w
on_event_heartbeat now (some id) none w = w
on_event_heartbeat now (some id) (some task) w =
    if str_eq id "" then w else on_heartbeat now id task w

-- `_on_respawn`: the request of any sender.
unfoldable pub on_respawn : World → String → Option String → WardenRuntime → WardenRuntime
unfolding spawn_gateway_container
on_respawn o id task_id w = spawn_gateway_container o id task_id w
