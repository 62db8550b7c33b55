-- ===== src/Warden/Steps.antt =====
-- memu/warden_runtime.py: what every message and every round of the watchdog keeps.
use fumemory.Base.{
  ℕ, ◌-◌, ltb, leb, String, str_eq, Option, none, some, [], ◌∷◌, Result, ok, err, Bool-cases,
  Option-cases, inl, inr,
}
use fumemory.Base.Dict
use fumemory.Base.Dict.{Dict}
use fumemory.Base.Texts.{size}
use fumemory.Warden.{
  Message, task_orphaned, suicide, respawn, publish, named_task, can_spawn, and_then, WardenRuntime,
  World, WardenError, GatewayLiveness, spawn_gateway_container, request_respawn, announce,
  handle_expired_gateway, check_each, watchdog_round, on_heartbeat, on_event_heartbeat, on_respawn,
}

-- What happens to a warden: its messages, and the rounds of the watchdog.
pub data Step (w : WardenRuntime) : WardenRuntime → Type 0 where
  beats : (now : ℕ) (id task : String) → Step w (on_heartbeat now id task w)
  event_beats : (now : ℕ) (id task : Option String) → Step w (on_event_heartbeat now id task w)
  requests :
      (o : World) (id : String) (task_id : Option String) → Step w (on_respawn o id task_id w)
  watches : (o : World) → Step w (watchdog_round o w).1

pub data Steps : WardenRuntime → WardenRuntime → Type 0 where
  done : (w : WardenRuntime) → Steps w w
  step : {a b c : WardenRuntime} → Step a b → Steps b c → Steps a c

-- What publishing and each spawn keep, the handling of a gateway keeps.
module _ (P : WardenRuntime → Type 0)
    (keeps_publish : (m : Message) (w : WardenRuntime) → P w → P (publish m w))
    (keeps_spawn : (o : World) (id : String) (task_id : Option String) (w : WardenRuntime)
      → P w
      → P (spawn_gateway_container o id task_id w)) where
  announce-kept : (o : World) (s : GatewayLiveness) (w : WardenRuntime) → P w → P (announce o s w).1
  unfolding announce
  announce-kept o s w h = elim (Option-cases (named_task s.task_id)) [
    | inl e ↦ rw (e, announce) (keeps_publish (suicide s.gateway_id) w h)
    | inr (task, e) ↦ elim (Bool-cases (o.is_uuid task)) [
      | inl u ↦
          rw (e, announce, u)
            (keeps_publish (suicide s.gateway_id) (publish (task_orphaned s.gateway_id task) w)
              (keeps_publish (task_orphaned s.gateway_id task) w h))
      | inr u ↦ rw (e, announce, u) h
    ]
  ]

  request_respawn-kept :
      (o : World) (id : String) (task_id : Option String) (w : WardenRuntime)
      → P w
      → P (request_respawn o id task_id w).1
  unfolding request_respawn
  request_respawn-kept o id task_id w h = elim (Option-cases (named_task task_id)) [
    | inl e ↦ rw (e, request_respawn) h
    | inr (task, e) ↦ elim (Bool-cases (can_spawn o id w)) [
      | inr c ↦ rw (e, request_respawn, c) h
      | inl c ↦ elim (Bool-cases (ltb 64 (size id))) [
        | inl s ↦ rw (e, request_respawn, c, s) h
        | inr s ↦ rw (e, request_respawn, c, s) (keeps_publish (respawn id task) w h)
      ]
    ]
  ]

  and_then-kept :
      (f : WardenRuntime → Result WardenError Unit × WardenRuntime)
      → ((w : WardenRuntime) → P w → P (f w).1)
      → (r : Result WardenError Unit × WardenRuntime) → P r.1
      → P (and_then f r).1
  and_then-kept f k (err e, w) h = h
  and_then-kept f k (ok _, w) h = k w h

  pub handle-kept :
      (o : World) (s : GatewayLiveness) (w : WardenRuntime)
      → P w
      → P (handle_expired_gateway o s w).1
  unfolding handle_expired_gateway
  handle-kept o s w h = elim (Bool-cases o.connected) [
    | inr c ↦ rw (c, handle_expired_gateway) h
    | inl c ↦
        rw (c, handle_expired_gateway)
          (and_then-kept
            (λ v. (ok tt, spawn_gateway_container o s.gateway_id (named_task s.task_id) v))
            (keeps_spawn o s.gateway_id (named_task s.task_id))
            (and_then (request_respawn o s.gateway_id s.task_id) (announce o s w))
            (and_then-kept (request_respawn o s.gateway_id s.task_id)
              (request_respawn-kept o s.gateway_id s.task_id) (announce o s w)
              (announce-kept o s w h)))
  ]

-- What the table of heartbeats does not matter to as well, every step keeps.
module _ (P : WardenRuntime → Type 0)
    (keeps_publish : (m : Message) (w : WardenRuntime) → P w → P (publish m w))
    (keeps_liveness : (d : Dict GatewayLiveness) (w : WardenRuntime)
      → P w
      → P (record w { liveness = d }))
    (keeps_spawn : (o : World) (id : String) (task_id : Option String) (w : WardenRuntime)
      → P w
      → P (spawn_gateway_container o id task_id w)) where
  check_each-kept :
      (o : World) (d : Dict GatewayLiveness) (w : WardenRuntime) → P w → P (check_each o d w).1
  unfolding check_each
  check_each-kept o [] w h = h
  check_each-kept o ((id, s) ∷ rest) w h =
      elim (Bool-cases (leb (o.now - s.last_seen) w.heartbeat_ttl)) [
        | inl e ↦ rw (e, check_each) (check_each-kept o rest w h)
        | inr e ↦
            rw (e, check_each)
              (and_then-kept P keeps_publish keeps_spawn
                (λ v. check_each o rest (record v { liveness = Dict.remove v.liveness id }))
                (λ v k.
                  check_each-kept o rest (record v { liveness = Dict.remove v.liveness id })
                    (keeps_liveness (Dict.remove v.liveness id) v k))
                (handle_expired_gateway o s w) (handle-kept P keeps_publish keeps_spawn o s w h))
      ]

  Step-kept : {a b : WardenRuntime} → Step a b → P a → P b
  unfolding on_heartbeat on_event_heartbeat on_respawn watchdog_round
  Step-kept {a = w} (beats now id task) h = keeps_liveness _ w h
  Step-kept {a = w} (event_beats now none task) h = h
  Step-kept {a = w} (event_beats now (some id) none) h = h
  Step-kept {a = w} (event_beats now (some id) (some task)) h = elim (Bool-cases (str_eq id "")) [
    | inl e ↦ rw (e, on_event_heartbeat) h
    | inr e ↦ rw (e, on_event_heartbeat) (keeps_liveness _ w h)
  ]
  Step-kept {a = w} (requests o id task_id) h = keeps_spawn o id task_id w h
  Step-kept {a = w} (watches o) h = check_each-kept o w.liveness w h

  pub Steps-kept : {a b : WardenRuntime} → Steps a b → P a → P b
  Steps-kept (done w) h = h
  Steps-kept (step s rest) h = Steps-kept rest (Step-kept s h)
