-- ===== src/Warden/Watchdog.antt =====
-- memu/warden_runtime.py: which gateways a round of the watchdog keeps.
use fumemory.Base.{
  ℕ, ◌-◌, ltb, leb, String, str_eq, ◌≡◌, refl, ap, ◌∙◌, Bool, true, false, ◌&&◌, ◌||◌, not, Option,
  none, some, [], ◌∷◌, if◌then◌else◌, Result, ok, err, arith, Bool-cases, Option-cases, inl, inr,
}
use fumemory.Base.Dict
use fumemory.Base.Dict.{Dict, get-put, get-remove}
use fumemory.Base.Lists.{All}
use fumemory.Base.Texts.{size}
use fumemory.Warden.{
  WardenRuntime, World, WardenError, GatewayLiveness, named_task, can_spawn, and_then,
  start_container, spawn_gateway_container, request_respawn, announce, handle_expired_gateway,
  check_each, watchdog_round,
}
use fumemory.Warden.Bounds.{spawn-cases}
use fumemory.Warden.Steps.{handle-kept}

-- Has the gateway an entry that is older than the time to live?
unfoldable pub is_expired : ℕ → ℕ → String → Dict GatewayLiveness → Bool
is_expired now ttl j [] = false
is_expired now ttl j ((id, s) ∷ d) =
    str_eq id j && not (leb (now - s.last_seen) ttl) || is_expired now ttl j d

-- No task, or one that is a UUID, of a gateway whose name has at most 64 characters.
abbrev pub IsFine : World → GatewayLiveness → Type 0
IsFine o s =
    (task : String)
    → named_task s.task_id ≡ some task
    → (o.is_uuid task ≡ true) × (ltb 64 (size s.gateway_id) ≡ false)

-- The handling of a gateway changes neither the heartbeats nor the time to live.
abbrev Untouched : WardenRuntime → WardenRuntime → Type 0
Untouched w v = (v.liveness ≡ w.liveness) × (v.heartbeat_ttl ≡ w.heartbeat_ttl)

start_container-Untouched :
    (o : World) (id : String) (w v : WardenRuntime)
    → Untouched w v
    → Untouched w (start_container o id v)
unfolding start_container
start_container-Untouched o id w v h = ground (arith, h)

spawn-Untouched :
    (w : WardenRuntime) (o : World) (id : String) (task_id : Option String) (v : WardenRuntime)
    → Untouched w v
    → Untouched w (spawn_gateway_container o id task_id v)
spawn-Untouched w o id task_id v h = elim (spawn-cases o id task_id v) [
  | inl e ↦ rw e h
  | inr (room, e) ↦
      rw e
        (start_container-Untouched o id w (record v { spawn_inflight = id ∷ v.spawn_inflight }) h)
]

pub handle-Untouched :
    (o : World) (s : GatewayLiveness) (w : WardenRuntime)
    → Untouched w (handle_expired_gateway o s w).1
handle-Untouched o s w =
    handle-kept (Untouched w) (λ m v h. h) (spawn-Untouched w) o s w (refl, refl)

-- After a part that did not raise, the rest goes on from the state that it left.
and_then-ends :
    (f : WardenRuntime → Result WardenError Unit × WardenRuntime)
    (r : Result WardenError Unit × WardenRuntime)
    → r.0 ≡ ok tt
    → and_then f r ≡ f r.1
and_then-ends f (ok tt, w) e = refl
and_then-ends f (err x, w) e = absurd (ground (arith, e))

announce-ends :
    (o : World) (s : GatewayLiveness) (w : WardenRuntime) → IsFine o s → (announce o s w).0 ≡ ok tt
unfolding announce
announce-ends o s w fine = elim (Option-cases (named_task s.task_id)) [
  | inl e ↦ rw (e, announce) refl
  | inr (task, e) ↦ rw (e, announce, (fine task e).0) refl
]

request_respawn-ends :
    (o : World) (s : GatewayLiveness) (w : WardenRuntime)
    → IsFine o s
    → (request_respawn o s.gateway_id s.task_id w).0 ≡ ok tt
unfolding request_respawn
request_respawn-ends o s w fine = elim (Option-cases (named_task s.task_id)) [
  | inl e ↦ rw (e, request_respawn) refl
  | inr (task, e) ↦ elim (Bool-cases (can_spawn o s.gateway_id w)) [
    | inr c ↦ rw (e, request_respawn, c) refl
    | inl c ↦ rw (e, request_respawn, c, (fine task e).1) refl
  ]
]

handle-ends :
    (o : World) (s : GatewayLiveness) (w : WardenRuntime)
    → o.connected ≡ true
    → IsFine o s
    → (handle_expired_gateway o s w).0 ≡ ok tt
unfolding handle_expired_gateway
handle-ends o s w c fine =
    let spawn =
      λ (v : WardenRuntime). spawn_gateway_container o s.gateway_id (named_task s.task_id) v in
    let asked = and_then (request_respawn o s.gateway_id s.task_id) (announce o s w) in
    let ends : asked.0 ≡ ok tt =
      ap (λ r. r.0)
        (and_then-ends (request_respawn o s.gateway_id s.task_id) (announce o s w)
          (announce-ends o s w fine))
      ∙ request_respawn-ends o s (announce o s w).1 fine in
    rw (c, handle_expired_gateway)
      (ap (λ r. r.0) (and_then-ends (λ v. (ok tt, spawn v)) asked ends))

check_each-ends :
    (o : World) (d : Dict GatewayLiveness) (w : WardenRuntime)
    → o.connected ≡ true
    → All (λ (id, s). IsFine o s) d
    → ((check_each o d w).0 ≡ ok tt)
      × ((j : String)
          → Dict.get (check_each o d w).1.liveness j
            ≡ (if is_expired o.now w.heartbeat_ttl j d then none else Dict.get w.liveness j))
unfolding check_each is_expired
check_each-ends o [] w c fine = (refl, λ j. refl)
check_each-ends o ((id, s) ∷ rest) w c fine =
    elim (Bool-cases (leb (o.now - s.last_seen) w.heartbeat_ttl)) [
      | inl e ↦
          let h = check_each-ends o rest w c fine.1 in
          rw (e, check_each) (h.0, λ j. ground (arith, e, h.1 j))
      | inr e ↦
          let v = (handle_expired_gateway o s w).1 in
          let next : WardenRuntime = record v { liveness = Dict.remove v.liveness id } in
          let h = check_each-ends o rest next c fine.1 in
          let same : Untouched w v = handle-Untouched o s w in
          rw
            (
              e,
              check_each,
              and_then-ends
                  (λ v. check_each o rest (record v { liveness = Dict.remove v.liveness id }))
                  (handle_expired_gateway o s w) (handle-ends o s w c fine.0),
            )
            (
              h.0,
              λ j. ground (
                arith,
                h.1 j,
                ap (λ ttl. is_expired o.now ttl j rest) same.1,
                get-remove v.liveness id j,
                ap (λ d. Dict.get d j) same.0,
              ),
            )
    ]

-- A round of the watchdog ends, and removes exactly the gateways that were silent for longer than the
-- time to live, where a client is connected and each watched gateway has a name of at most 64
-- characters and as its task, if it has one, a UUID.
pub watchdog_round_lem :
    (o : World) (w : WardenRuntime)
    → o.connected ≡ true
    → All (λ (id, s). IsFine o s) w.liveness
    → let (answer, after) = watchdog_round o w in
      (answer ≡ ok tt)
      × ((j : String)
          → Dict.get after.liveness j ≡ (
              if is_expired o.now w.heartbeat_ttl j w.liveness
              then none
              else Dict.get w.liveness j))
unfolding watchdog_round
watchdog_round_lem o w c fine = check_each-ends o w.liveness w c fine
