-- ===== src/Warden/Raises.antt =====
-- memu/warden_runtime.py: what ends the loop of the watchdog.
use fumemory.Base.{
  ℕ, ◌-◌, leb, String, str_eq, eq_refl, ◌≡◌, ◌≢◌, refl, ap, ◌∙◌, false, some, [], ◌∷◌, Result, ok,
  err, arith, Bool-cases, inl, inr,
}
use fumemory.Base.Dict
use fumemory.Base.Dict.{Dict, get-put, get-remove}
use fumemory.Warden.{
  WardenRuntime, World, WardenError, GatewayLiveness, named_task, and_then, spawn_gateway_container,
  request_respawn, announce, handle_expired_gateway, touched, known_gateway, check_each,
  watchdog_round, on_heartbeat, on_event_heartbeat,
}
use fumemory.Warden.Watchdog.{handle-Untouched}

and_then-raises :
    (f : WardenRuntime → Result WardenError Unit × WardenRuntime)
    (r : Result WardenError Unit × WardenRuntime)
    → r.0 ≢ ok tt
    → (and_then f r).0 ≢ ok tt
and_then-raises f (ok tt, w) n = absurd (n refl)
and_then-raises f (err e, w) n = n

and_then-late :
    (f : WardenRuntime → Result WardenError Unit × WardenRuntime)
    (r : Result WardenError Unit × WardenRuntime)
    → (f r.1).0 ≢ ok tt
    → (and_then f r).0 ≢ ok tt
and_then-late f (ok tt, w) n = n
and_then-late f (err e, w) n = λ h. absurd (ground (arith, h))

announce-raises :
    (o : World) (s : GatewayLiveness) (w : WardenRuntime) (task : String)
    → named_task s.task_id ≡ some task
    → o.is_uuid task ≡ false
    → (announce o s w).0 ≢ ok tt
unfolding announce
announce-raises o s w task e u = rw (e, announce, u) (λ h. absurd (ground (arith, h)))

handle-raises :
    (o : World) (s : GatewayLiveness) (w : WardenRuntime) (task : String)
    → named_task s.task_id ≡ some task
    → o.is_uuid task ≡ false
    → (handle_expired_gateway o s w).0 ≢ ok tt
unfolding handle_expired_gateway
handle-raises o s w task e u = elim (Bool-cases o.connected) [
  | inr c ↦ rw (c, handle_expired_gateway) (λ h. absurd (ground (arith, h)))
  | inl c ↦
      rw (c, handle_expired_gateway)
        (and_then-raises
          (λ v. (ok tt, spawn_gateway_container o s.gateway_id (named_task s.task_id) v))
          (and_then (request_respawn o s.gateway_id s.task_id) (announce o s w))
          (and_then-raises (request_respawn o s.gateway_id s.task_id) (announce o s w)
            (announce-raises o s w task e u)))
]

check_each-raises :
    (o : World) (d : Dict GatewayLiveness) (w : WardenRuntime) (id : String) (s : GatewayLiveness)
    (task : String)
    → Dict.get d id ≡ some s
    → leb (o.now - s.last_seen) w.heartbeat_ttl ≡ false
    → named_task s.task_id ≡ some task
    → o.is_uuid task ≡ false
    → (check_each o d w).0 ≢ ok tt
unfolding check_each Dict.get
check_each-raises o [] w id s task g late e u = absurd (ground (arith, g))
check_each-raises o ((j, r) ∷ rest) w id s task g late e u =
    elim (Bool-cases (leb (o.now - r.last_seen) w.heartbeat_ttl)) [
      | inl f ↦
          rw (f, check_each)
            (check_each-raises o rest w id s task (ground (arith, g, f, late)) late e u)
      | inr f ↦
          let next = λ (v : WardenRuntime).
            check_each o rest (record v { liveness = Dict.remove v.liveness j }) in
          elim (Bool-cases (str_eq j id)) [
            | inl same ↦
                let own : r ≡ s = ground (arith, g, same) in
                rw (f, check_each)
                  (and_then-raises next (handle_expired_gateway o r w)
                    (handle-raises o r w task (ap (λ x. named_task x.task_id) own ∙ e) u))
            | inr other ↦
                let v = (handle_expired_gateway o r w).1 in
                let ttl : v.heartbeat_ttl ≡ w.heartbeat_ttl = (handle-Untouched o r w).1 in
                rw (f, check_each)
                  (and_then-late next (handle_expired_gateway o r w) (
                    check_each-raises o rest (record v { liveness = Dict.remove v.liveness j }) id s
                      task (ground (arith, g, other))
                      (ap (λ n. leb (o.now - s.last_seen) n) ttl ∙ late) e u))
          ]
    ]

-- One heartbeat event is enough to end the warden: where its task is a text that is no UUID, nor empty,
-- the first round of the watchdog after the time to live raises, whatever else the warden watches.
pub event_heartbeat_kills :
    (o : World) (w : WardenRuntime) (at : ℕ) (id task : String)
    → str_eq id "" ≡ false
    → str_eq task "" ≡ false
    → o.is_uuid task ≡ false
    → leb (o.now - at) w.heartbeat_ttl ≡ false
    → (watchdog_round o (on_event_heartbeat at (some id) (some task) w)).0 ≢ ok tt
unfolding watchdog_round on_event_heartbeat on_heartbeat
event_heartbeat_kills o w at id task named full u late =
    let seen = touched at task (known_gateway at id task (Dict.get w.liveness id)) in
    let beaten = on_heartbeat at id task w in
    rw (named, on_event_heartbeat)
      (check_each-raises o beaten.liveness beaten id seen task
        (ground (arith, get-put w.liveness id seen id, eq_refl id)) late (rw full refl) u)
