-- ===== src/Warden/Bounds.antt =====
-- memu/warden_runtime.py: how many containers the warden starts, and what is in flight between calls.
use fumemory.Base.{
  ℕ, suc, ◌≤◌, String, eq_refl, ◌≡◌, ◌⊎◌, refl, ap, true, false, Option, [], ◌∷◌, arith,
  Option-cases, inl, inr,
}
use fumemory.Base.Dict
use fumemory.Base.Dict.{Dict}
use fumemory.Base.Lists.{length, filter}
use fumemory.Warden.Steps.{Steps, Steps-kept}
use fumemory.Warden.{
  WardenRuntime, World, discard, respawn_lock, start_container, spawn_gateway_container,
}

-- The containers are within the limit, and no spawn is in flight between two calls.
pub record IsBounded (limit : ℕ) (w : WardenRuntime) : Type 0 where
  pub same_limit : w.max_containers ≡ limit
  pub within : length w.active_containers ≤ limit
  pub settled : w.spawn_inflight ≡ []

length-put {ℓ} :
    {V : Type ℓ} (d : Dict V) (k : String) (v : V) → length (Dict.put d k v) ≤ suc (length d)
unfolding length Dict.put
length-put [] k v = omega arith
length-put ((j, w) ∷ d) k v = ground (arith, length-put d k v)

discard_own : (id : String) → discard id (id ∷ []) ≡ []
unfolding filter
discard_own id = ground (arith, eq_refl id)

start_container-IsBounded :
    (limit : ℕ) (o : World) (id : String) (w : WardenRuntime)
    → w.max_containers ≡ limit
    → suc (length w.active_containers) ≤ limit
    → w.spawn_inflight ≡ id ∷ []
    → IsBounded limit (start_container o id w)
unfolding start_container
start_container-IsBounded limit o id w m room flying =
    let cleared : discard id w.spawn_inflight ≡ [] = rw flying (ground (arith, discard_own id)) in
    elim (Option-cases (o.launch id)) [
      | inl e ↦
          rw (e, start_container)
            (record { same_limit = m; within = omega (arith, room); settled = cleared })
      | inr (container, e) ↦
          rw (e, start_container)
            (record {
              same_limit = m;
              within = omega (arith, room, length-put w.active_containers id container);
              settled = cleared;
            })
    ]

-- The lock is refused and nothing changes, or the gateway is in flight.
respawn_lock-cases :
    (o : World) (id : String) (w : WardenRuntime)
    → w.use_docker ≡ true
    → (respawn_lock o id w ≡ (true, w))
      ⊎ (respawn_lock o id w ≡ (false, record w { spawn_inflight = id ∷ w.spawn_inflight }))
unfolding respawn_lock
respawn_lock-cases o id w d = ground (arith, d)

-- Nothing happens, or a container is started where there is room for one.
pub spawn-cases :
    (o : World) (id : String) (task_id : Option String) (w : WardenRuntime)
    → (spawn_gateway_container o id task_id w ≡ w)
      ⊎ ((suc (length w.active_containers) ≤ w.max_containers)
          × (spawn_gateway_container o id task_id w
              ≡ start_container o id (record w { spawn_inflight = id ∷ w.spawn_inflight })))
unfolding spawn_gateway_container
spawn-cases o id task_id w = ground (arith, respawn_lock-cases o id w)

spawn-IsBounded :
    (limit : ℕ) (o : World) (id : String) (task_id : Option String) (w : WardenRuntime)
    → IsBounded limit w
    → IsBounded limit (spawn_gateway_container o id task_id w)
spawn-IsBounded limit o id task_id w h = elim (spawn-cases o id task_id w) [
  | inl e ↦ rw e h
  | inr (room, e) ↦ rw e (
      start_container-IsBounded limit o id (record w { spawn_inflight = id ∷ w.spawn_inflight })
        h.same_limit (omega (arith, room, h.same_limit)) (ap (λ ids. id ∷ ids) h.settled))
]

-- Through any messages and rounds of the watchdog, whatever the policy engine and docker answer: a
-- warden that is within its limit, with nothing in flight, stays so.
pub Steps-IsBounded :
    {limit : ℕ} {a b : WardenRuntime} → Steps a b → IsBounded limit a → IsBounded limit b
Steps-IsBounded {limit} =
    Steps-kept (IsBounded limit)
      (λ m w h. record { same_limit = h.same_limit; within = h.within; settled = h.settled })
      (λ d w h. record { same_limit = h.same_limit; within = h.within; settled = h.settled })
      (spawn-IsBounded limit)

abbrev IsFull : Dict String → WardenRuntime → Type 0
IsFull containers w =
    (w.active_containers ≡ containers) × (w.max_containers ≤ length w.active_containers)

spawn-IsFull :
    (containers : Dict String) (o : World) (id : String) (task_id : Option String)
    (w : WardenRuntime)
    → IsFull containers w
    → IsFull containers (spawn_gateway_container o id task_id w)
spawn-IsFull containers o id task_id w h = elim (spawn-cases o id task_id w) [
  | inl e ↦ rw e h
  | inr (room, e) ↦ absurd (omega (arith, room, h.1))
]

-- Once as many containers are listed as the limit says, none is added, replaced or removed by any
-- later messages and rounds, whether the containers still run or not.
pub full_forever :
    {a b : WardenRuntime}
    → Steps a b
    → a.max_containers ≤ length a.active_containers
    → b.active_containers ≡ a.active_containers
full_forever {a} s full =
    (Steps-kept (IsFull a.active_containers) (λ m w h. h) (λ d w h. h)
      (spawn-IsFull a.active_containers) s (refl, full)).0
