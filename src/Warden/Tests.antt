-- ===== src/Warden/Tests.antt =====
-- memu/warden_runtime.py: the warden on small examples.
use fumemory.Base.{
  ℕ, String, str_eq, eq_iff, ◌≡◌, ◌≢◌, ◌≤◌, refl, ltb, true, false, none, some, [], ok, arith,
}
use fumemory.Base.Dict
use fumemory.Base.Dict.{Dict}
use fumemory.Base.Lists.{length, contains, filter}
use fumemory.Base.Texts.{size}
use fumemory.Warden.{
  WardenRuntime, World, watchdog_round, on_heartbeat, on_event_heartbeat, on_respawn,
  spawn_gateway_container, start_container, respawn_lock,
}
use fumemory.Warden.Steps.{done, step, requests}
use fumemory.Warden.Bounds.{IsBounded, Steps-IsBounded, full_forever}
use fumemory.Warden.Raises.{event_heartbeat_kills}
use fumemory.Warden.Watchdog.{watchdog_round_lem, is_expired}

-- The only UUID is "u1", and each start of a container works.
abbrev outside : ℕ → World
outside now = record {
  now = now;
  is_uuid = λ s. str_eq s "u1";
  connected = true;
  allows = λ id task n. true;
  is_listed = λ id. some false;
  launch = λ id. some id;
}

abbrev idle : WardenRuntime
idle = record {
  max_containers = 1;
  heartbeat_ttl = 10;
  respawn_cooldown = 30;
  use_docker = true;
  liveness = [];
  active_containers = [];
  respawn_retry_after = [];
  spawn_inflight = [];
  published = [];
}

abbrev beating : WardenRuntime
beating = on_heartbeat 0 "g1" "u1" idle

abbrev one_started : WardenRuntime
one_started = on_respawn (outside 5) "g1" none idle

Steps-IsBounded_example : IsBounded 1 (on_respawn (outside 6) "g2" none one_started)
unfolding length
Steps-IsBounded_example =
    Steps-IsBounded
      (step (requests (outside 5) "g1" none) (
        step (requests (outside 6) "g2" none)
          (done (on_respawn (outside 6) "g2" none one_started))))
      (record { same_limit = refl; within = omega arith; settled = refl })

one_listed : 1 ≤ length one_started.active_containers
unfolding length on_respawn spawn_gateway_container respawn_lock start_container contains filter
    Dict.put Dict.remove Dict.get
one_listed = omega arith

same_limit : one_started.max_containers ≡ 1
unfolding on_respawn spawn_gateway_container respawn_lock start_container length Dict.get contains
same_limit = refl

full_first : one_started.max_containers ≤ length one_started.active_containers
full_first = omega (arith, one_listed, same_limit)

full_forever_example :
    (on_respawn (outside 90) "g1" none one_started).active_containers
    ≡ one_started.active_containers
full_forever_example =
    full_forever
      (step (requests (outside 90) "g1" none)
        (done (on_respawn (outside 90) "g1" none one_started)))
      full_first

own_task :
    (task : String)
    → some "u1" ≡ some task
    → (str_eq task "u1" ≡ true) × (ltb 64 (size "g1") ≡ false)
unfolding size
own_task task e = (ground (arith, e, eq_iff task "u1"), refl)

watchdog_round_lem_example : Dict.get (watchdog_round (outside 11) beating).1.liveness "g1" ≡ none
unfolding on_heartbeat Dict.put is_expired Dict.get
watchdog_round_lem_example =
    (watchdog_round_lem (outside 11) beating refl ((λ task e. own_task task e), tt)).1 "g1"

event_heartbeat_kills_example :
    (watchdog_round (outside 11) (on_event_heartbeat 0 (some "g2") (some "lane-7") beating)).0
    ≢ ok tt
unfolding on_heartbeat
event_heartbeat_kills_example =
    event_heartbeat_kills (outside 11) beating 0 "g2" "lane-7" refl refl refl refl
