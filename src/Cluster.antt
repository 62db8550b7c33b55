-- ===== src/Cluster.antt =====
-- memu/cluster.py: two NATS nodes, one of them active, with failover. A node has one client at most,
-- so a client is named by its node; what a client answers is an argument. Times are microseconds.
mod Steps
mod Tests
use fumemory.Base.{
  ℕ, suc, ltb, String, str_eq, Bool, true, false, ◌&&◌, ◌||◌, not, is_some, Option, none, some,
  List, [], ◌∷◌, ◌++◌, map, if◌then◌else◌, Result, ok, err,
}
use fumemory.Base.Lists.{contains}
use fumemory.Base.Texts.{lower}
use fumemory.CoreMemory.Texts.{strip}

pub data ClusterNode : Type 0 where
  local railway : ClusterNode

-- A dict with the two nodes as keys.
pub record Nodes {ℓ} (A : Type ℓ) : Type ℓ where
  pub local_value : A
  pub railway_value : A

abbrev pub at {ℓ} : {A : Type ℓ} → Nodes A → ClusterNode → A
at d local = d.local_value
at d railway = d.railway_value

abbrev pub with_node {ℓ} : {A : Type ℓ} → Nodes A → ClusterNode → A → Nodes A
with_node d local a = record d { local_value = a }
with_node d railway a = record d { railway_value = a }

abbrev pub other_node : ClusterNode → ClusterNode
other_node local = railway
other_node railway = local

abbrev pub is_node : ClusterNode → ClusterNode → Bool
is_node local local = true
is_node railway railway = true
is_node _ _ = false

pub record NodeHealth : Type 0 where
  pub url : String
  pub connected : Bool
  pub last_ping : ℕ
  pub last_error : Option String
  pub reconnect_count : ℕ
  pub last_seen : ℕ

-- `notified` is the trace of the callbacks' calls, the last call first.
pub record NatsClusterManager : Type 0 where
  pub local_url : Option String
  pub railway_url : Option String
  pub failover_threshold : ℕ
  pub connections : Nodes Bool
  pub jetstreams : Nodes Bool
  pub active_node : ClusterNode
  pub callbacks : List String
  pub notified : List (String × ClusterNode × ClusterNode)
  pub health : Nodes NodeHealth

pub data ConnectionError : Type 0 where
  no_urls no_node no_connection no_jetstream : ConnectionError

-- `value or default`
or_default : Option String → Option String → Option String
or_default none default = default
or_default (some value) default = if str_eq value "" then default else some value

abbrev placeholder_hosts : List String
placeholder_hosts = "nats" ∷ "nats.railway.internal" ∷ "nats-railway.railway.internal" ∷ []

abbrev no_values : List String
no_values = "none" ∷ "null" ∷ "undefined" ∷ "-" ∷ "-1" ∷ []

-- The host is `urlparse(value).hostname`.
check_host : Option String → String → Option String
check_host none value = some value
check_host (some host) value =
    if str_eq host ""
    then some value
    else if contains host placeholder_hosts
    then none
    else some value

unfoldable pub clean_url : (String → Option String) → Option String → Option String
unfolding check_host
clean_url hostname none = none
clean_url hostname (some text) =
    let value = strip text in
    if str_eq value "" || contains (lower value) no_values
    then none
    else check_host (hostname value) value

new_health : Option String → ℕ → NodeHealth
new_health url now = record {
  url = elim url [ none ↦ "" | some u ↦ u ];
  connected = false;
  last_ping = 0;
  last_error = none;
  reconnect_count = 0;
  last_seen = now;
}

-- `__init__`: an argument comes before its environment variable.
unfoldable pub new_manager :
    (String → Option String)
    → Option String × Option String
    → Option String × Option String
    → ℕ
    → ℕ
    → NatsClusterManager
unfolding or_default new_health
new_manager hostname (local_arg, local_env) (railway_arg, railway_env) threshold now =
    let local_url = clean_url hostname (or_default local_arg local_env) in
    let railway_url = clean_url hostname (or_default railway_arg railway_env) in
    record {
      local_url = local_url;
      railway_url = railway_url;
      failover_threshold = threshold;
      connections = record { local_value = false; railway_value = false };
      jetstreams = record { local_value = false; railway_value = false };
      active_node = local;
      callbacks = [];
      notified = [];
      health = record {
        local_value = new_health local_url now;
        railway_value = new_health railway_url now;
      };
    }

unfoldable pub on_failover : String → NatsClusterManager → NatsClusterManager
on_failover callback m = record m { callbacks = m.callbacks ++ callback ∷ [] }

abbrev pub switch_to : ClusterNode → NatsClusterManager → NatsClusterManager
switch_to node m = record m { active_node = node }

abbrev set_health : ClusterNode → NodeHealth → NatsClusterManager → NatsClusterManager
set_health node h m = record m { health = with_node m.health node h }

-- `_connect_node`: what the attempt raised, if it did.
unfoldable pub connect_node :
    ℕ → ClusterNode → Option String → NatsClusterManager → NatsClusterManager
connect_node now node (some e) m =
    set_health node (record (at m.health node) { connected = false; last_error = some e }) m
connect_node now node none m =
    let h = at m.health node in
    set_health node (record h { connected = true; last_seen = now; last_error = none })
      (record m {
        connections = with_node m.connections node true;
        jetstreams = with_node m.jetstreams node true;
      })

-- The attempts of `connect`; a node without a URL has none. The flag says that one succeeded.
abbrev attempt :
    ℕ
    → (String → Option String)
    → ClusterNode
    → Option String
    → Bool × NatsClusterManager
    → Bool × NatsClusterManager
attempt now dial node none r = r
attempt now dial node (some url) (any, m) = elim (dial url) [
  | none ↦ (true, connect_node now node none m)
  | some e ↦ (any, connect_node now node (some e) m)
]

-- `connect`: the attempts change different entries, so they stand one after the other.
unfoldable pub connect :
    ℕ
    → (ClusterNode → String → Option String)
    → NatsClusterManager
    → Result ConnectionError Unit × NatsClusterManager
connect now dial m =
    let (any, tried) =
      attempt now (dial railway) railway m.railway_url
        (attempt now (dial local) local m.local_url (false, m)) in
    if not (is_some m.local_url || is_some m.railway_url)
    then (err no_urls, m)
    else if any
    then (ok tt, switch_to (if tried.health.local_value.connected then local else railway) tried)
    else (err no_node, tried)

-- `_failover`
unfoldable pub failover : NatsClusterManager → NatsClusterManager
failover m =
    let other = other_node m.active_node in
    if (at m.health other).connected
    then record m {
      active_node = other;
      notified = map (λ callback. (callback, m.active_node, other)) m.callbacks ++ m.notified;
    }
    else m

unfoldable pub on_error : ClusterNode → String → NatsClusterManager → NatsClusterManager
on_error node e m = set_health node (record (at m.health node) { last_error = some e }) m

unfoldable pub on_disconnect : ClusterNode → NatsClusterManager → NatsClusterManager
unfolding failover
on_disconnect node m =
    let lost = set_health node (record (at m.health node) { connected = false }) m in
    if is_node m.active_node node then failover lost else lost

unfoldable pub on_reconnect : ℕ → ClusterNode → NatsClusterManager → NatsClusterManager
on_reconnect now node m =
    let h = at m.health node in
    set_health node
      (record h { connected = true; reconnect_count = suc h.reconnect_count; last_seen = now }) m

-- The properties `active_connection` and `jetstream`; `up` is `is_connected` of the clients.
unfoldable pub active_connection :
    Nodes Bool → NatsClusterManager → Result ConnectionError ClusterNode × NatsClusterManager
active_connection up m =
    let node = m.active_node in
    let other = other_node node in
    if at m.connections node && at up node
    then (ok node, m)
    else if at m.connections other && at up other
    then (ok other, switch_to other m)
    else (err no_connection, m)

unfoldable pub jetstream :
    NatsClusterManager → Result ConnectionError ClusterNode × NatsClusterManager
jetstream m =
    let other = other_node m.active_node in
    if at m.jetstreams m.active_node
    then (ok m.active_node, m)
    else if at m.jetstreams other
    then (ok other, switch_to other m)
    else (err no_jetstream, m)

-- What a client tells the monitor: it is not connected, or how its flush ended.
pub data Ping : Type 0 where
  disconnected : Ping
  flushed : ℕ → Ping
  raised : String → Ping

unfoldable pub pinged : ℕ → Ping → NodeHealth → NodeHealth
pinged now disconnected h = record h { connected = false }
pinged now (flushed latency) h = record h {
  connected = true;
  last_ping = latency;
  last_seen = now;
  last_error = none;
}
pinged now (raised e) h = record h { connected = false; last_error = some e }

abbrev ping_node : ℕ → Nodes Ping → ClusterNode → NatsClusterManager → NatsClusterManager
ping_node now pings node m =
    if at m.connections node
    then set_health node (pinged now (at pings node) (at m.health node)) m
    else m

-- A round of `_health_monitor`.
unfoldable pub monitor_round : ℕ → Nodes Ping → NatsClusterManager → NatsClusterManager
unfolding pinged
monitor_round now pings m =
    let seen = ping_node now pings railway (ping_node now pings local m) in
    let h = seen.health.local_value in
    if is_node seen.active_node railway && h.connected && ltb h.last_ping seen.failover_threshold
    then switch_to local seen
    else seen
