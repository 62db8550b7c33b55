-- ===== src/Cluster/Steps.antt =====
-- memu/cluster.py: what connections, callbacks, the monitor and the readers leave true.
use fumemory.Base.{
  ℕ, ltb, String, ◌≡◌, refl, Bool, true, false, ◌&&◌, ◌||◌, not, List, [], ◌∷◌, Option, none, some,
  is_some, arith, if◌then◌else◌, Result, ok, err,
}
use fumemory.Cluster.{
  ClusterNode, local, railway, Nodes, at, NatsClusterManager, ConnectionError, no_urls, no_node,
  new_manager, flushed, Ping, on_failover, connect, connect_node, failover, on_error, on_disconnect,
  on_reconnect, active_connection, jetstream, monitor_round, pinged,
}

-- What happens to a manager that is connected. Callbacks come from clients only.
pub data Step (m : NatsClusterManager) : NatsClusterManager → Type 0 where
  registers : (callback : String) → Step m (on_failover callback m)
  fails : (node : ClusterNode) (e : String) → Step m (on_error node e m)
  disconnects : (node : ClusterNode) → Step m (on_disconnect node m)
  reconnects :
      (now : ℕ) (node : ClusterNode)
      → at m.connections node ≡ true
      → Step m (on_reconnect now node m)
  monitors : (now : ℕ) (pings : Nodes Ping) → Step m (monitor_round now pings m)
  publishes : (up : Nodes Bool) → Step m (active_connection up m).1
  streams : Step m (jetstream m).1

pub data Steps : NatsClusterManager → NatsClusterManager → Type 0 where
  done : (m : NatsClusterManager) → Steps m m
  step : {a b c : NatsClusterManager} → Step a b → Steps b c → Steps a c

-- A node has its stream where it has a client; a node that is called connected has a client, and so
-- has the active node.
pub record IsWired (m : NatsClusterManager) : Type 0 where
  pub streams_local : m.jetstreams.local_value ≡ m.connections.local_value
  pub streams_railway : m.jetstreams.railway_value ≡ m.connections.railway_value
  pub local_client : m.health.local_value.connected ≡ true → m.connections.local_value ≡ true
  pub railway_client : m.health.railway_value.connected ≡ true → m.connections.railway_value ≡ true
  pub active_client : at m.connections m.active_node ≡ true

-- What a manager that `__init__` made and nothing has touched since looks like.
pub record IsFresh (m : NatsClusterManager) : Type 0 where
  pub no_local_client : m.connections.local_value ≡ false
  pub no_railway_client : m.connections.railway_value ≡ false
  pub no_local_stream : m.jetstreams.local_value ≡ false
  pub no_railway_stream : m.jetstreams.railway_value ≡ false
  pub local_down : m.health.local_value.connected ≡ false
  pub railway_down : m.health.railway_value.connected ≡ false

pub connect-IsWired :
    (now : ℕ) (dial : ClusterNode → String → Option String) (m : NatsClusterManager)
    → IsFresh m
    → (connect now dial m).0 ≡ ok tt
    → IsWired (connect now dial m).1
unfolding connect connect_node
connect-IsWired now dial m h e = ground (arith, h, e)

Step-IsWired : {a b : NatsClusterManager} → Step a b → IsWired a → IsWired b
unfolding on_failover on_error on_disconnect failover on_reconnect monitor_round active_connection
    jetstream
Step-IsWired (registers callback) h = ground (arith, h)
Step-IsWired {a = a} (fails local e) h = ground (arith, h)
Step-IsWired {a = a} (fails railway e) h = ground (arith, h)
Step-IsWired (disconnects local) h = ground (arith, h)
Step-IsWired (disconnects railway) h = ground (arith, h)
Step-IsWired (reconnects now local c) h = ground (arith, h)
Step-IsWired (reconnects now railway c) h = ground (arith, h)
Step-IsWired (monitors now pings) h = ground (arith, h)
Step-IsWired (publishes up) h = ground (arith, h)
Step-IsWired streams h = ground (arith, h)

Steps-IsWired : {a b : NatsClusterManager} → Steps a b → IsWired a → IsWired b
Steps-IsWired (done m) h = h
Steps-IsWired (step s rest) h = Steps-IsWired rest (Step-IsWired s h)

pub new_manager-IsFresh :
    (hostname : String → Option String) (local_url railway_url : Option String × Option String)
    (threshold now : ℕ)
    → IsFresh (new_manager hostname local_url railway_url threshold now)
unfolding new_manager
new_manager-IsFresh hostname local_url railway_url threshold now = ground arith

-- Does the node have a URL that an attempt connects to?
abbrev accepts : (String → Option String) → Option String → Bool
accepts dial none = false
accepts dial (some url) = not (is_some (dial url))

-- connect raises only where no node has a URL, and then changes nothing, or where no node that has
-- one accepts. Otherwise the active node is the local one if it accepts, and else the other.
connect_lem :
    (now : ℕ) (dial : ClusterNode → String → Option String) (m : NatsClusterManager)
    → IsFresh m
    → let local_accepts = accepts (dial local) m.local_url in
      let railway_accepts = accepts (dial railway) m.railway_url in
      let (answer, after) = connect now dial m in
      (is_some m.local_url || is_some m.railway_url ≡ false → (answer ≡ err no_urls) × (after ≡ m))
      × (is_some m.local_url || is_some m.railway_url ≡ true
          → local_accepts || railway_accepts ≡ false
          → answer ≡ err no_node)
      × (local_accepts || railway_accepts ≡ true
          → (answer ≡ ok tt) × (after.active_node ≡ (if local_accepts then local else railway)))
unfolding connect connect_node
connect_lem now dial m h = ground (arith, h)

-- A node that the caller may use, and is active now; or there is none.
abbrev Chooses :
    Nodes Bool
    → NatsClusterManager
    → Result ConnectionError ClusterNode × NatsClusterManager
    → Type 0
Chooses up m (ok node, after) =
    (at m.connections node && at up node ≡ true) × (after.active_node ≡ node)
Chooses up m (err e, after) =
    (at m.connections local && at up local ≡ false)
    × (at m.connections railway && at up railway ≡ false)

-- After a connect that did not raise, whatever clients, callers and the monitor do: jetstream answers
-- with the stream of the active node and changes nothing, and active_connection answers with a node
-- whose client is connected, which is then the active one, and raises only if there is none.
pub connected_lem :
    (hostname : String → Option String) (local_url railway_url : Option String × Option String)
    (threshold now start : ℕ) (dial : ClusterNode → String → Option String) (up : Nodes Bool)
    {m : NatsClusterManager}
    → let ready = connect now dial (new_manager hostname local_url railway_url threshold start) in
      ready.0 ≡ ok tt
      → Steps ready.1 m
      → (jetstream m ≡ (ok m.active_node, m)) × Chooses up m (active_connection up m)
unfolding jetstream active_connection
connected_lem hostname local_url railway_url threshold now start dial up {m} e s =
    let h : IsWired m = Steps-IsWired s (
      connect-IsWired now dial (new_manager hostname local_url railway_url threshold start)
        (new_manager-IsFresh hostname local_url railway_url threshold start) e) in
    ground (arith, h)

-- Does the local client answer the monitor within the threshold?
abbrev pub answers_within : ℕ → Bool → Ping → Bool
answers_within threshold true (flushed latency) = ltb latency threshold
answers_within _ _ _ = false

-- A round of the monitor makes the local node active where its client answers within the threshold,
-- and leaves the active node as it was otherwise.
monitor_round_lem :
    (now : ℕ) (pings : Nodes Ping) (m : NatsClusterManager)
    → IsWired m
    → (monitor_round now pings m).active_node ≡ (
        if answers_within m.failover_threshold m.connections.local_value pings.local_value
        then local
        else m.active_node)
unfolding monitor_round pinged
monitor_round_lem now pings m h = ground (arith, h)

unfoldable pub rounds : List (ℕ × Nodes Ping) → NatsClusterManager → NatsClusterManager
unfolding monitor_round
rounds [] m = m
rounds ((now, pings) ∷ rest) m = rounds rest (monitor_round now pings m)

rounds-active :
    (rs : List (ℕ × Nodes Ping)) (m : NatsClusterManager)
    → IsWired m
    → m.active_node ≡ local
    → (IsWired (rounds rs m)) × ((rounds rs m).active_node ≡ local)
unfolding rounds
rounds-active [] m h e = (h, e)
rounds-active ((now, pings) ∷ rest) m h e =
    rounds-active rest (monitor_round now pings m) (Step-IsWired (monitors now pings) h)
      (ground (arith, monitor_round_lem now pings m h))

-- Where the local node is lost while the other one is down, and the other one then comes back, every
-- later round of the monitor leaves the lost node active, and jetstream answers with its stream.
pub failover_missed :
    (now : ℕ) (rs : List (ℕ × Nodes Ping)) (m : NatsClusterManager)
    → IsWired m
    → m.active_node ≡ local
    → m.connections.railway_value ≡ true
    → m.health.railway_value.connected ≡ false
    → let back = on_reconnect now railway (on_disconnect local m) in
      (back.health.local_value.connected ≡ false)
      × (back.health.railway_value.connected ≡ true)
      × (jetstream (rounds rs back) ≡ (ok local, rounds rs back))
unfolding on_reconnect on_disconnect failover jetstream
failover_missed now rs m h a c d =
    let lost : IsWired (on_disconnect local m) = Step-IsWired (disconnects local) h in
    let back : IsWired (on_reconnect now railway (on_disconnect local m)) =
      Step-IsWired (reconnects now railway (ground (arith, c))) lost in
    let kept =
      rounds-active rs (on_reconnect now railway (on_disconnect local m)) back
        (ground (arith, a, d)) in
    (ground (arith, a, d), refl, ground (arith, kept.0, kept.1))
