-- ===== src/Cluster/Tests.antt =====
-- memu/cluster.py: the manager on small examples.
use fumemory.Base.{String, ◌≡◌, refl, true, false, Option, none, some, [], ◌∷◌, ok, arith}
use fumemory.Base.Lists.{contains}
use fumemory.Base.Texts.{lower}
use fumemory.CoreMemory.Texts.{strip}
use fumemory.Cluster.{
  failover, connect_node, ClusterNode, local, railway, Nodes, NatsClusterManager, new_manager,
  connect, on_disconnect, on_reconnect, jetstream, Ping, disconnected, flushed, clean_url,
}
use fumemory.Cluster.Steps.{connected_lem, failover_missed, disconnects, done, step, IsWired}

abbrev host_of : String → Option String
host_of url = some url

abbrev manager : NatsClusterManager
manager = new_manager host_of (some "nats://a", none) (none, some "nats://b") 500 0

abbrev only_railway : ClusterNode → String → Option String
only_railway local url = some "refused"
only_railway railway url = none

abbrev both_accept : ClusterNode → String → Option String
both_accept node url = none

abbrev ready : NatsClusterManager
ready = (connect 1 both_accept manager).1

abbrev silent : Nodes Ping
silent = record { local_value = disconnected; railway_value = flushed 20 }

abbrev prompt : Nodes Ping
prompt = record { local_value = flushed 20; railway_value = flushed 20 }

connected_lem_example :
    jetstream (on_disconnect local ready) ≡ (ok railway, on_disconnect local ready)
unfolding on_disconnect connect new_manager clean_url strip contains lower connect_node failover
connected_lem_example =
    (connected_lem host_of (some "nats://a", none) (none, some "nats://b") 500 1 0 both_accept
      (record { local_value = false; railway_value = true }) refl
      (step (disconnects local) (done (on_disconnect local ready)))).0

ready-IsWired : IsWired ready
unfolding on_disconnect connect new_manager clean_url strip contains lower connect_node failover
ready-IsWired = ground arith

lost-IsWired : IsWired (on_disconnect local ready)
unfolding on_disconnect connect new_manager clean_url strip contains lower connect_node failover
lost-IsWired = ground arith

placeholders_ignored :
    (clean_url host_of (some " NONE ") ≡ none) × (clean_url host_of (some "nats") ≡ none)
unfolding clean_url strip contains lower
placeholders_ignored = (refl, refl)

-- Both nodes accept; the railway's goes, then the local one, and the railway's comes back.
abbrev one_left : NatsClusterManager
one_left = on_disconnect railway ready

one_left-IsWired : IsWired one_left
unfolding on_disconnect connect new_manager clean_url strip contains lower connect_node failover
one_left-IsWired = ground arith

failover_missed_example :
    (on_reconnect 3 railway (on_disconnect local one_left)).health.railway_value.connected ≡ true
unfolding on_disconnect connect new_manager clean_url strip contains lower connect_node failover
failover_missed_example =
    (failover_missed 3 ((4, silent) ∷ []) one_left one_left-IsWired refl refl refl).1
