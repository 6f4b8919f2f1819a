-- ===== src/Raft/Discovery/Examples.antt =====
-- A round of discovery by names (pkg/raft/discovery.go) at three addresses.
use prisn.Base.{ℕ, ◌≡◌, refl, List, [], ◌∷◌, Bool, true, false, String}
use prisn.Base.Dict.{lookup}
use prisn.Raft.Discovery.{Peers, is_seen, discover_addresses, dns_discover}
use prisn.Raft.Discovery.Seen.{after_round, discover_addresses_lem}
use prisn.Base.{some, none}

abbrev two_peers : Peers
two_peers = ("a:7332", "a:7332") ∷ ("b:7332", "b:7332") ∷ []

abbrev answered : List String
answered = "c:7332" ∷ "a:7332" ∷ []

one_leaves_one_comes :
    dns_discover (some []) (some answered) two_peers
    ≡ (("a:7332", "a:7332") ∷ ("c:7332", "c:7332") ∷ [], true)
unfolding dns_discover prisn.Raft.Discovery.by_hosts discover_addresses
    prisn.Raft.Discovery.add_addresses prisn.Raft.Discovery.remove_gone is_seen lookup
    prisn.Base.Dict.insert
one_leaves_one_comes = refl

discover_addresses_lem_example :
    ((id : String)
      → lookup id (discover_addresses answered two_peers).0
        ≡ after_round (lookup id two_peers) (is_seen answered id) id)
    × ((discover_addresses answered two_peers).1 ≡ false
        → (discover_addresses answered two_peers).0 ≡ two_peers)
discover_addresses_lem_example = discover_addresses_lem answered two_peers
