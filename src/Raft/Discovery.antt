-- ===== src/Raft/Discovery.antt =====
-- pkg/raft/discovery.go: what one round of discovery makes of the peers. The addresses that the resolver gives,
-- written out, and the announcements that are found in the directory come from outside.
pub mod Seen
pub mod Examples
use prisn.Base.{
  ℕ, ◌+◌, ◌*◌, Option, none, some, List, [], ◌∷◌, Bool, true, false, not, ◌&&◌, ◌||◌, ltb,
  if◌then◌else◌, String, str_eq,
}
use prisn.Base.Dict.{Dict, lookup, insert}

abbrev pub Peers : Type 0
Peers = Dict String

unfoldable pub is_seen : List String → String → Bool
is_seen [] id = false
is_seen (s ∷ seen) id = str_eq s id || is_seen seen id

abbrev pub is_known : Option String → Bool
is_known none = false
is_known (some address) = true

-- The loop over the addresses: an address that is not there yet is added, under itself as its id.
unfoldable pub add_addresses : List String → Peers → Peers × Bool
add_addresses [] peers = (peers, false)
add_addresses (addr ∷ addrs) peers =
    let known = is_known (lookup addr peers) in
    let rest = add_addresses addrs (if known then peers else insert addr addr peers) in
    (rest.0, not known || rest.1)

-- The loop that removes the peers that are gone
unfoldable pub remove_gone : (kept : String → Bool) → Peers → Peers × Bool
remove_gone kept [] = ([], false)
remove_gone kept ((id, addr) ∷ peers) =
    let rest = remove_gone kept peers in
    if kept id then ((id, addr) ∷ rest.0, rest.1) else (rest.0, true)

unfoldable pub discover_addresses : List String → Peers → Peers × Bool
unfolding add_addresses remove_gone is_seen
discover_addresses addrs peers =
    let added = add_addresses addrs peers in
    let left = remove_gone (is_seen addrs) added.0 in (left.0, added.1 || left.1)

by_hosts : Option (List String) → Peers → Peers × Bool
unfolding discover_addresses
by_hosts none peers = (peers, false)
by_hosts (some addrs) peers = discover_addresses addrs peers

-- The peers behind a round, and whether the callback is called. An answer that is an error is none.
unfoldable pub dns_discover : (srv hosts : Option (List String)) → Peers → Peers × Bool
unfolding discover_addresses by_hosts
dns_discover none hosts peers = by_hosts hosts peers
dns_discover (some []) hosts peers = by_hosts hosts peers
dns_discover (some (addr ∷ addrs)) hosts peers = discover_addresses (addr ∷ addrs) peers

pub record Announcement : Type 0 where
  pub id : String
  pub address : String
  pub updated_at : ℕ

is_stale_announcement : (now interval : ℕ) → Announcement → Bool
is_stale_announcement now interval a = ltb (a.updated_at + 3 * interval) now

same_address : String → Option String → Bool
same_address address none = false
same_address address (some old) = str_eq old address

-- The announcements that count: not stale, and of another node.
unfoldable pub fresh_from :
    (now interval : ℕ) → (node_id : String) → List Announcement → List Announcement
unfolding is_stale_announcement
fresh_from now interval node_id [] = []
fresh_from now interval node_id (a ∷ as_) =
    let rest = fresh_from now interval node_id as_ in
    if is_stale_announcement now interval a || str_eq a.id node_id then rest else a ∷ rest

unfoldable pub ids : List Announcement → List String
ids [] = []
ids (a ∷ as_) = a.id ∷ ids as_

unfoldable pub add_announced : List Announcement → Peers → Peers × Bool
unfolding same_address
add_announced [] peers = (peers, false)
add_announced (a ∷ as_) peers =
    let same = same_address a.address (lookup a.id peers) in
    let rest = add_announced as_ (if same then peers else insert a.id a.address peers) in
    (rest.0, not same || rest.1)

unfoldable pub file_discover :
    (now interval : ℕ) → (node_id : String) → List Announcement → Peers → Peers × Bool
unfolding fresh_from ids add_announced remove_gone is_seen
file_discover now interval node_id found peers =
    let fresh = fresh_from now interval node_id found in
    let added = add_announced fresh peers in
    let left = remove_gone (λ id. is_seen (ids fresh) id || str_eq id node_id) added.0 in
    (left.0, added.1 || left.1)
