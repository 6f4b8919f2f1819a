-- ===== src/Raft/Discovery/Seen.antt =====
-- Which peers a round of discovery by names (pkg/raft/discovery.go) leaves.
use prisn.Base.{
  ◌≡◌, inl, inr, refl, ap, ◌∙◌, Option, none, some, get_or, List, [], ◌∷◌, Bool, true, false, arith,
  Bool-cases, Option-cases, if◌then◌else◌, String, eq_iff,
}
use prisn.Base.Dict.{lookup, insert, lookup-insert}
use prisn.Raft.Discovery.{Peers, is_seen, is_known, add_addresses, remove_gone, discover_addresses}

-- What is there stays; of the rest, the addresses are found under themselves.
abbrev added_to : Option String → Bool → String → Option String
added_to (some old) seen id = some old
added_to none seen id = if seen then some id else none

lookup-add_addresses :
    (addrs : List String) (peers : Peers) (id : String)
    → lookup id (add_addresses addrs peers).0 ≡ added_to (lookup id peers) (is_seen addrs id) id
unfolding add_addresses is_seen
lookup-add_addresses [] peers id = elim (Option-cases (lookup id peers)) [
  | inl e ↦ rw e refl
  | inr (a, e) ↦ rw e refl
]
lookup-add_addresses (addr ∷ addrs) peers id = elim (Bool-cases (is_known (lookup addr peers))) [
  | inl known ↦ ground (arith, known, lookup-add_addresses addrs peers id, eq_iff addr id)
  | inr fresh ↦ ground (
    arith,
    fresh,
    lookup-add_addresses addrs (insert addr addr peers) id,
    lookup-insert addr id addr peers,
    eq_iff addr id,
  )
]

lookup-remove_gone :
    (kept : String → Bool) (peers : Peers) (id : String)
    → lookup id (remove_gone kept peers).0 ≡ (if kept id then lookup id peers else none)
unfolding remove_gone lookup
lookup-remove_gone kept [] id = ground arith
lookup-remove_gone kept ((k, addr) ∷ peers) id =
    ground (arith, lookup-remove_gone kept peers id, eq_iff k id)

unchanged-add_addresses :
    (addrs : List String) (peers : Peers)
    → (add_addresses addrs peers).1 ≡ false
    → (add_addresses addrs peers).0 ≡ peers
unfolding add_addresses
unchanged-add_addresses [] peers h = refl
unchanged-add_addresses (addr ∷ addrs) peers h = elim (Bool-cases (is_known (lookup addr peers))) [
  | inr fresh ↦ absurd (ground (arith, h, fresh))
  | inl known ↦ rw known (unchanged-add_addresses addrs peers (ground (arith, h, known)))
]

unchanged-remove_gone :
    (kept : String → Bool) (peers : Peers)
    → (remove_gone kept peers).1 ≡ false
    → (remove_gone kept peers).0 ≡ peers
unfolding remove_gone
unchanged-remove_gone kept [] h = refl
unchanged-remove_gone kept ((id, addr) ∷ peers) h = elim (Bool-cases (kept id)) [
  | inr gone ↦ absurd (ground (arith, h, gone))
  | inl stays ↦
      rw stays (
        ap (λ rest. (id, addr) ∷ rest)
          (unchanged-remove_gone kept peers (ground (arith, h, stays))))
]

-- A peer that was there and is answered keeps its address; one that is answered and was not there is found under
-- its own address; no other is there.
abbrev pub after_round : Option String → Bool → String → Option String
after_round old seen id = if seen then some (get_or old id) else none

-- Behind a round of discovery by names the peers are those of the answer, in whatever order it came: one that was
-- there keeps its address, a new one has its own, and no other is left. Where the callback is not called, the
-- peers are as they were.
pub discover_addresses_lem :
    (addrs : List String) (peers : Peers)
    → ((id : String)
        → lookup id (discover_addresses addrs peers).0
          ≡ after_round (lookup id peers) (is_seen addrs id) id)
      × ((discover_addresses addrs peers).1 ≡ false → (discover_addresses addrs peers).0 ≡ peers)
unfolding discover_addresses
discover_addresses_lem addrs peers = (
  λ id.
      lookup-remove_gone (is_seen addrs) (add_addresses addrs peers).0 id
      ∙ ap (λ o. if is_seen addrs id then o else none) (lookup-add_addresses addrs peers id)
      ∙ rounds (lookup id peers) (is_seen addrs id) id,
  λ h.
      let added = unchanged-add_addresses addrs peers (ground (arith, h)) in
      unchanged-remove_gone (is_seen addrs) (add_addresses addrs peers).0 (ground (arith, h))
      ∙ added,
)
  where
    rounds :
        (old : Option String) (seen : Bool) (id : String)
        → (if seen then added_to old seen id else none) ≡ after_round old seen id
    rounds none true id = refl
    rounds none false id = refl
    rounds (some a) true id = refl
    rounds (some a) false id = refl
