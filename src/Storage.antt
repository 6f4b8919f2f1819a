-- ===== src/Storage.antt =====
-- pkg/storage/cache.go: the sizes that the cache of deployments accounts for, and whom it evicts. Sizes
-- are `int64` bit patterns. The queue holds the entries that the map `entries` points to; container/heap
-- is a parameter, and so are the sizes found on disk.
pub mod Space
pub mod Priming
pub mod Archive
pub mod Examples
use prisn.Base.{
  ℕ, zero, suc, ◌+◌, ◌*◌, ◌%◌, ◌^◌, Option, none, some, List, [], ◌∷◌, Bool, true, false, not, ◌&&◌,
  ltb, leb, ◌==◌, if◌then◌else◌, String, str_eq,
}
use prisn.Base.Word.{add64, sub64, int_lt}
use prisn.Base.Dict.{Dict, lookup, insert, erase, map_values}

pub data State : Type 0 where
  cold warm hot : State

-- As the constants are numbered
abbrev pub rank : State → ℕ
rank cold = 0
rank warm = 1
rank hot = 2

pub record CacheEntry : Type 0 where
  pub key : String
  pub fingerprint : String
  pub state : State
  pub size : ℕ
  pub last_access : ℕ
  pub access_count : ℕ
  pub assigned_here : Bool

pub record Cache : Type 0 where
  pub max_size : ℕ
  pub current_size : ℕ
  pub entries : Dict CacheEntry
  pub queue : List CacheEntry

-- heap.Pop: an entry and those that are left.
abbrev pub Pop : Type 0
Pop = List CacheEntry → Option (CacheEntry × List CacheEntry)

-- What ensureSpace comes to: there is room, or an error.
pub data Ensured : Type 0 where
  room : Cache → Ensured
  full : Cache → Ensured
  out_of_fuel : Ensured

unfoldable pub evict : CacheEntry → List CacheEntry → Cache → Cache
evict e rest c = record c {
  current_size = sub64 c.current_size e.size;
  entries = erase e.key c.entries;
  queue = rest;
}

abbrev pub is_nil : List CacheEntry → Bool
is_nil [] = true
is_nil (e ∷ es) = false

unfoldable pub is_short : ℕ → Cache → Bool
is_short needed c = int_lt c.max_size (add64 c.current_size needed) && not (is_nil c.queue)

-- The loop of ensureSpace
unfoldable pub ensure_space : Pop → ℕ → ℕ → Cache → Ensured
unfolding evict is_short
ensure_space pop zero needed c = out_of_fuel
ensure_space pop (suc fuel) needed c =
    if is_short needed c
    then elim (pop c.queue) [
      | none ↦ room c
      | some (e, rest) ↦
          let later = ensure_space pop fuel needed (evict e rest c) in
          if e.assigned_here then full (record c { queue = e ∷ rest }) else later
    ]
    else room c

unfoldable pub get_state : String → Cache → State
get_state key c = elim (lookup key c.entries) [ none ↦ cold | some e ↦ e.state ]

-- entry.AssignedHere = assigned, which the map and the queue see both
mark_assigned : String → Bool → List CacheEntry → List CacheEntry
mark_assigned key assigned [] = []
mark_assigned key assigned (e ∷ es) =
    let rest = mark_assigned key assigned es in
    if str_eq e.key key then record e { assigned_here = assigned } ∷ rest else e ∷ rest

unfoldable pub set_assigned : String → Bool → Cache → Cache
unfolding mark_assigned
set_assigned key assigned c = elim (lookup key c.entries) [
  | none ↦ c
  | some e ↦ record c {
    entries = insert key (record e { assigned_here = assigned }) c.entries;
    queue = mark_assigned key assigned c.queue;
  }
]

-- The new entry of doPrime, with the size of its archive
unfoldable pub add_warm : (key fingerprint : String) → (now size : ℕ) → Cache → Cache
add_warm key fingerprint now size c =
    let e : CacheEntry = record {
      key = key;
      fingerprint = fingerprint;
      state = warm;
      size = size;
      last_access = now;
      access_count = 0;
      assigned_here = false;
    } in
    record c {
      current_size = add64 c.current_size size;
      entries = insert key e c.entries;
      queue = e ∷ c.queue;
    }

-- A request to have a deployment in the cache, with the estimate of its size, and the size of the archive
-- that is written for it.
pub record PrimeRequest : Type 0 where
  pub key : String
  pub fingerprint : String
  pub estimate : ℕ
  pub archive : Option ℕ
  pub time : ℕ

pub data Primed : Type 0 where
  primed : Cache → Primed
  no_space : Cache → Primed
  no_archive : Cache → Primed
  unfinished : Primed

unfoldable pub archived : PrimeRequest → Cache → Primed
unfolding add_warm
archived req c = elim req.archive [
  | none ↦ no_archive c
  | some size ↦ primed (add_warm req.key req.fingerprint req.time size c)
]

with_space : PrimeRequest → Ensured → Primed
unfolding archived
with_space req (room c) = archived req c
with_space req (full c) = no_space c
with_space req out_of_fuel = unfinished

-- doPrime, where the target is the state `warm`
unfoldable pub prime_warm : Pop → (fuel : ℕ) → PrimeRequest → Cache → Primed
unfolding get_state ensure_space with_space
prime_warm pop fuel req c =
    if leb (rank warm) (rank (get_state req.key c))
    then primed c
    else with_space req (ensure_space pop fuel req.estimate c)
