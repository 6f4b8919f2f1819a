-- ===== src/Storage/Priming.antt =====
-- The accounting of sizes over all that the cache does.
use prisn.Base.{
  ℕ, ◌+◌, ◌^◌, ◌<◌, ◌≡◌, refl, ◌∙◌, sym, subst, inl, inr, none, some, List, [], ◌∷◌, Bool, true,
  false, leb, length, String, str_eq, eq_iff, Bool-cases, Option-cases, arith,
}
use prisn.Base.Dict.{lookup, insert, lookup-insert}
use prisn.Storage.{
  State, cold, warm, hot, rank, CacheEntry, Cache, Pop, Ensured, ensure_space, get_state,
  set_assigned, mark_assigned, add_warm, PrimeRequest, Primed, primed, no_space, no_archive,
  prime_warm, with_space, archived,
}
use prisn.Storage.Space.{
  total, IsAccounted, IsPop, IsEnsured, has_room, has_none, ensure_space-IsEnsured,
}

total-mark_assigned :
    (key : String) (assigned : Bool) (q : List CacheEntry)
    → total (mark_assigned key assigned q) ≡ total q
unfolding mark_assigned
total-mark_assigned key assigned [] = refl
total-mark_assigned key assigned (e ∷ es) = ground (arith, total-mark_assigned key assigned es)

set_assigned-IsAccounted :
    (key : String) (assigned : Bool) (c : Cache)
    → IsAccounted c
    → IsAccounted (set_assigned key assigned c)
unfolding set_assigned
set_assigned-IsAccounted key assigned c h = elim (Option-cases (lookup key c.entries)) [
  | inl missing ↦ rw (missing, set_assigned) h
  | inr (e, there) ↦
      let same = total-mark_assigned key assigned c.queue in
      rw (there, set_assigned)
        (record {
          counted = h.counted ∙ sym same;
          bounded = omega (arith, same, h.bounded);
          max_bounded = h.max_bounded;
        })
]

-- What a request to prime comes to: the cache is accounted for, and on success the key is not cold.
pub data IsPrimed (req : PrimeRequest) : Primed → Type 0 where
  is_warm : {c : Cache} → IsAccounted c → ¬ get_state req.key c ≡ cold → IsPrimed req (primed c)
  has_no_space : {c : Cache} → IsAccounted c → IsPrimed req (no_space c)
  has_no_archive : {c : Cache} → req.archive ≡ none → IsAccounted c → IsPrimed req (no_archive c)

add_warm-IsAccounted :
    (key fingerprint : String) (now size : ℕ) (c : Cache)
    → IsAccounted c
    → total c.queue + size < 2 ^ 62
    → IsAccounted (add_warm key fingerprint now size c)
unfolding add_warm
add_warm-IsAccounted key fingerprint now size c h fits = record {
  counted = omega (arith, h.counted, fits);
  bounded = omega (arith, fits);
  max_bounded = h.max_bounded;
}

warm≢cold : ¬ warm ≡ cold
warm≢cold e = absurd cc

get_state-add_warm :
    (key fingerprint : String) (now size : ℕ) (c : Cache)
    → get_state key (add_warm key fingerprint now size c) ≡ warm
unfolding get_state add_warm
get_state-add_warm key fingerprint now size c =
    let e : CacheEntry = record {
      key = key;
      fingerprint = fingerprint;
      state = warm;
      size = size;
      last_access = now;
      access_count = 0;
      assigned_here = false;
    } in
    let same : str_eq key key ≡ true = ground (arith, eq_iff key key) in
    let stored : lookup key (insert key e c.entries) ≡ some e =
      lookup-insert key key e c.entries ∙ rw same refl in
    rw (stored, get_state) refl

not_cold : (s : State) → leb (rank warm) (rank s) ≡ true → ¬ s ≡ cold
not_cold cold h e = absurd (ground arith)
not_cold warm h e = absurd cc
not_cold hot h e = absurd cc

archived-none :
    (req : PrimeRequest) (c : Cache) → req.archive ≡ none → archived req c ≡ no_archive c
unfolding archived
archived-none req c h = rw (h, archived) refl

archived-some :
    (req : PrimeRequest) (c : Cache) (size : ℕ)
    → req.archive ≡ some size
    → archived req c ≡ primed (add_warm req.key req.fingerprint req.time size c)
unfolding archived
archived-some req c size h = rw (h, archived) refl

archived-IsPrimed :
    (req : PrimeRequest) (c : Cache)
    → IsAccounted c
    → ((size : ℕ) → req.archive ≡ some size → total c.queue + size < 2 ^ 62)
    → IsPrimed req (archived req c)
archived-IsPrimed req c h fits = elim (Option-cases req.archive) [
  | inl none_made ↦
      subst (IsPrimed req) (sym (archived-none req c none_made)) (has_no_archive none_made h)
  | inr (size, made) ↦ subst (IsPrimed req) (sym (archived-some req c size made)) (
      is_warm (add_warm-IsAccounted req.key req.fingerprint req.time size c h (fits size made))
        (λ e. warm≢cold (sym (get_state-add_warm req.key req.fingerprint req.time size c) ∙ e)))
]

with_space-IsPrimed :
    (req : PrimeRequest) (c : Cache) (r : Ensured)
    → ((size : ℕ) → req.archive ≡ some size → total c.queue + size < 2 ^ 62)
    → IsEnsured req.estimate c r
    → IsPrimed req (with_space req r)
unfolding with_space
with_space-IsPrimed req c r fits (has_room {c' = c'} h keeps less enough) =
    archived-IsPrimed req c' h (λ size made. omega (arith, less, fits size made))
with_space-IsPrimed req c r fits (has_none h keeps m mine) = has_no_space h

-- On a cache that is accounted for, with sizes below 2^62, a queue as container/heap describes it, and
-- more fuel than entries: priming to the state warm ends. The size that is kept is the sum of the sizes
-- of the queue's entries again, whatever was evicted, and on success the deployment is in the cache.
pub prime_warm-IsPrimed :
    (pop : Pop) (fuel : ℕ) (req : PrimeRequest) (c : Cache)
    → IsPop pop
    → IsAccounted c
    → req.estimate < 2 ^ 62
    → ((size : ℕ) → req.archive ≡ some size → total c.queue + size < 2 ^ 62)
    → length c.queue < fuel
    → IsPrimed req (prime_warm pop fuel req c)
unfolding prime_warm
prime_warm-IsPrimed pop fuel req c is_pop h small fits enough =
    elim (Bool-cases (leb (rank warm) (rank (get_state req.key c)))) [
      | inl already ↦ rw already (is_warm h (not_cold (get_state req.key c) already))
      | inr absent ↦ rw absent (
          with_space-IsPrimed req c (ensure_space pop fuel req.estimate c) fits
            (ensure_space-IsEnsured pop fuel req.estimate c is_pop h small enough))
    ]
