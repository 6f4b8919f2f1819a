-- ===== src/Storage/Space.antt =====
-- What ensureSpace leaves.
use mathlib.Core.List.{Permᴰ, Memᴰ}
use prisn.Base.{
  ℕ, zero, suc, ◌+◌, ◌^◌, ◌≤◌, ◌<◌, ◌≡◌, refl, ap, ◌∙◌, sym, subst, inl, inr, ◌⊎◌, none, some, List,
  [], ◌∷◌, Bool, true, false, if◌then◌else◌, length, Bool-cases, Option-cases, arith,
}
use prisn.Base.Word.{add64, int_lt}
use prisn.Storage.{
  CacheEntry, Cache, Pop, Ensured, room, full, evict, is_nil, is_short, ensure_space,
}

-- the sum of the sizes
abbrev pub total : List CacheEntry → ℕ
total [] = 0
total (e ∷ es) = e.size + total es

-- The size that is kept is that of the entries, and an `int64` has room for it twice.
pub record IsAccounted (c : Cache) : Type 0 where
  pub counted : c.current_size ≡ total c.queue
  pub bounded : total c.queue < 2 ^ 62
  pub max_bounded : c.max_size < 2 ^ 62

-- What container/heap says of Pop: it takes one entry out, and finds nothing only where nothing is.
pub record IsPop (pop : Pop) : Type 0 where
  pub takes :
      (q rest : List CacheEntry) (e : CacheEntry) → pop q ≡ some (e, rest) → Permᴰ q (e ∷ rest)
  pub finds : (q : List CacheEntry) → pop q ≡ none → q ≡ []

pub total-Permᴰ : {xs ys : List CacheEntry} → Permᴰ xs ys → total xs ≡ total ys
total-Permᴰ Permᴰ.nil = refl
total-Permᴰ (Permᴰ.cons e p) = ground (arith, ap (λ (x : CacheEntry). x.size) e, total-Permᴰ p)
total-Permᴰ (Permᴰ.swap e e') =
    ground (arith, ap (λ (x : CacheEntry). x.size) e, ap (λ (x : CacheEntry). x.size) e')
total-Permᴰ (Permᴰ.trans p q) = total-Permᴰ p ∙ total-Permᴰ q

length-Permᴰ : {xs ys : List CacheEntry} → Permᴰ xs ys → length xs ≡ length ys
length-Permᴰ Permᴰ.nil = refl
length-Permᴰ (Permᴰ.cons e p) = ground (arith, length-Permᴰ p)
length-Permᴰ (Permᴰ.swap e e') = refl
length-Permᴰ (Permᴰ.trans p q) = length-Permᴰ p ∙ length-Permᴰ q

Mem-Permᴰ : {x : CacheEntry} {xs ys : List CacheEntry} → Permᴰ xs ys → Memᴰ x xs → Memᴰ x ys
Mem-Permᴰ (Permᴰ.cons e p) (Memᴰ.head h) = Memᴰ.head (h ∙ e)
Mem-Permᴰ (Permᴰ.cons e p) (Memᴰ.tail m) = Memᴰ.tail (Mem-Permᴰ p m)
Mem-Permᴰ (Permᴰ.swap e e') (Memᴰ.head h) = Memᴰ.tail (Memᴰ.head (h ∙ e))
Mem-Permᴰ (Permᴰ.swap e e') (Memᴰ.tail (Memᴰ.head h)) = Memᴰ.head (h ∙ e')
Mem-Permᴰ (Permᴰ.swap e e') (Memᴰ.tail (Memᴰ.tail m)) = Memᴰ.tail (Memᴰ.tail m)
Mem-Permᴰ (Permᴰ.trans p q) m = Mem-Permᴰ q (Mem-Permᴰ p m)
Mem-Permᴰ Permᴰ.nil m = m

-- The entries that are assigned to this node are still there.
abbrev pub KeepsAssigned : Cache → Cache → Type 0
KeepsAssigned c c' = (e : CacheEntry) → e.assigned_here ≡ true → Memᴰ e c.queue → Memᴰ e c'.queue

-- Room for what is needed, or nothing left to evict; or an error, and an entry that may not be evicted.
pub data IsEnsured (needed : ℕ) (c : Cache) : Ensured → Type 0 where
  has_room :
      {c' : Cache}
      → IsAccounted c'
      → KeepsAssigned c c'
      → total c'.queue ≤ total c.queue
      → (c'.current_size + needed ≤ c'.max_size) ⊎ (c'.queue ≡ [])
      → IsEnsured needed c (room c')
  has_none :
      {c' : Cache} {e : CacheEntry}
      → IsAccounted c'
      → KeepsAssigned c c'
      → Memᴰ e c'.queue
      → e.assigned_here ≡ true
      → IsEnsured needed c (full c')

evict-IsAccounted :
    (c : Cache) (e : CacheEntry) (rest : List CacheEntry)
    → IsAccounted c
    → Permᴰ c.queue (e ∷ rest)
    → IsAccounted (evict e rest c)
unfolding evict
evict-IsAccounted c e rest h p =
    let same = total-Permᴰ p in
    record {
      counted = omega (arith, same, h.counted, h.bounded);
      bounded = omega (arith, same, h.bounded);
      max_bounded = h.max_bounded;
    }

both : {b : Bool} → b ≡ true → ¬ b ≡ false
both t f = absurd cc

evict-KeepsAssigned :
    (c : Cache) (e : CacheEntry) (rest : List CacheEntry)
    → Permᴰ c.queue (e ∷ rest)
    → e.assigned_here ≡ false
    → KeepsAssigned c (evict e rest c)
unfolding evict
evict-KeepsAssigned c e rest p free x mine m = elim (Mem-Permᴰ p m) [
  | Memᴰ.head same ↦ absurd (both mine (ap (λ y. y.assigned_here) same ∙ free))
  | Memᴰ.tail m' ↦ m'
]

nil-cases : (q : List CacheEntry) → (q ≡ []) ⊎ (is_nil q ≡ false)
nil-cases [] = inl refl
nil-cases (e ∷ es) = inr refl

fewer :
    (c : Cache) (e : CacheEntry) (rest : List CacheEntry) (fuel : ℕ)
    → Permᴰ c.queue (e ∷ rest)
    → length c.queue < suc fuel
    → length (evict e rest c).queue < fuel
unfolding evict
fewer c e rest fuel p h = omega (arith, length-Permᴰ p, h)

evict-total :
    (c : Cache) (e : CacheEntry) (rest : List CacheEntry)
    → Permᴰ c.queue (e ∷ rest)
    → total (evict e rest c).queue ≤ total c.queue
unfolding evict
evict-total c e rest p = omega (arith, total-Permᴰ p)

is_short-room :
    (needed : ℕ) (c : Cache)
    → IsAccounted c
    → needed < 2 ^ 62
    → is_short needed c ≡ false
    → (c.current_size + needed ≤ c.max_size) ⊎ (c.queue ≡ [])
unfolding is_short
is_short-room needed c h small enough = elim (nil-cases c.queue) [
  | inl none_left ↦ inr none_left
  | inr some_left ↦
      let fits : int_lt c.max_size (add64 c.current_size needed) ≡ false =
        ground (arith, enough, some_left) in
      inl (ground (arith, fits, h.counted, h.bounded, h.max_bounded, small))
]

is_short-queue : (needed : ℕ) (c : Cache) → is_short needed c ≡ true → is_nil c.queue ≡ false
unfolding is_short
is_short-queue needed c h = ground arith

evicted-IsEnsured :
    (needed : ℕ) (c c₁ : Cache) (r : Ensured)
    → KeepsAssigned c c₁
    → total c₁.queue ≤ total c.queue
    → IsEnsured needed c₁ r
    → IsEnsured needed c r
evicted-IsEnsured needed c c₁ r keeps less (has_room acc keeps' le fits) =
    has_room acc (λ e mine m. keeps' e mine (keeps e mine m)) (omega (arith, le, less)) fits
evicted-IsEnsured needed c c₁ r keeps less (has_none acc keeps' m mine) =
    has_none acc (λ e his m'. keeps' e his (keeps e his m')) m mine

put_back-IsAccounted :
    (c : Cache) (e : CacheEntry) (rest : List CacheEntry)
    → IsAccounted c
    → Permᴰ c.queue (e ∷ rest)
    → IsAccounted (record c { queue = e ∷ rest })
put_back-IsAccounted c e rest h p = record {
  counted = h.counted ∙ total-Permᴰ p;
  bounded = omega (arith, total-Permᴰ p, h.bounded);
  max_bounded = h.max_bounded;
}

-- For sizes below 2^62, a queue as container/heap describes it, and more fuel than entries: ensureSpace
-- ends. It leaves sizes that are accounted for and every entry that is assigned to this node, and then
-- there is room for what is needed, or the queue is empty; or it is an error, and an assigned entry is
-- in the queue.
pub ensure_space-IsEnsured :
    (pop : Pop) (fuel needed : ℕ) (c : Cache)
    → IsPop pop
    → IsAccounted c
    → needed < 2 ^ 62
    → length c.queue < fuel
    → IsEnsured needed c (ensure_space pop fuel needed c)
unfolding ensure_space
ensure_space-IsEnsured pop zero needed c is_pop h small enough = absurd (omega arith)
ensure_space-IsEnsured pop (suc fuel) needed c is_pop h small enough =
    elim (Bool-cases (is_short needed c)) [
      | inr fits ↦
          rw fits (has_room h (λ e mine m. m) (omega arith) (is_short-room needed c h small fits))
      | inl short ↦ rw short (elim (Option-cases (pop c.queue)) [
        | inl none_left ↦
            let empty = is_pop.finds c.queue none_left in
            rw none_left (has_room h (λ e mine m. m) (omega arith) (inr empty))
        | inr ((e, rest), taken) ↦
            let p = is_pop.takes c.queue rest e taken in
            rw taken (elim (Bool-cases e.assigned_here) [
              | inl mine ↦
                  subst
                    (λ b. IsEnsured needed c (
                      if b
                      then full (record c { queue = e ∷ rest })
                      else ensure_space pop fuel needed (evict e rest c)))
                    (sym mine)
                    (has_none (put_back-IsAccounted c e rest h p) (λ x his m. Mem-Permᴰ p m)
                      (Memᴰ.head refl) mine)
              | inr free ↦
                  subst
                    (λ b. IsEnsured needed c (
                      if b
                      then full (record c { queue = e ∷ rest })
                      else ensure_space pop fuel needed (evict e rest c)))
                    (sym free)
                    (evicted-IsEnsured needed c (evict e rest c)
                      (ensure_space pop fuel needed (evict e rest c))
                      (evict-KeepsAssigned c e rest p free) (evict-total c e rest p)
                      (ensure_space-IsEnsured pop fuel needed (evict e rest c) is_pop
                        (evict-IsAccounted c e rest h p) small (fewer c e rest fuel p enough)))
            ])
      ])
    ]
