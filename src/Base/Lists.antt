-- ===== src/Base/Lists.antt =====
-- Lists measured and indexed by native numbers, under the library's names.
use Prim.Native.Nat.{ℕ, zero, suc, ◌+◌, ◌-◌, ◌≤◌, ◌<◌}
use mathlib.Core.Path.{◌≡◌, refl, ap}
use mathlib.Core.List.{List, [], ◌∷◌, ◌++◌}
use mathlib.Core.Option.{Option, none, some}
use native.Mathlib.Omega.{arith}

module _ {ℓ} {A : Type ℓ} where
  abbrev pub length : List A → ℕ
  length [] = 0
  length (x ∷ xs) = suc (length xs)

  abbrev pub get_elem? : List A → ℕ → Option A
  get_elem? [] i = none
  get_elem? (x ∷ xs) zero = some x
  get_elem? (x ∷ xs) (suc i) = get_elem? xs i

  abbrev pub take : ℕ → List A → List A
  take zero xs = []
  take (suc n) [] = []
  take (suc n) (x ∷ xs) = x ∷ take n xs

  abbrev pub drop : ℕ → List A → List A
  drop zero xs = xs
  drop (suc n) [] = []
  drop (suc n) (x ∷ xs) = drop n xs

  abbrev pub get_last? : List A → Option A
  get_last? [] = none
  get_last? (x ∷ []) = some x
  get_last? (x ∷ y ∷ xs) = get_last? (y ∷ xs)

module _ {ℓ} {A : Type ℓ} where
  pub length-append : (xs ys : List A) → length (xs ++ ys) ≡ length xs + length ys
  length-append [] ys = omega arith
  length-append (x ∷ xs) ys = omega (arith, length-append xs ys)

  pub length-take_le : (n : ℕ) (xs : List A) → n ≤ length xs → length (take n xs) ≡ n
  length-take_le zero xs h = refl
  length-take_le (suc n) [] h = elim h [ ]
  length-take_le (suc n) (x ∷ xs) h = ap suc (length-take_le n xs (omega arith))

  pub length-drop : (n : ℕ) (xs : List A) → length (drop n xs) ≡ length xs - n
  length-drop zero xs = omega arith
  length-drop (suc n) [] = omega arith
  length-drop (suc n) (x ∷ xs) = omega (arith, length-drop n xs)

  pub get_elem?-drop : (n i : ℕ) (xs : List A) → get_elem? (drop n xs) i ≡ get_elem? xs (n + i)
  get_elem?-drop zero i xs = ap (get_elem? xs) (omega arith)
  get_elem?-drop (suc n) i [] = refl
  get_elem?-drop (suc n) i (x ∷ xs) =
      let e : suc n + i ≡ suc (n + i) = omega arith in rw e (get_elem?-drop n i xs)

  pub get_elem?-take : (n i : ℕ) (xs : List A) → i < n → get_elem? (take n xs) i ≡ get_elem? xs i
  get_elem?-take zero i xs h = elim h [ ]
  get_elem?-take (suc n) i [] h = refl
  get_elem?-take (suc n) zero (x ∷ xs) h = refl
  get_elem?-take (suc n) (suc i) (x ∷ xs) h = get_elem?-take n i xs (omega arith)

  pub get_elem?_beyond : (i : ℕ) (xs : List A) → length xs ≤ i → get_elem? xs i ≡ none
  get_elem?_beyond i [] h = refl
  get_elem?_beyond zero (x ∷ xs) h = elim h [ ]
  get_elem?_beyond (suc i) (x ∷ xs) h = get_elem?_beyond i xs (omega arith)

  pub get_elem?_within : (i : ℕ) (xs : List A) → i < length xs → (a : A) × (get_elem? xs i ≡ some a)
  get_elem?_within i [] h = elim h [ ]
  get_elem?_within zero (x ∷ xs) h = (x, refl)
  get_elem?_within (suc i) (x ∷ xs) h = get_elem?_within i xs (omega arith)

  pub get_elem?-append_left :
      (i : ℕ) (xs ys : List A) → i < length xs → get_elem? (xs ++ ys) i ≡ get_elem? xs i
  get_elem?-append_left i [] ys h = elim h [ ]
  get_elem?-append_left zero (x ∷ xs) ys h = refl
  get_elem?-append_left (suc i) (x ∷ xs) ys h = get_elem?-append_left i xs ys (omega arith)

  pub get_elem?-append_right :
      (i : ℕ) (xs ys : List A) → get_elem? (xs ++ ys) (length xs + i) ≡ get_elem? ys i
  get_elem?-append_right i [] ys = ap (get_elem? ys) (omega arith)
  get_elem?-append_right i (x ∷ xs) ys =
      let e : suc (length xs) + i ≡ suc (length xs + i) = omega arith in
      rw e (get_elem?-append_right i xs ys)

  pub get_elem?_lt : (i : ℕ) (xs : List A) {a : A} → get_elem? xs i ≡ some a → i < length xs
  get_elem?_lt i [] h = cc
  get_elem?_lt zero (x ∷ xs) h = omega arith
  get_elem?_lt (suc i) (x ∷ xs) h = omega (arith, get_elem?_lt i xs h)
