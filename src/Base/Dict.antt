-- ===== src/Base/Dict.antt =====
-- Go's maps with text keys, as association lists. A list stands for one order in which `range` may
-- visit the map.
use Prim.Native.String.{String}
use mathlib.Core.Path.{◌≡◌, refl, ap}
use mathlib.Core.Option
use mathlib.Core.Bool.{true, false}
use mathlib.Core.Logic.{◌⊎◌, inl, inr}
use mathlib.Core.Option.{Option, none, some}
use mathlib.Core.List.{List, [], ◌∷◌}
use native.Mathlib.Omega.{arith}
use text.Mathlib.TextEquality.{eq_iff}
use prisn.Base.Tests.{Bool-cases, str_eq, if◌then◌else◌}

abbrev pub Dict {ℓ} : Type ℓ → Type ℓ
Dict V = List (String × V)

module _ {ℓ} {V : Type ℓ} where
  -- found, ok := entries[key]
  unfoldable pub lookup : (key : String) → Dict V → Option V
  lookup key [] = none
  lookup key ((k, value) ∷ rest) = if str_eq k key then some value else lookup key rest

  -- entries[key] = value
  unfoldable pub insert : (key : String) → V → Dict V → Dict V
  insert key value [] = (key, value) ∷ []
  insert key value ((k, old) ∷ rest) =
      if str_eq k key then (key, value) ∷ rest else (k, old) ∷ insert key value rest

  -- delete(m, k)
  unfoldable pub erase : String → Dict V → Dict V
  erase k [] = []
  erase k ((j, w) ∷ m) = let rest = erase k m in if str_eq j k then rest else (j, w) ∷ rest

  pub lookup-insert :
      (key asked : String) (value : V) (entries : Dict V)
      → lookup asked (insert key value entries)
        ≡ (if str_eq key asked then some value else lookup asked entries)
  unfolding lookup insert
  lookup-insert key asked value [] = refl
  lookup-insert key asked value ((k, old) ∷ rest) =
      ground
        (arith, lookup-insert key asked value rest, eq_iff k key, eq_iff k asked, eq_iff key asked)

  pub lookup-erase :
      (k j : String) (m : Dict V) → lookup j (erase k m) ≡ (if str_eq k j then none else lookup j m)
  unfolding lookup erase
  lookup-erase k j [] = ground arith
  lookup-erase k j ((i, w) ∷ m) =
      ground (arith, eq_iff k j, eq_iff i k, eq_iff i j, lookup-erase k j m)

  -- What a lookup found after an insertion was inserted there or was there before.
  pub lookup-insert_inv :
      (k j : String) (v : V) (m : Dict V) {w : V}
      → lookup j (insert k v m) ≡ some w
      → (str_eq k j ≡ true) × (v ≡ w) ⊎ (str_eq k j ≡ false) × (lookup j m ≡ some w)
  lookup-insert_inv k j v m h = ground (arith, lookup-insert k j v m)

  pub lookup-erase_inv :
      (k j : String) (m : Dict V) {w : V}
      → lookup j (erase k m) ≡ some w
      → (str_eq k j ≡ false) × (lookup j m ≡ some w)
  lookup-erase_inv k j m h = ground (arith, lookup-erase k j m)

module _ {ℓ} {V W : Type ℓ} where
  -- every value of a map by `f`
  abbrev pub map_values : (V → W) → Dict V → Dict W
  map_values f [] = []
  map_values f ((key, value) ∷ rest) = (key, f value) ∷ map_values f rest

  pub lookup-map_values :
      (f : V → W) (key : String) (entries : Dict V)
      → lookup key (map_values f entries) ≡ Option.map f (lookup key entries)
  unfolding lookup
  lookup-map_values f key [] = refl
  lookup-map_values f key ((k, value) ∷ rest) = elim (Bool-cases (str_eq k key)) [
    | inl same ↦ rw same refl
    | inr other ↦ rw other (lookup-map_values f key rest)
  ]

  pub map_values-insert :
      (f : V → W) (key : String) (value : V) (entries : Dict V)
      → map_values f (insert key value entries) ≡ insert key (f value) (map_values f entries)
  unfolding insert
  map_values-insert f key value [] = refl
  map_values-insert f key value ((k, old) ∷ rest) = elim (Bool-cases (str_eq k key)) [
    | inl same ↦ rw same refl
    | inr other ↦ rw other (ap (λ m. (k, f old) ∷ m) (map_values-insert f key value rest))
  ]

  pub map_values-erase :
      (f : V → W) (key : String) (entries : Dict V)
      → map_values f (erase key entries) ≡ erase key (map_values f entries)
  unfolding erase
  map_values-erase f key [] = refl
  map_values-erase f key ((k, old) ∷ rest) = elim (Bool-cases (str_eq k key)) [
    | inl same ↦ rw same (map_values-erase f key rest)
    | inr other ↦ rw other (ap (λ m. (k, f old) ∷ m) (map_values-erase f key rest))
  ]
