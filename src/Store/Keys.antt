-- ===== src/Store/Keys.antt =====
-- The keys of the table of deployments (pkg/store/store.go): the id, and the namespace with the name.
use mathlib.Core.List.{Memᴰ}
use mathlib.Core.Option
use prisn.Base.{
  ℕ, ◌≡◌, ◌⊎◌, inl, inr, refl, sym, ap, ◌∙◌, Option, none, some, List, [], ◌∷◌, Bool, true, false,
  ◌&&◌, ◌||◌, arith, Bool-cases, subst, some_inj, if◌then◌else◌, String, str_eq, eq_iff,
}
use prisn.Store.{
  Deployment, stored, clashes, any_clash, create_deployment, set_columns, update_deployment,
  get_deployment, get_deployment_by_name, delete_deployment,
}

-- No row has the id of another, nor its namespace and name.
abbrev pub Distinct : List Deployment → Type 0
Distinct [] = Unit {0}
Distinct (d ∷ ds) = (any_clash d ds ≡ false) × Distinct ds

-- What UPDATE leaves of a row
abbrev pub updated : Deployment → ℕ → Deployment → Deployment
updated d now row = if str_eq row.id d.id then set_columns d now row else row

any_clash-set_columns :
    (d e : Deployment) (now : ℕ) (rows : List Deployment)
    → any_clash (set_columns d now e) rows ≡ any_clash e rows
unfolding any_clash set_columns
any_clash-set_columns d e now [] = refl
any_clash-set_columns d e now (row ∷ rows) =
    ap (λ b. clashes e row || b) (any_clash-set_columns d e now rows)

any_clash-update :
    (e d : Deployment) (now : ℕ) (rows : List Deployment)
    → any_clash e (update_deployment d now rows) ≡ any_clash e rows
unfolding any_clash clashes update_deployment set_columns
any_clash-update e d now [] = refl
any_clash-update e d now (row ∷ rows) = elim (Bool-cases (str_eq row.id d.id)) [
  | inl same ↦ ground (arith, same, any_clash-update e d now rows)
  | inr other ↦ ground (arith, other, any_clash-update e d now rows)
]

pub update_deployment-Distinct :
    (d : Deployment) (now : ℕ) (rows : List Deployment)
    → Distinct rows
    → Distinct (update_deployment d now rows)
unfolding update_deployment
update_deployment-Distinct d now [] h = tt
update_deployment-Distinct d now (row ∷ rows) (alone, rest) =
    elim (Bool-cases (str_eq row.id d.id)) [
      | inl same ↦ rw same (
        any_clash-set_columns d row now (update_deployment d now rows)
            ∙ any_clash-update row d now rows
            ∙ alone,
        update_deployment-Distinct d now rows rest,
      )
      | inr other ↦
          rw other
            (any_clash-update row d now rows ∙ alone, update_deployment-Distinct d now rows rest)
    ]

pub create_deployment-Distinct :
    (d : Deployment) (rows rows' : List Deployment)
    → Distinct rows
    → create_deployment d rows ≡ stored rows'
    → (rows' ≡ d ∷ rows) × (any_clash d rows ≡ false)
unfolding create_deployment
create_deployment-Distinct d rows rows' h e = (ground (arith, e), ground (arith, e))

any_clash-delete :
    (e : Deployment) (id : String) (rows : List Deployment)
    → any_clash e rows ≡ false
    → any_clash e (delete_deployment id rows).0 ≡ false
unfolding any_clash delete_deployment
any_clash-delete e id [] h = refl
any_clash-delete e id (row ∷ rows) h =
    ground (arith, h, any_clash-delete e id rows (ground (arith, h)))

pub delete_deployment-Distinct :
    (id : String) (rows : List Deployment) → Distinct rows → Distinct (delete_deployment id rows).0
unfolding delete_deployment
delete_deployment-Distinct id [] h = tt
delete_deployment-Distinct id (row ∷ rows) (alone, rest) = elim (Bool-cases (str_eq row.id id)) [
  | inl same ↦ rw same (delete_deployment-Distinct id rows rest)
  | inr other ↦
      rw other (any_clash-delete row id rows alone, delete_deployment-Distinct id rows rest)
]

pub get_deployment-update :
    (d : Deployment) (now : ℕ) (id : String) (rows : List Deployment)
    → get_deployment id (update_deployment d now rows)
      ≡ Option.map (updated d now) (get_deployment id rows)
unfolding get_deployment update_deployment set_columns
get_deployment-update d now id [] = refl
get_deployment-update d now id (row ∷ rows) = elim (Bool-cases (str_eq row.id d.id)) [
  | inl same ↦ elim (Bool-cases (str_eq row.id id)) [
    | inl here ↦ rw (same, here, same) refl
    | inr there ↦ rw (same, there) (get_deployment-update d now id rows)
  ]
  | inr other ↦ elim (Bool-cases (str_eq row.id id)) [
    | inl here ↦ rw (other, here, other) refl
    | inr there ↦ rw (other, there) (get_deployment-update d now id rows)
  ]
]

-- What a lookup found at a row or behind it
found_at {ℓ} :
    {A : Type ℓ} (b : Bool) (row d : A) (rest : Option A)
    → (if b then some row else rest) ≡ some d
    → (b ≡ true) × (row ≡ d) ⊎ (b ≡ false) × (rest ≡ some d)
found_at true row d rest h = inl (refl, some_inj h)
found_at false row d rest h = inr (refl, h)

pub get_deployment_id :
    (id : String) (rows : List Deployment) (d : Deployment)
    → get_deployment id rows ≡ some d
    → d.id ≡ id
unfolding get_deployment
get_deployment_id id [] d h = absurd (ground (arith, h))
get_deployment_id id (row ∷ rows) d h =
    elim (found_at (str_eq row.id id) row d (get_deployment id rows) h) [
      | inl (here, e) ↦ subst (λ x. x.id ≡ id) e ((eq_iff row.id id).0 here)
      | inr (there, rest) ↦ get_deployment_id id rows d rest
    ]

pub get_deployment-Mem :
    (id : String) (rows : List Deployment) (d : Deployment)
    → get_deployment id rows ≡ some d
    → Memᴰ d rows
unfolding get_deployment
get_deployment-Mem id [] d h = absurd (ground (arith, h))
get_deployment-Mem id (row ∷ rows) d h =
    elim (found_at (str_eq row.id id) row d (get_deployment id rows) h) [
      | inl (here, e) ↦ Memᴰ.head (sym e)
      | inr (there, rest) ↦ Memᴰ.tail (get_deployment-Mem id rows d rest)
    ]

pub get_deployment_by_name-Mem :
    (namespace name : String) (rows : List Deployment) (d : Deployment)
    → get_deployment_by_name namespace name rows ≡ some d
    → Memᴰ d rows
unfolding get_deployment_by_name
get_deployment_by_name-Mem ns n [] d h = absurd (ground (arith, h))
get_deployment_by_name-Mem ns n (row ∷ rows) d h =
    elim (found_at (str_eq row.namespace ns && str_eq row.name n) row d
      (get_deployment_by_name ns n rows) h) [
        | inl (here, e) ↦ Memᴰ.head (sym e)
        | inr (there, rest) ↦ Memᴰ.tail (get_deployment_by_name-Mem ns n rows d rest)
      ]

-- A row that clashes with none has an id of its own.
Mem-id :
    (e d : Deployment) (rows : List Deployment)
    → any_clash e rows ≡ false
    → Memᴰ d rows
    → str_eq e.id d.id ≡ false
unfolding any_clash clashes
Mem-id e d [] h m = elim m [ ]
Mem-id e d (row ∷ rows) h (Memᴰ.head same) =
    subst (λ x. str_eq e.id x.id ≡ false) (sym same)
      (ground (arith, h, eq_iff e.id row.id, eq_iff row.id e.id))
Mem-id e d (row ∷ rows) h (Memᴰ.tail m) = Mem-id e d rows (ground (arith, h)) m

-- The lookup by its id finds each row of a table with distinct keys.
pub get_deployment-own :
    (rows : List Deployment) (d : Deployment)
    → Distinct rows
    → Memᴰ d rows
    → get_deployment d.id rows ≡ some d
unfolding get_deployment
get_deployment-own [] d h m = elim m [ ]
get_deployment-own (row ∷ rows) d (alone, rest) (Memᴰ.head same) =
    subst (λ x. get_deployment x.id (row ∷ rows) ≡ some x) (sym same)
      (ground (arith, eq_iff row.id row.id))
get_deployment-own (row ∷ rows) d (alone, rest) (Memᴰ.tail m) =
    rw (Mem-id row d rows alone m) (get_deployment-own rows d rest m)

any_clash→get :
    (d : Deployment) (rows : List Deployment)
    → any_clash d rows ≡ false
    → get_deployment d.id rows ≡ none
unfolding any_clash clashes get_deployment
any_clash→get d [] h = refl
any_clash→get d (row ∷ rows) h = ground (arith, h, any_clash→get d rows (ground (arith, h)))

-- A new row does not hide another.
pub get_deployment-create :
    (d e : Deployment) (id : String) (rows : List Deployment)
    → any_clash d rows ≡ false
    → get_deployment id rows ≡ some e
    → get_deployment id (d ∷ rows) ≡ some e
unfolding get_deployment
get_deployment-create d e id rows h found = elim (Bool-cases (str_eq d.id id)) [
  | inl same ↦
      let none_there =
        subst (λ x. get_deployment x rows ≡ none) ((eq_iff d.id id).0 same)
          (any_clash→get d rows h) in
      absurd (ground (arith, found, none_there))
  | inr other ↦ rw other found
]

pub get_deployment-delete :
    (gone id : String) (rows : List Deployment)
    → str_eq gone id ≡ false
    → get_deployment id (delete_deployment gone rows).0 ≡ get_deployment id rows
unfolding get_deployment delete_deployment
get_deployment-delete gone id [] h = refl
get_deployment-delete gone id (row ∷ rows) h = ground (
  arith,
  h,
  get_deployment-delete gone id rows h,
  eq_iff row.id gone,
  eq_iff row.id id,
  eq_iff gone id,
)
