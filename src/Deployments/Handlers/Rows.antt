-- ===== src/Deployments/Handlers/Rows.antt =====
-- The invariant of the tables behind the handlers of deployments, and what one statement keeps of it.
use mathlib.Core.List.{Memᴰ}
use mathlib.Core.Option
use prisn.Base.{
  ℕ, ◌≡◌, ◌⊎◌, inl, inr, refl, sym, ap, ◌∙◌, none, some, List, [], ◌∷◌, Bool, true, false, arith,
  Bool-cases, subst, some_inj, if◌then◌else◌, String, str_eq, eq_iff,
}
use prisn.Base.Text.{codes}
use prisn.Scheduler.Jobs.{CronSchedule}
use prisn.Store.{
  Deployment, set_columns, any_clash, update_deployment, get_deployment, delete_deployment,
  delete_schedules_of,
}
use prisn.Store.Keys.{
  Distinct, updated, update_deployment-Distinct, delete_deployment-Distinct, get_deployment-update,
  get_deployment_id, get_deployment-own, get_deployment-create, get_deployment-delete,
}
use prisn.Validate

-- What the checks of package validate accept.
abbrev pub IsValid : Deployment → Type 0
IsValid d =
    (Validate.name (codes d.name) ≡ none)
    × (Validate.port d.port ≡ none)
    × (Validate.replicas d.replicas ≡ none)

-- The deployment of a schedule is there and has this expression.
abbrev pub IsOwned : List Deployment → CronSchedule → Type 0
IsOwned rows cs =
    (d : Deployment) × (get_deployment cs.deployment_id rows ≡ some d) × (d.schedule ≡ cs.schedule)

-- The keys of the deployments are distinct, each of them is valid, and each schedule has its deployment.
pub record AreSound (rows : List Deployment) (schedules : List CronSchedule) : Type 0 where
  pub distinct : Distinct rows
  pub valid : (d : Deployment) → Memᴰ d rows → IsValid d
  pub owned : (cs : CronSchedule) → Memᴰ cs schedules → IsOwned rows cs

Mem-update :
    (d x : Deployment) (now : ℕ) (rows : List Deployment)
    → Memᴰ x (update_deployment d now rows)
    → (row : Deployment) × Memᴰ row rows × (x ≡ updated d now row)
unfolding update_deployment
Mem-update d x now [] m = elim m [ ]
Mem-update d x now (row ∷ rows) (Memᴰ.head e) = (row, Memᴰ.head refl, e)
Mem-update d x now (row ∷ rows) (Memᴰ.tail m) =
    let (r, there, e) = Mem-update d x now rows m in (r, Memᴰ.tail there, e)

pub Mem-updated :
    (d x : Deployment) (now : ℕ) (rows : List Deployment)
    → Memᴰ x rows
    → Memᴰ (updated d now x) (update_deployment d now rows)
unfolding update_deployment
Mem-updated d x now [] m = elim m [ ]
Mem-updated d x now (row ∷ rows) (Memᴰ.head e) = Memᴰ.head (ap (updated d now) e)
Mem-updated d x now (row ∷ rows) (Memᴰ.tail m) = Memᴰ.tail (Mem-updated d x now rows m)

updated-IsValid :
    (d row : Deployment) (now : ℕ)
    → IsValid row
    → Validate.port d.port ≡ none
    → Validate.replicas d.replicas ≡ none
    → IsValid (updated d now row)
unfolding set_columns
updated-IsValid d row now (name_ok, port_ok, replicas_ok) p r =
    elim (Bool-cases (str_eq row.id d.id)) [
      | inl same ↦ rw same (name_ok, p, r)
      | inr other ↦ rw other (name_ok, port_ok, replicas_ok)
    ]

-- The schedule of a row stays, where the copy that is written was read from the row.
updated-schedule :
    (d read row : Deployment) (now : ℕ) (rows : List Deployment)
    → get_deployment read.id rows ≡ some read
    → get_deployment row.id rows ≡ some row
    → d.id ≡ read.id
    → d.schedule ≡ read.schedule
    → (updated d now row).schedule ≡ row.schedule
unfolding set_columns
updated-schedule d read row now rows found there same_id same =
    elim (Bool-cases (str_eq row.id d.id)) [
      | inl here ↦
          let e : row.id ≡ read.id = (eq_iff row.id d.id).0 here ∙ same_id in
          let r : row ≡ read =
            some_inj (sym there ∙ subst (λ x. get_deployment x rows ≡ some read) (sym e) found) in
          rw here (same ∙ sym (ap (λ x. x.schedule) r))
      | inr other ↦ rw other refl
    ]

module _ {rows : List Deployment} {schedules : List CronSchedule} where
  -- UPDATE from a copy that was read before and keeps the schedule
  pub update-AreSound :
      (d read : Deployment) (now : ℕ)
      → AreSound rows schedules
      → Memᴰ read rows
      → d.id ≡ read.id
      → d.schedule ≡ read.schedule
      → Validate.port d.port ≡ none
      → Validate.replicas d.replicas ≡ none
      → AreSound (update_deployment d now rows) schedules
  update-AreSound d read now h there same_id same p r = record {
    distinct = update_deployment-Distinct d now rows h.distinct;
    valid = λ x m.
        let (row, m', e) = Mem-update d x now rows m in
        subst IsValid (sym e) (updated-IsValid d row now (h.valid row m') p r);
    owned = λ cs m.
        let (row, found, s) = h.owned cs m in
        let own =
          subst (λ i. get_deployment i rows ≡ some row)
            (sym (get_deployment_id cs.deployment_id rows row found)) found in
        (
          updated d now row,
          get_deployment-update d now cs.deployment_id rows ∙ ap (Option.map (updated d now)) found,
          updated-schedule d read row now rows (get_deployment-own rows read h.distinct there) own
                same_id same
              ∙ s,
        );
  }

  -- INSERT of a deployment with keys of its own
  pub create-AreSound :
      (d : Deployment)
      → AreSound rows schedules
      → any_clash d rows ≡ false
      → IsValid d
      → AreSound (d ∷ rows) schedules
  create-AreSound d h alone v = record {
    distinct = (alone, h.distinct);
    valid = valid';
    owned = λ cs m.
        let (row, found, s) = h.owned cs m in
        (row, get_deployment-create d row cs.deployment_id rows alone found, s);
  }
    where
      valid' : (x : Deployment) → Memᴰ x (d ∷ rows) → IsValid x
      valid' x (Memᴰ.head e) = subst IsValid (sym e) v
      valid' x (Memᴰ.tail m) = h.valid x m

  -- INSERT of a schedule of a deployment that is there
  pub schedule-AreSound :
      (cs : CronSchedule)
      → AreSound rows schedules
      → IsOwned rows cs
      → AreSound rows (cs ∷ schedules)
  schedule-AreSound cs h o = record { distinct = h.distinct; valid = h.valid; owned = owned' }
    where
      owned' : (x : CronSchedule) → Memᴰ x (cs ∷ schedules) → IsOwned rows x
      owned' x (Memᴰ.head e) = subst (IsOwned rows) (sym e) o
      owned' x (Memᴰ.tail m) = h.owned x m

kept_Mem :
    (b : Bool) (x row : Deployment) (rest : List Deployment × Bool)
    → Memᴰ x (if◌then◌else◌ {A = List Deployment × Bool} b (rest.0, true) (row ∷ rest.0, rest.1)).0
    → (x ≡ row) ⊎ Memᴰ x rest.0
kept_Mem true x row rest m = inr m
kept_Mem false x row rest (Memᴰ.head e) = inl e
kept_Mem false x row rest (Memᴰ.tail m) = inr m

Mem-delete :
    (id : String) (x : Deployment) (rows : List Deployment)
    → Memᴰ x (delete_deployment id rows).0
    → Memᴰ x rows
unfolding delete_deployment
Mem-delete id x [] m = elim m [ ]
Mem-delete id x (row ∷ rows) m =
    elim (kept_Mem (str_eq row.id id) x row (delete_deployment id rows) m) [
      | inl e ↦ Memᴰ.head e
      | inr m' ↦ Memᴰ.tail (Mem-delete id x rows m')
    ]

kept_schedule :
    (b : Bool) (x row : CronSchedule) (rest : List CronSchedule)
    → Memᴰ x (if b then rest else row ∷ rest)
    → (b ≡ false) × (x ≡ row) ⊎ Memᴰ x rest
kept_schedule true x row rest m = inr m
kept_schedule false x row rest (Memᴰ.head e) = inl (refl, e)
kept_schedule false x row rest (Memᴰ.tail m) = inr m

pub Mem-delete_schedules_of :
    (id : String) (x : CronSchedule) (rows : List CronSchedule)
    → Memᴰ x (delete_schedules_of id rows)
    → Memᴰ x rows × (str_eq x.deployment_id id ≡ false)
unfolding delete_schedules_of
Mem-delete_schedules_of id x [] m = elim m [ ]
Mem-delete_schedules_of id x (row ∷ rows) m =
    elim (kept_schedule (str_eq row.deployment_id id) x row (delete_schedules_of id rows) m) [
      | inl (other, e) ↦ (Memᴰ.head e, subst (λ y. str_eq y.deployment_id id ≡ false) (sym e) other)
      | inr m' ↦
          let (there, other) = Mem-delete_schedules_of id x rows m' in (Memᴰ.tail there, other)
    ]

-- DELETE of a deployment, with its schedules
pub delete-AreSound :
    (id : String) {rows : List Deployment} {schedules : List CronSchedule}
    → AreSound rows schedules
    → AreSound (delete_deployment id rows).0 (delete_schedules_of id schedules)
delete-AreSound id {rows} {schedules} h = record {
  distinct = delete_deployment-Distinct id rows h.distinct;
  valid = λ x m. h.valid x (Mem-delete id x rows m);
  owned = λ cs m.
      let (there, other) = Mem-delete_schedules_of id cs schedules m in
      let (row, found, s) = h.owned cs there in
      (
        row,
        get_deployment-delete id cs.deployment_id rows
              (ground (arith, other, eq_iff id cs.deployment_id, eq_iff cs.deployment_id id))
            ∙ found,
        s,
      );
}
