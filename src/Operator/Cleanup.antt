-- ===== src/Operator/Cleanup.antt =====
-- What cleanupOldJobs of operator/controllers/prisncronjob_controller.go leaves of the jobs.
use mathlib.Core.List.{Memᴰ}
use prisn.Base.{
  ℕ, zero, suc, ◌-◌, ◌≡◌, inl, inr, refl, sym, List, [], ◌∷◌, Bool, true, false, arith, Bool-cases,
  subst, if◌then◌else◌, String, str_eq, length, take,
}
use prisn.Operator.{JobPhase, Job, CronJob}
use prisn.Operator.CronJobs.{
  Outside, with_phase, is_active_phase, is_succeeded, is_failed, remove_job, delete_jobs, excess,
  or_default, cleanup_old_jobs,
}

-- Jobs of the one list are jobs of the other.
abbrev pub IsWithin : List Job → List Job → Type 0
IsWithin js ks = (k : Job) → Memᴰ k js → Memᴰ k ks

either-Mem :
    (b : Bool) (x j : Job) (rest : List Job)
    → Memᴰ x (if b then rest else j ∷ rest)
    → Memᴰ x (j ∷ rest)
either-Mem true x j rest m = Memᴰ.tail m
either-Mem false x j rest m = m

pub Mem-cons : (x j : Job) (js ks : List Job) → IsWithin js ks → Memᴰ x (j ∷ js) → Memᴰ x (j ∷ ks)
Mem-cons x j js ks h (Memᴰ.head e) = Memᴰ.head e
Mem-cons x j js ks h (Memᴰ.tail m) = Memᴰ.tail (h x m)

remove_job-IsWithin : (name : String) (js : List Job) → IsWithin (remove_job name js) js
unfolding remove_job
remove_job-IsWithin name [] k m = m
remove_job-IsWithin name (j ∷ js) k m =
    Mem-cons k j (remove_job name js) js (remove_job-IsWithin name js)
      (either-Mem (str_eq j.name name) k j (remove_job name js) m)

-- Either branch
either_list :
    (P : List Job → Type 0) (b : Bool) (x y : List Job) → P x → P y → P (if b then x else y)
either_list P true x y h k = h
either_list P false x y h k = k

either_pair :
    (P : List Job → Type 0) (b : Bool) (x y : List Job × Bool)
    → P x.0
    → P y.0
    → P (if◌then◌else◌ {A = List Job × Bool} b x y).0
either_pair P true x y h k = h
either_pair P false x y h k = k

delete_jobs-IsWithin :
    (o : Outside) (doomed js : List Job) → IsWithin (delete_jobs o doomed js).0 js
unfolding delete_jobs
delete_jobs-IsWithin o [] js = λ k m. m
delete_jobs-IsWithin o (j ∷ doomed) js =
    either_pair (λ l. IsWithin l js) (o.delete_ok j.name)
      (delete_jobs o doomed (remove_job j.name js)) (js, false)
      (λ k m.
        remove_job-IsWithin j.name js k (delete_jobs-IsWithin o doomed (remove_job j.name js) k m))
      (λ k m. m)

pub cleanup-IsWithin :
    (o : Outside) (cj : CronJob) (children js : List Job)
    → IsWithin (cleanup_old_jobs o cj children js) js
unfolding cleanup_old_jobs
cleanup-IsWithin o cj children js =
    let good =
      excess o (or_default 3 cj.successful_jobs_history_limit) (with_phase is_succeeded children) in
    let bad =
      excess o (or_default 1 cj.failed_jobs_history_limit) (with_phase is_failed children) in
    let r = delete_jobs o good js in
    let within = delete_jobs-IsWithin o good js in
    either_list (λ l. IsWithin l js) r.1 (delete_jobs o bad r.0).0 r.0
      (λ k m. within k (delete_jobs-IsWithin o bad r.0 k m)) within

-- A job with another name stays.
remove_job-keeps :
    (name : String) (j : Job) (js : List Job)
    → str_eq j.name name ≡ false
    → Memᴰ j js
    → Memᴰ j (remove_job name js)
unfolding remove_job
remove_job-keeps name j [] h m = elim m [ ]
remove_job-keeps name j (k ∷ js) h (Memᴰ.head e) =
    let other : str_eq k.name name ≡ false = subst (λ x. str_eq x.name name ≡ false) e h in
    rw other (Memᴰ.head e)
remove_job-keeps name j (k ∷ js) h (Memᴰ.tail m) = elim (Bool-cases (str_eq k.name name)) [
  | inl same ↦ rw same (remove_job-keeps name j js h m)
  | inr other ↦ rw other (Memᴰ.tail (remove_job-keeps name j js h m))
]

abbrev Spared : Job → List Job → Type 0
Spared j doomed = (k : Job) → Memᴰ k doomed → str_eq j.name k.name ≡ false

delete_jobs-keeps :
    (o : Outside) (j : Job) (doomed js : List Job)
    → Spared j doomed
    → Memᴰ j js
    → Memᴰ j (delete_jobs o doomed js).0
unfolding delete_jobs
delete_jobs-keeps o j [] js h m = m
delete_jobs-keeps o j (k ∷ doomed) js h m =
    either_pair (λ l. Memᴰ j l) (o.delete_ok k.name) (delete_jobs o doomed (remove_job k.name js))
      (js, false)
      (delete_jobs-keeps o j doomed (remove_job k.name js) (λ x n. h x (Memᴰ.tail n))
        (remove_job-keeps k.name j js (h k (Memᴰ.head refl)) m))
      m

take-IsWithin : (n : ℕ) (js : List Job) → IsWithin (take n js) js
take-IsWithin zero js k m = elim m [ ]
take-IsWithin (suc n) [] k m = m
take-IsWithin (suc n) (j ∷ js) k m = Mem-cons k j (take n js) js (take-IsWithin n js) m

with_phase-Mem :
    (p : JobPhase → Bool) (k : Job) (js : List Job)
    → Memᴰ k (with_phase p js)
    → Memᴰ k js × (p k.phase ≡ true)
unfolding with_phase
with_phase-Mem p k [] m = elim m [ ]
with_phase-Mem p k (j ∷ js) m = at (p j.phase) refl m (with_phase-Mem p k js)
  where
    at :
        (b : Bool)
        → p j.phase ≡ b
        → Memᴰ k (if b then j ∷ with_phase p js else with_phase p js)
        → (Memᴰ k (with_phase p js) → Memᴰ k js × (p k.phase ≡ true))
        → Memᴰ k (j ∷ js) × (p k.phase ≡ true)
    at true e (Memᴰ.head same) rest = (Memᴰ.head same, subst (λ x. p x.phase ≡ true) (sym same) e)
    at true e (Memᴰ.tail n) rest = let (there, q) = rest n in (Memᴰ.tail there, q)
    at false e n rest = let (there, q) = rest n in (Memᴰ.tail there, q)

-- sort.Slice makes up no job, and the names of jobs are keys.
abbrev pub SortsOnly : Outside → Type 0
SortsOnly o = (js : List Job) → IsWithin (o.sort_by_completion_time js) js

abbrev pub AreKeys : List Job → Type 0
AreKeys js = (j k : Job) → Memᴰ j js → Memᴰ k js → str_eq j.name k.name ≡ true → j ≡ k

excess-Spared :
    (o : Outside) (limit : ℕ) (p : JobPhase → Bool) (j : Job) (js : List Job)
    → SortsOnly o
    → AreKeys js
    → Memᴰ j js
    → p j.phase ≡ false
    → Spared j (excess o limit (with_phase p js))
unfolding excess
excess-Spared o limit p j js sorts keys m other k n =
    let chosen = with_phase p js in
    let sorted = o.sort_by_completion_time chosen in
    let (there, phase) =
      with_phase-Mem p k js (sorts chosen k (take-IsWithin (length chosen - limit) sorted k n)) in
    elim (Bool-cases (str_eq j.name k.name)) [
      | inr e ↦ e
      | inl e ↦
          let same = subst (λ x. p x.phase ≡ false) (keys j k m there e) other in
          absurd (ground (arith, same, phase))
    ]

pub cleanup-keeps :
    (o : Outside) (cj : CronJob) (j : Job) (js : List Job)
    → SortsOnly o
    → AreKeys js
    → Memᴰ j js
    → is_active_phase j.phase ≡ true
    → Memᴰ j (cleanup_old_jobs o cj js js)
unfolding cleanup_old_jobs
cleanup-keeps o cj j js sorts keys m active =
    let good =
      excess o (or_default 3 cj.successful_jobs_history_limit) (with_phase is_succeeded js) in
    let bad = excess o (or_default 1 cj.failed_jobs_history_limit) (with_phase is_failed js) in
    let r = delete_jobs o good js in
    let not_succeeded : is_succeeded j.phase ≡ false = ground (arith, active) in
    let not_failed : is_failed j.phase ≡ false = ground (arith, active) in
    let kept =
      delete_jobs-keeps o j good js (excess-Spared o _ is_succeeded j js sorts keys m not_succeeded)
        m in
    either_list (λ l. Memᴰ j l) r.1 (delete_jobs o bad r.0).0 r.0
      (delete_jobs-keeps o j bad r.0 (excess-Spared o _ is_failed j js sorts keys m not_failed)
        kept)
      kept
