-- ===== src/Auth/Guards.antt =====
-- The guards of the handlers of pkg/api/tokens.go, read backwards from an answer.
use prisn.Base.{ℕ, ◌≡◌, refl, Option, none, some, List, Bool, true, false}
use prisn.Auth.Table.{TokenRow}
use prisn.Auth.Tokens.{Reply, answer, given, unless}

-- A guard that would have answered with another status has been passed.
pub passed :
    (c s : ℕ) (rows : List TokenRow) (b : Bool) (x : Reply)
    → ¬ c ≡ s
    → (unless c rows b x).status ≡ s
    → (b ≡ false) × (unless c rows b x ≡ x) × (x.status ≡ s)
unfolding unless
passed c s rows true x ne h = absurd (ne h)
passed c s rows false x ne h = (refl, refl, h)

-- A value that would have been missed with another status is there.
pub passed_given :
    {A : Type 0} (c s : ℕ) (rows : List TokenRow) (o : Option A) (f : A → Reply)
    → ¬ c ≡ s
    → (given c rows o f).status ≡ s
    → (a : A) × (o ≡ some a) × (given c rows o f ≡ f a) × ((f a).status ≡ s)
unfolding given
passed_given c s rows none f ne h = absurd (ne h)
passed_given c s rows (some a) f ne h = (a, refl, refl, h)

-- What holds of the refusal and of the reply behind a guard holds of both together.
pub either_reply :
    (P : Reply → Type 0) (c : ℕ) (rows : List TokenRow) (b : Bool) (x : Reply)
    → P (answer c rows)
    → P x
    → P (unless c rows b x)
unfolding unless
either_reply P c rows true x refusal reply = refusal
either_reply P c rows false x refusal reply = reply

pub any_reply :
    {A : Type 0} (P : Reply → Type 0) (c : ℕ) (rows : List TokenRow) (o : Option A) (f : A → Reply)
    → P (answer c rows)
    → ((a : A) → P (f a))
    → P (given c rows o f)
unfolding given
any_reply P c rows none f refusal reply = refusal
any_reply P c rows (some a) f refusal reply = reply a
