-- ===== src/Validate/Names.antt =====
-- Which names, numbers and paths pkg/validate/validate.go accepts.
use prisn.Base.{
  ℕ, zero, suc, ◌≤◌, ◌<◌, ◌≡◌, ◌≢◌, ◌↔◌, ◌⊎◌, inl, inr, refl, none, some, [], ◌∷◌, Bool, true,
  arith, Bool-cases, length, get_elem?, ◌||◌, subst, some_inj,
}
use prisn.Base.Text.{Text, codes, same_text, has_prefix}
use prisn.Validate.{
  is_alnum, is_name_char, all_match, match_word, name, path, contains_text, is_letter,
}

-- a to z, A to Z, 0 to 9
abbrev pub IsAlnum : ℕ → Type 0
IsAlnum c = (97 ≤ c) × (c ≤ 122) ⊎ (65 ≤ c) × (c ≤ 90) ⊎ (48 ≤ c) × (c ≤ 57)

-- Those, and _ and -
abbrev pub IsNameChar : ℕ → Type 0
IsNameChar c = IsAlnum c ⊎ (c ≡ 95) ⊎ (c ≡ 45)

abbrev pub AllChars : (ℕ → Type 0) → Text → Type 0
AllChars P t = (i c : ℕ) → get_elem? t i ≡ some c → P c

-- One to 63 characters of a name, the first of them a letter or a digit.
abbrev pub IsName : Text → Type 0
IsName t =
    (0 < length t)
    × (length t ≤ 63)
    × ((c : ℕ) → get_elem? t 0 ≡ some c → IsAlnum c)
    × AllChars IsNameChar t

module _ (p : ℕ → Bool) (P : ℕ → Type 0) where
  pub all_match→AllChars :
      ((c : ℕ) → p c ≡ true → P c) → (t : Text) → all_match p t ≡ true → AllChars P t
  unfolding all_match
  all_match→AllChars sound [] h i c e = absurd (ground (arith, e))
  all_match→AllChars sound (x ∷ xs) h zero c e = sound c (ground (arith, e, h))
  all_match→AllChars sound (x ∷ xs) h (suc i) c e =
      all_match→AllChars sound xs (ground (arith, h)) i c e

  pub AllChars→all_match :
      ((c : ℕ) → P c → p c ≡ true) → (t : Text) → AllChars P t → all_match p t ≡ true
  unfolding all_match
  AllChars→all_match complete [] h = refl
  AllChars→all_match complete (x ∷ xs) h =
      ground
        (arith, complete x (h 0 x refl), AllChars→all_match complete xs (λ i c e. h (suc i) c e))

is_name_char→IsNameChar : (c : ℕ) → is_name_char c ≡ true → IsNameChar c
is_name_char→IsNameChar c h = ground arith

IsNameChar→is_name_char : (c : ℕ) → IsNameChar c → is_name_char c ≡ true
IsNameChar→is_name_char c h = ground arith

abbrev Matches : Text → Type 0
Matches t = match_word is_alnum is_name_char t ≡ true

name-Matches : (c : ℕ) (cs : Text) → name (c ∷ cs) ≡ none → Matches (c ∷ cs) × (length cs ≤ 62)
unfolding name
name-Matches c cs h = (ground (arith, h), ground (arith, h))

Matches-IsName : (c : ℕ) (cs : Text) → Matches (c ∷ cs) → length cs ≤ 62 → IsName (c ∷ cs)
unfolding match_word
Matches-IsName c cs h short =
    (omega arith, omega (arith, short), λ d e. subst IsAlnum (some_inj e) start, chars)
  where
    start : IsAlnum c
    start = ground (arith, h)

    rest : all_match is_name_char cs ≡ true
    rest = ground (arith, h)

    chars : AllChars IsNameChar (c ∷ cs)
    chars zero d e = subst IsNameChar (some_inj e) (inl start)
    chars (suc i) d e =
        all_match→AllChars is_name_char IsNameChar is_name_char→IsNameChar cs rest i d e

name→IsName : (t : Text) → name t ≡ none → IsName t
unfolding name
name→IsName [] h = ground (arith, h)
name→IsName (c ∷ cs) h = let (m, short) = name-Matches c cs h in Matches-IsName c cs m short

IsName→name : (t : Text) → IsName t → name t ≡ none
unfolding name match_word same_text is_letter
IsName→name [] h = ground (arith, h)
IsName→name (c ∷ cs) (some_char, short, start, chars) = ground (
  arith,
  short,
  start c refl,
  AllChars→all_match is_name_char IsNameChar IsNameChar→is_name_char cs
      (λ i d e. chars (suc i) d e),
)

-- Name returns no error exactly for the names of one to 63 characters of a-z, A-Z, 0-9, _ and -, the first
-- of them a letter or a digit.
pub name-IsName : (t : Text) → (name t ≡ none) ↔ IsName t
name-IsName t = (name→IsName t, IsName→name t)

-- Two dots, one behind the other
abbrev pub HasDots : Text → Type 0
HasDots t = (i : ℕ) × (get_elem? t i ≡ some 46) × (get_elem? t (suc i) ≡ some 46)

dots_here : (c : ℕ) (cs : Text) → has_prefix (c ∷ cs) (codes "..") ≡ true → HasDots (c ∷ cs)
unfolding has_prefix
dots_here c [] h = ground (arith, h)
dots_here c (d ∷ cs) h = (0, ground (arith, h), ground (arith, h))

contains_text→HasDots : (t : Text) → contains_text t (codes "..") ≡ true → HasDots t
unfolding contains_text has_prefix
contains_text→HasDots [] h = ground (arith, h)
contains_text→HasDots (c ∷ cs) h = elim (Bool-cases (has_prefix (c ∷ cs) (codes ".."))) [
  | inl here ↦ dots_here c cs here
  | inr other ↦
      later (
        contains_text→HasDots cs (subst (λ b. (b || contains_text cs (codes "..")) ≡ true) other h))
]
  where
    later : HasDots cs → HasDots (c ∷ cs)
    later (i, e, f) = (suc i, e, f)

HasDots→contains_text :
    (t : Text) (i : ℕ)
    → get_elem? t i ≡ some 46
    → get_elem? t (suc i) ≡ some 46
    → contains_text t (codes "..") ≡ true
unfolding contains_text has_prefix
HasDots→contains_text [] i e f = ground (arith, e)
HasDots→contains_text (c ∷ []) zero e f = ground (arith, f)
HasDots→contains_text (c ∷ d ∷ cs) zero e f = ground (arith, e, f)
HasDots→contains_text (c ∷ cs) (suc i) e f = ground (arith, HasDots→contains_text cs i e f)

path→Safe : (t : Text) → path t ≡ none → (t ≢ []) × ¬ HasDots t
unfolding path
path→Safe [] h = absurd (ground (arith, h))
path→Safe (c ∷ cs) h =
    (λ e. absurd (cc), λ (i, e, f). ground (arith, h, HasDots→contains_text (c ∷ cs) i e f))

Safe→path : (t : Text) → t ≢ [] → ¬ HasDots t → path t ≡ none
unfolding path
Safe→path [] some_char safe = absurd (some_char refl)
Safe→path (c ∷ cs) some_char safe = elim (Bool-cases (contains_text (c ∷ cs) (codes ".."))) [
  | inl dots ↦ absurd (safe (contains_text→HasDots (c ∷ cs) dots))
  | inr plain ↦ ground (arith, plain)
]

-- Path returns no error exactly for the texts that are not empty and in which no dot stands directly
-- behind another.
pub path-HasDots : (t : Text) → (path t ≡ none) ↔ (t ≢ []) × ¬ HasDots t
path-HasDots t = (path→Safe t, λ h. Safe→path t h.0 h.1)
