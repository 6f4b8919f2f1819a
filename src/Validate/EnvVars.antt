-- ===== src/Validate/EnvVars.antt =====
-- Which environment variables pkg/validate/validate.go accepts, and how it splits them.
use prisn.Base.{
  ℕ, zero, suc, ◌≤◌, ◌<◌, ◌⊎◌, inl, length, get_elem?, some_inj, ◌≡◌, ◌↔◌, refl, sym, Option, none,
  some, [], ◌∷◌, ◌++◌, true, false, arith, subst, ◌==◌, if◌then◌else◌,
}
use prisn.Base.Text.{Text}
use prisn.Validate.Names.{AllChars, all_match→AllChars, AllChars→all_match}
use prisn.Validate.{
  variable, cut, check_key, env_var, is_key_start, is_key_char, match_word, all_match, add_char,
}

-- The test that EnvVar makes of a key
abbrev Passes : Text → Type 0
Passes k = match_word is_key_start is_key_char k ≡ true

-- a to z, A to Z and _
abbrev pub IsKeyStart : ℕ → Type 0
IsKeyStart c = (97 ≤ c) × (c ≤ 122) ⊎ (65 ≤ c) × (c ≤ 90) ⊎ (c ≡ 95)

-- Those, and 0 to 9
abbrev pub IsKeyChar : ℕ → Type 0
IsKeyChar c = IsKeyStart c ⊎ (48 ≤ c) × (c ≤ 57)

-- At least one character, the first of them no digit
abbrev pub IsKey : Text → Type 0
IsKey k = (0 < length k) × ((c : ℕ) → get_elem? k 0 ≡ some c → IsKeyStart c) × AllChars IsKeyChar k

is_key_start→IsKeyStart : (c : ℕ) → is_key_start c ≡ true → IsKeyStart c
is_key_start→IsKeyStart c h = ground arith

IsKeyStart→is_key_start : (c : ℕ) → IsKeyStart c → is_key_start c ≡ true
IsKeyStart→is_key_start c h = ground arith

is_key_char→IsKeyChar : (c : ℕ) → is_key_char c ≡ true → IsKeyChar c
is_key_char→IsKeyChar c h = ground arith

IsKeyChar→is_key_char : (c : ℕ) → IsKeyChar c → is_key_char c ≡ true
IsKeyChar→is_key_char c h = ground arith

Passes→IsKey : (k : Text) → Passes k → IsKey k
unfolding match_word
Passes→IsKey [] h = absurd (ground (arith, h))
Passes→IsKey (c ∷ cs) h = (omega arith, λ x e. subst IsKeyStart (some_inj e) first, chars)
  where
    first : IsKeyStart c
    first = is_key_start→IsKeyStart c (ground (arith, h))

    rest : all_match is_key_char cs ≡ true
    rest = ground (arith, h)

    chars : AllChars IsKeyChar (c ∷ cs)
    chars zero x e = subst IsKeyChar (some_inj e) (inl first)
    chars (suc i) x e = all_match→AllChars is_key_char IsKeyChar is_key_char→IsKeyChar cs rest i x e

IsKey→Passes : (k : Text) → IsKey k → Passes k
unfolding match_word
IsKey→Passes [] (some_char, h, all) = absurd (omega (arith, some_char))
IsKey→Passes (c ∷ cs) (some_char, first, all) =
    let start = IsKeyStart→is_key_start c (first c refl) in
    let rest =
      AllChars→all_match is_key_char IsKeyChar IsKeyChar→is_key_char cs
        (λ i x e. all (suc i) x e) in
    ground (arith, start, rest)

-- The character does not stand in the text.
abbrev Without : ℕ → Text → Type 0
Without sep [] = Unit {0}
Without sep (c ∷ cs) = ((c == sep) ≡ false) × Without sep cs

cut-append : (sep : ℕ) (k v : Text) → Without sep k → cut sep (k ++ sep ∷ v) ≡ some (k, v)
unfolding cut
cut-append sep [] v h = ground arith
cut-append sep (c ∷ k) v (other, rest) = rw (other, cut-append sep k v rest) refl

cut_step :
    (sep c : ℕ) (cs k v : Text) (rest : Option (Text × Text))
    → ((j w : Text) → rest ≡ some (j, w) → cs ≡ j ++ sep ∷ w)
    → (if c == sep then some ([], cs) else add_char c rest) ≡ some (k, v)
    → c ∷ cs ≡ k ++ sep ∷ v
unfolding add_char
cut_step sep c cs k v none ih h = ground (arith, h)
cut_step sep c cs k v (some (j, w)) ih h = ground (arith, h, ih j w refl)

cut_inv : (sep : ℕ) (t k v : Text) → cut sep t ≡ some (k, v) → t ≡ k ++ sep ∷ v
unfolding cut
cut_inv sep [] k v h = ground (arith, h)
cut_inv sep (c ∷ cs) k v h = cut_step sep c cs k v (cut sep cs) (λ j w e. cut_inv sep cs j w e) h

-- What a key is not made of: "="
key_rest : (cs : Text) → all_match is_key_char cs ≡ true → Without 61 cs
unfolding all_match
key_rest [] h = tt
key_rest (c ∷ cs) h = (ground (arith, h), key_rest cs (ground (arith, h)))

Passes-Without : (k : Text) → Passes k → Without 61 k
unfolding match_word
Passes-Without [] h = tt
Passes-Without (c ∷ cs) h = (ground (arith, h), key_rest cs (ground (arith, h)))

check_key_inv :
    (o : Option (Text × Text)) (k v : Text)
    → check_key o ≡ variable k v
    → (o ≡ some (k, v)) × Passes k
unfolding check_key
check_key_inv none k v h = absurd (ground (arith, h))
check_key_inv (some ([], w)) k v h = absurd (ground (arith, h))
check_key_inv (some (c ∷ j, w)) k v h = (ground (arith, h), ground (arith, h))

env_var→split : (t k v : Text) → env_var t ≡ variable k v → (t ≡ k ++ 61 ∷ v) × Passes k
unfolding env_var
env_var→split [] k v h = absurd (ground (arith, h))
env_var→split (c ∷ cs) k v h =
    let (found, key) = check_key_inv (cut 61 (c ∷ cs)) k v h in (cut_inv 61 (c ∷ cs) k v found, key)

env_var-append : (k v : Text) → Passes k → env_var (k ++ 61 ∷ v) ≡ variable k v
unfolding env_var check_key match_word
env_var-append [] v key = absurd (ground (arith, key))
env_var-append (c ∷ k) v key = rw (cut-append 61 (c ∷ k) v (Passes-Without (c ∷ k) key), key) refl

-- EnvVar returns a key and a value exactly where the text is the key, "=" and the value, and the key is one or
-- more characters a-z, A-Z, 0-9 and "_", the first of them no digit. The value may hold any characters,
-- further "=" among them, and may be empty.
pub env_var-IsKey : (t k v : Text) → (env_var t ≡ variable k v) ↔ (t ≡ k ++ 61 ∷ v) × IsKey k
env_var-IsKey t k v = (
  λ h. let (e, key) = env_var→split t k v h in (e, Passes→IsKey k key),
  λ (e, key).
      subst (λ s. env_var s ≡ variable k v) (sym e) (env_var-append k v (IsKey→Passes k key)),
)
