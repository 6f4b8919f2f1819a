-- ===== src/Base/Text.antt =====
-- Go's strings where a byte of them is looked at: the list of their bytes, all of them ASCII.
use Prim.Native.Char.{code}
use prisn.Base.{
  ℕ, ◌+◌, ◌≡◌, refl, Bool, true, false, ◌&&◌, leb, ◌==◌, if◌then◌else◌, List, [], ◌∷◌, ◌++◌, String,
  arith,
}

abbrev pub Text : Type 0
Text = List ℕ

-- The code points of a text.
abbrev pub codes : String → Text
codes String.[] = []
codes (String.◌∷◌ c s) = code c ∷ codes s

unfoldable pub same_text : Text → Text → Bool
same_text [] [] = true
same_text (x ∷ xs) (y ∷ ys) = x == y && same_text xs ys
same_text _ _ = false

-- strings.HasPrefix
unfoldable pub has_prefix : (text prefix : Text) → Bool
has_prefix text [] = true
has_prefix [] (y ∷ ys) = false
has_prefix (x ∷ xs) (y ∷ ys) = x == y && has_prefix xs ys

-- strings.ToLower
unfoldable pub to_lower : Text → Text
to_lower [] = []
to_lower (c ∷ cs) = (if leb b'A' c && leb c b'Z' then c + 32 else c) ∷ to_lower cs

pub same_text_refl : (x : Text) → same_text x x ≡ true
unfolding same_text
same_text_refl [] = refl
same_text_refl (x ∷ xs) = ground (arith, same_text_refl xs)

pub same_text→eq : (x y : Text) → same_text x y ≡ true → x ≡ y
unfolding same_text
same_text→eq [] [] h = refl
same_text→eq (x ∷ xs) (y ∷ ys) h = ground (arith, same_text→eq xs ys)
same_text→eq [] (y ∷ ys) h = ground arith
same_text→eq (x ∷ xs) [] h = ground arith

pub has_prefix-append : (p s : Text) → has_prefix (p ++ s) p ≡ true
unfolding has_prefix
has_prefix-append [] s = refl
has_prefix-append (x ∷ p) s = ground (arith, has_prefix-append p s)
