-- ===== src/Raft/Log/Frame.antt =====
-- The bytes of raft.log, as `Append`, `rewrite` and `load` of pkg/raft/log.go write and read them: for
-- each entry its length in four bytes, the least first, and its JSON text. `marshal` and `unmarshal`
-- stand for `json.Marshal` and `json.Unmarshal`.
use prisn.Base.{
  ℕ, zero, suc, ◌+◌, ◌*◌, ◌/◌, ◌%◌, ◌^◌, ◌<◌, ◌≡◌, refl, ap, ◌∙◌, Option, none, some, List, [], ◌∷◌,
  ◌++◌, false, arith, ltb, if◌then◌else◌, length, take, drop, length-append,
}
use prisn.Raft.Types.{LogEntry}

pub data LoadError : Type 0 where
  read_length read_data unmarshal_entry out_of_fuel : LoadError

pub data Loaded : Type 0 where
  ok : List LogEntry → Loaded
  err : LoadError → Loaded

-- binary.Write(file, binary.LittleEndian, uint32(n))
unfoldable pub length_prefix : ℕ → List ℕ
length_prefix n = n % 256 ∷ n / 256 % 256 ∷ n / 65536 % 256 ∷ n / 16777216 % 256 ∷ []

push_entry : Option LogEntry → Loaded → Loaded
push_entry none rest = err unmarshal_entry
push_entry (some e) (ok es) = ok (e ∷ es)
push_entry (some e) (err x) = err x

module _ (marshal : LogEntry → List ℕ) where
  unfoldable pub write_frame : LogEntry → List ℕ
  unfolding length_prefix
  write_frame e = let bytes = marshal e in length_prefix (length bytes) ++ bytes

  unfoldable pub write_frames : List LogEntry → List ℕ
  unfolding write_frame
  write_frames [] = []
  write_frames (e ∷ es) = write_frame e ++ write_frames es

module _ (unmarshal : List ℕ → Option LogEntry) where
  -- Each round reads one frame; it takes at least four bytes.
  unfoldable pub load_frames : ℕ → List ℕ → Loaded
  unfolding push_entry
  load_frames zero bytes = err out_of_fuel
  load_frames (suc fuel) [] = ok []
  load_frames (suc fuel) (a ∷ b ∷ c ∷ d ∷ rest) =
      let n = a + 256 * b + 65536 * c + 16777216 * d in
      let following = push_entry (unmarshal (take n rest)) (load_frames fuel (drop n rest)) in
      if ltb (length rest) n then err read_data else following
  load_frames (suc fuel) (a ∷ rest) = err read_length

  abbrev pub load_file : List ℕ → Loaded
  load_file bytes = load_frames (suc (length bytes)) bytes

abbrev pub FramesFit : (LogEntry → List ℕ) → List LogEntry → Type 0
FramesFit marshal [] = Unit
FramesFit marshal (e ∷ es) = (length (marshal e) < 2 ^ 32) × FramesFit marshal es

prefix_value :
    (n : ℕ)
    → n < 2 ^ 32
    → n % 256 + 256 * (n / 256 % 256) + 65536 * (n / 65536 % 256) + 16777216 * (n / 16777216 % 256)
      ≡ n
prefix_value n h = omega arith

take-append_self : (xs ys : List ℕ) → take (length xs) (xs ++ ys) ≡ xs
take-append_self [] ys = refl
take-append_self (x ∷ xs) ys = ap (λ t. x ∷ t) (take-append_self xs ys)

drop-append_self : (xs ys : List ℕ) → drop (length xs) (xs ++ ys) ≡ ys
drop-append_self [] ys = refl
drop-append_self (x ∷ xs) ys = drop-append_self xs ys

not_short : (xs ys : List ℕ) → ltb (length (xs ++ ys)) (length xs) ≡ false
not_short xs ys = ground (arith, length-append xs ys)

module _ (marshal : LogEntry → List ℕ) (unmarshal : List ℕ → Option LogEntry)
    (json_round_trip : (e : LogEntry) → unmarshal (marshal e) ≡ some e) where
  -- one frame in front of anything
  load_frames-frame :
      (fuel : ℕ) (e : LogEntry) (rest : List ℕ)
      → length (marshal e) < 2 ^ 32
      → load_frames unmarshal (suc fuel) (write_frame marshal e ++ rest)
        ≡ push_entry (some e) (load_frames unmarshal fuel rest)
  unfolding load_frames write_frame
  load_frames-frame fuel e rest fits = rw (
    prefix_value (length (marshal e)) fits,
    not_short (marshal e) rest,
    take-append_self (marshal e) rest,
    drop-append_self (marshal e) rest,
    json_round_trip e,
  )

  load_frames-nil : (fuel : ℕ) → load_frames unmarshal (suc fuel) [] ≡ ok []
  unfolding load_frames
  load_frames-nil fuel = refl

  -- If the text of an entry reads back as the entry and each text's length fits its four bytes,
  -- reading what was written gives the entries, with any fuel above the number of bytes.
  pub load_frames-write_frames :
      (fuel : ℕ) (es : List LogEntry)
      → FramesFit marshal es
      → length (write_frames marshal es) < fuel
      → load_frames unmarshal fuel (write_frames marshal es) ≡ ok es
  unfolding write_frames push_entry
  load_frames-write_frames zero es fits enough = elim enough [ ]
  load_frames-write_frames (suc fuel) [] fits enough = load_frames-nil fuel
  load_frames-write_frames (suc fuel) (e ∷ es) fits enough =
      load_frames-frame fuel e (write_frames marshal es) fits.0
      ∙ ap (push_entry (some e)) (
          load_frames-write_frames fuel es fits.1
            (omega (arith, length-append (marshal e) (write_frames marshal es))))
