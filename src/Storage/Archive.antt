-- ===== src/Storage/Archive.antt =====
-- The format of a warm archive in pkg/storage/cache.go, behind the compressor: for each file the length
-- of its path in four bytes, the path, its size in eight bytes and its contents. A file does not change
-- while it is copied.
use prisn.Base.{
  ℕ, zero, suc, ◌+◌, ◌*◌, ◌/◌, ◌%◌, ◌^◌, ◌≤◌, ◌<◌, ◌≡◌, refl, ap, ◌∙◌, sym, List, [], ◌∷◌, ◌++◌,
  false, ltb, if◌then◌else◌, length, take, drop, length-append, arith,
}
use prisn.Base.Word.{is_negative}
use prisn.Base.Text.{Text}

pub record ArchivedFile : Type 0 where
  pub path : Text
  pub contents : List ℕ

-- Byte i is byte(v >> (i * 8)).
unfoldable pub write_bytes : ℕ → ℕ → List ℕ
write_bytes zero v = []
write_bytes (suc n) v = v % 256 ∷ write_bytes n (v / 256)

unfoldable pub write_uint32 : ℕ → List ℕ
unfolding write_bytes
write_uint32 v = write_bytes 4 v

unfoldable pub write_uint64 : ℕ → List ℕ
unfolding write_bytes
write_uint64 v = write_bytes 8 v

-- The walk of createWarmArchive
unfoldable pub write_archive : List ArchivedFile → List ℕ
unfolding write_uint32 write_uint64
write_archive [] = []
write_archive (f ∷ fs) =
    write_uint32 (length f.path % 2 ^ 32)
    ++ (f.path ++ (write_uint64 (length f.contents % 2 ^ 64) ++ (f.contents ++ write_archive fs)))

-- What io.ReadFull tells a reader of a number.
pub data ReadNumber : Type 0 where
  at_end cut_short : ReadNumber
  number : ℕ → List ℕ → ReadNumber

unfoldable pub value_of : List ℕ → ℕ
value_of [] = 0
value_of (b ∷ bs) = b + 256 * value_of bs

unfoldable pub read_number : ℕ → List ℕ → ReadNumber
unfolding value_of
read_number n [] = at_end
read_number n (b ∷ bs) =
    if ltb (length (b ∷ bs)) n
    then cut_short
    else number (value_of (take n (b ∷ bs))) (drop n (b ∷ bs))

unfoldable pub read_uint32 : List ℕ → ReadNumber
unfolding read_number
read_uint32 bytes = read_number 4 bytes

unfoldable pub read_uint64 : List ℕ → ReadNumber
unfolding read_number
read_uint64 bytes = read_number 8 bytes

pub data Extracted : Type 0 where
  extracted : List ArchivedFile → Extracted
  read_path_length read_path read_size copy_content out_of_fuel : Extracted

add_file : ArchivedFile → Extracted → Extracted
add_file f (extracted fs) = extracted (f ∷ fs)
add_file f e = e

-- io.CopyN copies nothing for a negative count.
abbrev pub count_of : ℕ → ℕ
count_of size = if is_negative size then 0 else size

-- The contents of a file, once its size has been asked for, and what comes after it.
read_contents : Text → (List ℕ → Extracted) → ReadNumber → Extracted
unfolding add_file
read_contents path later at_end = read_size
read_contents path later cut_short = read_size
read_contents path later (number size content) =
    if ltb (length content) (count_of size)
    then copy_content
    else add_file (record { path = path; contents = take (count_of size) content })
        (later (drop (count_of size) content))

-- A file, once the length of its path has been asked for
read_file : (List ℕ → Extracted) → ReadNumber → Extracted
unfolding read_contents read_uint64
read_file later at_end = extracted []
read_file later cut_short = read_path_length
read_file later (number n rest) =
    if ltb (length rest) n
    then read_path
    else read_contents (take n rest) later (read_uint64 (drop n rest))

-- The loop of extractWarm; a round reads a file.
unfoldable pub extract_warm : ℕ → List ℕ → Extracted
unfolding read_uint32 read_file
extract_warm zero bytes = out_of_fuel
extract_warm (suc fuel) bytes = read_file (extract_warm fuel) (read_uint32 bytes)

length-write_bytes : (n v : ℕ) → length (write_bytes n v) ≡ n
unfolding write_bytes
length-write_bytes zero v = refl
length-write_bytes (suc n) v = ap suc (length-write_bytes n (v / 256))

value_of-write_bytes : (n v : ℕ) → v < 256 ^ n → value_of (write_bytes n v) ≡ v
unfolding write_bytes value_of
value_of-write_bytes zero v h = omega (arith, h)
value_of-write_bytes (suc n) v h =
    let smaller : v / 256 < 256 ^ n = omega (arith, h) in
    omega (arith, value_of-write_bytes n (v / 256) smaller)

take-append : {A : Type 0} (xs ys : List A) → take (length xs) (xs ++ ys) ≡ xs
take-append [] ys = refl
take-append (x ∷ xs) ys = ap (λ zs. x ∷ zs) (take-append xs ys)

drop-append : {A : Type 0} (xs ys : List A) → drop (length xs) (xs ++ ys) ≡ ys
drop-append [] ys = refl
drop-append (x ∷ xs) ys = drop-append xs ys

read_number-append :
    (w rest : List ℕ) → 1 ≤ length w → read_number (length w) (w ++ rest) ≡ number (value_of w) rest
unfolding read_number
read_number-append [] rest h = absurd (omega arith)
read_number-append (b ∷ bs) rest h =
    let long : ltb (length (b ∷ bs ++ rest)) (length (b ∷ bs)) ≡ false =
      ground (arith, length-append bs rest) in
    rw (long, take-append bs rest, drop-append bs rest) refl

read_number-write_bytes :
    (n v : ℕ) (rest : List ℕ)
    → v < 256 ^ suc n
    → read_number (suc n) (write_bytes (suc n) v ++ rest) ≡ number v rest
read_number-write_bytes n v rest h =
    let len = length-write_bytes (suc n) v in
    ap (λ k. read_number k (write_bytes (suc n) v ++ rest)) (sym len)
    ∙ read_number-append (write_bytes (suc n) v) rest (omega (arith, len))
    ∙ ap (λ w. number w rest) (value_of-write_bytes (suc n) v h)

-- What fits the numbers of the format.
abbrev pub FilesFit : List ArchivedFile → Type 0
FilesFit [] = Unit
FilesFit (f ∷ fs) = (length f.path < 2 ^ 32) × (length f.contents < 2 ^ 63) × FilesFit fs

read_contents-write :
    (path contents rest : List ℕ) (later : List ℕ → Extracted)
    → length contents < 2 ^ 63
    → read_contents path later
        (read_uint64 (write_uint64 (length contents % 2 ^ 64) ++ (contents ++ rest)))
      ≡ add_file (record { path = path; contents = contents }) (later rest)
unfolding read_contents read_uint64 write_uint64
read_contents-write path contents rest later small =
    let same : length contents % 2 ^ 64 ≡ length contents = omega (arith, small) in
    let e : read_number 8 (write_bytes 8 (length contents % 2 ^ 64) ++ (contents ++ rest))
        ≡ number (length contents) (contents ++ rest) =
      ap (λ v. read_number 8 (write_bytes 8 v ++ (contents ++ rest))) same
      ∙ read_number-write_bytes 7 (length contents) (contents ++ rest) (omega (arith, small)) in
    let count : count_of (length contents) ≡ length contents = ground (arith, small) in
    let long : ltb (length (contents ++ rest)) (length contents) ≡ false =
      ground (arith, length-append contents rest) in
    rw (e, read_contents)
      (rw (count, long) (rw (take-append contents rest, drop-append contents rest) refl))

read_file-write :
    (f : ArchivedFile) (rest : List ℕ) (later : List ℕ → Extracted)
    → length f.path < 2 ^ 32
    → length f.contents < 2 ^ 63
    → read_file later (
        read_uint32 (
          write_uint32 (length f.path % 2 ^ 32)
          ++ (f.path ++ (write_uint64 (length f.contents % 2 ^ 64) ++ (f.contents ++ rest)))))
      ≡ add_file f (later rest)
unfolding read_file read_uint32 write_uint32
read_file-write f rest later small_path small =
    let tail = write_uint64 (length f.contents % 2 ^ 64) ++ (f.contents ++ rest) in
    let same : length f.path % 2 ^ 32 ≡ length f.path = omega (arith, small_path) in
    let e : read_number 4 (write_bytes 4 (length f.path % 2 ^ 32) ++ (f.path ++ tail))
        ≡ number (length f.path) (f.path ++ tail) =
      ap (λ v. read_number 4 (write_bytes 4 v ++ (f.path ++ tail))) same
      ∙ read_number-write_bytes 3 (length f.path) (f.path ++ tail) (omega (arith, small_path)) in
    let long : ltb (length (f.path ++ tail)) (length f.path) ≡ false =
      ground (arith, length-append f.path tail) in
    ap (read_file later) e
    ∙ rw (long, take-append f.path tail, drop-append f.path tail)
        (read_contents-write f.path f.contents rest later small)

-- Where the lengths of paths fit four bytes and the sizes an int64, extracting what was archived, with
-- any fuel above the number of files, gives the files back, in order.
pub extract_warm-write_archive :
    (fs : List ArchivedFile) (fuel : ℕ)
    → FilesFit fs
    → length fs < fuel
    → extract_warm fuel (write_archive fs) ≡ extracted fs
unfolding extract_warm write_archive
extract_warm-write_archive fs zero fit enough = absurd (omega arith)
extract_warm-write_archive [] (suc fuel) fit enough =
    unfold read_file read_uint32 read_number in refl
extract_warm-write_archive (f ∷ fs) (suc fuel) (small_path, small, fit) enough =
    read_file-write f (write_archive fs) (extract_warm fuel) small_path small
    ∙ ap (add_file f) (extract_warm-write_archive fs fuel fit (omega (arith, enough)))
    ∙ unfold add_file in refl
