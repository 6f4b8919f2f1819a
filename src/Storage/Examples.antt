-- ===== src/Storage/Examples.antt =====
-- A cache of three deployments, and the theorems of pkg/storage at it.
use mathlib.Core.List.{Permᴰ}
use mathlib.Core.List.Permᴰ as Permutation
use prisn.Base.{
  ℕ, ◌+◌, ◌*◌, ◌^◌, ◌<◌, ◌≡◌, refl, ap, ◌∙◌, sym, subst, Option, none, some, some_inj, List, [],
  ◌∷◌, Bool, true, false, String, arith,
}
use prisn.Storage.{
  State, cold, warm, hot, CacheEntry, Cache, Pop, Ensured, room, full, ensure_space, PrimeRequest,
  Primed, primed, prime_warm, get_state,
}
use prisn.Storage.Space.{IsAccounted, IsPop, IsEnsured, ensure_space-IsEnsured}
use prisn.Base.{◌++◌}
use prisn.Base.Text.{codes}
use prisn.Storage.Archive.{
  ArchivedFile, write_uint32, write_archive, extracted, read_path, extract_warm,
  extract_warm-write_archive,
}
use prisn.Storage.Priming.{IsPrimed, prime_warm-IsPrimed}

-- A queue that gives out its first entry.
abbrev first_out : Pop
first_out [] = none
first_out (e ∷ es) = some (e, es)

first_out-takes :
    (q rest : List CacheEntry) (e : CacheEntry) → first_out q ≡ some (e, rest) → Permᴰ q (e ∷ rest)
first_out-takes [] rest e h = absurd cc
first_out-takes (x ∷ xs) rest e h =
    let same : (x, xs) ≡ (e, rest) = some_inj h in
    subst (λ p. Permᴰ (x ∷ xs) (p.0 ∷ p.1)) same (Permutation.refl (x ∷ xs))

first_out-finds : (q : List CacheEntry) → first_out q ≡ none → q ≡ []
first_out-finds [] h = refl
first_out-finds (x ∷ xs) h = absurd cc

first_out-IsPop : IsPop first_out
first_out-IsPop = record { takes = first_out-takes; finds = first_out-finds }

abbrev entry : String → ℕ → Bool → CacheEntry
entry key size assigned = record {
  key = key;
  fingerprint = "f";
  state = warm;
  size = size;
  last_access = 0;
  access_count = 0;
  assigned_here = assigned;
}

abbrev three : Cache
three = record {
  max_size = 1000;
  current_size = 900;
  entries =
      ("a", entry "a" 300 false) ∷ ("b", entry "b" 300 true) ∷ ("c", entry "c" 300 false) ∷ [];
  queue = entry "a" 300 false ∷ entry "b" 300 true ∷ entry "c" 300 false ∷ [];
}

three-IsAccounted : IsAccounted three
three-IsAccounted = record { counted = refl; bounded = omega arith; max_bounded = omega arith }

-- "a" goes, and then there is room
one_goes :
    ensure_space first_out 4 350 three
    ≡ room (record {
      max_size = 1000;
      current_size = 600;
      entries = ("b", entry "b" 300 true) ∷ ("c", entry "c" 300 false) ∷ [];
      queue = entry "b" 300 true ∷ entry "c" 300 false ∷ [];
    })
unfolding ensure_space prisn.Storage.is_short prisn.Storage.evict prisn.Base.Dict.erase
one_goes = refl

ensure_space-IsEnsured_example : IsEnsured 500 three (ensure_space first_out 4 500 three)
ensure_space-IsEnsured_example =
    ensure_space-IsEnsured first_out 4 500 three first_out-IsPop three-IsAccounted (omega arith)
      (omega arith)

abbrev request : PrimeRequest
request = record { key = "d"; fingerprint = "g"; estimate = 350; archive = some 120; time = 7 }

archive_fits : (size : ℕ) → some 120 ≡ some size → 900 + size < 2 ^ 62
archive_fits size h = let same : 120 ≡ size = some_inj h in omega (arith, same)

prime_warm-IsPrimed_example : IsPrimed request (prime_warm first_out 4 request three)
prime_warm-IsPrimed_example =
    prime_warm-IsPrimed first_out 4 request three first_out-IsPop three-IsAccounted (omega arith)
      archive_fits (omega arith)

-- nothing is left, and there is still no room
too_large :
    ensure_space first_out 2 5000
      (record three { queue = entry "a" 300 false ∷ []; current_size = 300; entries = [] })
    ≡ room (record { max_size = 1000; current_size = 0; entries = []; queue = [] })
unfolding ensure_space prisn.Storage.is_short prisn.Storage.evict prisn.Base.Dict.erase
too_large = refl

abbrev two_files : List ArchivedFile
two_files =
    record { path = codes "main.py"; contents = 1 ∷ 2 ∷ 3 ∷ [] }
    ∷ record { path = codes "lib/x.py"; contents = [] }
    ∷ []

extract_warm-write_archive_example : extract_warm 3 (write_archive two_files) ≡ extracted two_files
extract_warm-write_archive_example =
    extract_warm-write_archive two_files 3
      (omega arith, omega arith, (omega arith, omega arith, tt)) (omega arith)

truncated : extract_warm 3 (write_uint32 7 ++ codes "main") ≡ read_path
unfolding extract_warm write_uint32
truncated = refl
