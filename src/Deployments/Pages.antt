-- ===== src/Deployments/Pages.antt =====
-- pkg/api/server.go: the pages of a list of deployments. What the query does not hold is the empty text.
use prisn.Base.{
  ℕ, zero, suc, ◌+◌, ◌-◌, ◌*◌, ◌≤◌, ◌≡◌, refl, sym, ap, inl, inr, Bool-cases, ltb→lt, length-drop,
  ◌∙◌, Option, none, some, List, [], ◌∷◌, ◌++◌, arith, ltb, if◌then◌else◌, String, length, take,
  drop,
}
use prisn.Base.Text.{Text}
use prisn.Base.Word.{int_lt}
use prisn.Deployments.{Server}
use prisn.Scheduler.Cron.{atoi}
use prisn.Store.{Deployment, list_deployments}

abbrev default_page_limit : ℕ
default_page_limit = 100

abbrev max_page_limit : ℕ
max_page_limit = 1000

unfoldable pub limit_of : Option ℕ → ℕ
limit_of none = default_page_limit
limit_of (some n) =
    if int_lt 0 n
    then (if int_lt max_page_limit n then max_page_limit else n)
    else default_page_limit

offset_of : Option ℕ → ℕ
offset_of none = 0
offset_of (some n) = if int_lt n 0 then 0 else n

-- The limit and the offset. An empty text is no number either.
unfoldable pub parse_pagination : (limit offset : Text) → ℕ × ℕ
unfolding limit_of offset_of
parse_pagination limit offset = (limit_of (atoi limit), offset_of (atoi offset))

-- deployments[offset:end]
unfoldable pub page {ℓ} : {A : Type ℓ} → (limit offset : ℕ) → List A → List A
page limit offset items =
    let start = if ltb (length items) offset then length items else offset in
    let end = if ltb (length items) (start + limit) then length items else start + limit in
    take (end - start) (drop start items)

unfoldable pub handle_list_deployments :
    (namespace deploy_type : String) → (limit offset : Text) → Server → List Deployment
unfolding parse_pagination page
handle_list_deployments namespace deploy_type limit offset s =
    let p = parse_pagination limit offset in
    page p.0 p.1 (list_deployments namespace deploy_type s.deployments)

limit_of-bounds : (n : Option ℕ) → (1 ≤ limit_of n) × (limit_of n ≤ 1000)
unfolding limit_of
limit_of-bounds none = (omega arith, omega arith)
limit_of-bounds (some n) = (ground arith, ground arith)

-- The pages that a client asks for one after the other, beginning at an offset
unfoldable pub pages {ℓ} : {A : Type ℓ} → (count limit offset : ℕ) → List A → List A
unfolding page
pages zero limit offset items = []
pages (suc n) limit offset items = page limit offset items ++ pages n limit (offset + limit) items

module _ {ℓ} {A : Type ℓ} where
  drop_beyond : (n : ℕ) (xs : List A) → length xs ≤ n → drop n xs ≡ []
  drop_beyond zero [] h = refl
  drop_beyond (suc n) [] h = refl
  drop_beyond zero (x ∷ xs) h = elim h [ ]
  drop_beyond (suc n) (x ∷ xs) h = drop_beyond n xs (omega arith)

  take_whole : (n : ℕ) (xs : List A) → length xs ≤ n → take n xs ≡ xs
  take_whole zero [] h = refl
  take_whole (suc n) [] h = refl
  take_whole zero (x ∷ xs) h = elim h [ ]
  take_whole (suc n) (x ∷ xs) h = ap (λ l. x ∷ l) (take_whole n xs (omega arith))

  take_nil : (n : ℕ) → take {A = A} n [] ≡ []
  take_nil zero = refl
  take_nil (suc n) = refl

  take-plus : (a b : ℕ) (xs : List A) → take a xs ++ take b (drop a xs) ≡ take (a + b) xs
  take-plus zero b xs = ap (λ n. take n xs) (omega arith)
  take-plus (suc a) b [] = take_nil b ∙ sym (take_nil (suc a + b))
  take-plus (suc a) b (x ∷ xs) =
      let e : suc a + b ≡ suc (a + b) = omega arith in rw e (ap (λ l. x ∷ l) (take-plus a b xs))

  drop-plus : (a b : ℕ) (xs : List A) → drop b (drop a xs) ≡ drop (a + b) xs
  drop-plus zero b xs = ap (λ n. drop n xs) (omega arith)
  drop-plus (suc a) b [] =
      drop_beyond b [] (omega arith) ∙ sym (drop_beyond (suc a + b) [] (omega arith))
  drop-plus (suc a) b (x ∷ xs) =
      let e : suc a + b ≡ suc (a + b) = omega arith in rw e (drop-plus a b xs)

  page_within :
      (limit offset : ℕ) (items : List A)
      → offset ≤ length items
      → take
          ((if ltb (length items) (offset + limit) then length items else offset + limit) - offset)
          (drop offset items)
        ≡ take limit (drop offset items)
  page_within limit offset items h = elim (Bool-cases (ltb (length items) (offset + limit))) [
    | inl short ↦
        let n = length-drop offset items in
        let lt = ltb→lt (length items) (offset + limit) short in
        rw short (
          take_whole (length items - offset) (drop offset items) (omega (arith, n))
          ∙ sym (take_whole limit (drop offset items) (omega (arith, n, lt))))
    | inr full ↦ rw full (ap (λ n. take n (drop offset items)) (omega arith))
  ]

  page_lem :
      (limit offset : ℕ) (items : List A) → page limit offset items ≡ take limit (drop offset items)
  unfolding page
  page_lem limit offset items = elim (Bool-cases (ltb (length items) offset)) [
    | inl beyond ↦
        let lt = ltb→lt (length items) offset beyond in
        rw
          (
            beyond,
            drop_beyond (length items) items (omega arith),
            drop_beyond offset items (omega (arith, lt)),
          )
          (take_nil _ ∙ sym (take_nil limit))
    | inr within ↦ rw within (page_within limit offset items (ground (arith, within)))
  ]

  pages_lem :
      (n limit offset : ℕ) (items : List A)
      → pages n limit offset items ≡ take (n * limit) (drop offset items)
  unfolding pages
  pages_lem zero limit offset items = let e : zero * limit ≡ zero = omega arith in rw e refl
  pages_lem (suc n) limit offset items =
      let e : suc n * limit ≡ limit + n * limit = omega arith in
      rw (page_lem limit offset items, pages_lem n limit (offset + limit) items, e)
        (ap (λ rest. take limit (drop offset items) ++ take (n * limit) rest)
            (sym (drop-plus offset limit items))
          ∙ take-plus limit (n * limit) (drop offset items))

-- A client that asks for one page after the other, from the first on, with the limit that the server has
-- made of its own, has every deployment of the list once and in the order of the list, as soon as its pages
-- hold so many. The limit is between 1 and 1000.
pub pages-list_deployments :
    (n : ℕ) (asked offset : Text) (items : List Deployment)
    → length items ≤ n * (parse_pagination asked offset).0
    → (pages n (parse_pagination asked offset).0 0 items ≡ items)
      × (1 ≤ (parse_pagination asked offset).0)
      × ((parse_pagination asked offset).0 ≤ 1000)
unfolding parse_pagination
pages-list_deployments n asked offset items h =
    let l = limit_of (atoi asked) in
    (
      pages_lem n l 0 items ∙ take_whole (n * l) items h,
      (limit_of-bounds (atoi asked)).0,
      (limit_of-bounds (atoi asked)).1,
    )
