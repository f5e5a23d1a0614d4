-- ===== src/App/Packages/Paging.antt =====
-- The pages of internal/app/packages.go.
use servora.Prelude.{
  Bool-cases, List, Text, [], ap, arith, atoi, drop, false, if◌then◌else◌, inl, inr, length, ltb,
  none, refl, some, suc, take, zero, ℕ, ◌*◌, ◌++◌, ◌+◌, ◌-◌, ◌<◌, ◌^◌, ◌∙◌, ◌∷◌, ◌≡◌, ◌≤◌,
}
use native.Mathlib.Nat.{mod-eq_of_lt, mul-le-mul}
use servora.Agent.Actions.Effects.{ℤ}
use servora.App.Packages.{page_params, page_start, page_slice, slice_of, is_negative}

-- The numbers of a page are in range, whatever the request says.
pub page_params_bounds :
    (atoi : Text → ℤ) (query : Text → Text)
    → let (page, per_page) = page_params atoi query in
      (1 ≤ page) × (1 ≤ per_page) × (per_page ≤ 500)
unfolding page_params
page_params_bounds atoi query = ground arith

drop-length : {A : Type 0} (xs : List A) → drop (length xs) xs ≡ []
unfolding drop
drop-length [] = refl
drop-length (x ∷ xs) = drop-length xs

drop-long : {A : Type 0} (n : ℕ) (xs : List A) → length xs ≤ n → drop n xs ≡ []
unfolding drop
drop-long zero [] h = refl
drop-long zero (x ∷ xs) h = absurd (omega arith)
drop-long (suc n) [] h = refl
drop-long (suc n) (x ∷ xs) h = drop-long n xs (omega arith)

take-short :
    {A : Type 0} (n : ℕ) (xs : List A)
    → take (if ltb n (length xs) then n else length xs) xs ≡ take n xs
unfolding take
take-short zero [] = refl
take-short zero (x ∷ xs) = ground arith
take-short (suc n) [] = ground arith
take-short (suc n) (x ∷ xs) = ground (arith, take-short n xs)

length-drop : {A : Type 0} (n : ℕ) (xs : List A) → length (drop n xs) ≡ length xs - n
unfolding drop
length-drop zero xs = omega arith
length-drop (suc n) [] = omega arith
length-drop (suc n) (x ∷ xs) = omega (arith, length-drop n xs)

take-zero : {A : Type 0} (xs : List A) → take 0 xs ≡ []
unfolding take
take-zero [] = refl
take-zero (x ∷ xs) = refl

take-nil : {A : Type 0} (n : ℕ) → take {A = A} n [] ≡ []
unfolding take
take-nil zero = refl
take-nil (suc n) = refl

slice_at :
    {A : Type 0} (raw per_page : ℕ) (xs : List A)
    → let start = if ltb (length xs) raw then length xs else raw in
      let stop = if ltb (start + per_page) (length xs) then start + per_page else length xs in
      take (stop - start) (drop start xs) ≡ take per_page (drop raw xs)
slice_at {A} raw per_page xs = elim (Bool-cases (ltb (length xs) raw)) [
  | inl beyond ↦
      rw (beyond, drop-length xs, drop-long raw xs (ground arith), take-nil {A = A} per_page)
        (take-nil _)
  | inr within ↦
      let number : (let stop =
              if ltb (raw + per_page) (length xs) then raw + per_page else length xs in
            stop - raw)
          ≡ (if ltb per_page (length (drop raw xs)) then per_page else length (drop raw xs)) =
        ground (arith, length-drop raw xs) in
      rw within (ap (λ n. take n (drop raw xs)) number ∙ take-short per_page (drop raw xs))
]

take-append_le :
    {A : Type 0} (n : ℕ) (xs ys : List A) → n ≤ length xs → take n (xs ++ ys) ≡ take n xs
unfolding take
take-append_le zero [] ys h = take-zero ys
take-append_le zero (x ∷ xs) ys h = refl
take-append_le (suc n) [] ys h = absurd (omega arith)
take-append_le (suc n) (x ∷ xs) ys h = ap (λ t. x ∷ t) (take-append_le n xs ys (omega arith))

-- What lies within the length does not depend on the spare capacity.
take-drop-append :
    {A : Type 0} (n m : ℕ) (xs ys : List A)
    → n + m ≤ length xs
    → take m (drop n (xs ++ ys)) ≡ take m (drop n xs)
unfolding drop
take-drop-append zero m xs ys h = take-append_le m xs ys (omega (arith, h))
take-drop-append (suc n) m [] ys h = absurd (omega arith)
take-drop-append (suc n) m (x ∷ xs) ys h = take-drop-append n m xs ys (omega arith)

-- A slice within the length is no panic.
slice_of-within :
    {A : Type 0} (start stop : ℕ) (items spare : List A)
    → is_negative start ≡ false
    → start ≤ stop
    → stop ≤ length items
    → slice_of start stop items spare ≡ some (take (stop - start) (drop start items))
unfolding slice_of
slice_of-within start stop items spare sign ordered within =
    ground (arith, take-drop-append start (stop - start) items spare (omega arith))

not_beyond :
    (raw size : ℕ)
    → is_negative raw ≡ false
    → is_negative (if ltb size raw then size else raw) ≡ false
unfolding is_negative
not_beyond raw size h = ground arith

-- Where (page - 1) * perPage, in 64 bits, is negative, the handler panics, and nowhere else: any
-- other page, one beyond the end as well, holds the items from that start on, perPage of them at
-- most, whatever the capacity of the list.
pub page_slice-eq :
    {A : Type 0} (page per_page : ℕ) (filtered spare : List A)
    → page_slice page per_page filtered spare ≡ (
        if is_negative (page_start page per_page)
        then none
        else some (take per_page (drop (page_start page per_page) filtered)))
unfolding page_slice
page_slice-eq page per_page filtered spare =
    let raw = page_start page per_page in
    let size = length filtered in
    let start = if ltb size raw then size else raw in
    let stop = if ltb (start + per_page) size then start + per_page else size in
    elim (Bool-cases (is_negative raw)) [
      | inl negative ↦ rw negative (unfold slice_of in ground arith)
      | inr sign ↦ rw sign (
          slice_of-within start stop filtered spare (not_beyond raw size sign) (ground arith)
            (ground arith)
          ∙ ap some (slice_at raw per_page filtered))
    ]

product_bound :
    (page per_page : ℕ) → per_page ≤ 500 → page ≤ 18446744073709552 → (page - 1) * per_page < 2 ^ 63
product_bound page per_page few small =
    let before : page - 1 ≤ 18446744073709551 = omega arith in
    let product : (page - 1) * per_page ≤ 18446744073709551 * 500 = mul-le-mul before few in
    omega (arith, product)

page_start-eq :
    (page per_page : ℕ)
    → (page - 1) * per_page < 2 ^ 63
    → page_start page per_page ≡ (page - 1) * per_page
unfolding page_start
page_start-eq page per_page h = mod-eq_of_lt (omega (arith, h))

no_overflow : (n : ℕ) → n < 2 ^ 63 → is_negative n ≡ false
unfolding is_negative
no_overflow n h = ground arith

-- Up to page 18 446 744 073 709 552, with at most 500 items on a page, nothing overflows and nothing
-- panics: page p holds the items from (p - 1) * perPage on, perPage of them at most.
pub page_slice_small :
    {A : Type 0} (page per_page : ℕ) (filtered spare : List A)
    → per_page ≤ 500
    → page ≤ 18446744073709552
    → page_slice page per_page filtered spare
      ≡ some (take per_page (drop ((page - 1) * per_page) filtered))
page_slice_small page per_page filtered spare few small =
    let bound = product_bound page per_page few small in
    page_slice-eq page per_page filtered spare
    ∙ rw (page_start-eq page per_page bound, no_overflow ((page - 1) * per_page) bound) refl
