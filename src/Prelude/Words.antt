-- ===== src/Prelude/Words.antt =====
-- The package strings on white space: Fields, TrimSpace and Join. A space is one of unicode.IsSpace
-- in UTF-8.
use Prim.Native.Nat.{ℕ, zero, suc}
use mathlib.Core.Path.{◌≡◌, refl}
use mathlib.Core.Bool.{Bool, true, false, ◌&&◌, ◌||◌}
use mathlib.Core.List.{List, [], ◌∷◌, ◌++◌, append_assoc, append-nil, cons-ne-nil}
use mathlib.Core.Path.{◌∙◌, ap, sym}
use mathlib.Core.Logic.{◌≢◌}
use native.Mathlib.Omega.{arith}
use servora.Prelude.Tests.{ltb, leb, nat_beq, if◌then◌else◌, &&-eq-true}
use servora.Prelude.Lists.{all_of, All}
use servora.Prelude.Texts.{Text}

-- How many bytes the space takes that the text starts with; 0 where there is none.
unfoldable pub space_width : Text → ℕ
space_width [] = 0
space_width (a ∷ []) = if nat_beq a b' ' || (leb 9 a && leb a 13) then 1 else 0
space_width (a ∷ b ∷ []) =
    if nat_beq a b' ' || (leb 9 a && leb a 13)
    then 1
    else if nat_beq a 0xc2 && (nat_beq b 0x85 || nat_beq b 0xa0)
    then 2
    else 0
space_width (a ∷ b ∷ c ∷ s) =
    if nat_beq a b' ' || (leb 9 a && leb a 13)
    then 1
    else if nat_beq a 0xc2 && (nat_beq b 0x85 || nat_beq b 0xa0)
    then 2
    else if (nat_beq a 0xe1 && nat_beq b 0x9a && nat_beq c 0x80)
        || (nat_beq a 0xe2
            && nat_beq b 0x80
            && ((leb 0x80 c && leb c 0x8a) || nat_beq c 0xa8 || nat_beq c 0xa9 || nat_beq c 0xaf))
        || (nat_beq a 0xe2 && nat_beq b 0x81 && nat_beq c 0x9f)
        || (nat_beq a 0xe3 && nat_beq b 0x80 && nat_beq c 0x80)
    then 3
    else 0

-- A word that is complete, if it has a byte.
abbrev flush : Text → List Text → List Text
flush [] words = words
flush (c ∷ word) words = (c ∷ word) ∷ words

-- By the width of the space at the front.
abbrev by_width {ℓ} : {A : Type ℓ} → ℕ → (no_space : A) → (space : ℕ → A) → A
by_width zero no_space space = no_space
by_width (suc n) no_space space = space n

-- The rest of the text, after `skip` bytes of a space that is passed already.
unfoldable words_from : (skip : ℕ) (word : Text) → Text → List Text
unfolding space_width
words_from skip word [] = flush word []
words_from (suc skip) word (c ∷ s) = words_from skip word s
words_from zero word (c ∷ s) =
    by_width (space_width (c ∷ s)) (words_from 0 (word ++ c ∷ []) s)
      (λ n. flush word (words_from n [] s))

-- strings.Fields
unfoldable pub fields : Text → List Text
unfolding words_from
fields s = words_from 0 [] s

unfoldable trim_left_from : (skip : ℕ) → Text → Text
unfolding space_width
trim_left_from skip [] = []
trim_left_from (suc skip) (c ∷ s) = trim_left_from skip s
trim_left_from zero (c ∷ s) = by_width (space_width (c ∷ s)) (c ∷ s) (λ n. trim_left_from n s)

-- "" where the trimmed text is "".
abbrev unless_blank : (trimmed text : Text) → Text
unless_blank [] text = []
unless_blank (c ∷ s) text = text

unfoldable trim_right : Text → Text
unfolding trim_left_from
trim_right [] = []
trim_right (c ∷ s) = unless_blank (trim_left_from 0 (c ∷ s)) (c ∷ trim_right s)

-- strings.TrimSpace
unfoldable pub trim_spaces : Text → Text
unfolding trim_left_from trim_right
trim_spaces s = trim_right (trim_left_from 0 s)

-- strings.Join with a space.
unfoldable pub join_words : List Text → Text
join_words [] = []
join_words (word ∷ []) = word
join_words (word ∷ next ∷ words) = word ++ b' ' ∷ join_words (next ∷ words)

-- No space, in ASCII.
unfoldable pub is_graphic : ℕ → Bool
is_graphic c = ltb 32 c && ltb c 127

-- A word of ASCII that is not empty.
unfoldable pub is_word : Text → Bool
is_word [] = false
is_word (c ∷ s) = is_graphic c && all_of is_graphic s

graphic_width : (c : ℕ) (s : Text) → is_graphic c ≡ true → space_width (c ∷ s) ≡ 0
unfolding is_graphic space_width
graphic_width c [] h = ground arith
graphic_width c (b ∷ []) h = ground arith
graphic_width c (b ∷ d ∷ s) h = ground arith

-- The bytes of a word join the current word.
words_from-word :
    (word s rest : Text)
    → all_of is_graphic s ≡ true
    → words_from 0 word (s ++ rest) ≡ words_from 0 (word ++ s) rest
unfolding words_from all_of
words_from-word word [] rest h = rw append-nil refl
words_from-word word (c ∷ s) rest h =
    let (here, there) = &&-eq-true (is_graphic c) (all_of is_graphic s) h in
    ap
      (λ w.
        by_width w (words_from 0 (word ++ c ∷ []) (s ++ rest))
          (λ n. flush word (words_from n [] (s ++ rest))))
      (graphic_width c (s ++ rest) here)
    ∙ words_from-word (word ++ c ∷ []) s rest there
    ∙ ap (λ w. words_from 0 w rest) (append_assoc word (c ∷ []) s)

space_first : (s : Text) → space_width (b' ' ∷ s) ≡ 1
unfolding space_width
space_first [] = refl
space_first (b ∷ []) = refl
space_first (b ∷ c ∷ s) = refl

-- A word, a space and the rest.
words_from-cons :
    (word rest : Text)
    → is_word word ≡ true
    → words_from 0 [] (word ++ b' ' ∷ rest) ≡ word ∷ words_from 0 [] rest
unfolding is_word
words_from-cons [] rest h = ground arith
words_from-cons (c ∷ s) rest h =
    words_from-word [] (c ∷ s) (b' ' ∷ rest) (unfold all_of in h)
    ∙ (unfold words_from in
        ap
          (λ w.
            by_width w (words_from 0 ((c ∷ s) ++ b' ' ∷ []) rest)
              (λ n. (c ∷ s) ∷ words_from n [] rest))
          (space_first rest))

words_from-last : (word : Text) → is_word word ≡ true → words_from 0 [] word ≡ word ∷ []
unfolding is_word
words_from-last [] h = ground arith
words_from-last (c ∷ s) h =
    ap (words_from 0 []) (sym (append-nil (c ∷ s)))
    ∙ words_from-word [] (c ∷ s) [] (unfold all_of in h)
    ∙ (unfold words_from in refl)

-- Words of ASCII, joined with spaces, are found again.
pub fields-join_words :
    (words : List Text) → All (λ w. is_word w ≡ true) words → fields (join_words words) ≡ words
unfolding fields join_words
fields-join_words [] h = unfold words_from in refl
fields-join_words (word ∷ []) h = words_from-last word h.0
fields-join_words (word ∷ next ∷ words) h =
    words_from-cons word (join_words (next ∷ words)) h.0
    ∙ ap (λ ws. word ∷ ws) (fields-join_words (next ∷ words) h.1)

-- A text that TrimSpace does not shorten at its end, and that is not blank.
abbrev IsTrimmed : Text → Type 0
IsTrimmed s = (trim_right s ≡ s) × (trim_left_from 0 s ≢ [])

left_graphic : (c : ℕ) (s : Text) → is_graphic c ≡ true → trim_left_from 0 (c ∷ s) ≡ c ∷ s
unfolding trim_left_from
left_graphic c s h = ap (λ w. by_width w (c ∷ s) (λ n. trim_left_from n s)) (graphic_width c s h)

left_space : (s : Text) → trim_left_from 0 (b' ' ∷ s) ≡ trim_left_from 0 s
left_space s =
    unfold trim_left_from in
    ap (λ w. by_width w (b' ' ∷ s) (λ n. trim_left_from n s)) (space_first s)

not_blank : (trimmed text : Text) → trimmed ≢ [] → unless_blank trimmed text ≡ text
not_blank [] text h = absurd (h refl)
not_blank (c ∷ s) text h = refl

IsTrimmed-cons :
    (c : ℕ) (s : Text) → trim_left_from 0 (c ∷ s) ≢ [] → trim_right s ≡ s → IsTrimmed (c ∷ s)
unfolding trim_right
IsTrimmed-cons c s h e =
    (not_blank (trim_left_from 0 (c ∷ s)) (c ∷ trim_right s) h ∙ ap (λ t. c ∷ t) e, h)

IsTrimmed-graphic : (c : ℕ) (s : Text) → is_graphic c ≡ true → trim_right s ≡ s → IsTrimmed (c ∷ s)
IsTrimmed-graphic c s h e =
    IsTrimmed-cons c s (λ blank. cons-ne-nil c s (sym (left_graphic c s h) ∙ blank)) e

IsTrimmed-word :
    (s rest : Text)
    → all_of is_graphic s ≡ true
    → trim_right rest ≡ rest
    → trim_right (s ++ rest) ≡ s ++ rest
unfolding all_of
IsTrimmed-word [] rest h e = e
IsTrimmed-word (c ∷ s) rest h e =
    let (here, there) = &&-eq-true (is_graphic c) (all_of is_graphic s) h in
    (IsTrimmed-graphic c (s ++ rest) here (IsTrimmed-word s rest there e)).0

IsTrimmed-front :
    (word rest : Text) → is_word word ≡ true → trim_right rest ≡ rest → IsTrimmed (word ++ rest)
unfolding is_word
IsTrimmed-front [] rest h e = ground arith
IsTrimmed-front (c ∷ s) rest h e =
    let (here, there) = &&-eq-true (is_graphic c) (all_of is_graphic s) h in
    IsTrimmed-graphic c (s ++ rest) here (IsTrimmed-word s rest there e)

IsTrimmed-join_words :
    (word : Text) (words : List Text)
    → All (λ w. is_word w ≡ true) (word ∷ words)
    → IsTrimmed (join_words (word ∷ words))
unfolding join_words
IsTrimmed-join_words word [] h =
    rw (← append-nil word) (IsTrimmed-front word [] h.0 (unfold trim_right in refl))
IsTrimmed-join_words word (next ∷ words) h =
    let rest = IsTrimmed-join_words next words h.1 in
    IsTrimmed-front word (b' ' ∷ join_words (next ∷ words)) h.0 (
      (IsTrimmed-cons b' ' (join_words (next ∷ words))
        (λ blank. rest.1 (sym (left_space (join_words (next ∷ words))) ∙ blank)) rest.0).0)

left_join_words :
    (word : Text) (words : List Text)
    → is_word word ≡ true
    → trim_left_from 0 (join_words (word ∷ words)) ≡ join_words (word ∷ words)
unfolding join_words is_word
left_join_words [] words h = ground arith
left_join_words (c ∷ s) [] h =
    left_graphic c s (&&-eq-true (is_graphic c) (all_of is_graphic s) h).0
left_join_words (c ∷ s) (next ∷ words) h =
    left_graphic c _ (&&-eq-true (is_graphic c) (all_of is_graphic s) h).0

pub trim_spaces-join_words :
    (word : Text) (words : List Text)
    → All (λ w. is_word w ≡ true) (word ∷ words)
    → trim_spaces (join_words (word ∷ words)) ≡ join_words (word ∷ words)
unfolding trim_spaces
trim_spaces-join_words word words h =
    ap trim_right (left_join_words word words h.0) ∙ (IsTrimmed-join_words word words h).0
