-- ===== src/Prelude/Decimals.antt =====
-- strconv: Itoa of a number that is not negative, Atoi, ParseBool and FormatBool.
use Prim.Native.Nat.{ℕ, zero, suc, ◌+◌, ◌-◌, ◌*◌, ◌/◌, ◌%◌, ◌^◌, ◌<◌}
use mathlib.Core.Path.{◌≡◌, refl}
use mathlib.Core.Bool.{Bool, true, false, ◌||◌}
use mathlib.Core.List.{[], ◌∷◌}
use mathlib.Core.Option.{Option, none, some}
use native.Mathlib.Omega.{arith}
use servora.Prelude.Tests.{ltb, leb, nat_beq, if◌then◌else◌, ◌==◌}
use servora.Prelude.Texts.{Text, bytes, text_beq, text_eq, is_digit}

-- The digits of n in front of `out`; the fuel is more than n.
unfoldable print_from : (fuel : ℕ) → ℕ → Text → Text
print_from zero n out = out
print_from (suc fuel) n out = elim (ltb n 10) [
  | true ↦ (b'0' + n) ∷ out
  | false ↦ print_from fuel (n / 10) ((b'0' + n % 10) ∷ out)
]

unfoldable pub itoa : ℕ → Text
unfolding print_from
itoa n = print_from (suc n) n []

-- The value of digits after a number that is read already; `none` for another character.
unfoldable pub scan_digits : Text → ℕ → Option ℕ
scan_digits [] n = some n
scan_digits (c ∷ s) n =
    let rest = scan_digits s (n * 10 + (c - b'0')) in if is_digit c then rest else none

-- `none` is a syntax error or a value out of range. The sign of a value is not kept, so a negative
-- one is 0, which the callers treat alike: they want at least 1.
abbrev in_range : (limit : ℕ) → Option ℕ → Option ℕ
in_range limit none = none
in_range limit (some n) = if leb n limit then some n else none

abbrev nothing_below : Option ℕ → Option ℕ
nothing_below none = none
nothing_below (some n) = some 0

unfoldable unsigned : (limit : ℕ) → Text → Option ℕ
unsigned limit [] = none
unsigned limit (c ∷ s) = in_range limit (scan_digits (c ∷ s) 0)

unfoldable pub atoi : Text → Option ℕ
unfolding unsigned
atoi [] = none
atoi (c ∷ s) =
    if nat_beq c b'+'
    then unsigned (2 ^ 63 - 1) s
    else if nat_beq c b'-'
    then nothing_below (unsigned (2 ^ 63) s)
    else unsigned (2 ^ 63 - 1) (c ∷ s)

unfoldable pub format_bool : Bool → Text
format_bool true = bytes "true"
format_bool false = bytes "false"

unfoldable pub parse_bool : Text → Option Bool
parse_bool s =
    if s == bytes "1"
      || s == bytes "t"
      || s == bytes "T"
      || s == bytes "TRUE"
      || s == bytes "true"
      || s == bytes "True"
    then some true
    else if s == bytes "0"
        || s == bytes "f"
        || s == bytes "F"
        || s == bytes "FALSE"
        || s == bytes "false"
        || s == bytes "False"
    then some false
    else none

-- Reading what `print_from` leaves is reading `out` after n.
scan_digits-print_from :
    (fuel n : ℕ) (out : Text) → n < fuel → scan_digits (print_from fuel n out) 0 ≡ scan_digits out n
unfolding print_from scan_digits is_digit
scan_digits-print_from zero n out h = absurd (omega arith)
scan_digits-print_from (suc fuel) n out h =
    ground (arith, scan_digits-print_from fuel (n / 10) ((b'0' + n % 10) ∷ out))

-- The text starts with a digit.
unfoldable starts_with_digit : Text → Bool
starts_with_digit [] = false
starts_with_digit (c ∷ s) = is_digit c

starts_with_digit-print_from :
    (fuel n : ℕ) (out : Text) → n < fuel → starts_with_digit (print_from fuel n out) ≡ true
unfolding print_from is_digit starts_with_digit
starts_with_digit-print_from zero n out h = absurd (omega arith)
starts_with_digit-print_from (suc fuel) n out h =
    ground (arith, starts_with_digit-print_from fuel (n / 10) ((b'0' + n % 10) ∷ out))

atoi-digits :
    (s : Text) (n : ℕ)
    → starts_with_digit s ≡ true
    → scan_digits s 0 ≡ some n
    → n < 2 ^ 63
    → atoi s ≡ some n
unfolding atoi unsigned is_digit starts_with_digit
atoi-digits [] n d h b = ground arith
atoi-digits (c ∷ s) n d h b = ground arith

-- A printed number that fits is read back.
pub atoi-itoa : (n : ℕ) → n < 2 ^ 63 → atoi (itoa n) ≡ some n
unfolding itoa
atoi-itoa n h =
    atoi-digits (itoa n) n (starts_with_digit-print_from (suc n) n [] (omega arith))
      (unfold scan_digits in scan_digits-print_from (suc n) n [] (omega arith)) h

pub parse_bool-format_bool : (b : Bool) → parse_bool (format_bool b) ≡ some b
unfolding parse_bool format_bool bytes
parse_bool-format_bool true = unfold text_beq in refl
parse_bool-format_bool false = unfold text_beq in refl
