-- ===== src/Agent/Actions/Validate.antt =====
-- internal/agent/server.go: the patterns validUnit, validDockerID, validJobName and secretPattern,
-- jobUnit and parseArgs. internal/app/server.go: safeID, the same pattern as secretPattern.
use mathlib.Core.Option
use servora.Prelude.{
  Bool, List, Option, Result, Text, [], all_of, any_of, arith, bytes, contains_any, count_if,
  count_if-append, err, false, if◌then◌else◌, is_digit, is_lower, is_upper, leb, length, ltb,
  nat_beq, nat_beq_iff, none, not, ok, refl, some, true, ℕ, ◌&&◌, ◌++◌, ◌+◌, ◌==◌, ◌||◌, ◌∷◌, ◌≡◌,
  ◌≤◌, text_eq,
}
use servora.Agent.Actions.Effects.{Os}

-- [A-Za-z0-9_.-]
unfoldable pub is_docker_char : ℕ → Bool
unfolding is_lower is_upper is_digit
is_docker_char c =
    is_lower c || is_upper c || is_digit c || nat_beq c b'_' || nat_beq c b'.' || nat_beq c b'-'

-- [A-Za-z0-9_.@-]
unfoldable pub is_unit_char : ℕ → Bool
unfolding is_docker_char
is_unit_char c = is_docker_char c || nat_beq c b'@'

-- [a-z0-9-]
unfoldable pub is_job_char : ℕ → Bool
unfolding is_lower is_digit
is_job_char c = is_lower c || is_digit c || nat_beq c b'-'

-- [a-f0-9-]
unfoldable pub is_hex_char : ℕ → Bool
unfolding is_digit
is_hex_char c = (leb b'a' c && leb c b'f') || is_digit c || nat_beq c b'-'

-- The text before a suffix.
unfoldable pub cut_suffix : Text → Text → Option Text
cut_suffix suffix [] = if [] == suffix then some [] else none
cut_suffix suffix (c ∷ s) =
    let rest = cut_suffix suffix s in
    if (c ∷ s) == suffix then some [] else Option.map (λ t. c ∷ t) rest

abbrev is_stem : Option Text → Bool
is_stem none = false
is_stem (some stem) = not (stem == []) && all_of is_unit_char stem

-- ^[A-Za-z0-9_.@-]+\.(service|socket|timer)$
unfoldable pub valid_unit : Text → Bool
valid_unit v =
    any_of (λ suffix. is_stem (cut_suffix (bytes suffix) v))
      (".service" ∷ ".socket" ∷ ".timer" ∷ [])

-- ^[A-Za-z0-9_.-]{1,128}$
unfoldable pub valid_docker_id : Text → Bool
valid_docker_id v = leb 1 (length v) && leb (length v) 128 && all_of is_docker_char v

-- ^[a-z0-9][a-z0-9-]{0,47}$
unfoldable pub valid_job_name : Text → Bool
valid_job_name [] = false
valid_job_name (c ∷ v) = (is_lower c || is_digit c) && leb (length v) 47 && all_of is_job_char v

-- ^[a-f0-9-]{8,64}$
unfoldable pub safe_id : Text → Bool
safe_id v = leb 8 (length v) && leb (length v) 64 && all_of is_hex_char v

unfoldable pub job_unit : Text → Text
job_unit v = bytes "system-maintenance-job-" ++ v

-- "\r\n\x00", the bytes that no text of a unit file or secret may hold.
abbrev pub line_breaks : Text
line_breaks = 13 ∷ 10 ∷ 0 ∷ []

unfoldable pub valid_arg : Text → Bool
valid_arg arg = not (ltb 4096 (length arg) || contains_any arg (0 ∷ 13 ∷ 10 ∷ []))

abbrev checked_args : Option (List Text) → Result Text (List Text)
checked_args none = err (bytes "args must be a JSON string array")
checked_args (some args) =
    if ltb 64 (length args)
    then err (bytes "too many arguments")
    else if not (all_of valid_arg args)
    then err (bytes "invalid argument")
    else ok args

unfoldable pub parse_args : Os → Text → Result Text (List Text)
parse_args os raw = if raw == [] then ok [] else checked_args (os.parse_strings raw)

-- An accepted list has at most 64 arguments, each of at most 4096 bytes and with no line break.
pub parse_args_bounds :
    (os : Os) (raw : Text) {args : List Text}
    → parse_args os raw ≡ ok args
    → (length args ≤ 64) × (all_of valid_arg args ≡ true)
unfolding parse_args all_of
parse_args_bounds os raw h = ground arith

-- The line breaks of a text.
unfoldable pub newlines : Text → ℕ
newlines s = count_if (λ c. nat_beq c 10) s

pub newlines-append : (s t : Text) → newlines (s ++ t) ≡ newlines s + newlines t
unfolding newlines
newlines-append s t = count_if-append (λ c. nat_beq c 10) s t

pub newlines-cons : (c : ℕ) (s : Text) → nat_beq c 10 ≡ false → newlines (c ∷ s) ≡ newlines s
unfolding newlines count_if
newlines-cons c s h = ground arith

newlines-of-class : (p : ℕ → Bool) (s : Text) → p 10 ≡ false → all_of p s ≡ true → newlines s ≡ 0
unfolding newlines count_if all_of
newlines-of-class p [] out h = refl
newlines-of-class p (c ∷ s) out h = ground (arith, newlines-of-class p s out, nat_beq_iff c 10)

pub newlines-contains_any :
    (s set : Text) → contains_any s set ≡ false → contains_any (10 ∷ []) set ≡ true → newlines s ≡ 0
unfolding newlines count_if contains_any any_of
newlines-contains_any [] set h k = refl
newlines-contains_any (c ∷ s) set h k =
    ground (arith, newlines-contains_any s set, nat_beq_iff c 10)

pub newlines-valid_job_name : (v : Text) → valid_job_name v ≡ true → newlines v ≡ 0
unfolding valid_job_name newlines count_if is_lower is_digit
newlines-valid_job_name [] h = cc
newlines-valid_job_name (c ∷ v) h =
    ground (arith, newlines-of-class is_job_char v (unfold is_job_char in refl), nat_beq_iff c 10)
