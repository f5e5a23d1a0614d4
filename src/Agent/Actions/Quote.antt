-- ===== src/Agent/Actions/Quote.antt =====
-- systemdQuote of internal/agent/server.go, and what systemd reads of a quoted word.
use servora.Prelude.{
  All, Bool, List, Option, Text, [], arith, count_if, if◌then◌else◌, nat_beq, none, not, refl, some,
  true, ℕ, ◌&&◌, ◌++◌, ◌+◌, ◌∙◌, ◌∷◌, ◌≡◌,
}
use servora.Agent.Actions.Validate.{newlines, newlines-append, newlines-cons}

-- The replacements of strings.NewReplacer(`\`, `\\`, `"`, `\"`, `%`, `%%`).
unfoldable pub escape : Text → Text
escape [] = []
escape (c ∷ s) =
    let rest = escape s in
    if nat_beq c b'\\'
    then b'\\' ∷ b'\\' ∷ rest
    else if nat_beq c b'"'
    then b'\\' ∷ b'"' ∷ rest
    else if nat_beq c b'%'
    then b'%' ∷ b'%' ∷ rest
    else c ∷ rest

unfoldable pub systemd_quote : Text → Text
unfolding escape
systemd_quote value = b'"' ∷ escape value ++ b'"' ∷ []

-- The line after "ExecStart=": the quoted words with a space before each but the first.
unfoldable pub append_args : Text → List Text → Text
unfolding systemd_quote
append_args line [] = line
append_args line (arg ∷ args) = append_args (line ++ b' ' ∷ systemd_quote arg) args

abbrev pub cons_word : ℕ → Option (Text × Text) → Option (Text × Text)
cons_word c none = none
cons_word c (some (word, rest)) = some (c ∷ word, rest)

-- A byte that stands for itself between quotes: no quote, backslash or percent sign, no "$", with
-- which systemd expands a variable, and no line break or NUL.
abbrev pub is_verbatim : ℕ → Bool
is_verbatim c =
    not (nat_beq c b'"')
    && not (nat_beq c b'\\')
    && not (nat_beq c b'%')
    && not (nat_beq c b'$')
    && not (nat_beq c 10)
    && not (nat_beq c 13)
    && not (nat_beq c 0)

-- systemd's reading of a quoted word of a unit file, after the opening quote: the word, and what
-- follows its closing quote. The laws are what systemd.syntax(7), systemd.service(5) and
-- systemd.unit(5) say of the quote, of the escapes of a backslash and of a quote, of a doubled percent
-- sign, and of the bytes that are none of these; they leave open what other escapes, specifiers and
-- variables become.
pub record UnitReader : Type 0 where
  pub read : Text → Option (Text × Text)
  pub ends : (rest : Text) → read (b'"' ∷ rest) ≡ some ([], rest)
  pub backslash : (s : Text) → read (b'\\' ∷ b'\\' ∷ s) ≡ cons_word b'\\' (read s)
  pub quote : (s : Text) → read (b'\\' ∷ b'"' ∷ s) ≡ cons_word b'"' (read s)
  pub percent : (s : Text) → read (b'%' ∷ b'%' ∷ s) ≡ cons_word b'%' (read s)
  pub verbatim : (c : ℕ) (s : Text) → is_verbatim c ≡ true → read (c ∷ s) ≡ cons_word c (read s)

-- A byte that an accepted argument has, and that is no "$".
abbrev pub is_quotable : ℕ → Bool
is_quotable c =
    not (nat_beq c b'$') && not (nat_beq c 10) && not (nat_beq c 13) && not (nat_beq c 0)

newlines-escape : (v : Text) → newlines (escape v) ≡ newlines v
unfolding newlines count_if escape
newlines-escape [] = refl
newlines-escape (c ∷ v) = ground (arith, newlines-escape v)

newlines-quoted : (v : Text) → newlines (b'"' ∷ escape v ++ b'"' ∷ []) ≡ newlines (escape v)
newlines-quoted v =
    newlines-cons b'"' (escape v ++ b'"' ∷ []) refl
    ∙ newlines-append (escape v) (b'"' ∷ [])
    ∙ unfold newlines count_if in omega arith

pub newlines-systemd_quote : (v : Text) → newlines (systemd_quote v) ≡ newlines v
unfolding systemd_quote
newlines-systemd_quote v = omega (arith, newlines-quoted v, newlines-escape v)

newlines-next_arg :
    (line a : Text) → newlines (line ++ b' ' ∷ systemd_quote a) ≡ newlines line + newlines a
newlines-next_arg line a = omega (
  arith,
  newlines-append line (b' ' ∷ systemd_quote a),
  newlines-cons b' ' (systemd_quote a) refl,
  newlines-systemd_quote a,
)

-- Arguments without line breaks leave the command line on one line.
pub newlines-append_args :
    (line : Text) (args : List Text)
    → All (λ a. newlines a ≡ 0) args
    → newlines (append_args line args) ≡ newlines line
newlines-append_args line [] hs = unfold append_args in refl
newlines-append_args line (a ∷ args) hs =
    let e : append_args line (a ∷ args) ≡ append_args (line ++ b' ' ∷ systemd_quote a) args =
      unfold append_args in refl in
    rw e (
      omega (
        arith,
        newlines-append_args (line ++ b' ' ∷ systemd_quote a) args hs.1,
        newlines-next_arg line a,
        hs.0,
      ))
