-- ===== src/Agent/Actions/Effects.antt =====
-- The effects of the agent's actions (internal/agent/server.go) and the monad that collects them;
-- run, delayedCommand and atomicWrite are its steps.
use servora.Prelude.{
  All, All-append, Bool, List, Option, Result, Text, [], bytes, err, false, if◌then◌else◌, none, ok,
  refl, some, true, ℕ, ◌++◌, ◌==◌, ◌∷◌, ◌≡◌, text_eq,
}

-- An int; `negsuc n` is -(n + 1).
pub data ℤ : Type 0 where
  pos : ℕ → ℤ
  negsuc : ℕ → ℤ

pub data Signal : Type 0 where
  sigterm sigkill sigstop sigcont : Signal

pub data Effect : Type 0 where
  kill : (pid : ℤ) → Signal → Effect
  set_priority : (pid nice : ℤ) → Effect
  exec : (name : Text) (args : List Text) → Effect
  delayed : (name : Text) (args : List Text) → Effect
  make_dir : (path : Text) (mode : ℕ) → Effect
  write_file : (path content : Text) (mode : ℕ) → Effect
  remove_file : (path : Text) → Effect

-- What the operating system answers to an effect is an error's text, or `none`. A command answers
-- with its output too. `lstat` says of a path that exists whether it is a regular file; `comm` is
-- the text of /proc/PID/comm. The rest is the standard library: strconv.Atoi, the %d of fmt.Sprintf, strings.TrimSpace,
-- filepath.Join, filepath.IsAbs, json.Unmarshal into a list of strings, os.IsNotExist.
pub record Os : Type 0 where
  pub answer : Effect → Option Text
  pub output : (name : Text) (args : List Text) → Text
  pub own_pid : ℤ
  pub comm : ℤ → Option Text
  pub lstat : Text → Option Bool
  pub known_user : Text → Bool
  pub atoi : Text → Option ℤ
  pub itoa : ℤ → Text
  pub trim_space : Text → Text
  pub join : Text → Text → Text
  pub is_abs : Text → Bool
  pub parse_strings : Text → Option (List Text)
  pub is_not_exist : Text → Bool

abbrev pub Act : Type 0 → Type 0
Act A = List Effect × Result Text A

abbrev pub return : {A : Type 0} → A → Act A
return a = ([], ok a)

abbrev pub fail : {A : Type 0} → Text → Act A
fail message = ([], err message)

abbrev continue : {A B : Type 0} → Result Text A → (A → Act B) → Act B
continue (ok a) f = f a
continue (err e) f = fail e

infixl 5 ◌>>=◌ ◌>>◌
unfoldable pub ◌>>=◌ : {A B : Type 0} → Act A → (A → Act B) → Act B
◌>>=◌ m f = let (effects, r) = m in let (more, r') = continue r f in (effects ++ more, r')

abbrev pub ◌>>◌ : {A B : Type 0} → Act A → Act B → Act B
m >> k = m >>= λ _. k

abbrev pub done : Option Text → Result Text (Unit {0})
done none = ok tt
done (some message) = err message

-- An effect whose error ends the action.
unfoldable pub perform : Os → Effect → Act (Unit {0})
perform os e = (e ∷ [], done (os.answer e))

abbrev or_default : Text → Text → Text
or_default text default = if text == [] then default else text

-- The result of `run` from the command's error and its trimmed output.
abbrev run_result : Option Text → Text → Result Text Text
run_result (some message) text = err (or_default text message)
run_result none text = ok (or_default text (bytes "operation completed"))

unfoldable pub run : Os → (name : Text) (args : List Text) → Act Text
run os name args = (
  exec name args ∷ [],
  run_result (os.answer (exec name args)) (os.trim_space (os.output name args)),
)

-- Where the code drops the error of `run`.
unfoldable pub attempt : {A : Type 0} → Act A → Act (Unit {0})
attempt m = (m.0, ok tt)

-- `go delayedCommand(…)`, whose error is dropped.
unfoldable pub schedule_command : (name : Text) (args : List Text) → Act (Unit {0})
schedule_command name args = (delayed name args ∷ [], ok tt)

-- atomicWrite: the file is there whole or not at all.
unfoldable pub atomic_write : Os → (path content : Text) (mode : ℕ) → Act (Unit {0})
unfolding perform
atomic_write os path content mode = perform os (write_file path content mode)

-- What all effects of an action satisfy.
pub record Ensures {A : Type 0} (P : Effect → Type 0) (m : Act A) : Type 0 where
  pub effects : All P m.0

module _ {P : Effect → Type 0} where
  pub Ensures-return : {A : Type 0} (a : A) → Ensures P (return a)
  Ensures-return a = record { effects = tt }

  pub Ensures-fail : {A : Type 0} (message : Text) → Ensures P (fail {A = A} message)
  Ensures-fail message = record { effects = tt }

  Ensures-continue :
      {A B : Type 0} (r : Result Text A) (f : A → Act B)
      → ((a : A) → Ensures P (f a))
      → Ensures P (continue r f)
  Ensures-continue (ok a) f h = h a
  Ensures-continue (err e) f h = record { effects = tt }

  pub Ensures-bind :
      {A B : Type 0} (m : Act A) (f : A → Act B)
      → Ensures P m
      → ((a : A) → Ensures P (f a))
      → Ensures P (m >>= f)
  unfolding ◌>>=◌
  Ensures-bind m f hm hf = record {
    effects = All-append P m.0 (continue m.1 f).0 hm.effects (Ensures-continue m.1 f hf).effects;
  }

  pub Ensures-if :
      {A : Type 0} (b : Bool) (m n : Act A)
      → (b ≡ true → Ensures P m)
      → (b ≡ false → Ensures P n)
      → Ensures P (if b then m else n)
  Ensures-if true m n hm hn = hm refl
  Ensures-if false m n hm hn = hn refl

  -- A check that ends the action.
  pub Ensures-guard :
      {A : Type 0} (b : Bool) (message : Text) (m : Act A)
      → (b ≡ false → Ensures P m)
      → Ensures P (if b then fail message else m)
  Ensures-guard true message m h = record { effects = tt }
  Ensures-guard false message m h = h refl

  pub Ensures-perform : (os : Os) (e : Effect) → P e → Ensures P (perform os e)
  unfolding perform
  Ensures-perform os e h = record { effects = (h, tt) }

  pub Ensures-run :
      (os : Os) (name : Text) (args : List Text) → P (exec name args) → Ensures P (run os name args)
  unfolding run
  Ensures-run os name args h = record { effects = (h, tt) }

  pub Ensures-attempt : {A : Type 0} (m : Act A) → Ensures P m → Ensures P (attempt m)
  unfolding attempt
  Ensures-attempt m h = record { effects = h.effects }

  pub Ensures-schedule_command :
      (name : Text) (args : List Text)
      → P (delayed name args)
      → Ensures P (schedule_command name args)
  unfolding schedule_command
  Ensures-schedule_command name args h = record { effects = (h, tt) }

  pub Ensures-atomic_write :
      (os : Os) (path content : Text) (mode : ℕ)
      → P (write_file path content mode)
      → Ensures P (atomic_write os path content mode)
  unfolding atomic_write
  Ensures-atomic_write os path content mode h = record { effects = (h, tt) }
