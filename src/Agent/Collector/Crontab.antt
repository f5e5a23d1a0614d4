-- ===== src/Agent/Collector/Crontab.antt =====
-- internal/agent/collector.go: readCronEntries, which lists the jobs of the system's and of the
-- users' crontabs. The files of a glob, their contents and filepath.Base are arguments.
use servora.Prelude.{
  All, Bool, List, Option, Text, [], any_of, arith, bytes, contains_text, drop, false, fields,
  fields-join_words, has_prefix, if◌then◌else◌, is_word, itoa, join_words, leb, length, none, not,
  refl, some, split_at, take, text_beq, trim_spaces, trim_spaces-join_words, true, ℕ, ◌&&◌, ◌++◌,
  ◌+◌, ◌==◌, ◌||◌, ◌∷◌, ◌≡◌, text_eq,
}

-- model.Timer, as far as it is set here.
pub record Timer : Type 0 where
  pub unit : Text
  pub source : Text
  pub schedule : Text
  pub command : Text
  pub user : Text
  pub next : Text

-- A line that is empty, a comment or an environment setting.
unfoldable pub is_skipped : (line : Text) → Bool
is_skipped line =
    line == []
    || has_prefix line (bytes "#")
    || (contains_text line (bytes "=") && not (has_prefix line (bytes "@")))

unfoldable pub schedule_fields : (line : Text) → ℕ
schedule_fields line = if has_prefix line (bytes "@") then 1 else 5

-- path == "/etc/crontab" || strings.HasPrefix(path, "/etc/cron.d/")
unfoldable pub names_user : (path : Text) → Bool
names_user path = path == bytes "/etc/crontab" || has_prefix path (bytes "/etc/cron.d/")

abbrev first_or : Text → List Text → Text
first_or default [] = default
first_or default (x ∷ xs) = x

-- The entry of a trimmed line, from its fields; its number counts from 0.
unfoldable pub cron_words :
    (base : Text → Text) (path : Text) (number : ℕ) (line : Text) → List Text → Option Timer
unfolding is_skipped schedule_fields names_user
cron_words base path number line words =
    let n = schedule_fields line in
    let start = if names_user path then n + 1 else n in
    let schedule = join_words (take n words) in
    if is_skipped line
    then none
    else if leb (length words) n
    then none
    else if leb (length words) start
    then none
    else some record {
      unit = bytes "cron:" ++ base path ++ b':' ∷ itoa (number + 1);
      source = bytes "cron";
      schedule = schedule;
      command = join_words (drop start words);
      user = if names_user path then first_or [] (drop n words) else base path;
      next = schedule;
    }

unfoldable pub cron_line :
    (base : Text → Text) (path : Text) (number : ℕ) (raw : Text) → Option Timer
unfolding cron_words
cron_line base path number raw =
    let line = trim_spaces raw in cron_words base path number line (fields line)

abbrev listed : Option Timer → List Timer → List Timer
listed none rest = rest
listed (some timer) rest = timer ∷ rest

unfoldable pub cron_lines : (base : Text → Text) (path : Text) (number : ℕ) → List Text → List Timer
unfolding cron_line
cron_lines base path number [] = []
cron_lines base path number (line ∷ lines) =
    listed (cron_line base path number line) (cron_lines base path (number + 1) lines)

abbrev cron_file : (base : Text → Text) (path : Text) → Option Text → List Timer
cron_file base path none = []
cron_file base path (some raw) = cron_lines base path 0 (split_at b'\n' raw)

-- A path that was seen is passed over; a file that cannot be read gives nothing.
unfoldable pub cron_files :
    (base : Text → Text) (contents : Text → Option Text) (seen : List Text) → List Text → List Timer
unfolding cron_lines
cron_files base contents seen [] = []
cron_files base contents seen (path ∷ paths) =
    let rest = cron_files base contents (path ∷ seen) paths in
    let skipped = cron_files base contents seen paths in
    if any_of (λ s. s == path) seen then skipped else cron_file base path (contents path) ++ rest

unfoldable pub read_cron_entries :
    (base : Text → Text) (contents : Text → Option Text) (glob : Text → List Text) → List Timer
unfolding cron_files
read_cron_entries base contents glob = cron_files base contents [] (
    bytes "/etc/crontab"
    ∷ (glob (bytes "/etc/cron.d/*")
        ++ glob (bytes "/var/spool/cron/crontabs/*")
        ++ glob (bytes "/var/spool/cron/*")))

abbrev pub system_timer :
    (base : Text → Text) (number : ℕ) (minute hour day month weekday user program : Text)
    (args : List Text)
    → Timer
system_timer base number minute hour day month weekday user program args = record {
  unit = bytes "cron:" ++ base (bytes "/etc/crontab") ++ b':' ∷ itoa (number + 1);
  source = bytes "cron";
  schedule = join_words (minute ∷ hour ∷ day ∷ month ∷ weekday ∷ []);
  command = join_words (program ∷ args);
  user = user;
  next = join_words (minute ∷ hour ∷ day ∷ month ∷ weekday ∷ []);
}

-- A line of a system crontab, from its fields.
cron_words-system :
    (base : Text → Text) (number : ℕ) (line minute hour day month weekday user program : Text)
    (args : List Text)
    → is_skipped line ≡ false
    → has_prefix line (bytes "@") ≡ false
    → cron_words base
        (bytes "/etc/crontab")
        number
        line
        (minute ∷ hour ∷ day ∷ month ∷ weekday ∷ user ∷ program ∷ args)
      ≡ some (system_timer base number minute hour day month weekday user program args)
unfolding cron_words schedule_fields take drop
cron_words-system base number line minute hour day month weekday user program args kept no_at =
    let system : names_user (bytes "/etc/crontab") ≡ true =
      unfold names_user bytes text_beq in refl in
    rw (kept, no_at, system) (ground arith)

join_words-ne :
    (word : Text) (words : List Text)
    → is_word word ≡ true
    → (join_words (word ∷ words) == []) ≡ false
unfolding join_words is_word text_beq
join_words-ne [] words h = ground arith
join_words-ne (c ∷ s) [] h = refl
join_words-ne (c ∷ s) (next ∷ words) h = refl

-- The words of a line of a system crontab.
abbrev pub system_words :
    (minute hour day month weekday user program : Text) (args : List Text) → List Text
system_words minute hour day month weekday user program args =
    minute ∷ hour ∷ day ∷ month ∷ weekday ∷ user ∷ program ∷ args

-- A line of a system crontab that is written as five fields of a schedule, a user and a command of at
-- least one word, all of ASCII without a space and without "=", and that is no comment and no "@"
-- line, is listed with exactly that schedule, user and command.
pub cron_line-join_words :
    (base : Text → Text) (number : ℕ) (minute hour day month weekday user program : Text)
    (args : List Text)
    → All (λ w. is_word w ≡ true) (system_words minute hour day month weekday user program args)
    → contains_text
        (join_words (system_words minute hour day month weekday user program args))
        (bytes "=")
      ≡ false
    → has_prefix
        (join_words (system_words minute hour day month weekday user program args))
        (bytes "#")
      ≡ false
    → has_prefix
        (join_words (system_words minute hour day month weekday user program args))
        (bytes "@")
      ≡ false
    → cron_line base
        (bytes "/etc/crontab")
        number
        (join_words (system_words minute hour day month weekday user program args))
      ≡ some (system_timer base number minute hour day month weekday user program args)
unfolding cron_line
cron_line-join_words base number minute hour day month weekday user program args are_words no_eq
      no_hash no_at =
    let rest = hour ∷ day ∷ month ∷ weekday ∷ user ∷ program ∷ args in
    let line = join_words (minute ∷ rest) in
    let kept : is_skipped line ≡ false =
      unfold is_skipped in rw (join_words-ne minute rest are_words.0, no_hash, no_eq) refl in
    rw (trim_spaces-join_words minute rest are_words, fields-join_words (minute ∷ rest) are_words)
      (cron_words-system base number line minute hour day month weekday user program args kept
        no_at)

-- No line with a "=" is listed, in the command or elsewhere, unless it starts with "@", whatever the
-- rest of it says.
cron_line-hidden :
    (base : Text → Text) (path : Text) (number : ℕ) (raw : Text)
    → contains_text (trim_spaces raw) (bytes "=") ≡ true
    → has_prefix (trim_spaces raw) (bytes "@") ≡ false
    → cron_line base path number raw ≡ none
unfolding cron_line cron_words is_skipped
cron_line-hidden base path number raw has_eq no_at = ground arith
