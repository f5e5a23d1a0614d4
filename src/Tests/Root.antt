-- ===== src/Tests/Root.antt =====
-- Runs of the agent's actions of internal/agent/server.go.
use servora.Prelude.{
  ==_iff, Option, Text, [], all_of, any_of, ap, arith, bytes, contains_any, count_if, false, find,
  has_prefix, if◌then◌else◌, is_digit, is_lower, nat_beq, none, ok, refl, some, text_beq, true, ℕ,
  ◌++◌, ◌==◌, ◌∙◌, ◌∷◌, ◌≡◌, text_eq,
}
use servora.Agent.Actions.Effects.{pos, Os, Ensures, ◌>>=◌, atomic_write, perform, run}
use servora.Agent.Actions.AtomicWrite.{
  Faults, Disk, IsWhole, atomic_write_steps, atomic_write_steps-IsWhole,
}
use servora.Tests.Data.{differ}
use servora.Agent.Actions.Validate.{valid_job_name, is_job_char, valid_arg, parse_args, newlines}
use servora.Agent.Actions.Quote.{cons_word, is_verbatim, UnitReader}
use servora.Agent.Actions.Schedule.{
  Config, ActionRequest, param, contains, install_units, create_schedule,
}
use servora.Agent.Actions.Schedule.UnitFile.{IsTenLines, create_schedule-IsTenLines}
use servora.Agent.Actions.Dispatch.{execute}
use servora.Agent.Actions.Dispatch.Policy.{IsAllowed}
use servora.Agent.Actions.Dispatch.Safety.{execute-Ensures}

-- An operating system on which every effect succeeds.
abbrev os : Os
os = record {
  answer = λ e. none;
  output = λ name args. bytes "done";
  own_pid = pos 77;
  comm = λ pid. some (bytes "bash\n");
  lstat = λ path. some true;
  known_user = λ user. user == bytes "root";
  atoi = λ text. if text == bytes "4242" then some (pos 4242) else none;
  itoa = λ n. bytes "4242";
  trim_space = λ text. if text == bytes "bash\n" then bytes "bash" else text;
  join = λ dir name. dir ++ b'/' ∷ name;
  is_abs = λ path. has_prefix path (bytes "/");
  parse_strings = λ text. if text == bytes "[\"-v\"]" then some (bytes "-v" ∷ []) else none;
  is_not_exist = λ message. false;
}

abbrev config : Config
config = record {
  service_allowlist = bytes "nginx.service" ∷ [];
  protected_services = bytes "sshd.service" ∷ [];
  job_executables = bytes "/usr/bin/backup" ∷ [];
  maintenance_service = bytes "system-maintenance.service";
  secret_dir = bytes "/etc/system-maintenance/secrets";
}

abbrev nightly : ActionRequest
nightly = record {
  action = bytes "schedule.create";
  target = bytes "nightly";
  params =
      (bytes "executable", bytes "/usr/bin/backup")
      ∷ (bytes "calendar", bytes "daily")
      ∷ (bytes "args", bytes "[\"-v\"]")
      ∷ [];
}

execute-Ensures_example : Ensures (IsAllowed os config nightly) (execute os config nightly)
execute-Ensures_example = execute-Ensures os config nightly

root_is_one_line : newlines (bytes "root") ≡ 0
unfolding newlines count_if bytes
root_is_one_line = refl

users_are_one_line : (user : Text) → os.known_user user ≡ true → newlines user ≡ 0
users_are_one_line user h = ap newlines ((==_iff user (bytes "root")).0 h) ∙ root_is_one_line

create_schedule-IsTenLines_example : Ensures IsTenLines (create_schedule os config nightly)
create_schedule-IsTenLines_example = create_schedule-IsTenLines os config nightly users_are_one_line

-- A reader that takes a backslash with the next byte, and a doubled percent sign.
unfoldable read_word : Text → Option (Text × Text)
read_word [] = none
read_word (c ∷ []) = if nat_beq c b'"' then some ([], []) else none
read_word (c ∷ d ∷ s) =
    let skip = cons_word d (read_word s) in
    let next = cons_word c (read_word (d ∷ s)) in
    if nat_beq c b'"'
    then some ([], d ∷ s)
    else if nat_beq c b'\\'
    then skip
    else if nat_beq c b'%'
    then (if nat_beq d b'%' then skip else none)
    else next

read_word-ends : (rest : Text) → read_word (b'"' ∷ rest) ≡ some ([], rest)
unfolding read_word
read_word-ends [] = refl
read_word-ends (c ∷ rest) = refl

read_word-verbatim :
    (c : ℕ) (s : Text) → is_verbatim c ≡ true → read_word (c ∷ s) ≡ cons_word c (read_word s)
unfolding read_word
read_word-verbatim c [] h = ground arith
read_word-verbatim c (d ∷ s) h = ground arith

abbrev reader : UnitReader
reader = record {
  read = read_word;
  ends = read_word-ends;
  backslash = λ s. unfold read_word in refl;
  quote = λ s. unfold read_word in refl;
  percent = λ s. unfold read_word in refl;
  verbatim = read_word-verbatim;
}

parsed : parse_args os (bytes "[\"-v\"]") ≡ ok (bytes "-v" ∷ [])
unfolding parse_args valid_arg all_of any_of contains_any text_beq bytes
parsed = refl

-- The nightly job is written and started.
runs : (execute os config nightly).1 ≡ ok (bytes "done")
unfolding execute create_schedule install_units ◌>>=◌ atomic_write perform run param contains
    valid_job_name parse_args valid_arg all_of any_of contains_any has_prefix is_lower is_digit
    is_job_char find text_beq bytes
runs = refl

-- The disk is full after three bytes.
abbrev full_disk : Faults
full_disk = record {
  create_temp = none;
  chmod = none;
  write = some (bytes "no space left on device");
  written = bytes "s3c";
  sync = none;
  close = none;
  rename = none;
}

abbrev secrets : Disk
secrets = (bytes "/s/key", record { content = bytes "old"; mode = 0o640 }) ∷ []

atomic_write_steps-IsWhole_example :
    IsWhole
      (bytes "/s/key")
      (bytes "s3cret")
      0o640
      secrets
      (atomic_write_steps full_disk
        (bytes "/s/.tmp")
        (bytes "/s/key")
        (bytes "s3cret")
        0o640
        secrets)
      (bytes "/s/key")
atomic_write_steps-IsWhole_example =
    atomic_write_steps-IsWhole full_disk (bytes "/s/.tmp") (bytes "/s/key") (bytes "s3cret") 0o640
      secrets (bytes "/s/key") (unfold find text_beq bytes in refl)
      (differ (bytes "/s/.tmp") (bytes "/s/key") (unfold text_beq bytes in refl))
