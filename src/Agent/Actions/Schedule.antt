-- ===== src/Agent/Actions/Schedule.antt =====
-- internal/agent/server.go: createSchedule and deleteSchedule, which write and remove the unit files
-- of a managed job.
pub mod UnitFile
use servora.Prelude.{
  Bool, List, Option, Result, Table, Text, [], any_of, bytes, contains_any, err, false, find,
  if◌then◌else◌, none, not, ok, some, true, ◌++◌, ◌==◌, ◌||◌, ◌∷◌, text_eq,
}
use servora.Agent.Actions.Effects.{
  Os, Ensures, Act, Effect, exec, write_file, remove_file, return, fail, ◌>>=◌, ◌>>◌, run, attempt,
  perform, atomic_write,
}
use servora.Agent.Actions.Validate.{valid_job_name, job_unit, line_breaks, parse_args}
use servora.Agent.Actions.Quote.{systemd_quote, append_args}

-- A Go map from strings to true: the keys.
unfoldable pub contains : Text → List Text → Bool
unfolding any_of
contains v set = any_of (λ w. w == v) set

-- The fields of the configuration that the agent's actions read; secret_dir is SecretDir().
pub record Config : Type 0 where
  pub service_allowlist : List Text
  pub protected_services : List Text
  pub job_executables : List Text
  pub maintenance_service : Text
  pub secret_dir : Text

-- model.ActionRequest
pub record ActionRequest : Type 0 where
  pub action : Text
  pub target : Text
  pub params : Table Text Text

abbrev or_empty : Option Text → Text
or_empty none = []
or_empty (some value) = value

-- req.Params[key]
unfoldable pub param : ActionRequest → Text → Text
param req key = or_empty (find key req.params)

unfoldable pub service_text : (name run_as exec_line : Text) → Text
service_text name run_as exec_line =
    bytes "[Unit]\nDescription=System Maintenance managed job: "
    ++ (name
        ++ (bytes "\n\n[Service]\nType=oneshot\nUser="
            ++ (run_as
                ++ (bytes "\nExecStart="
                    ++ (exec_line
                        ++ bytes
                            "\nTimeoutStartSec=1h\nNoNewPrivileges=true\nPrivateTmp=true\n")))))

unfoldable pub timer_text : (base calendar : Text) → Text
timer_text base calendar =
    bytes "[Unit]\nDescription=Schedule for "
    ++ (base
        ++ (bytes "\n\n[Timer]\nOnCalendar="
            ++ (calendar
                ++ (bytes "\nPersistent=true\nUnit="
                    ++ (base ++ bytes ".service\n\n[Install]\nWantedBy=timers.target\n")))))

abbrev pub unit_dir : Text
unit_dir = bytes "/etc/systemd/system"

abbrev pub lift_args : Result Text (List Text) → Act (List Text)
lift_args (ok args) = return args
lift_args (err message) = fail message

abbrev pub prefix_error : Text → Act Text → Act Text
prefix_error label (effects, ok a) = (effects, ok a)
prefix_error label (effects, err message) = (effects, err (label ++ message))

pub Ensures-prefix_error :
    {P : Effect → Type 0} (label : Text) (m : Act Text)
    → Ensures P m
    → Ensures P (prefix_error label m)
Ensures-prefix_error label (effects, ok a) h = record { effects = h.effects }
Ensures-prefix_error label (effects, err message) h = record { effects = h.effects }

-- The part that writes and starts the units, after the checks.
unfoldable pub install_units : Os → (name run_as calendar exec_line : Text) → Act Text
install_units os name run_as calendar exec_line = do
  let base = job_unit name
  atomic_write os (os.join unit_dir (base ++ bytes ".service")) (service_text name run_as exec_line)
      0o644
  atomic_write os (os.join unit_dir (base ++ bytes ".timer")) (timer_text base calendar) 0o644
  run os (bytes "systemctl") (bytes "daemon-reload" ∷ [])
  run os (bytes "systemctl") (bytes "enable" ∷ bytes "--now" ∷ (base ++ bytes ".timer") ∷ [])

unfoldable pub create_schedule : Os → Config → ActionRequest → Act Text
create_schedule os cfg req =
    let name = req.target in
    let executable = param req (bytes "executable") in
    let calendar = param req (bytes "calendar") in
    let user = param req (bytes "user") in
    let run_as = if user == [] then bytes "root" else user in
    if not (valid_job_name name) || not (contains executable cfg.job_executables)
    then fail (bytes "invalid job name or executable is not allowlisted")
    else if not (os.is_abs executable) || contains_any executable line_breaks
    then fail (bytes "invalid executable")
    else if not (os.known_user run_as)
    then fail (bytes "unknown run-as user")
    else if calendar == [] || contains_any calendar line_breaks
    then fail (bytes "invalid calendar")
    else do
      prefix_error (bytes "invalid calendar: ")
          (run os (bytes "systemd-analyze") (bytes "calendar" ∷ calendar ∷ []))
      args ← lift_args (parse_args os (param req (bytes "args")))
      install_units os name run_as calendar (append_args (systemd_quote executable) args)

-- One unit file: it is removed if it is there, and a regular file.
abbrev pub remove_found : Os → (path : Text) → Option Bool → Act (Unit {0})
remove_found os path none = return tt
remove_found os path (some true) = perform os (remove_file path)
remove_found os path (some false) = fail (bytes "refusing to remove non-regular unit")

unfoldable pub remove_unit : Os → (path : Text) → Act (Unit {0})
remove_unit os path = remove_found os path (os.lstat path)

unfoldable pub delete_schedule : Os → (name : Text) → Act Text
delete_schedule os name = if not (valid_job_name name) then fail (bytes "invalid job name") else do
  let base = job_unit name
  attempt
      (run os (bytes "systemctl") (bytes "disable" ∷ bytes "--now" ∷ (base ++ bytes ".timer") ∷ []))
  remove_unit os (os.join unit_dir (base ++ bytes ".timer"))
  remove_unit os (os.join unit_dir (base ++ bytes ".service"))
  run os (bytes "systemctl") (bytes "daemon-reload" ∷ [])
