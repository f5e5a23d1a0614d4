-- ===== src/Agent/Actions/Dispatch.antt =====
-- internal/agent/server.go: execute, which dispatches an action, protectedPID, writeSecret and
-- deleteSecret.
pub mod Policy
pub mod Safety
use servora.Prelude.{
  Bool, List, Option, Text, [], bytes, contains_any, err, false, if◌then◌else◌, leb, length, ltb,
  nat_beq, none, not, ok, some, true, ◌++◌, ◌==◌, ◌||◌, ◌∷◌, text_eq,
}
use servora.Agent.Actions.Effects.{
  ℤ, pos, negsuc, Signal, sigterm, sigkill, sigstop, sigcont, Os, Act, Effect, kill, set_priority,
  make_dir, remove_file, return, fail, ◌>>=◌, ◌>>◌, run, perform, atomic_write, schedule_command,
}
use servora.Agent.Actions.Validate.{
  valid_unit, valid_docker_id, valid_job_name, safe_id, job_unit, line_breaks,
}
use servora.Agent.Actions.Schedule.{
  contains, Config, ActionRequest, param, create_schedule, delete_schedule,
}

-- pid <= 1
abbrev pub at_most_one : ℤ → Bool
at_most_one (pos n) = leb n 1
at_most_one (negsuc n) = true

abbrev pub same_int : ℤ → ℤ → Bool
same_int (pos m) (pos n) = nat_beq m n
same_int (negsuc m) (negsuc n) = nat_beq m n
same_int _ _ = false

-- -20 <= nice && nice <= 19
abbrev pub in_nice_range : ℤ → Bool
in_nice_range (pos n) = leb n 19
in_nice_range (negsuc n) = leb n 19

abbrev pub protected_names : List Text
protected_names =
    bytes "systemd"
    ∷ bytes "sshd"
    ∷ bytes "systemd-logind"
    ∷ bytes "NetworkManager"
    ∷ bytes "systemd-network"
    ∷ bytes "system-maintena"
    ∷ []

abbrev is_protected_name : Os → Option Text → Bool
is_protected_name os none = true
is_protected_name os (some raw) = contains (os.trim_space raw) protected_names

unfoldable pub protected_pid : Os → ℤ → Bool
unfolding contains
protected_pid os pid =
    if at_most_one pid || same_int pid os.own_pid then true else is_protected_name os (os.comm pid)

-- sigMap[…]
unfoldable pub signal_of : Text → Option Signal
signal_of name =
    if name == bytes "TERM"
    then some sigterm
    else if name == bytes "KILL"
    then some sigkill
    else if name == bytes "STOP"
    then some sigstop
    else if name == bytes "CONT"
    then some sigcont
    else none

unfoldable pub signal_process : Os → ActionRequest → Option ℤ → Act Text
signal_process os req none = fail (bytes "protected or invalid PID")
signal_process os req (some pid) =
    if protected_pid os pid
    then fail (bytes "protected or invalid PID")
    else elim (signal_of (param req (bytes "signal"))) [
      | none ↦ fail (bytes "unsupported signal")
      | some signal ↦ do
        perform os (kill pid signal)
        return (
            bytes "signal "
            ++ (param req (bytes "signal") ++ (bytes " sent to PID " ++ os.itoa pid)))
    ]

unfoldable pub renice_process : Os → Option ℤ → Option ℤ → Act Text
renice_process os none nice = fail (bytes "invalid PID or nice value")
renice_process os (some pid) none = fail (bytes "invalid PID or nice value")
renice_process os (some pid) (some nice) =
    if protected_pid os pid || not (in_nice_range nice)
    then fail (bytes "invalid PID or nice value")
    else do perform os (set_priority pid nice); return (bytes "priority updated")

abbrev pub service_verbs : List Text
service_verbs = bytes "start" ∷ bytes "stop" ∷ bytes "restart" ∷ []

unfoldable pub service_action : Os → Config → ActionRequest → Act Text
service_action os cfg req =
    if not (valid_unit req.target) || not (contains req.target cfg.service_allowlist)
    then fail (bytes "service is not in the action allowlist")
    else if contains req.target cfg.protected_services
    then fail (bytes "service is protected")
    else if not (contains (param req (bytes "verb")) service_verbs)
    then fail (bytes "unsupported service action")
    else run os (bytes "systemctl") (param req (bytes "verb") ∷ req.target ∷ [])

abbrev pub docker_verbs : List Text
docker_verbs = bytes "start" ∷ bytes "stop" ∷ bytes "restart" ∷ bytes "pause" ∷ bytes "unpause" ∷ []

unfoldable pub docker_action : Os → ActionRequest → Act Text
docker_action os req =
    if not (contains (param req (bytes "verb")) docker_verbs) || not (valid_docker_id req.target)
    then fail (bytes "invalid Docker action")
    else run os (bytes "docker") (param req (bytes "verb") ∷ req.target ∷ [])

unfoldable pub power_action : (phrase command refusal answer : Text) → ActionRequest → Act Text
power_action phrase command refusal answer req =
    if not (param req (bytes "confirm") == phrase)
    then fail refusal
    else do schedule_command (bytes "systemctl") (command ∷ []); return answer

unfoldable pub toggle_schedule : Os → ActionRequest → Act Text
toggle_schedule os req =
    if not (valid_job_name req.target)
    then fail (bytes "invalid job name")
    else run os (bytes "systemctl") (
        (if param req (bytes "enabled") == bytes "true" then bytes "enable" else bytes "disable")
        ∷ bytes "--now"
        ∷ (job_unit req.target ++ bytes ".timer")
        ∷ [])

unfoldable pub run_schedule : Os → ActionRequest → Act Text
run_schedule os req =
    if not (valid_job_name req.target)
    then fail (bytes "invalid job name")
    else run os (bytes "systemctl") (bytes "start" ∷ (job_unit req.target ++ bytes ".service") ∷ [])

unfoldable pub write_secret : Os → Config → (id value : Text) → Act Text
write_secret os cfg id value =
    if not (safe_id id) || value == [] || ltb 4096 (length value) || contains_any value line_breaks
    then fail (bytes "invalid secret")
    else do
      perform os (make_dir cfg.secret_dir 0o750)
      atomic_write os (os.join cfg.secret_dir id) value 0o640
      return (bytes "secret stored")

abbrev pub ignore_missing : Os → Act (Unit {0}) → Act (Unit {0})
ignore_missing os (effects, ok u) = (effects, ok u)
ignore_missing os (effects, err message) =
    (effects, if os.is_not_exist message then ok tt else err message)

unfoldable pub delete_secret : Os → Config → (id : Text) → Act Text
delete_secret os cfg id = if not (safe_id id) then fail (bytes "invalid secret id") else do
  ignore_missing os (perform os (remove_file (os.join cfg.secret_dir id)))
  return (bytes "secret deleted")

unfoldable pub execute : Os → Config → ActionRequest → Act Text
execute os cfg req =
    if req.action == bytes "process.signal"
    then signal_process os req (os.atoi req.target)
    else if req.action == bytes "process.renice"
    then renice_process os (os.atoi req.target) (os.atoi (param req (bytes "nice")))
    else if req.action == bytes "service"
    then service_action os cfg req
    else if req.action == bytes "maintenance.run"
    then run os (bytes "systemctl") (bytes "start" ∷ cfg.maintenance_service ∷ [])
    else if req.action == bytes "docker"
    then docker_action os req
    else if req.action == bytes "power.reboot"
    then power_action (bytes "REBOOT") (bytes "reboot") (bytes "reboot confirmation is required")
        (bytes "reboot scheduled") req
    else if req.action == bytes "power.shutdown"
    then power_action (bytes "SHUTDOWN") (bytes "poweroff")
        (bytes "shutdown confirmation is required") (bytes "shutdown scheduled") req
    else if req.action == bytes "schedule.create"
    then create_schedule os cfg req
    else if req.action == bytes "schedule.delete"
    then delete_schedule os req.target
    else if req.action == bytes "schedule.toggle"
    then toggle_schedule os req
    else if req.action == bytes "schedule.run"
    then run_schedule os req
    else if req.action == bytes "secret.write"
    then write_secret os cfg req.target (param req (bytes "value"))
    else if req.action == bytes "secret.delete"
    then delete_secret os cfg req.target
    else fail (bytes "unsupported action")
