-- ===== src/Agent/Actions/Dispatch/Policy.antt =====
-- The effects that internal/agent/server.go may have as root, and that execute has no other.
use servora.Prelude.{List, Text, [], bytes, contains_any, false, some, true, ◌++◌, ◌∷◌, ◌≡◌}
use servora.Agent.Actions.Effects.{
  ℤ, Signal, Os, Effect, kill, set_priority, exec, delayed, make_dir, write_file, remove_file,
}
use servora.Agent.Actions.Validate.{
  valid_unit, valid_docker_id, valid_job_name, safe_id, job_unit, line_breaks,
}
use servora.Agent.Actions.Schedule.{contains, Config, ActionRequest, param, unit_dir}
use servora.Agent.Actions.Dispatch.{protected_pid, in_nice_range, service_verbs, docker_verbs}

abbrev pub timer_verbs : List Text
timer_verbs = bytes "enable" ∷ bytes "disable" ∷ []

-- The policy, for a configuration and a request: what is signalled or reniced is no protected
-- process; the service is on the allowlist and not protected; a power command is confirmed; commands
-- and files of a job are named after a valid job name; secrets stay in their directory.
pub data IsAllowed (os : Os) (cfg : Config) (req : ActionRequest) : Effect → Type 0 where
  signal : (pid : ℤ) (s : Signal) → protected_pid os pid ≡ false → IsAllowed os cfg req (kill pid s)
  renice :
      (pid nice : ℤ)
      → protected_pid os pid ≡ false
      → in_nice_range nice ≡ true
      → IsAllowed os cfg req (set_priority pid nice)
  service :
      (verb : Text)
      → contains verb service_verbs ≡ true
      → valid_unit req.target ≡ true
      → contains req.target cfg.service_allowlist ≡ true
      → contains req.target cfg.protected_services ≡ false
      → IsAllowed os cfg req (exec (bytes "systemctl") (verb ∷ req.target ∷ []))
  maintenance :
      IsAllowed os cfg req (exec (bytes "systemctl") (bytes "start" ∷ cfg.maintenance_service ∷ []))
  docker :
      (verb : Text)
      → contains verb docker_verbs ≡ true
      → valid_docker_id req.target ≡ true
      → IsAllowed os cfg req (exec (bytes "docker") (verb ∷ req.target ∷ []))
  reboot :
      param req (bytes "confirm") ≡ bytes "REBOOT"
      → IsAllowed os cfg req (delayed (bytes "systemctl") (bytes "reboot" ∷ []))
  shutdown :
      param req (bytes "confirm") ≡ bytes "SHUTDOWN"
      → IsAllowed os cfg req (delayed (bytes "systemctl") (bytes "poweroff" ∷ []))
  check_calendar :
      (calendar : Text)
      → contains_any calendar line_breaks ≡ false
      → IsAllowed os cfg req (exec (bytes "systemd-analyze") (bytes "calendar" ∷ calendar ∷ []))
  reload : IsAllowed os cfg req (exec (bytes "systemctl") (bytes "daemon-reload" ∷ []))
  timer :
      (verb : Text)
      → contains verb timer_verbs ≡ true
      → valid_job_name req.target ≡ true
      → IsAllowed os cfg req (
          exec
            (bytes "systemctl")
            (verb ∷ bytes "--now" ∷ (job_unit req.target ++ bytes ".timer") ∷ []))
  run_job :
      valid_job_name req.target ≡ true
      → IsAllowed os cfg req (
          exec (bytes "systemctl") (bytes "start" ∷ (job_unit req.target ++ bytes ".service") ∷ []))
  write_service :
      (content : Text)
      → valid_job_name req.target ≡ true
      → contains (param req (bytes "executable")) cfg.job_executables ≡ true
      → IsAllowed os cfg req
          (write_file (os.join unit_dir (job_unit req.target ++ bytes ".service")) content 0o644)
  write_timer :
      (content : Text)
      → valid_job_name req.target ≡ true
      → contains (param req (bytes "executable")) cfg.job_executables ≡ true
      → IsAllowed os cfg req
          (write_file (os.join unit_dir (job_unit req.target ++ bytes ".timer")) content 0o644)
  remove_service :
      valid_job_name req.target ≡ true
      → os.lstat (os.join unit_dir (job_unit req.target ++ bytes ".service")) ≡ some true
      → IsAllowed os cfg req
          (remove_file (os.join unit_dir (job_unit req.target ++ bytes ".service")))
  remove_timer :
      valid_job_name req.target ≡ true
      → os.lstat (os.join unit_dir (job_unit req.target ++ bytes ".timer")) ≡ some true
      → IsAllowed os cfg req
          (remove_file (os.join unit_dir (job_unit req.target ++ bytes ".timer")))
  secret_dir : IsAllowed os cfg req (make_dir cfg.secret_dir 0o750)
  write_secret_file :
      (value : Text)
      → safe_id req.target ≡ true
      → contains_any value line_breaks ≡ false
      → IsAllowed os cfg req (write_file (os.join cfg.secret_dir req.target) value 0o640)
  remove_secret :
      safe_id req.target ≡ true
      → IsAllowed os cfg req (remove_file (os.join cfg.secret_dir req.target))
