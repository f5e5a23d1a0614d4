-- ===== src/Agent/Actions/Dispatch/Safety.antt =====
-- execute of internal/agent/server.go keeps to the policy of Policy.antt.
use servora.Prelude.{
  ==_iff, Bool, List, Option, Option-cases, Result, Text, [], any_of, arith, bytes, contains_any,
  err, false, if◌then◌else◌, inl, inr, length, ltb, none, not, not-false, ok, or_false, refl, some,
  text_beq, true, ◌==◌, ◌||◌, ◌∷◌, ◌≡◌, text_eq,
}
use servora.Agent.Actions.Effects.{
  ℤ, Os, Act, Effect, kill, set_priority, delayed, remove_file, Ensures, Ensures-return,
  Ensures-fail, Ensures-bind, Ensures-if, Ensures-guard, Ensures-perform, Ensures-run,
  Ensures-attempt, Ensures-schedule_command, Ensures-atomic_write,
}
use servora.Agent.Actions.Validate.{
  valid_unit, valid_docker_id, valid_job_name, safe_id, line_breaks, parse_args,
}
use servora.Agent.Actions.Quote.{systemd_quote, append_args}
use servora.Agent.Actions.Schedule.{
  Ensures-prefix_error, contains, Config, ActionRequest, param, create_schedule, delete_schedule,
  install_units, remove_found, remove_unit, lift_args,
}
use servora.Agent.Actions.Dispatch.{
  protected_pid, in_nice_range, signal_of, service_verbs, docker_verbs, signal_process,
  renice_process, service_action, docker_action, power_action, toggle_schedule, run_schedule,
  write_secret, delete_secret, ignore_missing, execute,
}
use servora.Agent.Actions.Dispatch.Policy.{
  timer_verbs, IsAllowed, signal, renice, service, maintenance, docker, reboot, shutdown,
  check_calendar, reload, timer, run_job, write_service, write_timer, remove_service, remove_timer,
  secret_dir, write_secret_file, remove_secret,
}

first_last : (a b c d : Bool) → (a || b || c || d) ≡ false → (a ≡ false) × (d ≡ false)
first_last a b c d h = ground arith

toggle_verb :
    (b : Bool) → contains (if b then bytes "enable" else bytes "disable") timer_verbs ≡ true
unfolding contains any_of bytes text_beq
toggle_verb true = refl
toggle_verb false = refl

Ensures-ignore_missing :
    {P : Effect → Type 0} (os : Os) (m : Act (Unit {0}))
    → Ensures P m
    → Ensures P (ignore_missing os m)
Ensures-ignore_missing os (effects, ok u) h = record { effects = h.effects }
Ensures-ignore_missing os (effects, err message) h = record { effects = h.effects }

Ensures-lift_args : {P : Effect → Type 0} (r : Result Text (List Text)) → Ensures P (lift_args r)
Ensures-lift_args (ok args) = Ensures-return args
Ensures-lift_args (err message) = Ensures-fail message

module _ (os : Os) (cfg : Config) (req : ActionRequest) where
  signal_process-Safe :
      (pid : Option ℤ) → Ensures (IsAllowed os cfg req) (signal_process os req pid)
  unfolding signal_process
  signal_process-Safe none = Ensures-fail _
  signal_process-Safe (some pid) = Ensures-guard (protected_pid os pid) _ _ (λ h.
      elim (Option-cases (signal_of (param req (bytes "signal")))) [
        | inl missing ↦ rw missing (Ensures-fail _)
        | inr (s, known) ↦ rw known (
            Ensures-bind _ _ (Ensures-perform os (kill pid s) (signal pid s h))
              (λ u. Ensures-return _))
      ])

  renice_process-Safe :
      (pid nice : Option ℤ) → Ensures (IsAllowed os cfg req) (renice_process os pid nice)
  unfolding renice_process
  renice_process-Safe none nice = Ensures-fail _
  renice_process-Safe (some pid) none = Ensures-fail _
  renice_process-Safe (some pid) (some nice) =
      Ensures-guard (protected_pid os pid || not (in_nice_range nice)) _ _ (λ h.
        let (free, range) = or_false _ _ h in
        Ensures-bind _ _
          (Ensures-perform os (set_priority pid nice) (renice pid nice free (not-false _ range)))
          (λ u. Ensures-return _))

  service_action-Safe : Ensures (IsAllowed os cfg req) (service_action os cfg req)
  unfolding service_action
  service_action-Safe =
      Ensures-guard (not (valid_unit req.target) || not (contains req.target cfg.service_allowlist))
        _ _
        (λ listed.
          let (valid, allowed) = or_false _ _ listed in
          Ensures-guard (contains req.target cfg.protected_services) _ _ (λ free.
            Ensures-guard (not (contains (param req (bytes "verb")) service_verbs)) _ _ (λ verb.
              Ensures-run os _ _ (
                service (param req (bytes "verb")) (not-false _ verb) (not-false _ valid)
                  (not-false _ allowed) free))))

  docker_action-Safe : Ensures (IsAllowed os cfg req) (docker_action os req)
  unfolding docker_action
  docker_action-Safe =
      Ensures-guard
        (not (contains (param req (bytes "verb")) docker_verbs) || not (valid_docker_id req.target))
        _ _
        (λ h.
          let (verb, valid) = or_false _ _ h in
          Ensures-run os _ _
            (docker (param req (bytes "verb")) (not-false _ verb) (not-false _ valid)))

  power_action-Safe :
      (phrase command refusal answer : Text)
      → (param req (bytes "confirm") ≡ phrase
          → IsAllowed os cfg req (delayed (bytes "systemctl") (command ∷ [])))
      → Ensures (IsAllowed os cfg req) (power_action phrase command refusal answer req)
  unfolding power_action
  power_action-Safe phrase command refusal answer allowed =
      Ensures-guard (not (param req (bytes "confirm") == phrase)) _ _ (λ h.
        Ensures-bind _ _
          (Ensures-schedule_command _ _ (allowed ((==_iff _ phrase).0 (not-false _ h))))
          (λ u. Ensures-return _))

  toggle_schedule-Safe : Ensures (IsAllowed os cfg req) (toggle_schedule os req)
  unfolding toggle_schedule
  toggle_schedule-Safe = Ensures-guard (not (valid_job_name req.target)) _ _ (λ h.
      Ensures-run os _ _
        (timer _ (toggle_verb (param req (bytes "enabled") == bytes "true")) (not-false _ h)))

  run_schedule-Safe : Ensures (IsAllowed os cfg req) (run_schedule os req)
  unfolding run_schedule
  run_schedule-Safe =
      Ensures-guard (not (valid_job_name req.target)) _ _
        (λ h. Ensures-run os _ _ (run_job (not-false _ h)))

  write_secret-Safe :
      (value : Text) → Ensures (IsAllowed os cfg req) (write_secret os cfg req.target value)
  unfolding write_secret
  write_secret-Safe value =
      Ensures-guard
        (not (safe_id req.target)
          || value == []
          || ltb 4096 (length value)
          || contains_any value line_breaks)
        _ _
        (λ h.
          let (safe, lines) = first_last _ _ _ _ h in
          Ensures-bind _ _ (Ensures-perform os _ secret_dir) (λ u.
            Ensures-bind _ _
              (Ensures-atomic_write os _ _ _ (write_secret_file value (not-false _ safe) lines))
              (λ u. Ensures-return _)))

  delete_secret-Safe : Ensures (IsAllowed os cfg req) (delete_secret os cfg req.target)
  unfolding delete_secret
  delete_secret-Safe = Ensures-guard (not (safe_id req.target)) _ _ (λ h.
      Ensures-bind _ _
        (Ensures-ignore_missing os _ (Ensures-perform os _ (remove_secret (not-false _ h))))
        (λ u. Ensures-return _))

  install_units-Safe :
      (run_as calendar exec_line : Text)
      → valid_job_name req.target ≡ true
      → contains (param req (bytes "executable")) cfg.job_executables ≡ true
      → Ensures (IsAllowed os cfg req) (install_units os req.target run_as calendar exec_line)
  unfolding install_units
  install_units-Safe run_as calendar exec_line name listed =
      Ensures-bind _ _ (Ensures-atomic_write os _ _ _ (write_service _ name listed)) (λ u.
        Ensures-bind _ _ (Ensures-atomic_write os _ _ _ (write_timer _ name listed)) (λ u.
          Ensures-bind _ _ (Ensures-run os _ _ reload)
            (λ u. Ensures-run os _ _ (timer (bytes "enable") (toggle_verb true) name))))

  create_schedule-Safe : Ensures (IsAllowed os cfg req) (create_schedule os cfg req)
  unfolding create_schedule
  create_schedule-Safe =
      let executable = param req (bytes "executable") in
      let calendar = param req (bytes "calendar") in
      let user = param req (bytes "user") in
      let run_as = if user == [] then bytes "root" else user in
      Ensures-guard
        (not (valid_job_name req.target) || not (contains executable cfg.job_executables)) _ _
        (λ h.
          let (name, listed) = or_false _ _ h in
          Ensures-guard (not (os.is_abs executable) || contains_any executable line_breaks) _ _
            (λ lines. Ensures-guard (not (os.known_user run_as)) _ _ (λ known.
              Ensures-guard (calendar == [] || contains_any calendar line_breaks) _ _ (λ one_line.
                Ensures-bind _ _
                  (Ensures-prefix_error _ _
                    (Ensures-run os _ _ (check_calendar calendar (or_false _ _ one_line).1)))
                  (λ u.
                    Ensures-bind _ _ (Ensures-lift_args (parse_args os (param req (bytes "args"))))
                      (λ args.
                        install_units-Safe run_as calendar
                          (append_args (systemd_quote executable) args) (not-false _ name)
                          (not-false _ listed)))))))

  remove_found-Safe :
      (path : Text) (found : Option Bool)
      → (found ≡ some true → IsAllowed os cfg req (remove_file path))
      → Ensures (IsAllowed os cfg req) (remove_found os path found)
  remove_found-Safe path none allowed = Ensures-return _
  remove_found-Safe path (some true) allowed = Ensures-perform os _ (allowed refl)
  remove_found-Safe path (some false) allowed = Ensures-fail _

  remove_unit-Safe :
      (path : Text)
      → (os.lstat path ≡ some true → IsAllowed os cfg req (remove_file path))
      → Ensures (IsAllowed os cfg req) (remove_unit os path)
  unfolding remove_unit
  remove_unit-Safe path = remove_found-Safe path (os.lstat path)

  delete_schedule-Safe : Ensures (IsAllowed os cfg req) (delete_schedule os req.target)
  unfolding delete_schedule
  delete_schedule-Safe = Ensures-guard (not (valid_job_name req.target)) _ _ (λ h.
      Ensures-bind _ _
        (Ensures-attempt _
          (Ensures-run os _ _ (timer (bytes "disable") (toggle_verb false) (not-false _ h))))
        (λ u. Ensures-bind _ _ (remove_unit-Safe _ (remove_timer (not-false _ h))) (λ u.
          Ensures-bind _ _ (remove_unit-Safe _ (remove_service (not-false _ h)))
            (λ u. Ensures-run os _ _ reload))))

  -- Whatever the request, and whatever the operating system answers, every effect of execute is one
  -- that the policy allows, also where an error ends the action after some effects.
  pub execute-Ensures : Ensures (IsAllowed os cfg req) (execute os cfg req)
  unfolding execute
  execute-Ensures =
      Ensures-if (req.action == bytes "process.signal") _ _ (λ h. signal_process-Safe _)
        (λ h.
          Ensures-if (req.action == bytes "process.renice") _ _ (λ h. renice_process-Safe _ _)
            (λ h.
              Ensures-if (req.action == bytes "service") _ _ (λ h. service_action-Safe)
                (λ h.
                  Ensures-if (req.action == bytes "maintenance.run") _ _
                    (λ h. Ensures-run os _ _ maintenance)
                    (λ h.
                      Ensures-if (req.action == bytes "docker") _ _ (λ h. docker_action-Safe)
                        (λ h.
                          Ensures-if (req.action == bytes "power.reboot") _ _
                            (λ h. power_action-Safe _ _ _ _ reboot)
                            (λ h.
                              Ensures-if (req.action == bytes "power.shutdown") _ _
                                (λ h. power_action-Safe _ _ _ _ shutdown)
                                (λ h.
                                  Ensures-if (req.action == bytes "schedule.create") _ _
                                    (λ h. create_schedule-Safe)
                                    (λ h.
                                      Ensures-if (req.action == bytes "schedule.delete") _ _
                                        (λ h. delete_schedule-Safe)
                                        (λ h.
                                          Ensures-if (req.action == bytes "schedule.toggle") _ _
                                            (λ h. toggle_schedule-Safe)
                                            (λ h.
                                              Ensures-if (req.action == bytes "schedule.run") _ _
                                                (λ h. run_schedule-Safe)
                                                (λ h.
                                                  Ensures-if (req.action == bytes "secret.write") _
                                                    _ (λ h. write_secret-Safe _)
                                                    (λ h.
                                                      Ensures-if
                                                        (req.action == bytes "secret.delete") _ _
                                                        (λ h. delete_secret-Safe)
                                                        (λ h. Ensures-fail _)))))))))))))
