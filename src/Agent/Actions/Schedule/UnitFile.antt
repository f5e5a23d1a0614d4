-- ===== src/Agent/Actions/Schedule/UnitFile.antt =====
-- The unit file that createSchedule of internal/agent/server.go writes: no text of the request adds
-- a line to it.
use servora.Prelude.{
  &&-eq-true, All, List, Result, Text, [], all_of, any_of, ap, arith, bytes, contains_any, count_if,
  err, false, if◌then◌else◌, not, not-false, ok, or_false, refl, true, ◌++◌, ◌+◌, ◌==◌, ◌||◌, ◌∙◌,
  ◌∷◌, ◌≡◌, text_eq,
}
use servora.Agent.Actions.Effects.{
  Os, Act, Effect, write_file, Ensures, Ensures-bind, Ensures-guard, Ensures-run,
  Ensures-atomic_write, ◌>>=◌,
}
use servora.Agent.Actions.Validate.{
  valid_job_name, job_unit, line_breaks, valid_arg, parse_args, parse_args_bounds, newlines,
  newlines-append, newlines-contains_any, newlines-valid_job_name,
}
use servora.Agent.Actions.Quote.{
  systemd_quote, append_args, newlines-systemd_quote, newlines-append_args,
}
use servora.Agent.Actions.Schedule.{
  Ensures-prefix_error, contains, Config, ActionRequest, param, service_text, timer_text, lift_args,
  install_units, create_schedule,
}

newlines-valid_arg : (a : Text) → valid_arg a ≡ true → newlines a ≡ 0
newlines-valid_arg a h =
    newlines-contains_any a (0 ∷ 13 ∷ 10 ∷ []) (unfold valid_arg in ground arith)
      (unfold contains_any any_of in refl)

newlines-args : (args : List Text) → all_of valid_arg args ≡ true → All (λ a. newlines a ≡ 0) args
unfolding all_of
newlines-args [] h = tt
newlines-args (a ∷ args) h =
    let (valid, rest) = &&-eq-true (valid_arg a) (all_of valid_arg args) h in
    (newlines-valid_arg a valid, newlines-args args rest)

breaks : contains_any (10 ∷ []) line_breaks ≡ true
unfolding contains_any any_of
breaks = refl

-- The command line of an accepted request is one line.
newlines-exec_line :
    (os : Os) (executable raw : Text) {args : List Text}
    → contains_any executable line_breaks ≡ false
    → parse_args os raw ≡ ok args
    → newlines (append_args (systemd_quote executable) args) ≡ 0
newlines-exec_line os executable raw {args} clean parsed =
    newlines-append_args _ args (newlines-args args (parse_args_bounds os raw parsed).1)
    ∙ newlines-systemd_quote executable
    ∙ newlines-contains_any executable line_breaks clean breaks

-- A text put together as a unit file is, from labels and texts of the request.
newlines-parts :
    (a b c d x y z : Text)
    → newlines (a ++ (x ++ (b ++ (y ++ (c ++ (z ++ d))))))
      ≡ newlines a + newlines b + newlines c + newlines d + (newlines x + newlines y + newlines z)
newlines-parts a b c d x y z = omega (
  arith,
  newlines-append a (x ++ (b ++ (y ++ (c ++ (z ++ d))))),
  newlines-append x (b ++ (y ++ (c ++ (z ++ d)))),
  newlines-append b (y ++ (c ++ (z ++ d))),
  newlines-append y (c ++ (z ++ d)),
  newlines-append c (z ++ d),
  newlines-append z d,
)

newlines-labels :
    (a b c d x y z : Text)
    → newlines a + newlines b + newlines c + newlines d ≡ 10
    → newlines x ≡ 0
    → newlines y ≡ 0
    → newlines z ≡ 0
    → newlines (a ++ (x ++ (b ++ (y ++ (c ++ (z ++ d)))))) ≡ 10
newlines-labels a b c d x y z labels hx hy hz =
    omega (arith, newlines-parts a b c d x y z, labels, hx, hy, hz)

newlines-service_text :
    (name run_as exec_line : Text)
    → newlines name ≡ 0
    → newlines run_as ≡ 0
    → newlines exec_line ≡ 0
    → newlines (service_text name run_as exec_line) ≡ 10
unfolding service_text newlines count_if bytes
newlines-service_text name run_as exec_line =
    newlines-labels (bytes "[Unit]\nDescription=System Maintenance managed job: ")
      (bytes "\n\n[Service]\nType=oneshot\nUser=") (bytes "\nExecStart=")
      (bytes "\nTimeoutStartSec=1h\nNoNewPrivileges=true\nPrivateTmp=true\n") name run_as exec_line
      refl

newlines-timer_text :
    (base calendar : Text)
    → newlines base ≡ 0
    → newlines calendar ≡ 0
    → newlines (timer_text base calendar) ≡ 10
unfolding timer_text newlines count_if bytes
newlines-timer_text base calendar hb hc =
    newlines-labels (bytes "[Unit]\nDescription=Schedule for ") (bytes "\n\n[Timer]\nOnCalendar=")
      (bytes "\nPersistent=true\nUnit=") (bytes ".service\n\n[Install]\nWantedBy=timers.target\n")
      base calendar base refl hb hc hb

newlines-job_unit : (name : Text) → valid_job_name name ≡ true → newlines (job_unit name) ≡ 0
unfolding job_unit
newlines-job_unit name valid =
    newlines-append (bytes "system-maintenance-job-") name
    ∙ ap (λ n. newlines (bytes "system-maintenance-job-") + n) (newlines-valid_job_name name valid)
    ∙ unfold newlines count_if bytes in refl

-- What is written to a file has ten line breaks.
unfoldable pub IsTenLines : Effect → Type 0
IsTenLines (write_file path content mode) = newlines content ≡ 10
IsTenLines _ = Unit {0}

parsed-bind :
    {B : Type 0} {P : Effect → Type 0} (r : Result Text (List Text)) (f : List Text → Act B)
    → ((args : List Text) → r ≡ ok args → Ensures P (f args))
    → Ensures P (lift_args r >>= f)
unfolding ◌>>=◌
parsed-bind (ok args) f h = record { effects = (h args refl).effects }
parsed-bind (err message) f h = record { effects = tt }

module _ (os : Os) where
  install_units-IsTenLines :
      (name run_as calendar exec_line : Text)
      → valid_job_name name ≡ true
      → newlines run_as ≡ 0
      → newlines calendar ≡ 0
      → newlines exec_line ≡ 0
      → Ensures IsTenLines (install_units os name run_as calendar exec_line)
  unfolding install_units IsTenLines
  install_units-IsTenLines name run_as calendar exec_line valid user one_line command =
      Ensures-bind _ _ (Ensures-atomic_write os _ _ _ service) (λ u.
        Ensures-bind _ _ (Ensures-atomic_write os _ _ _ timer)
          (λ u. Ensures-bind _ _ (Ensures-run os _ _ tt) (λ u. Ensures-run os _ _ tt)))
    where
      service : newlines (service_text name run_as exec_line) ≡ 10
      service =
          newlines-service_text name run_as exec_line (newlines-valid_job_name name valid) user
            command

      timer : newlines (timer_text (job_unit name) calendar) ≡ 10
      timer = newlines-timer_text (job_unit name) calendar (newlines-job_unit name valid) one_line

  -- Each file that create_schedule writes has the ten line breaks of its template, whatever the
  -- request, where a user's name that the system knows has none: no text of a request adds a line to
  -- a unit file.
  pub create_schedule-IsTenLines :
      (cfg : Config) (req : ActionRequest)
      → ((user : Text) → os.known_user user ≡ true → newlines user ≡ 0)
      → Ensures IsTenLines (create_schedule os cfg req)
  unfolding create_schedule
  create_schedule-IsTenLines cfg req users =
      let executable = param req (bytes "executable") in
      let calendar = param req (bytes "calendar") in
      let user = param req (bytes "user") in
      let run_as = if user == [] then bytes "root" else user in
      Ensures-guard
        (not (valid_job_name req.target) || not (contains executable cfg.job_executables)) _ _
        (λ h.
          Ensures-guard (not (os.is_abs executable) || contains_any executable line_breaks) _ _
            (λ clean. Ensures-guard (not (os.known_user run_as)) _ _ (λ known.
              Ensures-guard (calendar == [] || contains_any calendar line_breaks) _ _ (λ one_line.
                Ensures-bind _ _
                  (Ensures-prefix_error _ _ (Ensures-run os _ _ (unfold IsTenLines in tt)))
                  (λ u. parsed-bind (parse_args os (param req (bytes "args"))) _ (λ args parsed.
                    install_units-IsTenLines req.target run_as calendar
                      (append_args (systemd_quote executable) args) (not-false _ (or_false _ _ h).0)
                      (users run_as (not-false _ known))
                      (newlines-contains_any calendar line_breaks (or_false _ _ one_line).1 breaks)
                      (newlines-exec_line os executable (param req (bytes "args"))
                        (or_false _ _ clean).1 parsed)))))))
