-- ===== src/App/Actions.antt =====
-- internal/app/server.go: redactParams, forwardAction, actions, schedules, processDetail, session,
-- health, dockerErrors and percent's integer part, behind requireAuth (health is public). `answer`
-- is what the agent answers to a request: an error, or its response.
pub mod Forwarding
use servora.Prelude.{
  Bool, List, Option, Result, Table, Text, [], atoi, bytes, contains_text, err, false, has_prefix,
  if◌then◌else◌, itoa, ltb, none, not, ok, some, trim_prefix, true, ℕ, ◌++◌, ◌||◌, ◌∷◌,
}
use servora.Store.Audits.{Audit}
use servora.Store.Sessions.{Session}
use servora.Agent.Actions.Schedule.{ActionRequest}
use servora.App.Items.{audit_result}
use servora.App.Http.{
  Method, get, post, delete, head, Request, Net, Reply, json, error, method_not_allowed, is_get,
  is_post,
}

-- strings.ToLower is `lower`.
unfoldable pub is_sensitive : (lower : Text → Text) (key : Text) → Bool
is_sensitive lower key =
    contains_text (lower key) (bytes "token") || contains_text (lower key) (bytes "password")

unfoldable pub redact_params : (lower : Text → Text) → Table Text Text → Table Text Text
unfolding is_sensitive
redact_params lower [] = []
redact_params lower ((key, value) ∷ params) =
    (key, (if is_sensitive lower key then bytes "[REDACTED]" else value))
    ∷ redact_params lower params

-- What a handler does: the requests that it sends to the agent, the audit log, and its answer.
pub record Outcome (R : Type 0) : Type 0 where
  pub sent : List ActionRequest
  pub audits : List Audit
  pub reply : Reply R

abbrev pub failure_of : {R : Type 0} → Result Text R → Option Text
failure_of (ok response) = none
failure_of (err message) = some message

abbrev reply_of : {R : Type 0} → Result Text R → Reply R
reply_of (ok response) = json 200 response
reply_of (err message) = error 400 (bytes "action_failed")

module _ {R : Type 0} (net : Net) (lower : Text → Text) (marshal : Table Text Text → Text) (now : ℕ)
    (answer : ActionRequest → Result Text R) where
  unfoldable pub forward_action : Session → Request → ActionRequest → List Audit → Outcome R
  unfolding redact_params
  forward_action session r req audits = record {
    sent = req ∷ [];
    audits =
        audit_result net session r req.action req.target (marshal (redact_params lower req.params))
          (failure_of (answer req)) now audits;
    reply = reply_of (answer req);
  }

  abbrev refused : List Audit → Reply R → Outcome R
  refused audits reply = record { sent = []; audits = audits; reply = reply }

  -- A body is `none` where decodeJSON refuses it.
  abbrev pub checked :
      (allowed : ActionRequest → Bool) (denial : Reply R)
      → Session
      → Request
      → List Audit
      → Option ActionRequest
      → Outcome R
  checked allowed denial session r audits none = refused audits (error 400 (bytes "invalid_json"))
  checked allowed denial session r audits (some req) =
      if allowed req then forward_action session r req audits else refused audits denial

  unfoldable pub actions : Session → Request → Option ActionRequest → List Audit → Outcome R
  unfolding forward_action
  actions session r body audits =
      if not (is_post r.method)
      then refused audits method_not_allowed
      else checked
          (λ req.
            not (
              has_prefix req.action (bytes "secret.") || has_prefix req.action (bytes "schedule.")))
          (error 403 (bytes "action_denied")) session r audits body

  abbrev pub changes_schedule : Method → Bool
  changes_schedule post = true
  changes_schedule delete = true
  changes_schedule _ = false

  -- `listed` is the answer to a GET: the timers of the snapshot and the executables.
  unfoldable pub schedules :
      (listed : R) → Session → Request → Option ActionRequest → List Audit → Outcome R
  unfolding forward_action
  schedules listed session r body audits =
      if is_get r.method
      then refused audits (json 200 listed)
      else if not (changes_schedule r.method)
      then refused audits method_not_allowed
      else checked (λ req. has_prefix req.action (bytes "schedule."))
          (error 400 (bytes "invalid_action")) session r audits body

-- processDetail: the path of the request to the agent, or the refusal.
abbrev process_path : Option ℕ → Result (Reply Unit) Text
process_path none = err (error 400 (bytes "invalid_pid"))
process_path (some pid) =
    if ltb pid 1
    then err (error 400 (bytes "invalid_pid"))
    else ok (bytes "http://agent/v1/process/" ++ itoa pid)

unfoldable pub process_detail : Request → Result (Reply Unit) Text
process_detail r =
    if not (is_get r.method)
    then err method_not_allowed
    else process_path (atoi (trim_prefix r.path (bytes "/api/v1/processes/")))

-- The fields of the answer of session: username, csrf, version and role.
unfoldable pub session_info :
    (version : Text) → Session → Request → Reply (Text × Text × Text × Text)
session_info version session r =
    if not (is_get r.method)
    then method_not_allowed
    else json 200 (session.user, session.csrf, version, bytes "admin")

abbrev reads : Method → Bool
reads get = true
reads head = true
reads _ = false

-- `reachable` is whether the database answers a ping.
unfoldable pub health : (reachable : Bool) → Request → Reply Bool
health reachable r =
    if not (reads r.method)
    then method_not_allowed
    else json (if reachable then 200 else 503) reachable

unfoldable pub docker_errors : List Text → List Text
docker_errors [] = []
docker_errors (message ∷ errors) =
    let rest = docker_errors errors in
    if has_prefix message (bytes "Docker: ")
    then trim_prefix message (bytes "Docker: ") ∷ rest
    else rest
