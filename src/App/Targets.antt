-- ===== src/App/Targets.antt =====
-- internal/app/server.go: validNotificationTarget, notificationTargets, notificationTargetItem,
-- sendToTarget, notifyRule and agentAction, with the directory of secrets that the agent keeps for
-- the web server (internal/agent/server.go, secret.write and secret.delete).
pub mod Backed
pub mod Requests
pub mod Secrecy
use servora.Prelude.{
  Bool, List, Option, Table, Text, [], all_of, bytes, cut_at, false, find, has_suffix,
  if◌then◌else◌, is_digit, is_lower, is_upper, leb, length, nat_beq, none, not, put, remove, some,
  trim_prefix, trim_suffix, ℕ, ◌&&◌, ◌==◌, ◌||◌, ◌∷◌, text_eq,
}
use servora.Store.Audits.{Audit}
use servora.Store.Sessions.{Session}
use servora.Store.Objects.{
  NotificationTarget, Targets, notification_targets, put_notification_target,
  delete_notification_target,
}
use servora.Agent.Actions.Schedule.{ActionRequest}
use servora.Agent.Actions.Validate.{safe_id}
use servora.App.Items.{audit_result, is_ok, is_delete, or_database_error, stored}
use servora.App.Http.{
  Method, get, post, delete, Request, Net, Reply, json, error, method_not_allowed, is_post,
}

-- ^-?[0-9]{1,20}$
abbrev digits_between : (low high : ℕ) → Text → Bool
digits_between low high s = leb low (length s) && leb (length s) high && all_of is_digit s

unfoldable pub valid_chat_id : Text → Bool
valid_chat_id [] = false
valid_chat_id (c ∷ s) =
    if nat_beq c b'-' then digits_between 1 20 s else digits_between 1 20 (c ∷ s)

-- [A-Za-z0-9_-]
unfoldable pub is_token_char : ℕ → Bool
is_token_char c = is_lower c || is_upper c || is_digit c || nat_beq c b'_' || nat_beq c b'-'

abbrev token_parts : Option (Text × Text) → Bool
token_parts none = false
token_parts (some (number, key)) =
    digits_between 5 20 number
    && leb 20 (length key)
    && leb (length key) 128
    && all_of is_token_char key

-- ^[0-9]{5,20}:[A-Za-z0-9_-]{20,128}$
unfoldable pub valid_token : Text → Bool
valid_token s = token_parts (cut_at b':' s)

-- strings.TrimSpace is `trim_space`.
unfoldable pub valid_notification_target :
    (trim_space : Text → Text) (name provider chat_id token : Text) → Bool
unfolding valid_chat_id valid_token
valid_notification_target trim_space name provider chat_id token =
    not (trim_space name == [])
    && leb (length name) 128
    && provider == bytes "telegram"
    && valid_chat_id chat_id
    && valid_token token

-- The files of the agent's directory of secrets.
abbrev pub Secrets : Type 0
Secrets = Table Text Text

abbrev write_request : (ref value : Text) → ActionRequest
write_request ref value = record {
  action = bytes "secret.write";
  target = ref;
  params = (bytes "value", value) ∷ [];
}

abbrev delete_request : (ref : Text) → ActionRequest
delete_request ref = record { action = bytes "secret.delete"; target = ref; params = [] }

-- agentAction with one of the two requests. `answer` is its error, if there is one; an agent that
-- refuses has changed nothing.
unfoldable pub write_secret :
    (answer : ActionRequest → Option Text) (ref value : Text) → Secrets → Option Text × Secrets
write_secret answer ref value secrets =
    let failure = answer (write_request ref value) in
    (failure, stored failure secrets (put ref value secrets))

unfoldable pub delete_secret :
    (answer : ActionRequest → Option Text) (ref : Text) → Secrets → Option Text × Secrets
delete_secret answer ref secrets =
    let failure = answer (delete_request ref) in
    (failure, stored failure secrets (remove ref secrets))

-- What the handlers change: the table, the audit log, and the agent's secrets.
pub record TargetsDb : Type 0 where
  pub targets : Targets
  pub audits : List Audit
  pub secrets : Secrets

-- The body of a POST: a NotificationTarget, whose id and secret_ref are not taken, and the token.
pub record TargetInput : Type 0 where
  pub target : NotificationTarget
  pub token : Text

pub data TargetPayload : Type 0 where
  target_items : List NotificationTarget → TargetPayload
  target_saved : NotificationTarget → TargetPayload
  success no_content : TargetPayload

-- What the calls of a handler answer: the agent, the database's statement, randomID twice, the
-- clock, strings.TrimSpace, and json.Marshal of the audited chat id.
pub record TargetCalls : Type 0 where
  pub answer : ActionRequest → Option Text
  pub failure : Option Text
  pub random_id : Text
  pub random_ref : Text
  pub now : ℕ
  pub trim_space : Text → Text
  pub marshal : (chat_id : Text) → Text

abbrev or_telegram : Text → Text
or_telegram provider = if provider == [] then bytes "telegram" else provider

module _ (net : Net) (c : TargetCalls) where
  abbrev pub new_target : TargetInput → NotificationTarget
  new_target input = record input.target {
    id = c.random_id;
    provider = or_telegram input.target.provider;
    secret_ref = c.random_ref;
  }

  -- After the secret is written: a target that the database refuses has its secret deleted again.
  unfoldable pub keep_target :
      Session → Request → NotificationTarget → TargetsDb → TargetsDb × Reply TargetPayload
  unfolding delete_secret
  keep_target session r target db =
      let (_, undone) = delete_secret c.answer target.secret_ref db.secrets in
      (
        record {
          targets = stored c.failure db.targets (put_notification_target target db.targets);
          audits =
              audit_result net session r (bytes "notification_target.save") target.id
                (c.marshal target.chat_id) c.failure c.now db.audits;
          secrets = stored c.failure undone db.secrets;
        },
        or_database_error c.failure (json 201 (target_saved target)),
      )

  unfoldable pub save_target :
      Session → Request → TargetInput → TargetsDb → TargetsDb × Reply TargetPayload
  unfolding keep_target write_secret
  save_target session r input db =
      let target = new_target input in
      let (failed, secrets) = write_secret c.answer target.secret_ref input.token db.secrets in
      let kept = keep_target session r target (record db { secrets = secrets }) in
      if not (
        valid_notification_target c.trim_space target.name target.provider target.chat_id
          input.token)
      then (db, error 400 (bytes "invalid_target"))
      else if is_ok failed
      then kept
      else (record db { secrets = secrets }, error 502 (bytes "agent_error"))

  unfoldable pub targets_by_method :
      Method → Session → Request → Option TargetInput → TargetsDb → TargetsDb × Reply TargetPayload
  unfolding save_target
  targets_by_method get session r body db =
      (db, or_database_error c.failure (json 200 (target_items (notification_targets db.targets))))
  targets_by_method post session r none db = (db, error 400 (bytes "invalid_json"))
  targets_by_method post session r (some input) db = save_target session r input db
  targets_by_method _ session r body db = (db, method_not_allowed)

  unfoldable pub notification_targets_handler :
      Session → Request → Option TargetInput → TargetsDb → TargetsDb × Reply TargetPayload
  unfolding targets_by_method
  notification_targets_handler session r body db = targets_by_method r.method session r body db

  -- The secret_ref of the row with the id, "" where there is none; the id is the table's key.
  abbrev pub secret_of : Option NotificationTarget → Text
  secret_of none = []
  secret_of (some target) = target.secret_ref

  -- DELETE of a target, then of its secret, which is not known where the rows cannot be listed; the
  -- agent's error is ignored.
  unfoldable pub delete_target :
      (listed : Option Text)
      → Session
      → Request
      → (id : Text) → TargetsDb
      → TargetsDb × Reply TargetPayload
  unfolding delete_secret
  delete_target listed session r id db =
      let secret = if is_ok listed then secret_of (find id db.targets) else [] in
      let (_, left) = delete_secret c.answer secret db.secrets in
      (
        record {
          targets = stored c.failure db.targets (delete_notification_target id db.targets);
          audits =
              audit_result net session r (bytes "notification_target.delete") id (bytes "null")
                c.failure c.now db.audits;
          secrets = if is_ok c.failure && not (secret == []) then left else db.secrets;
        },
        or_database_error c.failure (json 204 no_content),
      )

  -- The first enabled row with the id; the id is the table's key.
  abbrev enabled_target : Option NotificationTarget → Option NotificationTarget
  enabled_target none = none
  enabled_target (some target) = if target.enabled then some target else none

  abbrev send_with :
      (send : (chat_id token message : Text) → Option Text) (message : Text)
      → NotificationTarget
      → Option Text
      → Option Text
  send_with send message target none = some (bytes "notification secret unavailable")
  send_with send message target (some token) = send target.chat_id (c.trim_space token) message

  abbrev send_target :
      (send : (chat_id token message : Text) → Option Text) (message : Text)
      → Secrets
      → Option NotificationTarget
      → Option Text
  send_target send message secrets none = some (bytes "notification target not found")
  send_target send message secrets (some target) =
      send_with send message target (find target.secret_ref secrets)

  -- The error, if there is one; `send` is the call of Telegram.
  unfoldable pub send_to_target :
      (send : (chat_id token message : Text) → Option Text) (listed : Option Text)
      → (id message : Text) → TargetsDb
      → Option Text
  send_to_target send listed id message db =
      let outcome = send_target send message db.secrets (enabled_target (find id db.targets)) in
      elim listed [ none ↦ outcome | some failure ↦ some failure ]

  -- The errors that notifyRule logs, one for each id of the list that is not blank.
  unfoldable pub notify_rule :
      (send : (chat_id token message : Text) → Option Text) (listed : Option Text)
      → (ids : List Text) (message : Text) → TargetsDb
      → List (Option Text)
  unfolding send_to_target
  notify_rule send listed [] message db = []
  notify_rule send listed (id ∷ ids) message db =
      let rest = notify_rule send listed ids message db in
      if c.trim_space id == []
      then rest
      else send_to_target send listed (c.trim_space id) message db ∷ rest

  unfoldable pub target_item :
      (send : (chat_id token message : Text) → Option Text) (listed : Option Text)
      → Session
      → Request
      → TargetsDb
      → TargetsDb × Reply TargetPayload
  unfolding delete_target send_to_target
  target_item send listed session r db =
      let path = trim_prefix r.path (bytes "/api/v1/notification-targets/") in
      let id = trim_suffix path (bytes "/test") in
      let sent = send_to_target send listed id (bytes "✅ Servora test message") db in
      let tested : TargetsDb = record db {
        audits =
            audit_result net session r (bytes "notification_target.test") id (bytes "null") sent
              c.now db.audits;
      } in
      if has_suffix path (bytes "/test")
      then (if not (is_post r.method) || not (safe_id id)
          then (db, method_not_allowed)
          else if is_ok sent
          then (tested, json 200 success)
          else (tested, error 502 (bytes "telegram_error")))
      else if not (is_delete r.method) || not (safe_id path)
      then (db, method_not_allowed)
      else delete_target listed session r path db
