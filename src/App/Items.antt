-- ===== src/App/Items.antt =====
-- internal/app/server.go: decodeJSON, auditResult, watches, watchItem, alertRules, alertRuleItem,
-- alerts, alertItem and activities, behind requireAuth. What the database, the clock, randomID and
-- the body of a request answer are arguments: `failure` is the error of the statement, if there is
-- one, and a body is `none` where decodeJSON refuses it.
pub mod Rules
use servora.Prelude.{
  Bool, List, Option, Text, [], bytes, false, has_suffix, if◌then◌else◌, none, not, some,
  trim_prefix, trim_suffix, true, ℕ, ◌&&◌, ◌*◌, ◌-◌, ◌==◌, ◌||◌, text_eq,
}
use servora.Clock.{hour}
use servora.Store.Audits.{Audit, audit}
use servora.Store.Sessions.{Session}
use servora.Store.Alerts.{Alert, Alerts, acknowledge_alert}
use servora.Store.Objects.{
  Watch, Watches, watches, put_watch, delete_watch, AlertRules, alert_rules, put_alert_rule,
  delete_alert_rule, Targets, recent_audits, recent_alerts,
}
use servora.Agent.Actions.Validate.{safe_id}
use servora.App.Alerts.{AlertRule, Floats, valid_alert_rule}
use servora.App.Http.{
  Method, get, post, delete, Request, Net, Reply, json, error, method_not_allowed, peer_ip, is_get,
  is_post,
}

-- What the handlers write.
pub data Payload (F H : Type 0) : Type 0 where
  watch_items : List Watch → Payload F H
  watch_points : H → Payload F H
  watch_saved : Watch → Payload F H
  rule_items : List (AlertRule F) → Payload F H
  rule_saved : AlertRule F → Payload F H
  alert_items : List Alert → Payload F H
  audit_items : List Audit → Payload F H
  success : Payload F H
  no_content : Payload F H

pub record ItemsDb (F : Type 0) : Type 0 where
  pub watch_rows : Watches
  pub rule_rows : AlertRules F
  pub alert_rows : Alerts
  pub audits : List Audit

abbrev result_text : Option Text → Text
result_text none = bytes "operation completed"
result_text (some message) = message

abbrev pub is_ok : Option Text → Bool
is_ok none = true
is_ok (some message) = false

unfoldable pub audit_result :
    Net
    → Session
    → Request
    → (action target params : Text) (failure : Option Text) (now : ℕ) → List Audit
    → List Audit
audit_result net session r action target params failure now rows =
    audit session.user (peer_ip net r) action target params (is_ok failure) (result_text failure)
      now rows

abbrev pub is_delete : Method → Bool
is_delete delete = true
is_delete _ = false

-- A statement that has failed has changed nothing.
abbrev pub stored : {A : Type 0} → (failure : Option Text) → (before after : A) → A
stored none before after = after
stored (some message) before after = before

-- writeError(w, 500, "database_error", …) or the reply.
abbrev pub or_database_error : {A : Type 0} → (failure : Option Text) → Reply A → Reply A
or_database_error none reply = reply
or_database_error (some message) reply = error 500 (bytes "database_error")

-- The id of a body, or a random one where it is empty.
abbrev pub id_or : (random_id id : Text) → Text
id_or random_id id = if id == [] then random_id else id

module _ {F H : Type 0} (net : Net) (floats : Floats F) (now : ℕ) (failure : Option Text)
    (random_id : Text) where
  unfoldable pub save_watch :
      (compiles : Text → Bool) (marshal : Watch → Text)
      → Session
      → Request
      → Watch
      → ItemsDb F
      → ItemsDb F × Reply (Payload F H)
  save_watch compiles marshal session r body db =
      let item : Watch = record body { id = id_or random_id body.id; created_by = session.user } in
      let saved : ItemsDb F = record db {
        watch_rows = put_watch item now db.watch_rows;
        audits =
            audit session.user (peer_ip net r) (bytes "watch.create") item.id (marshal item) true
              (bytes "watch saved") now db.audits;
      } in
      if body.name == []
        || (not (body.field == bytes "name")
            && not (body.field == bytes "executable")
            && not (body.field == bytes "command"))
      then (db, error 400 (bytes "invalid_watch"))
      else if not (compiles body.pattern)
      then (db, error 400 (bytes "invalid_regex"))
      else (stored failure db saved, or_database_error failure (json 201 (watch_saved item)))

  unfoldable pub watches_handler :
      (compiles : Text → Bool) (marshal : Watch → Text)
      → Session
      → Request
      → Option Watch
      → ItemsDb F
      → ItemsDb F × Reply (Payload F H)
  unfolding save_watch
  watches_handler compiles marshal session r body db = elim r.method [
    | get ↦ (db, or_database_error failure (json 200 (watch_items (watches db.watch_rows))))
    | post ↦ elim body [
      | none ↦ (db, error 400 (bytes "invalid_json"))
      | some item ↦ save_watch compiles marshal session r item db
    ]
    | _ ↦ (db, method_not_allowed)
  ]

  -- `points` is the answer of WatchHistory for an id, a first instant and a limit.
  unfoldable pub watch_item :
      (points : (id : Text) (from limit : ℕ) → H)
      → Session
      → Request
      → ItemsDb F
      → ItemsDb F × Reply (Payload F H)
  watch_item points session r db =
      let id = trim_prefix r.path (bytes "/api/v1/watches/") in
      let deleted : ItemsDb F = record db {
        watch_rows = stored failure db.watch_rows (delete_watch id db.watch_rows);
        audits =
            audit_result net session r (bytes "watch.delete") id (bytes "null") failure now
              db.audits;
      } in
      if not (safe_id id)
      then (db, method_not_allowed)
      else if is_get r.method
      then (
        db,
        or_database_error failure (json 200 (watch_points (points id (now - 24 * hour) 10000))),
      )
      else if not (is_delete r.method)
      then (db, method_not_allowed)
      else (deleted, or_database_error failure (json 204 no_content))

  unfoldable pub save_rule :
      (marshal : AlertRule F → Text)
      → Session
      → Request
      → AlertRule F
      → ItemsDb F
      → ItemsDb F × Reply (Payload F H)
  save_rule marshal session r body db =
      let item : AlertRule F = record body { id = id_or random_id body.id } in
      let saved : ItemsDb F = record db {
        rule_rows = stored failure db.rule_rows (put_alert_rule item db.rule_rows);
        audits =
            audit_result net session r (bytes "alert_rule.save") item.id (marshal item) failure now
              db.audits;
      } in
      if not (valid_alert_rule floats item)
      then (db, error 400 (bytes "invalid_rule"))
      else (saved, or_database_error failure (json 201 (rule_saved item)))

  -- The switch on the method.
  unfoldable pub rules_by_method :
      Method
      → (marshal : AlertRule F → Text) → Session
      → Request
      → Option (AlertRule F)
      → ItemsDb F
      → ItemsDb F × Reply (Payload F H)
  unfolding save_rule
  rules_by_method get marshal session r body db =
      (db, or_database_error failure (json 200 (rule_items (alert_rules db.rule_rows))))
  rules_by_method post marshal session r none db = (db, error 400 (bytes "invalid_json"))
  rules_by_method post marshal session r (some item) db = save_rule marshal session r item db
  rules_by_method _ marshal session r body db = (db, method_not_allowed)

  unfoldable pub alert_rules_handler :
      (marshal : AlertRule F → Text)
      → Session
      → Request
      → Option (AlertRule F)
      → ItemsDb F
      → ItemsDb F × Reply (Payload F H)
  unfolding rules_by_method
  alert_rules_handler marshal session r body db = rules_by_method r.method marshal session r body db

  unfoldable pub alert_rule_item : Session → Request → ItemsDb F → ItemsDb F × Reply (Payload F H)
  alert_rule_item session r db =
      let id = trim_prefix r.path (bytes "/api/v1/alert-rules/") in
      let deleted : ItemsDb F = record db {
        rule_rows = stored failure db.rule_rows (delete_alert_rule id db.rule_rows);
        audits =
            audit_result net session r (bytes "alert_rule.delete") id (bytes "null") failure now
              db.audits;
      } in
      if not (is_delete r.method) || not (safe_id id)
      then (db, method_not_allowed)
      else (deleted, or_database_error failure (json 204 no_content))

  unfoldable pub alerts_handler : Request → ItemsDb F → ItemsDb F × Reply (Payload F H)
  alerts_handler r db = if not (is_get r.method) then (db, method_not_allowed) else (
    db,
    or_database_error failure (json 200 (alert_items (recent_alerts 250 db.alert_rows))),
  )

  unfoldable pub alert_item : Session → Request → ItemsDb F → ItemsDb F × Reply (Payload F H)
  alert_item session r db =
      let id = trim_suffix (trim_prefix r.path (bytes "/api/v1/alerts/")) (bytes "/acknowledge") in
      let done : ItemsDb F = record db {
        alert_rows = stored failure db.alert_rows (acknowledge_alert id now db.alert_rows);
        audits =
            audit_result net session r (bytes "alert.acknowledge") id (bytes "null") failure now
              db.audits;
      } in
      if not (is_post r.method)
        || not (has_suffix r.path (bytes "/acknowledge"))
        || not (safe_id id)
      then (db, method_not_allowed)
      else (done, or_database_error failure (json 200 success))

  unfoldable pub activities : Request → ItemsDb F → ItemsDb F × Reply (Payload F H)
  activities r db =
      if not (is_get r.method)
      then (db, method_not_allowed)
      else (db, or_database_error failure (json 200 (audit_items (recent_audits 500 db.audits))))
