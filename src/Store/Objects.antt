-- ===== src/Store/Objects.antt =====
-- internal/store/store.go: the tables watches, alert_rules and notification_targets, whose rows are
-- listed, saved and deleted by id.
use servora.Prelude.{
  Bool, List, Option, Table, Text, find, if◌then◌else◌, ltb, map, newest_first, none, put, remove,
  some, take, ℕ, ◌||◌, text_eq,
}
use servora.Clock.{unix, from_unix}
use servora.Store.Audits.{Audit}
use servora.Store.Alerts.{Alert, Alerts, of_alert_row}
use servora.App.Alerts.{AlertRule}

pub record Watch : Type 0 where
  pub id : Text
  pub name : Text
  pub field : Text
  pub pattern : Text
  pub created_by : Text
  pub enabled : Bool
  pub created_at : ℕ

-- A row is a Watch whose created_at counts whole seconds.
abbrev pub Watches : Type 0
Watches = Table Text Watch

-- INSERT, or ON CONFLICT(id) DO UPDATE of name, field, pattern and enabled.
abbrev pub stored_watch : Watch → (now : ℕ) → Option Watch → Watch
stored_watch w now none = record w { created_at = unix now }
stored_watch w now (some row) = record row {
  name = w.name;
  field = w.field;
  pattern = w.pattern;
  enabled = w.enabled;
}

unfoldable pub put_watch : Watch → (now : ℕ) → Watches → Watches
put_watch w now t = put w.id (stored_watch w now (find w.id t)) t

unfoldable pub watches : Watches → List Watch
watches t =
    map (λ (entry : Text × Watch). record entry.1 { created_at = from_unix entry.1.created_at })
      (newest_first (λ (entry : Text × Watch). entry.1.created_at) t)

unfoldable pub delete_watch : (id : Text) → Watches → Watches
delete_watch id t = remove id t

abbrev pub AlertRules : Type 0 → Type 0
AlertRules F = Table Text (AlertRule F)

unfoldable pub alert_rules : {F : Type 0} → AlertRules F → List (AlertRule F)
alert_rules t = map (λ (entry : Text × AlertRule _). entry.1) t

-- Every column but the id is updated on a known id.
unfoldable pub put_alert_rule : {F : Type 0} → AlertRule F → AlertRules F → AlertRules F
put_alert_rule r t = put r.id r t

unfoldable pub delete_alert_rule : {F : Type 0} → (id : Text) → AlertRules F → AlertRules F
delete_alert_rule id t = remove id t

pub record NotificationTarget : Type 0 where
  pub id : Text
  pub name : Text
  pub provider : Text
  pub chat_id : Text
  pub secret_ref : Text
  pub enabled : Bool

abbrev pub Targets : Type 0
Targets = Table Text NotificationTarget

unfoldable pub notification_targets : Targets → List NotificationTarget
notification_targets t = map (λ (entry : Text × NotificationTarget). entry.1) t

unfoldable pub put_notification_target : NotificationTarget → Targets → Targets
put_notification_target target t = put target.id target t

unfoldable pub delete_notification_target : (id : Text) → Targets → Targets
delete_notification_target id t = remove id t

-- A limit outside 1 to 1000 is 200.
unfoldable pub recent_audits : (limit : ℕ) → List Audit → List Audit
recent_audits limit rows =
    take (if ltb limit 1 || ltb 1000 limit then 200 else limit)
      (newest_first (λ (row : Audit). row.ts) rows)

unfoldable pub recent_alerts : (limit : ℕ) → Alerts → List Alert
recent_alerts limit t =
    take limit
      (newest_first (λ (a : Alert). a.updated_at) (map (λ entry. of_alert_row entry.0 entry.1) t))
