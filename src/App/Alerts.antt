-- ===== src/App/Alerts.antt =====
-- internal/app/server.go: compare, validAlertRule and evaluateAlerts, with the AlertRule of
-- internal/store/store.go. A float64 is an element of F, with the tests that the code makes on it;
-- the texts that fmt.Sprintf builds come from `Words`.
pub mod Engine
use servora.Prelude.{
  Bool, List, Option, Text, [], any_of, bytes, false, if◌then◌else◌, leb, none, not, some, true, ℕ,
  ◌&&◌, ◌++◌, ◌+◌, ◌==◌, ◌∷◌, text_eq,
}
use servora.Store.Alerts.{
  Alert, AlertState, pending, firing, acknowledged, resolved, Alerts, active_alert, put_alert,
  is_firing,
}

-- The operations of float64 that the code uses: the order, the equality, zero, and the duration
-- time.Duration(f * float64(time.Second)) in nanoseconds of a float that is not negative.
pub record Floats (F : Type 0) : Type 0 where
  pub lt : F → F → Bool
  pub le : F → F → Bool
  pub eq : F → F → Bool
  pub zero_value : F
  pub nanos : F → ℕ

pub record AlertRule (F : Type 0) : Type 0 where
  pub id : Text
  pub name : Text
  pub source : Text
  pub operator : Text
  pub severity : Text
  pub target_ids : Text
  pub threshold : F
  pub for_seconds : F
  pub cooldown_seconds : F
  pub enabled : Bool
  pub notify_recovery : Bool

-- The message of an alert that triggers and of one that recovers, for a rule and the value of its
-- source; the latter's context of processes and disks is part of them.
pub record Words (F : Type 0) : Type 0 where
  pub triggered : AlertRule F → F → Text
  pub recovered : AlertRule F → F → Text

-- A call of notifyRule for a rule: the fire message or the recovery message of an alert.
pub data Notice : Type 0 where
  fired : (rule_id name message : Text) → Notice
  recovery : (rule_id name message : Text) → Notice

abbrev pub is_pending : AlertState → Bool
is_pending pending = true
is_pending _ = false

-- active.State == "firing" || active.State == "acknowledged"
abbrev pub was_firing : AlertState → Bool
was_firing firing = true
was_firing acknowledged = true
was_firing _ = false

-- The alert that a triggered rule continues, or a new one, whose UpdatedAt is set by `trigger`.
abbrev pub continued : {F : Type 0} (now : ℕ) → AlertRule F → (new_id : Text) → Option Alert → Alert
continued now rule new_id (some active) = active
continued now rule new_id none = record {
  id = new_id;
  rule_id = rule.id;
  name = rule.name;
  severity = rule.severity;
  state = pending;
  message = [];
  started_at = now;
  updated_at = 0;
}

module _ {F : Type 0} (float : Floats F) where
  unfoldable pub compare : (value : F) (op : Text) (threshold : F) → Bool
  compare value op threshold =
      if op == bytes ">"
      then float.lt threshold value
      else if op == bytes ">="
      then float.le threshold value
      else if op == bytes "<"
      then float.lt value threshold
      else if op == bytes "<="
      then float.le value threshold
      else if op == bytes "=="
      then float.eq value threshold
      else false

  abbrev sources : List Text
  sources =
      bytes "cpu"
      ∷ bytes "memory"
      ∷ bytes "swap"
      ∷ bytes "load"
      ∷ bytes "disk"
      ∷ bytes "processes"
      ∷ bytes "containers"
      ∷ bytes "network_total_1h"
      ∷ bytes "network_total_24h"
      ∷ bytes "network_rx_24h"
      ∷ bytes "network_tx_24h"
      ∷ []

  abbrev operators : List Text
  operators = bytes ">" ∷ bytes ">=" ∷ bytes "<" ∷ bytes "<=" ∷ bytes "==" ∷ []

  unfoldable pub valid_alert_rule : AlertRule F → Bool
  unfolding any_of
  valid_alert_rule r =
      not (r.name == [])
      && any_of (λ s. r.source == s) sources
      && any_of (λ o. r.operator == o) operators
      && float.le float.zero_value r.threshold
      && float.le float.zero_value r.for_seconds
      && float.le float.zero_value r.cooldown_seconds

  module _ (words : Words F) (now : ℕ) where
    -- The branch of a triggered rule.
    unfoldable pub trigger : AlertRule F → (value : F) → Alert → Alerts → Alerts × List Notice
    trigger rule value active db =
        let seen = record active { message = words.triggered rule value; updated_at = now } in
        if is_pending active.state && leb (active.started_at + float.nanos rule.for_seconds) now
        then (
          put_alert (record seen { state = firing }) db,
          fired rule.id active.name seen.message ∷ [],
        )
        else (put_alert seen db, [])

    -- The branch of a rule that does not trigger.
    unfoldable pub recover :
        AlertRule F → (value : F) → Option Alert → Alerts → Alerts × List Notice
    recover rule value none db = (db, [])
    recover rule value (some active) db =
        let done = record active {
          state = resolved;
          updated_at = now;
          message = words.recovered rule value;
        } in
        (
          put_alert done db,
          if was_firing active.state && rule.notify_recovery
              then recovery rule.id active.name done.message ∷ []
              else [],
        )

    -- One rule; `value` is what alertValue answers for its source, `new_id` the identifier of an
    -- alert that it may open.
    unfoldable pub evaluate_rule :
        AlertRule F → (value : Option F) → (new_id : Text) → Alerts → Alerts × List Notice
    unfolding trigger recover
    evaluate_rule rule none new_id db = (db, [])
    evaluate_rule rule (some value) new_id db =
        if not rule.enabled
        then (db, [])
        else if compare value rule.operator rule.threshold
        then trigger rule value (continued now rule new_id (active_alert rule.id db)) db
        else recover rule value (active_alert rule.id db) db

    -- The loop over the rules, each with the identifier that randomID gives it.
    unfoldable pub evaluate_alerts :
        (alert_value : Text → Option F) → List (AlertRule F × Text) → Alerts → Alerts × List Notice
    evaluate_alerts alert_value [] db = (db, [])
    evaluate_alerts alert_value ((rule, new_id) ∷ rest) db =
        let (db', notices) = evaluate_rule rule (alert_value rule.source) new_id db in
        let (db'', more) = evaluate_alerts alert_value rest db' in (db'', notices ++ more)
