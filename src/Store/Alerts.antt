-- ===== src/Store/Alerts.antt =====
-- internal/store/store.go: the alerts table and ActiveAlert, PutAlert, AcknowledgeAlert. Times of a
-- row are whole seconds.
pub mod Rows
use servora.Prelude.{
  Bool, Option, Table, Text, [], false, find, if◌then◌else◌, ltb, none, put, some, true, ℕ, ◌&&◌,
  ◌==◌, ◌∷◌, text_eq,
}
use servora.Clock.{unix, from_unix}

-- The values of Alert.State.
pub data AlertState : Type 0 where
  pending firing acknowledged resolved : AlertState

pub record Alert : Type 0 where
  pub id : Text
  pub rule_id : Text
  pub name : Text
  pub severity : Text
  pub state : AlertState
  pub message : Text
  pub started_at : ℕ
  pub updated_at : ℕ

-- A row without its key, the id.
pub record AlertRow : Type 0 where
  pub rule_id : Text
  pub name : Text
  pub severity : Text
  pub state : AlertState
  pub message : Text
  pub started_at : ℕ
  pub updated_at : ℕ

abbrev pub Alerts : Type 0
Alerts = Table Text AlertRow

-- state IN ('pending','firing','acknowledged')
abbrev pub is_active : AlertState → Bool
is_active resolved = false
is_active _ = true

abbrev pub of_alert_row : Text → AlertRow → Alert
of_alert_row id row = record {
  id = id;
  rule_id = row.rule_id;
  name = row.name;
  severity = row.severity;
  state = row.state;
  message = row.message;
  started_at = from_unix row.started_at;
  updated_at = from_unix row.updated_at;
}

-- rule_id=? AND state IN (…)
unfoldable pub is_active_for : (rule_id : Text) → Text × AlertRow → Bool
is_active_for rule_id (id, row) = row.rule_id == rule_id && is_active row.state

abbrev newer : Text × AlertRow → Option (Text × AlertRow) → Option (Text × AlertRow)
newer (id, row) none = some (id, row)
newer (id, row) (some (id', row')) =
    if ltb row.updated_at row'.updated_at then some (id', row') else some (id, row)

-- ORDER BY updated_at DESC LIMIT 1; SQL leaves the choice among rows of one second open, and the
-- first is taken here.
unfoldable pub latest_active : (rule_id : Text) → Alerts → Option (Text × AlertRow)
unfolding is_active_for
latest_active rule_id [] = none
latest_active rule_id (entry ∷ rest) =
    let found = latest_active rule_id rest in
    if is_active_for rule_id entry then newer entry found else found

abbrev to_alert : Option (Text × AlertRow) → Option Alert
to_alert none = none
to_alert (some (id, row)) = some (of_alert_row id row)

unfoldable pub active_alert : (rule_id : Text) → Alerts → Option Alert
unfolding latest_active
active_alert rule_id db = to_alert (latest_active rule_id db)

-- The row that PutAlert leaves, from the row of the id, if there is one: on a known id only state,
-- message and updated_at are set.
abbrev pub stored_row : Alert → Option AlertRow → AlertRow
stored_row a (some row) = record row {
  state = a.state;
  message = a.message;
  updated_at = unix a.updated_at;
}
stored_row a none = record {
  rule_id = a.rule_id;
  name = a.name;
  severity = a.severity;
  state = a.state;
  message = a.message;
  started_at = unix a.started_at;
  updated_at = unix a.updated_at;
}

unfoldable pub put_alert : Alert → Alerts → Alerts
put_alert a db = put a.id (stored_row a (find a.id db)) db

abbrev pub is_firing : AlertState → Bool
is_firing firing = true
is_firing _ = false

-- WHERE id=? AND state='firing'
unfoldable pub acknowledge_alert : (id : Text) (now : ℕ) → Alerts → Alerts
acknowledge_alert id now db = elim (find id db) [
  | none ↦ db
  | some row ↦
      if is_firing row.state
      then put id (record row { state = acknowledged; updated_at = unix now }) db
      else db
]
