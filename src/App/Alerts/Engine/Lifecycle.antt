-- ===== src/App/Alerts/Engine/Lifecycle.antt =====
-- The life of one alert under evaluateAlerts of internal/app/server.go.
use mathlib.Core.Path.{subst}
use servora.Prelude.{
  ==_iff, Bool, Bool-cases, List, Option, Option-cases, Text, [], ap, arith, false, find, find-put,
  if◌then◌else◌, inl, inr, leb, none, not, refl, some, sym, true, ℕ, ◌&&◌, ◌+◌, ◌==◌, ◌∙◌, ◌∷◌, ◌≡◌,
  text_eq,
}
use servora.Store.Alerts.{
  Alert, AlertRow, AlertState, pending, firing, resolved, Alerts, active_alert, put_alert,
  stored_row, is_active,
}
use servora.Store.Alerts.Rows.{put_alert-find, IsSound, active_alert-find}
use servora.App.Alerts.{
  continued, is_pending, Floats, AlertRule, Words, Notice, trigger, recover, evaluate_rule,
  evaluate_alerts, compare,
}
use servora.App.Alerts.Engine.{AreFresh, AreFresh-evaluate_rule, evaluate_rule-IsSound}

-- The moves of an alert's state in an evaluation.
pub data Move : AlertState → AlertState → Type 0 where
  stay : {s : AlertState} → Move s s
  fire : Move pending firing
  resolve : {s : AlertState} → is_active s ≡ true → Move s resolved

pub data Moves (s : AlertState) : AlertState → Type 0 where
  here : Moves s s
  then_move : {t u : AlertState} → Moves s t → Move t u → Moves s u

prepend : {s t u : AlertState} → Move s t → Moves t u → Moves s u
prepend m here = then_move here m
prepend m (then_move ms m') = then_move (prepend m ms) m'

-- What becomes of a row: it stays, of its rule and with its start, and its state moves.
pub record Continues (row : AlertRow) (later : Option AlertRow) : Type 0 where
  pub row' : AlertRow
  pub stays : later ≡ some row'
  pub move : Move row.state row'.state
  pub same_rule : row'.rule_id ≡ row.rule_id
  pub same_start : row'.started_at ≡ row.started_at

put_alert-Continues :
    (a : Alert) (db : Alerts) (id : Text) (row : AlertRow)
    → find id db ≡ some row
    → (a.id ≡ id → Move row.state a.state)
    → Continues row (find id (put_alert a db))
put_alert-Continues a db id row known moves = elim (Bool-cases (a.id == id)) [
  | inl same ↦
      let e : a.id ≡ id = (==_iff a.id id).0 same in
      record {
        row' = stored_row a (some row);
        stays =
            unfold put_alert in
            (ground (arith, find-put a.id id (stored_row a (find a.id db)) db, e, known));
        move = moves e;
        same_rule = refl;
        same_start = refl;
      }
  | inr other ↦ record {
    row' = row;
    stays = put_alert-find a db id (λ e. cc (other, (==_iff a.id id).1 e)) ∙ known;
    move = stay;
    same_rule = refl;
    same_start = refl;
  }
]

is_pending-eq : (s : AlertState) → is_pending s ≡ true → s ≡ pending
is_pending-eq s h = ground arith

if_holds {ℓ κ} :
    {A : Type ℓ} (P : A → Type κ) (b : Bool) (x y : A) → P x → P y → P (if b then x else y)
if_holds P true x y hx hy = hx
if_holds P false x y hx hy = hy

module _ {F : Type 0} (float : Floats F) (words : Words F) (now : ℕ) where
  trigger-Continues :
      (rule : AlertRule F) (value : F) (active : Alert) (db : Alerts) (id : Text) (row : AlertRow)
      → find id db ≡ some row
      → (active.id ≡ id → active.state ≡ row.state)
      → Continues row (find id (trigger float words now rule value active db).0)
  trigger-Continues rule value active db id row known same =
      let seen : Alert = record active { message = words.triggered rule value; updated_at = now } in
      unfold trigger in
      elim (Bool-cases
        (is_pending active.state && leb (active.started_at + float.nanos rule.for_seconds) now)) [
          | inl due ↦ rw due (
              put_alert-Continues (record seen { state = firing }) db id row known
                (λ e.
                  subst (λ (s : AlertState). Move s firing)
                    (sym (is_pending-eq active.state (ground arith)) ∙ same e) fire))
          | inr early ↦ rw early (
              put_alert-Continues seen db id row known
                (λ e. subst (λ (s : AlertState). Move row.state s) (sym (same e)) stay))
        ]

  recover-Continues :
      (rule : AlertRule F) (value : F) (active : Option Alert) (db : Alerts) (id : Text)
      (row : AlertRow)
      → find id db ≡ some row
      → ((a : Alert) → active ≡ some a → a.id ≡ id → is_active row.state ≡ true)
      → Continues row (find id (recover float words now rule value active db).0)
  unfolding recover
  recover-Continues rule value none db id row known live = record {
    row' = row;
    stays = known;
    move = stay;
    same_rule = refl;
    same_start = refl;
  }
  recover-Continues rule value (some a) db id row known live =
      put_alert-Continues
        (record a { state = resolved; updated_at = now; message = words.recovered rule value }) db
        id row known (λ e. resolve (live a refl e))

  split_rule :
      (P : Alerts → Type 0) (rule : AlertRule F) (value : Option F) (new_id : Text) (db : Alerts)
      → P db
      → ((v : F)
          → P
              (trigger float words now rule v
                (continued now rule new_id (active_alert rule.id db))
                db).0)
      → ((v : F) → P (recover float words now rule v (active_alert rule.id db) db).0)
      → P (evaluate_rule float words now rule value new_id db).0
  unfolding evaluate_rule
  split_rule P rule none new_id db unchanged triggers recovers = unchanged
  split_rule P rule (some v) new_id db unchanged triggers recovers =
      if_holds (λ (out : Alerts × List Notice). P out.0) (not rule.enabled) _ _ unchanged
        (if_holds (λ (out : Alerts × List Notice). P out.0)
          (compare float v rule.operator rule.threshold) _ _ (triggers v) (recovers v))

  -- The alert that ActiveAlert finds for a rule is the row of its id.
  same_state :
      (rule : Text) (db : Alerts) (id : Text) (row : AlertRow) {a : Alert}
      → IsSound db
      → find id db ≡ some row
      → active_alert rule db ≡ some a
      → a.id ≡ id
      → (a.state ≡ row.state) × (is_active row.state ≡ true)
  same_state rule db id row {a} s known found e =
      let (row', stored, same, of_rule, live) = active_alert-find rule db s.keyed found in
      let known' : find a.id db ≡ some row = rw e known in
      let same_row : row' ≡ row = cc (stored, known') in
      (
        ap (λ (b : Alert). b.state) same ∙ ap (λ (r : AlertRow). r.state) same_row,
        rw same_row at live,
      )

  evaluate_rule-Continues :
      (rule : AlertRule F) (value : Option F) (new_id : Text) (db : Alerts) (id : Text)
      (row : AlertRow)
      → IsSound db
      → find new_id db ≡ none
      → find id db ≡ some row
      → Continues row (find id (evaluate_rule float words now rule value new_id db).0)
  evaluate_rule-Continues rule value new_id db id row s fresh known =
      split_rule (λ db'. Continues row (find id db')) rule value new_id db
        (record { row' = row; stays = known; move = stay; same_rule = refl; same_start = refl })
        (λ v. elim (Option-cases (active_alert rule.id db)) [
          | inl idle ↦ rw idle (
              trigger-Continues rule v (continued now rule new_id none) db id row known
                (λ e. absurd (ground (arith, subst (λ (j : Text). find j db ≡ none) e fresh))))
          | inr (a, found) ↦ rw found (
              trigger-Continues rule v a db id row known
                (λ e. (same_state rule.id db id row s known found e).0))
        ])
        (λ v.
          recover-Continues rule v (active_alert rule.id db) db id row known
            (λ a found e. (same_state rule.id db id row s known found e).1))

  -- Under an evaluation of all rules, from a sound table and with unused identifiers for new
  -- alerts, an alert that is in the table stays, of its rule and with its start, and its state
  -- only moves along pending, firing, resolved: no evaluation acknowledges an alert, takes one
  -- back to pending, or leaves resolved.
  pub evaluate_alerts-Moves :
      (alert_value : Text → Option F) (rules : List (AlertRule F × Text)) (db : Alerts) (id : Text)
      (row : AlertRow)
      → AreFresh rules db
      → IsSound db
      → find id db ≡ some row
      → (row' : AlertRow) × (find id (evaluate_alerts float words now alert_value rules db).0
          ≡ some row')
        × Moves row.state row'.state
        × (row'.rule_id ≡ row.rule_id)
        × (row'.started_at ≡ row.started_at)
  unfolding evaluate_alerts
  evaluate_alerts-Moves alert_value [] db id row fresh s known = (row, known, here, refl, refl)
  evaluate_alerts-Moves alert_value ((rule, new_id) ∷ rest) db id row fresh s known =
      let value = alert_value rule.source in
      let db' = (evaluate_rule float words now rule value new_id db).0 in
      let c = evaluate_rule-Continues rule value new_id db id row s fresh.0 known in
      let (row'', stays, moves, same_rule, same_start) =
        evaluate_alerts-Moves alert_value rest db' id c.row'
          (AreFresh-evaluate_rule float words now rule value new_id db rest s fresh.1 fresh.2)
          (evaluate_rule-IsSound float words now rule value new_id db fresh.0 s) c.stays in
      (row'', stays, prepend c.move moves, same_rule ∙ c.same_rule, same_start ∙ c.same_start)
