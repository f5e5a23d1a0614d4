-- ===== src/App/Alerts/Engine.antt =====
-- What evaluateAlerts of internal/app/server.go keeps of the alerts table: at most one active
-- alert for each rule.
pub mod Lifecycle
pub mod Notices
use servora.Prelude.{
  All, Bool-cases, List, Option, Option-cases, Text, [], arith, find, inl, inr, leb, none, refl,
  some, ℕ, ◌&&◌, ◌+◌, ◌/◌, ◌∷◌, ◌≡◌, ◌≢◌, text_eq,
}
use servora.Store.Alerts.{
  Alert, AlertRow, AlertState, pending, firing, acknowledged, resolved, Alerts, active_alert,
  put_alert, is_active, of_alert_row, acknowledge_alert, is_firing,
}
use servora.Store.Alerts.Rows.{
  put_alert-find, put_known-IsSound, IsSound, active_count, active_alert-find, active_alert-none,
  put_alert_new-IsSound, put_alert_known-IsSound,
}
use servora.App.Alerts.{
  continued, is_pending, Floats, AlertRule, Words, Notice, trigger, recover, evaluate_rule,
  evaluate_alerts, compare,
}

-- The identifiers of new alerts are unused and no two are the same.
abbrev pub AreFresh : {F : Type 0} → List (AlertRule F × Text) → Alerts → Type 0
AreFresh [] db = Unit
AreFresh ((rule, id) ∷ rest) db = (find id db ≡ none) × All (λ x. id ≢ x.1) rest × AreFresh rest db

module _ {F : Type 0} (float : Floats F) (words : Words F) (now : ℕ) where
  trigger-IsSound :
      (rule : AlertRule F) (value : F) (active : Alert) (db : Alerts)
      → ((a : Alert) → a.id ≡ active.id → a.rule_id ≡ active.rule_id → IsSound (put_alert a db))
      → IsSound (trigger float words now rule value active db).0
  trigger-IsSound rule value active db ok_put =
      let seen : Alert = record active { message = words.triggered rule value; updated_at = now } in
      unfold trigger in
      elim (Bool-cases
        (is_pending active.state && leb (active.started_at + float.nanos rule.for_seconds) now)) [
          | inl due ↦ rw due (ok_put (record seen { state = firing }) refl refl)
          | inr early ↦ rw early (ok_put seen refl refl)
        ]

  evaluate_found-IsSound :
      (rule : AlertRule F) (value : Option F) (new_id : Text) (db : Alerts) {a : Alert}
      → IsSound db
      → active_alert rule.id db ≡ some a
      → IsSound (evaluate_rule float words now rule value new_id db).0
  unfolding evaluate_rule recover
  evaluate_found-IsSound rule none new_id db {a} s found = s
  evaluate_found-IsSound rule (some value) new_id db {a} s found =
      let (row, stored, same, of_rule, live) = active_alert-find rule.id db s.keyed found in
      ground (
        arith,
        trigger-IsSound rule value a db
            (λ (b : Alert) (e : b.id ≡ a.id) (e' : b.rule_id ≡ a.rule_id).
              put_alert_known-IsSound b db {old = row} (rw e stored) live s),
        put_alert_known-IsSound
            (record a { state = resolved; updated_at = now; message = words.recovered rule value })
            db {old = row} stored live s,
      )

  evaluate_idle-IsSound :
      (rule : AlertRule F) (value : Option F) (new_id : Text) (db : Alerts)
      → IsSound db
      → find new_id db ≡ none
      → active_alert rule.id db ≡ none
      → IsSound (evaluate_rule float words now rule value new_id db).0
  unfolding evaluate_rule recover
  evaluate_idle-IsSound rule none new_id db s fresh missing = s
  evaluate_idle-IsSound rule (some value) new_id db s fresh missing = ground (
    arith,
    trigger-IsSound rule value (continued now rule new_id none) db
        (λ (b : Alert) (e : b.id ≡ new_id) (e' : b.rule_id ≡ rule.id).
          put_alert_new-IsSound b db (rw e fresh) (rw e' (active_alert-none rule.id db missing)) s),
  )

  pub evaluate_rule-IsSound :
      (rule : AlertRule F) (value : Option F) (new_id : Text) (db : Alerts)
      → find new_id db ≡ none
      → IsSound db
      → IsSound (evaluate_rule float words now rule value new_id db).0
  evaluate_rule-IsSound rule value new_id db fresh s =
      elim (Option-cases (active_alert rule.id db)) [
        | inl missing ↦ evaluate_idle-IsSound rule value new_id db s fresh missing
        | inr (a, found) ↦ evaluate_found-IsSound rule value new_id db s found
      ]

  trigger-find :
      (rule : AlertRule F) (value : F) (active : Alert) (db : Alerts) (j : Text)
      → active.id ≢ j
      → find j db ≡ none
      → find j (trigger float words now rule value active db).0 ≡ none
  unfolding trigger
  trigger-find rule value active db j ne missing =
      let seen : Alert = record active { message = words.triggered rule value; updated_at = now } in
      ground (arith, put_alert-find seen db j, put_alert-find (record seen { state = firing }) db j)

  evaluate_rule-find :
      (rule : AlertRule F) (value : Option F) (new_id : Text) (db : Alerts) (j : Text)
      → IsSound db
      → new_id ≢ j
      → find j db ≡ none
      → find j (evaluate_rule float words now rule value new_id db).0 ≡ none
  unfolding evaluate_rule recover
  evaluate_rule-find rule none new_id db j s ne missing = missing
  evaluate_rule-find rule (some value) new_id db j s ne missing =
      elim (Option-cases (active_alert rule.id db)) [
        | inl idle ↦ ground (arith, trigger-find rule value (continued now rule new_id none) db j)
        | inr (a, found) ↦
            let (row, stored, same, of_rule, live) = active_alert-find rule.id db s.keyed found in
            ground (
              arith,
              trigger-find rule value a db j,
              put_alert-find
                  (record a {
                    state = resolved;
                    updated_at = now;
                    message = words.recovered rule value;
                  })
                  db j,
            )
      ]

  pub AreFresh-evaluate_rule :
      (rule : AlertRule F) (value : Option F) (id : Text) (db : Alerts)
      (rest : List (AlertRule F × Text))
      → IsSound db
      → All (λ x. id ≢ x.1) rest
      → AreFresh rest db
      → AreFresh rest (evaluate_rule float words now rule value id db).0
  AreFresh-evaluate_rule rule value id db [] s ne fresh = tt
  AreFresh-evaluate_rule rule value id db ((r, j) ∷ rest) s ne fresh = (
    evaluate_rule-find rule value id db j s ne.0 fresh.0,
    fresh.1,
    AreFresh-evaluate_rule rule value id db rest s ne.1 fresh.2,
  )

  -- An evaluation of all rules, whatever they are and whatever the values of their sources, keeps
  -- the table sound: no id twice, and at most one active alert of each rule. The identifiers that
  -- are drawn for new alerts have to be unused.
  pub evaluate_alerts-IsSound :
      (alert_value : Text → Option F) (rules : List (AlertRule F × Text)) (db : Alerts)
      → AreFresh rules db
      → IsSound db
      → IsSound (evaluate_alerts float words now alert_value rules db).0
  unfolding evaluate_alerts
  evaluate_alerts-IsSound alert_value [] db fresh s = s
  evaluate_alerts-IsSound alert_value ((rule, id) ∷ rest) db fresh s =
      evaluate_alerts-IsSound alert_value rest
        (evaluate_rule float words now rule (alert_value rule.source) id db).0
        (AreFresh-evaluate_rule rule (alert_value rule.source) id db rest s fresh.1 fresh.2)
        (evaluate_rule-IsSound rule (alert_value rule.source) id db fresh.0 s)

-- An acknowledgement keeps the table sound: no id twice, and at most one active alert of each
-- rule.
pub acknowledge_alert-IsSound :
    (id : Text) (now : ℕ) (db : Alerts) → IsSound db → IsSound (acknowledge_alert id now db)
unfolding acknowledge_alert
acknowledge_alert-IsSound id now db s = elim (Option-cases (find id db)) [
  | inl missing ↦ rw (missing, acknowledge_alert) s
  | inr (row, known) ↦
      rw (known, acknowledge_alert)
        (elim (Bool-cases (is_firing row.state)) [
          | inl yes_firing ↦ rw yes_firing (
              put_known-IsSound id
                (record row { state = acknowledged; updated_at = now / 1000000000 }) row db known
                refl (ground arith) s)
          | inr not_firing ↦ rw not_firing s
        ])
]
