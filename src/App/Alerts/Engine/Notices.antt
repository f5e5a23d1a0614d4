-- ===== src/App/Alerts/Engine/Notices.antt =====
-- What evaluateAlerts of internal/app/server.go sends while one rule keeps triggering.
use mathlib.Core.Path.{subst}
use servora.Prelude.{
  All, Bool-cases, List, Option, Option-cases, Text, [], ap, arith, false, find, find-put_self, inl,
  inr, leb, length, length-append, map, none, refl, some, sym, true, ℕ, ◌&&◌, ◌++◌, ◌+◌, ◌∙◌, ◌∷◌,
  ◌≡◌, ◌≤◌, ◌⊎◌, text_eq,
}
use servora.Store.Alerts.{
  Alert, AlertRow, firing, Alerts, active_alert, put_alert, stored_row, of_alert_row,
}
use servora.Store.Alerts.Rows.{IsSound, active_alert-find, active_alert_unique}
use servora.App.Alerts.{
  continued, is_pending, was_firing, Floats, AlertRule, Words, Notice, fired, trigger,
  evaluate_rule, compare,
}
use servora.App.Alerts.Engine.{AreFresh, AreFresh-evaluate_rule, evaluate_rule-IsSound}

-- One evaluation of the rule: when, the value of its source, the identifier drawn.
pub record Tick (F : Type 0) : Type 0 where
  pub at : ℕ
  pub value : F
  pub new_id : Text

module _ {F : Type 0} (float : Floats F) (words : Words F) (rule : AlertRule F) where
  unfoldable pub evaluate_ticks : List (Tick F) → Alerts → Alerts × List Notice
  evaluate_ticks [] db = (db, [])
  evaluate_ticks (t ∷ rest) db =
      let (db', notices) = evaluate_rule float words t.at rule (some t.value) t.new_id db in
      let (db'', more) = evaluate_ticks rest db' in (db'', notices ++ more)

  -- The rule's active alert has fired, and was perhaps acknowledged.
  pub record HasFired (db : Alerts) : Type 0 where
    pub alert : Alert
    pub found : active_alert rule.id db ≡ some alert
    pub has_fired : was_firing alert.state ≡ true

  -- A write of the rule's alert is what ActiveAlert finds next.
  put_alert-found :
      (a : Alert) (db : Alerts)
      → IsSound (put_alert a db)
      → (stored_row a (find a.id db)).rule_id ≡ rule.id
      → was_firing a.state ≡ true
      → HasFired (put_alert a db)
  put_alert-found a db s same live =
      let row : AlertRow = stored_row a (find a.id db) in
      let state_same : row.state ≡ a.state = elim (Option-cases (find a.id db)) [
        | inl missing ↦ rw missing refl
        | inr (old, known) ↦ rw known refl
      ] in
      record {
        alert = of_alert_row a.id row;
        found =
            active_alert_unique rule.id (put_alert a db) a.id row s
              (unfold put_alert in find-put_self a.id row db) same (rw state_same (ground arith));
        has_fired = rw state_same live;
      }

  stored_rule :
      (a b : Alert) (o : Option AlertRow)
      → a.rule_id ≡ b.rule_id
      → (stored_row a o).rule_id ≡ (stored_row b o).rule_id
  stored_rule a b none e = e
  stored_rule a b (some row) e = refl

  -- Either nothing is sent, and an alert that had fired goes on, or the alert fires now.
  abbrev Outcome : Alert → Alerts × List Notice → Type 0
  Outcome active out =
      ((out.1 ≡ []) × (was_firing active.state ≡ true → HasFired out.0))
      ⊎ ((was_firing active.state ≡ false) × (length out.1 ≡ 1) × HasFired out.0)

  trigger-Outcome :
      (now : ℕ) (value : F) (active : Alert) (db : Alerts)
      → IsSound (trigger float words now rule value active db).0
      → (stored_row active (find active.id db)).rule_id ≡ rule.id
      → Outcome active (trigger float words now rule value active db)
  trigger-Outcome now value active db s same =
      let seen : Alert = record active { message = words.triggered rule value; updated_at = now } in
      let fire : Alert = record seen { state = firing } in
      elim (Bool-cases
        (is_pending active.state && leb (active.started_at + float.nanos rule.for_seconds) now)) [
          | inl due ↦
              let e : trigger float words now rule value active db
                  ≡ (put_alert fire db, fired rule.id active.name seen.message ∷ []) =
                unfold trigger in rw due refl in
              subst (Outcome active) (sym e) (
                inr (
                  ground arith,
                  refl,
                  put_alert-found fire db
                      (subst (λ (out : Alerts × List Notice). IsSound out.0) e s)
                      (stored_rule fire active (find active.id db) refl ∙ same) refl,
                ))
          | inr early ↦
              let e : trigger float words now rule value active db ≡ (put_alert seen db, []) =
                unfold trigger in rw early refl in
              subst (Outcome active) (sym e) (
                inl (
                  refl,
                  λ live.
                      put_alert-found seen db
                        (subst (λ (out : Alerts × List Notice). IsSound out.0) e s)
                        (stored_rule seen active (find active.id db) refl ∙ same) live,
                ))
        ]

  module _ (enabled : rule.enabled ≡ true) where
    -- What an evaluation in which the rule triggers makes of a table.
    abbrev ResultOf : Alerts → Alerts × List Notice → Type 0
    ResultOf db out =
        ((out.1 ≡ []) × (HasFired db → HasFired out.0))
        ⊎ ((HasFired db → ⊥) × (length out.1 ≡ 1) × HasFired out.0)

    from_Outcome :
        (active : Alert) (db : Alerts) (out : Alerts × List Notice)
        → (HasFired db → was_firing active.state ≡ true)
        → Outcome active out
        → ResultOf db out
    from_Outcome active db out known (inl (quiet, goes_on)) = inl (quiet, λ h. goes_on (known h))
    from_Outcome active db out known (inr (not_yet, one, fires)) =
        inr (λ h. cc (known h, not_yet), one, fires)

    tick-trigger :
        (t : Tick F) (db : Alerts)
        → compare float t.value rule.operator rule.threshold ≡ true
        → evaluate_rule float words t.at rule (some t.value) t.new_id db
          ≡ trigger float words t.at rule t.value
              (continued t.at rule t.new_id (active_alert rule.id db))
              db
    unfolding evaluate_rule
    tick-trigger t db triggers = ground arith

    tick_active :
        (t : Tick F) (db : Alerts) (active : Alert)
        → compare float t.value rule.operator rule.threshold ≡ true
        → find t.new_id db ≡ none
        → IsSound db
        → continued t.at rule t.new_id (active_alert rule.id db) ≡ active
        → (stored_row active (find active.id db)).rule_id ≡ rule.id
        → (HasFired db → was_firing active.state ≡ true)
        → ResultOf db (evaluate_rule float words t.at rule (some t.value) t.new_id db)
    tick_active t db active triggers fresh s e same known =
        let path =
          tick-trigger t db triggers
          ∙ ap (λ (a : Alert). trigger float words t.at rule t.value a db) e in
        from_Outcome active db (evaluate_rule float words t.at rule (some t.value) t.new_id db)
          known
          (subst (Outcome active) (sym path) (
            trigger-Outcome t.at t.value active db
              (subst (λ (out : Alerts × List Notice). IsSound out.0) path
                (evaluate_rule-IsSound float words t.at rule (some t.value) t.new_id db fresh s))
              same))

    -- One evaluation in which the rule triggers.
    tick-notices :
        (t : Tick F) (db : Alerts)
        → compare float t.value rule.operator rule.threshold ≡ true
        → find t.new_id db ≡ none
        → IsSound db
        → ResultOf db (evaluate_rule float words t.at rule (some t.value) t.new_id db)
    tick-notices t db triggers fresh s = elim (Option-cases (active_alert rule.id db)) [
      | inl idle ↦
          tick_active t db (continued t.at rule t.new_id none) triggers fresh s (rw idle refl)
            (rw fresh refl) (λ h. absurd (cc (h.found, idle)))
      | inr (a, found) ↦
          let (row, stored, same, of_rule, live) = active_alert-find rule.id db s.keyed found in
          tick_active t db a triggers fresh s (rw found refl) (rw stored of_rule) (λ h.
            let e : h.alert ≡ a = cc (h.found, found) in
            subst (λ (b : Alert). was_firing b.state ≡ true) e h.has_fired)
    ]

    ticks-notices :
        (ticks : List (Tick F)) (db : Alerts)
        → All (λ t. compare float t.value rule.operator rule.threshold ≡ true) ticks
        → AreFresh (map (λ t. (rule, t.new_id)) ticks) db
        → IsSound db
        → (length (evaluate_ticks ticks db).1 ≤ 1)
          × (HasFired db → (evaluate_ticks ticks db).1 ≡ [])
    unfolding evaluate_ticks
    ticks-notices [] db triggers fresh s = (omega arith, λ h. refl)
    ticks-notices (t ∷ rest) db triggers fresh s =
        let out = evaluate_rule float words t.at rule (some t.value) t.new_id db in
        let later =
          ticks-notices rest out.0 triggers.1
            (AreFresh-evaluate_rule float words t.at rule (some t.value) t.new_id db
              (map (λ u. (rule, u.new_id)) rest) s fresh.1 fresh.2)
            (evaluate_rule-IsSound float words t.at rule (some t.value) t.new_id db fresh.0 s) in
        elim (tick-notices t db triggers.0 fresh.0 s) [
          | inl (quiet, goes_on) ↦ (rw quiet later.0, λ h. rw quiet (later.1 (goes_on h)))
          | inr (not_yet, one, fires) ↦
              (rw (later.1 fires) (omega (arith, length-append out.1 [])), λ h. absurd (not_yet h))
        ]

    -- However often an enabled rule is evaluated while its threshold is passed, from any sound
    -- table and with unused identifiers for new alerts, it sends at most one notification.
    pub fires_at_most_once :
        (ticks : List (Tick F)) (db : Alerts)
        → All (λ t. compare float t.value rule.operator rule.threshold ≡ true) ticks
        → AreFresh (map (λ t. (rule, t.new_id)) ticks) db
        → IsSound db
        → length (evaluate_ticks ticks db).1 ≤ 1
    fires_at_most_once ticks db triggers fresh s = (ticks-notices ticks db triggers fresh s).0
