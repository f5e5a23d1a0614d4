-- ===== src/Store/Alerts/Rows.antt =====
-- Facts on the rows of the alerts table of internal/store/store.go that the alert engine needs.
use servora.Prelude.{
  ==_iff, ==_refl, Bool, Option-cases, Text, [], arith, count_if, find, find-put, if◌then◌else◌,
  inl, inr, none, put, refl, some, true, ℕ, ◌+◌, ◌∷◌, ◌≡◌, ◌≢◌, ◌≤◌, text_eq,
}
use servora.Store.Alerts.{
  Alert, AlertRow, Alerts, is_active, is_active_for, latest_active, active_alert, of_alert_row,
  put_alert, stored_row,
}

-- No key twice.
abbrev pub IsKeyed : Alerts → Type 0
IsKeyed [] = Unit
IsKeyed ((id, row) ∷ rest) = (find id rest ≡ none) × IsKeyed rest

pub one_if : Bool → ℕ
one_if b = if b then 1 else 0

-- The active alerts of a rule.
unfoldable pub active_count : (rule_id : Text) → Alerts → ℕ
active_count rule_id db = count_if (is_active_for rule_id) db

put-IsKeyed : (id : Text) (row : AlertRow) (db : Alerts) → IsKeyed db → IsKeyed (put id row db)
unfolding put
put-IsKeyed id row [] h = (unfold find in refl, tt)
put-IsKeyed id row ((j, w) ∷ rest) h =
    ground (arith, put-IsKeyed id row rest h.1, find-put id j row rest, ==_iff j id, ==_iff id j)

count-put_new :
    (rule id : Text) (row : AlertRow) (db : Alerts)
    → find id db ≡ none
    → active_count rule (put id row db)
      ≡ active_count rule db + one_if (is_active_for rule (id, row))
unfolding active_count count_if put find one_if
count-put_new rule id row [] h = omega arith
count-put_new rule id row ((j, w) ∷ rest) h = ground (arith, count-put_new rule id row rest)

count-put_known :
    (rule id : Text) (row old : AlertRow) (db : Alerts)
    → find id db ≡ some old
    → active_count rule (put id row db) + one_if (is_active_for rule (id, old))
      ≡ active_count rule db + one_if (is_active_for rule (id, row))
unfolding active_count count_if put find one_if
count-put_known rule id row old [] h = cc
count-put_known rule id row old ((j, w) ∷ rest) h =
    ground (arith, count-put_known rule id row old rest, ==_iff j id)

-- What ActiveAlert finds is a row of the table, active and of the rule; it finds none only if there
-- is none.
latest_active-find :
    (rule : Text) (db : Alerts) (id : Text) (row : AlertRow)
    → IsKeyed db
    → latest_active rule db ≡ some (id, row)
    → (find id db ≡ some row) × (is_active_for rule (id, row) ≡ true)
unfolding latest_active find
latest_active-find rule [] id row keyed h = cc
latest_active-find rule ((j, w) ∷ rest) id row keyed h =
    ground (arith, latest_active-find rule rest id row keyed.1, ==_iff j id, ==_refl j)

latest_active-none :
    (rule : Text) (db : Alerts) → latest_active rule db ≡ none → active_count rule db ≡ 0
unfolding latest_active active_count count_if
latest_active-none rule [] h = refl
latest_active-none rule ((j, w) ∷ rest) h = ground (arith, latest_active-none rule rest)

-- The state that ActiveAlert relies on: no id twice, and at most one active alert of each rule.
pub record IsSound (db : Alerts) : Type 0 where
  pub keyed : IsKeyed db
  pub single : (rule : Text) → active_count rule db ≤ 1

is_active_for-true :
    (rule id : Text) (row : AlertRow)
    → is_active_for rule (id, row) ≡ true
    → (row.rule_id ≡ rule) × (is_active row.state ≡ true)
unfolding is_active_for
is_active_for-true rule id row h = ground (arith, ==_iff row.rule_id rule)

pub active_alert-find :
    (rule : Text) (db : Alerts) {a : Alert}
    → IsKeyed db
    → active_alert rule db ≡ some a
    → (row : AlertRow) × (find a.id db ≡ some row)
      × (a ≡ of_alert_row a.id row)
      × (row.rule_id ≡ rule)
      × (is_active row.state ≡ true)
active_alert-find rule db {a} keyed h = elim (Option-cases (latest_active rule db)) [
  | inl missing ↦ absurd (unfold active_alert in ground arith)
  | inr ((id, row), found) ↦
      let facts = latest_active-find rule db id row keyed found in
      let same : a ≡ of_alert_row id row = unfold active_alert in ground arith in
      (
        row,
        rw same facts.0,
        rw same refl,
        (is_active_for-true rule id row facts.1).0,
        (is_active_for-true rule id row facts.1).1,
      )
]

pub active_alert-none :
    (rule : Text) (db : Alerts) → active_alert rule db ≡ none → active_count rule db ≡ 0
active_alert-none rule db h = elim (Option-cases (latest_active rule db)) [
  | inl missing ↦ latest_active-none rule db missing
  | inr ((id, row), found) ↦ absurd (unfold active_alert in ground arith)
]

put_new-IsSound :
    (id : Text) (row : AlertRow) (db : Alerts)
    → find id db ≡ none
    → active_count row.rule_id db ≡ 0
    → IsSound db
    → IsSound (put id row db)
put_new-IsSound id row db new idle s = record {
  keyed = put-IsKeyed id row db s.keyed;
  single = λ rule.
      unfold is_active_for one_if in
      ground (arith, count-put_new rule id row db new, s.single rule, ==_iff row.rule_id rule);
}

-- A row that stays of its rule and does not become active keeps the table sound.
pub put_known-IsSound :
    (id : Text) (row old : AlertRow) (db : Alerts)
    → find id db ≡ some old
    → row.rule_id ≡ old.rule_id
    → is_active old.state ≡ true
    → IsSound db
    → IsSound (put id row db)
put_known-IsSound id row old db known same was s = record {
  keyed = put-IsKeyed id row db s.keyed;
  single = λ rule.
      unfold is_active_for one_if in
      ground (arith, count-put_known rule id row old db, s.single rule);
}

pub put_alert_new-IsSound :
    (a : Alert) (db : Alerts)
    → find a.id db ≡ none
    → active_count a.rule_id db ≡ 0
    → IsSound db
    → IsSound (put_alert a db)
unfolding put_alert
put_alert_new-IsSound a db new idle s =
    put_new-IsSound a.id (stored_row a (find a.id db)) db new (rw new idle) s

pub put_alert_known-IsSound :
    (a : Alert) (db : Alerts) {old : AlertRow}
    → find a.id db ≡ some old
    → is_active old.state ≡ true
    → IsSound db
    → IsSound (put_alert a db)
unfolding put_alert
put_alert_known-IsSound a db {old} known was s =
    put_known-IsSound a.id (stored_row a (find a.id db)) old db known (rw known) was s

-- A write of one id leaves the rows of the others.
pub put_alert-find :
    (a : Alert) (db : Alerts) (j : Text) → a.id ≢ j → find j (put_alert a db) ≡ find j db
unfolding put_alert
put_alert-find a db j ne =
    ground (arith, find-put a.id j (stored_row a (find a.id db)) db, ==_iff a.id j)

latest_active-zero :
    (rule : Text) (db : Alerts) → active_count rule db ≡ 0 → latest_active rule db ≡ none
unfolding latest_active active_count count_if
latest_active-zero rule [] h = refl
latest_active-zero rule ((j, w) ∷ rest) h = ground (arith, latest_active-zero rule rest)

latest_active_unique :
    (rule : Text) (db : Alerts) (id : Text) (row : AlertRow)
    → active_count rule db ≤ 1
    → find id db ≡ some row
    → is_active_for rule (id, row) ≡ true
    → latest_active rule db ≡ some (id, row)
unfolding latest_active active_count count_if find
latest_active_unique rule [] id row few known live = cc
latest_active_unique rule ((j, w) ∷ rest) id row few known live =
    ground (arith, ==_iff j id, latest_active_unique rule rest id row, latest_active-zero rule rest)

-- In a sound table ActiveAlert finds the active row of the rule.
pub active_alert_unique :
    (rule : Text) (db : Alerts) (id : Text) (row : AlertRow)
    → IsSound db
    → find id db ≡ some row
    → row.rule_id ≡ rule
    → is_active row.state ≡ true
    → active_alert rule db ≡ some (of_alert_row id row)
unfolding active_alert
active_alert_unique rule db id row s known same live =
    rw
      (
        latest_active_unique rule db id row (s.single rule) known
            (unfold is_active_for in ground (arith, ==_iff row.rule_id rule)),
        active_alert,
      )
      refl
