-- ===== src/Tests/Alerting.antt =====
-- Runs of evaluateAlerts of internal/app/server.go.
use servora.Prelude.{
  All, List, Option, Text, [], arith, bytes, count_if, find, if◌then◌else◌, leb, length, ltb, map,
  nat_beq, none, refl, some, text_beq, true, ℕ, ◌*◌, ◌+◌, ◌==◌, ◌∷◌, ◌≡◌, ◌≤◌, text_eq,
}
use servora.Clock.{second, minute}
use servora.Store.Alerts.{AlertRow, Alerts, AlertState, pending}
use servora.Store.Alerts.Rows.{IsSound, active_count}
use servora.App.Alerts.{Floats, AlertRule, Words, compare, evaluate_alerts}
use servora.App.Alerts.Engine.{AreFresh, evaluate_alerts-IsSound}
use servora.App.Alerts.Engine.Lifecycle.{Moves, evaluate_alerts-Moves}
use servora.App.Alerts.Engine.Notices.{Tick, evaluate_ticks, fires_at_most_once}
use servora.Tests.Data.{noon, differ}

-- Whole numbers in place of floats, and percent as their only word.
abbrev float : Floats ℕ
float = record { lt = ltb; le = leb; eq = nat_beq; zero_value = 0; nanos = λ n. n * second }

abbrev words : Words ℕ
words = record { triggered = λ rule n. bytes "high"; recovered = λ rule n. bytes "normal" }

abbrev cpu_rule : AlertRule ℕ
cpu_rule = record {
  id = bytes "r1";
  name = bytes "CPU";
  source = bytes "cpu";
  operator = bytes ">=";
  severity = bytes "critical";
  target_ids = bytes "[]";
  threshold = 90;
  for_seconds = 60;
  cooldown_seconds = 300;
  enabled = true;
  notify_recovery = true;
}

abbrev busy : Text → Option ℕ
busy source = if source == bytes "cpu" then some 95 else none

abbrev waiting : AlertRow
waiting = record {
  rule_id = bytes "r1";
  name = bytes "CPU";
  severity = bytes "critical";
  state = pending;
  message = bytes "high";
  started_at = 1000000;
  updated_at = 1000000;
}

abbrev table : AlertState → Alerts
table state = (bytes "a1", record waiting { state = state }) ∷ []

one_row : (state : AlertState) (rule : Text) → active_count rule (table state) ≤ 1
unfolding active_count count_if
one_row state rule = ground arith

table-IsSound : (state : AlertState) → IsSound (table state)
table-IsSound state = record { keyed = (unfold find in refl, tt); single = one_row state }

abbrev rules : List (AlertRule ℕ × Text)
rules = (cpu_rule, bytes "a2") ∷ []

unused : find (bytes "a2") (table pending) ≡ none
unfolding find text_beq bytes
unused = refl

evaluate_alerts-IsSound_example :
    IsSound (evaluate_alerts float words (noon + 2 * minute) busy rules (table pending)).0
evaluate_alerts-IsSound_example =
    evaluate_alerts-IsSound float words (noon + 2 * minute) busy rules (table pending)
      (unused, tt, tt) (table-IsSound pending)

known : find (bytes "a1") (table pending) ≡ some waiting
unfolding find text_beq bytes
known = refl

evaluate_alerts-Moves_example :
    (row' : AlertRow) × (find
        (bytes "a1")
        (evaluate_alerts float words (noon + 2 * minute) busy rules (table pending)).0
      ≡ some row')
    × Moves pending row'.state
    × (row'.rule_id ≡ bytes "r1")
    × (row'.started_at ≡ 1000000)
evaluate_alerts-Moves_example =
    evaluate_alerts-Moves float words (noon + 2 * minute) busy rules (table pending) (bytes "a1")
      waiting (unused, tt, tt) (table-IsSound pending) known

abbrev ticks : List (Tick ℕ)
ticks =
    record { at = noon + 30 * second; value = 91; new_id = bytes "b1" }
    ∷ record { at = noon + 2 * minute; value = 95; new_id = bytes "b2" }
    ∷ record { at = noon + 4 * minute; value = 99; new_id = bytes "b3" }
    ∷ []

above : All (λ (t : Tick ℕ). compare float t.value (bytes ">=") 90 ≡ true) ticks
unfolding compare text_beq bytes
above = (refl, (refl, (refl, tt)))

drawn : AreFresh (map (λ (t : Tick ℕ). (cpu_rule, t.new_id)) ticks) (table pending)
unfolding find text_beq bytes
drawn =
    (refl, (differ _ _ refl, (differ _ _ refl, tt)), (refl, (differ _ _ refl, tt), (refl, tt, tt)))

fires_at_most_once_example :
    length (evaluate_ticks float words cpu_rule ticks (table pending)).1 ≤ 1
fires_at_most_once_example =
    fires_at_most_once float words cpu_rule refl ticks (table pending) above drawn
      (table-IsSound pending)
