-- ===== src/Tests/Store.antt =====
-- Runs of the sessions, bans and audits of internal/store/store.go.
use servora.Prelude.{
  HasDistinctKeys, List, [], arith, bytes, count_if, err, find, inr, none, ok, put, refl, some,
  text_beq, true, ℕ, ◌*◌, ◌+◌, ◌∷◌, ◌≡◌, ◌≢◌, ◌≤◌, text_eq,
}
use servora.Clock.{minute, hour, unix, from_unix}
use servora.Store.Sessions.{Session, session_expired, session, check_session, touch, create_session}
use servora.Store.Sessions.Lifetime.{session-create, session-expired}
use servora.Store.Sessions.Passive.{polls, value, session-polls}
use servora.Store.Bans.{Bans, is_banned, is_recent, login_failed, old_strikes}
use servora.Store.Bans.Escalation.{recent}
use servora.Store.Bans.Runs.{Attempt, fail_all}
use servora.Store.Audits.{Audit, audit}
use servora.Store.Retention.{
  rollup_and_prune, rollup_and_prune-decisions, old_strikes-rollup_and_prune,
}
use servora.Store.Db.{Db}
use servora.Tests.Data.{hash, browser, token, noon, row, no_bans, held_db, differ}

session-create_example :
    ((session hash token
        (30 * minute)
        (12 * hour)
        (noon + 5 * minute)
        (create_session hash true token (bytes "root") (bytes "c0") browser noon []).0).1
      ≡ ok (record {
        user = bytes "root";
        csrf = bytes "c0";
        ip = browser;
        created = from_unix (unix noon);
        seen = noon + 5 * minute;
      }))
    × (find
          (hash token)
          (session hash token
            (30 * minute)
            (12 * hour)
            (noon + 5 * minute)
            (create_session hash true token (bytes "root") (bytes "c0") browser noon []).0).0
        ≡ some (record {
          username = bytes "root";
          csrf = bytes "c0";
          ip = browser;
          created_at = unix noon;
          seen_at = unix (noon + 5 * minute);
        }))
session-create_example =
    session-create hash token (bytes "root") (bytes "c0") browser (30 * minute) (12 * hour) noon
      (noon + 5 * minute) [] (unfold find in refl) (omega arith) (omega arith)

found : find (hash token) held_db.sessions ≡ some row
unfolding find text_beq bytes
found = refl

session-expired_example :
    ((session hash token (30 * minute) (12 * hour) (noon + hour) held_db.sessions).1
      ≡ err session_expired)
    × (find
          (hash token)
          (session hash token (30 * minute) (12 * hour) (noon + hour) held_db.sessions).0
        ≡ none)
session-expired_example =
    session-expired hash token (30 * minute) (12 * hour) (noon + hour) held_db.sessions found
      (inr (omega arith))

abbrev renewed : Session
renewed = record {
  user = bytes "root";
  csrf = bytes "c0";
  ip = browser;
  created = noon;
  seen = noon + 20 * minute;
}

looked_up :
    (session hash token (30 * minute) (12 * hour) (noon + 20 * minute) held_db.sessions).1
    ≡ ok renewed
unfolding session check_session touch find put text_beq bytes
looked_up = refl

abbrev poll_times : List ℕ
poll_times = (noon + 5 * minute) ∷ (noon + 10 * minute) ∷ []

session-polls_example :
    value
      (session hash token
        (30 * minute)
        (12 * hour)
        (noon + hour)
        (polls hash token (30 * minute) (12 * hour) poll_times held_db.sessions)).1
    ≡ value (session hash token (30 * minute) (12 * hour) (noon + hour) held_db.sessions).1
session-polls_example =
    session-polls hash token (30 * minute) (12 * hour) (noon + hour) poll_times held_db.sessions
      (omega arith, (omega arith, tt))

abbrev attempts : List Attempt
attempts =
    record { username = bytes "a"; at = noon }
    ∷ record { username = bytes "b"; at = noon + minute }
    ∷ record { username = bytes "c"; at = noon + 2 * minute }
    ∷ record { username = bytes "d"; at = noon + 3 * minute }
    ∷ []

abbrev struck : Bans
struck = record (fail_all browser attempts no_bans) {
  bans = (browser, record { until_ts = 1; strikes = 2 }) ∷ [];
}

four_recent : 4 ≤ recent browser (noon + 4 * minute) struck
unfolding recent count_if is_recent fail_all login_failed text_beq bytes
four_recent = omega arith

other_address : browser ≢ bytes "10.0.0.8"
other_address = differ browser (bytes "10.0.0.8") (unfold text_beq bytes in refl)

abbrev audited : List Audit → List Audit
audited rows =
    audit (bytes "root") browser (bytes "auth.login") [] (bytes "{}") true
      (bytes "login successful") noon rows

abbrev ended : Db
ended = record held_db {
  login = record no_bans { bans = (browser, record { until_ts = 1000; strikes = 3 }) ∷ [] };
}

one_ban : HasDistinctKeys ended.login.bans
one_ban = (unfold find in refl, tt)

one_session : HasDistinctKeys ended.sessions
one_session = (unfold find in refl, tt)

rollup_and_prune-decisions_example :
    let after = rollup_and_prune noon (365 * 24 * hour) ended in
    ((is_banned browser (noon + minute) after.login).1
      ≡ (is_banned browser (noon + minute) ended.login).1)
    × (recent browser (noon + minute) after.login ≡ recent browser (noon + minute) ended.login)
    × (value (session hash token (30 * minute) (12 * hour) (noon + minute) after.sessions).1
        ≡ value (session hash token (30 * minute) (12 * hour) (noon + minute) ended.sessions).1)
rollup_and_prune-decisions_example =
    rollup_and_prune-decisions noon (365 * 24 * hour) ended hash browser token (30 * minute)
      (12 * hour) (noon + minute) one_ban one_session (omega arith) (omega arith)

ban_found : find browser ended.login.bans ≡ some (record { until_ts = 1000; strikes = 3 })
unfolding find text_beq bytes
ban_found = refl

old_strikes-rollup_and_prune_example :
    old_strikes (find browser (rollup_and_prune noon (365 * 24 * hour) ended).login.bans) ≡ 0
old_strikes-rollup_and_prune_example =
    old_strikes-rollup_and_prune noon (365 * 24 * hour) ended browser one_ban ban_found
      (omega arith)
