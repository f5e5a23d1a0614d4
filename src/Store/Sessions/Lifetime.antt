-- ===== src/Store/Sessions/Lifetime.antt =====
-- How long a session of internal/store/store.go lives. The table keeps whole seconds, so a session
-- can end up to one second before its limit, and never ends after it.
use servora.Prelude.{
  Text, arith, err, find, find-put_self, find-remove_self, none, ok, put, some, true, ℕ, ◌+◌, ◌<◌,
  ◌≡◌, ◌≤◌, ◌⊎◌, text_eq,
}
use servora.Clock.{second, unix, from_unix}
use servora.Store.Sessions.{Session, SessionRow, session_expired, Sessions, create_session, session}

module _ (hash : Text → Text) (token user csrf ip : Text) (idle absolute start now : ℕ)
    (db : Sessions) (fresh : find (hash token) db ≡ none) where
  -- A session created under an unused token is found while neither limit has passed, up to a
  -- second, with the data that it was created with; the lookup stores the second of
  -- its use in the row.
  pub session-create :
      now + second ≤ start + idle
      → now + second ≤ start + absolute
      → ((session hash token idle absolute now
            (create_session hash true token user csrf ip start db).0).1
          ≡ ok (record {
            user = user;
            csrf = csrf;
            ip = ip;
            created = from_unix (unix start);
            seen = now;
          }))
        × (find
              (hash token)
              (session hash token idle absolute now
                (create_session hash true token user csrf ip start db).0).0
            ≡ some (record {
              username = user;
              csrf = csrf;
              ip = ip;
              created_at = unix start;
              seen_at = unix now;
            }))
  unfolding session create_session
  session-create in_idle in_absolute =
      let row : SessionRow = record {
        username = user;
        csrf = csrf;
        ip = ip;
        created_at = unix start;
        seen_at = unix start;
      } in
      let stored = find-put_self (hash token) row db in
      (
        ground (arith, stored),
        ground (
          arith,
          stored,
          find-put_self (hash token) (record row { seen_at = unix now }) (put (hash token) row db),
        ),
      )

module _ (hash : Text → Text) (token : Text) (idle absolute now : ℕ) (db : Sessions)
    {row : SessionRow} (held : find (hash token) db ≡ some row) where
  -- A lookup after either limit of the stored row has passed is refused, and deletes the row.
  pub session-expired :
      (from_unix row.created_at + absolute < now) ⊎ (from_unix row.seen_at + idle < now)
      → ((session hash token idle absolute now db).1 ≡ err session_expired)
        × (find (hash token) (session hash token idle absolute now db).0 ≡ none)
  unfolding session
  session-expired late = ground (arith, find-remove_self (hash token) db)

  -- A lookup that succeeds renews the session: another one succeeds as long as it comes within the
  -- idle time of the first, up to a second, and the absolute limit has not passed.
  pub session-renewed :
      (later : ℕ) {s : Session}
      → (session hash token idle absolute now db).1 ≡ ok s
      → later + second ≤ now + idle
      → later ≤ s.created + absolute
      → (session hash token idle absolute later (session hash token idle absolute now db).0).1
        ≡ ok (record s { seen = later })
  unfolding session
  session-renewed later good in_idle in_absolute =
      ground (arith, find-put_self (hash token) (record row { seen_at = unix now }) db)
