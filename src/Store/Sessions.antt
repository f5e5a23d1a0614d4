-- ===== src/Store/Sessions.antt =====
-- internal/store/store.go: the sessions table and CreateSession, Session, SessionActive, session,
-- DeleteSession. Tokens are stored under `hash`, the SHA-256 of the standard library.
pub mod Lifetime
pub mod Passive
use servora.Prelude.{
  Bool, Option, Result, Table, Text, err, find, if◌then◌else◌, ltb, none, not, ok, put, remove,
  some, ℕ, ◌+◌, ◌||◌, text_eq,
}
use servora.Clock.{unix, from_unix}

-- A row of the sessions table; its key, token_hash, stands in the table.
pub record SessionRow : Type 0 where
  pub username : Text
  pub csrf : Text
  pub ip : Text
  pub created_at : ℕ
  pub seen_at : ℕ

pub record Session : Type 0 where
  pub user : Text
  pub csrf : Text
  pub ip : Text
  pub created : ℕ
  pub seen : ℕ

pub data StoreError : Type 0 where
  no_rows session_expired constraint_failed insert_failed : StoreError

abbrev pub Sessions : Type 0
Sessions = Table Text SessionRow

-- The fields that `session` scans from a row.
abbrev pub of_row : SessionRow → Session
of_row row = record {
  user = row.username;
  csrf = row.csrf;
  ip = row.ip;
  created = from_unix row.created_at;
  seen = from_unix row.seen_at;
}

-- now.Sub(out.Created) > absolute || now.Sub(out.Seen) > idle
abbrev pub is_expired : (idle absolute now : ℕ) → Session → Bool
is_expired idle absolute now s = ltb (s.created + absolute) now || ltb (s.seen + idle) now

module _ (hash : Text → Text) where
  -- token_hash is the primary key, so a second row for it is refused; `inserts` is whether the
  -- statement works otherwise.
  unfoldable pub create_session :
      (inserts : Bool) (raw_token username csrf ip : Text) (now : ℕ)
      → Sessions
      → Sessions × Option StoreError
  create_session inserts raw_token username csrf ip now db = elim (find (hash raw_token) db) [
    | some old ↦ (db, some constraint_failed)
    | none ↦ if not inserts then (db, some insert_failed) else (
      put (hash raw_token)
          (record {
            username = username;
            csrf = csrf;
            ip = ip;
            created_at = unix now;
            seen_at = unix now;
          })
          db,
      none,
    )
  ]

  -- session
  unfoldable pub check_session :
      (raw_token : Text) (idle absolute now : ℕ) → Sessions → Sessions × Result StoreError Session
  check_session raw_token idle absolute now db = elim (find (hash raw_token) db) [
    | none ↦ (db, err no_rows)
    | some row ↦
        if is_expired idle absolute now (of_row row)
        then (remove (hash raw_token) db, err session_expired)
        else (db, ok (of_row row))
  ]

  -- SessionActive
  unfoldable pub session_active :
      (raw_token : Text) (idle absolute now : ℕ) → Sessions → Sessions × Result StoreError Session
  unfolding check_session
  session_active = check_session

  -- UPDATE sessions SET seen_at=? WHERE token_hash=?
  unfoldable pub touch : (raw_token : Text) (now : ℕ) → Sessions → Sessions
  touch raw_token now db = elim (find (hash raw_token) db) [
    | none ↦ db
    | some row ↦ put (hash raw_token) (record row { seen_at = unix now }) db
  ]

  abbrev extend :
      (raw_token : Text) (now : ℕ)
      → Sessions × Result StoreError Session
      → Sessions × Result StoreError Session
  extend raw_token now (db, err e) = (db, err e)
  extend raw_token now (db, ok out) = (touch raw_token now db, ok (record out { seen = now }))

  -- Session
  unfoldable pub session :
      (raw_token : Text) (idle absolute now : ℕ) → Sessions → Sessions × Result StoreError Session
  unfolding check_session touch
  session raw_token idle absolute now db =
      extend raw_token now (check_session raw_token idle absolute now db)

  unfoldable pub delete_session : (raw_token : Text) → Sessions → Sessions
  delete_session raw_token db = remove (hash raw_token) db
