-- ===== src/App/Login/Flow.antt =====
-- A login of internal/app/server.go from end to end: with the bans before it, the session that it
-- opens and the requests that the session admits, and the logout.
use servora.Prelude.{
  Option-cases, Text, arith, bytes, false, find, find-put_self, find-remove_self, inl, inr, none,
  put, some, sym, true, ℕ, ◌+◌, ◌≡◌, ◌≢◌, ◌≤◌, text_eq,
}
use servora.Clock.{second, unix}
use servora.Store.Sessions.{
  Session, SessionRow, session, check_session, of_row, create_session, touch, delete_session,
}
use servora.Store.Bans.{is_banned, clear_failures}
use servora.Store.Db.{Db}
use servora.App.Http.{
  Request, Net, json, status, error, mutation, peer_ip, same_origin, Method, method_not_allowed,
}
use servora.App.Gate.{Handler, Limits, require_auth, authorize}
use servora.App.Gate.Access.{require_auth-admits}
use servora.App.Login.{
  logged_in, LoginCall, Credentials, agent_authenticate, open_session, reject_login, login_with,
  login, logout,
}

module _ (net : Net) (hash : Text → Text) (c : LoginCall) (r : Request) (db : Db) where
  -- A POST from an address that is not banned, with a body whose name and password the agent
  -- accepts, where the session's row can be inserted.
  pub record IsAccepted (input : Credentials) : Type 0 where
    pub posted : r.method ≡ Method.post
    pub not_banned : (is_banned (peer_ip net r) c.arrival db.login).1 ≡ false
    pub decoded : c.input ≡ some input
    pub authentic :
        agent_authenticate (c.agent input.username input.password (peer_ip net r)) ≡ true
    pub inserted : c.inserts ≡ true

  -- The row that an accepted login stores.
  abbrev pub new_row : Credentials → SessionRow
  new_row input = record {
    username = input.username;
    csrf = c.csrf;
    ip = peer_ip net r;
    created_at = unix c.now;
    seen_at = unix c.now;
  }

  login-accepted :
      {input : Credentials}
      → IsAccepted input
      → find (hash c.token) db.sessions ≡ none
      → ((login hash net c r db).0.sessions ≡ put (hash c.token) (new_row input) db.sessions)
        × ((login hash net c r db).1.reply ≡ json 200 (logged_in input.username c.csrf))
        × ((login hash net c r db).0.login ≡ clear_failures (peer_ip net r) db.login)
  unfolding login login_with open_session create_session
  login-accepted {input} a fresh = ground arith

  -- A login that is not accepted (IsAccepted), for any name and password, leaves every session
  -- as it is and is not answered with 200.
  pub login-refused :
      ((input : Credentials) → ¬ IsAccepted input)
      → ((login hash net c r db).0.sessions ≡ db.sessions)
        × (status (login hash net c r db).1.reply ≢ 200)
  unfolding login login_with reject_login open_session create_session status method_not_allowed
  login-refused refused = elim (Option-cases c.input) [
    | inl no_body ↦ (ground arith, ground arith)
    | inr (input, body) ↦ (ground (arith, refused input), ground (arith, refused input))
  ]

  -- An answer with status 200 comes from an accepted login.
  pub login-eq-200 :
      status (login hash net c r db).1.reply ≡ 200 → (input : Credentials) × IsAccepted input
  unfolding login login_with reject_login open_session create_session status method_not_allowed
  login-eq-200 good = elim (Option-cases c.input) [
    | inl no_body ↦ absurd (ground arith)
    | inr (input, body) ↦ (
      input,
      record {
        posted = ground arith;
        not_banned = ground arith;
        decoded = body;
        authentic = ground arith;
        inserted = ground arith;
      },
    )
  ]

  -- Where the hash of the new token is not in the table yet, the session of an accepted login
  -- (IsAccepted, by which its row can be inserted too) is usable at once and until a limit passes, up
  -- to a second: a request that sends its cookie from the same address reaches every handler as the
  -- user who logged in; a mutating one has to send the CSRF token of the answer from the same origin
  -- too.
  pub login-admits :
      {A : Type 0} (limits : Limits) (next : Handler A) (later : ℕ) (r' : Request)
      {input : Credentials}
      → IsAccepted input
      → find (hash c.token) db.sessions ≡ none
      → r'.cookie ≡ some c.token
      → peer_ip net r' ≡ peer_ip net r
      → (mutation r'.method ≡ true → (r'.csrf_token ≡ c.csrf) × (same_origin net r' ≡ true))
      → later + second ≤ c.now + limits.session_idle
      → later + second ≤ c.now + limits.session_absolute
      → let db' = (login hash net c r db).0 in
        require_auth net limits hash later next r' db'
        ≡ next
            (record (of_row (new_row input)) { seen = later })
            r'
            (record db' { sessions = touch hash c.token later db'.sessions })
  login-admits limits next later r' {input} a fresh sent same checked in_idle in_absolute =
      require_auth-admits net limits hash later r' (login hash net c r db).0 next {token = c.token}
        {row = new_row input}
        (record {
          sent = sent;
          stored =
              rw (login-accepted a fresh).0
                (find-put_self (hash c.token) (new_row input) db.sessions);
          alive = ground arith;
          same_address = sym same;
          verified = checked;
        })

-- After a logout the cookie that was sent opens nothing: a request with it is refused, whichever
-- handler it is for, at any time.
pub logout-refuses :
    {A : Type 0} (net : Net) (limits : Limits) (hash : Text → Text) (now later : ℕ) (s : Session)
    (r r' : Request) (db : Db) {token : Text} (next : Handler A)
    → r.method ≡ Method.post
    → r.cookie ≡ some token
    → r'.cookie ≡ some token
    → (require_auth net limits hash later next r' (logout hash net now s r db).0).1
      ≡ error 401 (bytes "invalid_session")
unfolding logout delete_session require_auth authorize session check_session
logout-refuses net limits hash now later s r r' db {token} next posted sent again =
    ground (arith, find-remove_self (hash token) db.sessions)
