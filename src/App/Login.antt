-- ===== src/App/Login.antt =====
-- internal/app/server.go: login, logout and agentAuthenticate.
pub mod Flow
pub mod Privilege
pub mod BruteForce
use mathlib.Core.Option
use servora.Prelude.{
  Bool, Option, Text, [], bytes, false, if◌then◌else◌, map, none, not, some, true, ℕ, ◌-◌, ◌/◌,
  ◌==◌, text_eq, nat_eq,
}
use servora.Clock.{second}
use servora.Store.Sessions.{Session, StoreError, create_session, delete_session}
use servora.Store.Bans.{is_banned, login_failed, clear_failures}
use servora.Store.Audits.{audit}
use servora.Store.Db.{Db}
use servora.App.Http.{Request, Net, Reply, json, error, method_not_allowed, is_post, peer_ip}

-- The cookie sms_session that an answer sets: its value and its lifetime in seconds, -1 (`none`) to
-- delete it. Path, HttpOnly, Secure and SameSite=Strict are the same in both.
pub record SetCookie : Type 0 where
  pub value : Text
  pub max_age : Option ℕ

pub data Payload : Type 0 where
  logged_in : (username csrf : Text) → Payload
  logged_out : Payload

-- An answer with the headers that the login sets: Retry-After in seconds, and the cookie.
pub record Answer : Type 0 where
  pub retry_after : Option ℕ
  pub set_cookie : Option SetCookie
  pub reply : Reply Payload

abbrev pub bare : Reply Payload → Answer
bare reply = record { retry_after = none; set_cookie = none; reply = reply }

-- int(time.Until(until).Seconds())
abbrev pub retry_seconds : (until now : ℕ) → ℕ
retry_seconds until now = (until - now) / 1000000000

-- Whether agentAuthenticate returns no error: the call is answered, with 200.
unfoldable pub agent_authenticate : Option ℕ → Bool
agent_authenticate none = false
agent_authenticate (some status) = status == 200

pub record Credentials : Type 0 where
  pub username : Text
  pub password : Text

-- What login takes from outside: the decoded body (`none` where it is not one JSON object of the
-- two fields), the agent's answer to a name, a password and an address, the instants before and
-- after the call of the agent, the two random identifiers, whether the session's row can be
-- inserted, and the session's lifetime.
pub record LoginCall : Type 0 where
  pub input : Option Credentials
  pub agent : (username password remote : Text) → Option ℕ
  pub arrival : ℕ
  pub now : ℕ
  pub token : Text
  pub csrf : Text
  pub inserts : Bool
  pub session_absolute : ℕ

module _ (hash : Text → Text) where
  -- The part after a successful authentication.
  unfoldable pub open_session : LoginCall → (username ip : Text) → Db → Db × Answer
  open_session c username ip db =
      let (sessions, failure) =
        create_session hash c.inserts c.token username c.csrf ip c.now db.sessions in
      elim failure [
        | some e ↦ (record db { sessions = sessions }, bare (error 500 (bytes "session_failed")))
        | none ↦ (
          record {
            sessions = sessions;
            login = clear_failures ip db.login;
            audits =
                audit username ip (bytes "auth.login") [] (bytes "{}") true
                  (bytes "login successful") c.now db.audits;
          },
          record {
            retry_after = none;
            set_cookie =
                some (record { value = c.token; max_age = some (c.session_absolute / 1000000000) });
            reply = json 200 (logged_in username c.csrf);
          },
        )
      ]

  -- The part after a failed one.
  unfoldable pub reject_login : LoginCall → (username ip : Text) → Db → Db × Answer
  reject_login c username ip db =
      let failed = login_failed ip username c.now db.login in
      (
        record db {
          login = failed.0;
          audits =
              audit username ip (bytes "auth.login") [] (bytes "{}") false
                (bytes "authentication failed") c.now db.audits;
        },
        record {
          retry_after = Option.map (λ until. retry_seconds until c.now) failed.1;
          set_cookie = none;
          reply = error 401 (bytes "login_failed");
        },
      )

  unfoldable pub login_with : LoginCall → (ip : Text) → Option Credentials → Db → Db × Answer
  unfolding open_session reject_login
  login_with c ip none db = (db, bare (error 400 (bytes "invalid_request")))
  login_with c ip (some input) db =
      if agent_authenticate (c.agent input.username input.password ip)
      then open_session c input.username ip db
      else reject_login c input.username ip db

  unfoldable pub login : Net → LoginCall → Request → Db → Db × Answer
  unfolding login_with
  login net c r db =
      let ip = peer_ip net r in
      if not (is_post r.method)
      then (db, bare method_not_allowed)
      else (let (until, banned) = is_banned ip c.arrival db.login in
          elim banned [
            | true ↦ (
              db,
              record {
                retry_after = Option.map (λ until. retry_seconds until c.arrival) until;
                set_cookie = none;
                reply = error 429 (bytes "temporarily_banned");
              },
            )
            | false ↦ login_with c ip c.input db
          ])

  -- Behind requireAuth: `s` is the session of the request's context.
  unfoldable pub logout : Net → (now : ℕ) → Session → Request → Db → Db × Answer
  logout net now s r db = if not (is_post r.method) then (db, bare method_not_allowed) else (
    record db {
      sessions = elim r.cookie [
        | none ↦ db.sessions
        | some token ↦ delete_session hash token db.sessions
      ];
      audits =
          audit s.user (peer_ip net r) (bytes "auth.logout") [] (bytes "null") true
            (bytes "logout successful") now db.audits;
    },
    record {
      retry_after = none;
      set_cookie = some (record { value = []; max_age = none });
      reply = json 200 logged_out;
    },
  )
