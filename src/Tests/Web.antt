-- ===== src/Tests/Web.antt =====
-- Runs of the gate and the login of internal/app/server.go.
use servora.Prelude.{
  List, Text, [], any_of, arith, bytes, find, if◌then◌else◌, none, refl, some, sym, text_beq, true,
  ℕ, ◌*◌, ◌+◌, ◌-◌, ◌==◌, ◌∙◌, ◌∷◌, ◌≡◌, ◌≢◌, ◌≤◌, ◌⊎◌, text_eq,
}
use servora.Clock.{minute, hour, second}
use servora.Store.Sessions.{SessionRow, of_row, touch, create_session}
use servora.Store.Bans.{is_banned}
use servora.App.Http.{Request, Method, json, error, status, peer_ip, same_origin}
use servora.App.Gate.{Handler, require_auth}
use servora.App.Gate.Access.{IsAdmitted, require_auth-refuses}
use servora.App.Login.{
  LoginCall, Credentials, agent_authenticate, open_session, login_with, login, logout,
}
use servora.App.Login.Flow.{IsAccepted, new_row, login-refused, login-admits, logout-refuses}
use servora.App.Login.Privilege.{agent_call, login_needs_admin}
use servora.App.Login.BruteForce.{Guess, IsWrong, guess_all, five_guesses_lock}
use servora.Agent.Auth.{Accounts, authenticate, is_admin}
use servora.Tests.Data.{
  hash, net, browser, token, noon, limits, row, empty_db, held_db, request, login_call,
}

abbrev hello : Handler Text
hello s r db = (db, json 200 s.user)

abbrev other : Handler Text
other s r db = (record db { sessions = [] }, json 201 r.path)

abbrev post_login : Request
post_login = request Method.post (bytes "/api/v1/auth/login") none

abbrev delete_request : Request
delete_request = request Method.delete (bytes "/api/v1/alert-rules/r1") (some token)

from_browser : (r : Request) → r.remote_addr ≡ bytes "10.0.0.7:5000" → peer_ip net r ≡ browser
unfolding peer_ip text_beq bytes
from_browser r h = rw h refl

delete_is_same_origin : same_origin net delete_request ≡ true
unfolding same_origin text_beq bytes
delete_is_same_origin = refl

found : find (hash token) held_db.sessions ≡ some row
unfolding find text_beq bytes
found = refl

admitted : IsAdmitted net limits hash (noon + minute) delete_request held_db token row
admitted = record {
  sent = refl;
  stored = found;
  alive = refl;
  same_address = sym (from_browser delete_request refl);
  verified = λ h. (refl, delete_is_same_origin);
}

nobody :
    (token : Text) (row : SessionRow)
    → ¬ IsAdmitted net limits hash noon delete_request empty_db token row
unfolding find
nobody token row a = cc a.stored

require_auth-refuses_example :
    (require_auth net limits hash noon hello delete_request empty_db
      ≡ require_auth net limits hash noon other delete_request empty_db)
    × ((status (require_auth net limits hash noon hello delete_request empty_db).1 ≡ 401)
        ⊎ (status (require_auth net limits hash noon hello delete_request empty_db).1 ≡ 403))
require_auth-refuses_example =
    require_auth-refuses net limits hash noon delete_request empty_db hello other nobody

abbrev good : LoginCall
good = login_call (bytes "right") noon

abbrev root : Credentials
root = record { username = bytes "root"; password = bytes "right" }

accepted : IsAccepted net hash good post_login empty_db root
unfolding is_banned find agent_authenticate text_beq bytes
accepted = record {
  posted = refl;
  not_banned = refl;
  decoded = refl;
  authentic = refl;
  inserted = refl;
}

login-admits_example :
    let db' = (login hash net good post_login empty_db).0 in
    require_auth net limits hash (noon + minute) hello delete_request db'
    ≡ hello
        (record (of_row (new_row net hash good post_login empty_db root)) { seen = noon + minute })
        delete_request
        (record db' { sessions = touch hash token (noon + minute) db'.sessions })
login-admits_example =
    login-admits net hash good post_login empty_db limits hello (noon + minute) delete_request
      {input = root} accepted (unfold find in refl) refl
      (from_browser delete_request refl ∙ sym (from_browser post_login refl))
      (λ h. (refl, delete_is_same_origin)) (omega arith) (omega arith)

abbrev bad : LoginCall
bad = login_call (bytes "wrong") noon

not-IsAccepted : (input : Credentials) → ¬ IsAccepted net hash bad post_login empty_db input
unfolding agent_authenticate text_beq bytes
not-IsAccepted input a = cc (a.decoded, a.authentic)

login-refused_example :
    ((login hash net bad post_login empty_db).0.sessions ≡ [])
    × (status (login hash net bad post_login empty_db).1.reply ≢ 200)
login-refused_example = login-refused net hash bad post_login empty_db not-IsAccepted

logout-refuses_example :
    (require_auth net limits hash
      (noon + hour)
      hello
      delete_request
      (logout hash net noon
        (of_row row)
        (request Method.post (bytes "/api/v1/auth/logout") (some token))
        held_db).0).1
    ≡ error 401 (bytes "invalid_session")
logout-refuses_example =
    logout-refuses net limits hash noon (noon + hour) (of_row row)
      (request Method.post (bytes "/api/v1/auth/logout") (some token)) delete_request held_db
      {token = token} hello refl refl refl

abbrev accounts : Accounts
accounts = record {
  group_ids = λ user. if user == bytes "root" then some (bytes "0" ∷ []) else none;
  lookup_group = λ group. if group == bytes "wheel" then some (bytes "0") else none;
  pam = λ service user password remote. password == bytes "right";
}

abbrev with_agent : LoginCall
with_agent = record good {
  agent = agent_call accounts (bytes "system-maintenance") (bytes "wheel") true;
}

agent_200 : status (login hash net with_agent post_login empty_db).1.reply ≡ 200
unfolding status login login_with open_session create_session is_banned find agent_authenticate
    authenticate is_admin any_of peer_ip text_beq bytes
agent_200 = refl

login_needs_admin_example :
    (input : Credentials) × (with_agent.input ≡ some input)
    × (accounts.pam
          (bytes "system-maintenance")
          input.username
          input.password
          (peer_ip net post_login)
        ≡ true)
    × (is_admin accounts (bytes "wheel") input.username ≡ true)
login_needs_admin_example =
    login_needs_admin net hash accounts (bytes "system-maintenance") (bytes "wheel") true with_agent
      post_login empty_db refl agent_200

-- The handler sleeps for 250 ms between its two instants.
abbrev guess : ℕ → Guess
guess at = record {
  call = record (login_call (bytes "wrong") at) { now = at + 250000000 };
  request = post_login;
}

guess-IsWrong :
    (at : ℕ)
    → noon ≤ at + 15 * minute
    → at + 250000000 ≤ noon
    → IsWrong net hash browser noon (guess at)
unfolding agent_authenticate text_beq bytes
guess-IsWrong at close past = record {
  posted = refl;
  from_ip = from_browser post_login refl;
  answered = omega arith;
  recent_enough = close;
  past = past;
  input = record { username = bytes "root"; password = bytes "wrong" };
  decoded = refl;
  rejected = refl;
}

abbrev guesses : List Guess
guesses =
    guess (noon - 4 * minute)
    ∷ guess (noon - 3 * minute)
    ∷ guess (noon - 2 * minute)
    ∷ guess (noon - minute)
    ∷ guess (noon - second)
    ∷ []

five_guesses_lock_example :
    let db' = guess_all net hash browser noon guesses empty_db in
    ((login hash net good post_login db').1.reply ≡ error 429 (bytes "temporarily_banned"))
    × ((login hash net good post_login db').0 ≡ db')
five_guesses_lock_example =
    five_guesses_lock net hash browser noon guesses empty_db good post_login (omega arith)
      (
        guess-IsWrong (noon - 4 * minute) (omega arith) (omega arith),
        (
          guess-IsWrong (noon - 3 * minute) (omega arith) (omega arith),
          (
            guess-IsWrong (noon - 2 * minute) (omega arith) (omega arith),
            (
              guess-IsWrong (noon - minute) (omega arith) (omega arith),
              (guess-IsWrong (noon - second) (omega arith) (omega arith), tt),
            ),
          ),
        ),
      )
      (λ t h. unfold is_banned find in refl) refl (from_browser post_login refl) refl
