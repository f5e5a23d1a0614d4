-- ===== src/Tests/Data.antt =====
-- The data of the tests: a browser at 10.0.0.7 that talks to a server at servora:8443.
use servora.Prelude.{
  ==_iff, Option, Text, [], bytes, false, if◌then◌else◌, none, some, true, ℕ, ◌*◌, ◌==◌, ◌∷◌, ◌≡◌,
  ◌≢◌, text_eq,
}
use servora.Clock.{second, minute, hour}
use servora.Store.Sessions.{SessionRow}
use servora.Store.Bans.{Bans}
use servora.Store.Db.{Db}
use servora.App.Http.{Net, Request, Method}
use servora.App.Gate.{Limits}
use servora.App.Login.{LoginCall}

-- A stand-in for SHA-256 that is injective.
abbrev pub hash : Text → Text
hash token = b'#' ∷ token

abbrev pub net : Net
net = record {
  split_host_port =
      λ addr. if addr == bytes "10.0.0.7:5000" then some (bytes "10.0.0.7", bytes "5000") else none;
  parse_ip = λ text. some text;
  contains = λ n ip. n.ip == ip;
  parse_url = λ url.
      if url == bytes "https://servora:8443"
      then some (bytes "servora:8443", bytes "https")
      else none;
  equal_fold = λ s t. s == t;
}

abbrev pub browser : Text
browser = bytes "10.0.0.7"

abbrev pub token : Text
token = bytes "t0"

abbrev pub noon : ℕ
noon = 1000000 * second

abbrev pub limits : Limits
limits = record {
  allowed_cidrs = record { ip = browser; mask = [] } ∷ [];
  session_idle = 30 * minute;
  session_absolute = 12 * hour;
}

abbrev pub row : SessionRow
row = record {
  username = bytes "root";
  csrf = bytes "c0";
  ip = browser;
  created_at = 1000000;
  seen_at = 1000000;
}

abbrev pub no_bans : Bans
no_bans = record { login_failures = []; bans = [] }

abbrev pub empty_db : Db
empty_db = record { sessions = []; login = no_bans; audits = [] }

abbrev pub held_db : Db
held_db = record { sessions = (hash token, row) ∷ []; login = no_bans; audits = [] }

abbrev pub request : Method → (path : Text) → (cookie : Option Text) → Request
request method path cookie = record {
  method = method;
  path = path;
  remote_addr = bytes "10.0.0.7:5000";
  host = bytes "servora:8443";
  cookie = cookie;
  csrf_token = bytes "c0";
  origin = bytes "https://servora:8443";
}

-- The agent of the tests accepts one password.
abbrev pub agent : (username password remote : Text) → Option ℕ
agent username password remote = if password == bytes "right" then some 200 else some 401

abbrev pub login_call : (password : Text) (at : ℕ) → LoginCall
login_call password at = record {
  input = some (record { username = bytes "root"; password = password });
  agent = agent;
  arrival = at;
  now = at;
  token = token;
  csrf = bytes "c0";
  inserts = true;
  session_absolute = 12 * hour;
}

pub differ : (s t : Text) → (s == t) ≡ false → s ≢ t
differ s t apart same = cc ((==_iff s t).1 same, apart)
