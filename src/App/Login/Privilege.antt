-- ===== src/App/Login/Privilege.antt =====
-- The login of internal/app/server.go with the agent of internal/agent/server.go behind it.
use mathlib.Core.Path.{subst}
use servora.Prelude.{Bool, Option, Text, arith, if◌then◌else◌, none, some, true, ℕ, ◌≡◌}
use servora.Store.Db.{Db}
use servora.App.Http.{Request, Net, status, Method, peer_ip}
use servora.Agent.Auth.{Accounts, authenticate, is_admin}
use servora.App.Login.{LoginCall, Credentials, login, agent_authenticate}
use servora.App.Login.Flow.{login-eq-200}

-- The agent's endpoint as agentAuthenticate calls it; the transport may lose the call.
abbrev pub agent_call :
    Accounts → (service group : Text) → (up : Bool) → (username password remote : Text) → Option ℕ
agent_call os service group up username password remote =
    if up
    then some (
        authenticate os service group Method.post
          (some (record { username = username; password = password; remote = remote })))
    else none

agent_call-accepts :
    (os : Accounts) (service group : Text) (up : Bool) (username password remote : Text)
    → agent_authenticate (agent_call os service group up username password remote) ≡ true
    → (os.pam service username password remote ≡ true) × (is_admin os group username ≡ true)
unfolding agent_authenticate authenticate
agent_call-accepts os service group up username password remote h = ground arith

module _ (net : Net) (hash : Text → Text) (os : Accounts) (service group : Text) (up : Bool)
    (c : LoginCall) (r : Request) (db : Db) where
  -- With the agent behind it, a login that is answered with 200 was sent with a name and a password
  -- that PAM accepts for the service and the address of the request, and the name belongs to a
  -- member of the admin group.
  pub login_needs_admin :
      c.agent ≡ agent_call os service group up
      → status (login hash net c r db).1.reply ≡ 200
      → (input : Credentials) × (c.input ≡ some input)
        × (os.pam service input.username input.password (peer_ip net r) ≡ true)
        × (is_admin os group input.username ≡ true)
  login_needs_admin wired good =
      let (input, a) = login-eq-200 net hash c r db good in
      let proved =
        agent_call-accepts os service group up input.username input.password (peer_ip net r) (
          subst
            (λ (g : Text → Text → Text → Option ℕ).
              agent_authenticate (g input.username input.password (peer_ip net r)) ≡ true)
            wired a.authentic) in
      (input, a.decoded, proved.0, proved.1)
