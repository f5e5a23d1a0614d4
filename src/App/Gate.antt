-- ===== src/App/Gate.antt =====
-- internal/app/server.go: the two wrappers that every request passes, security (the allowed
-- networks) and requireAuth (the session, its address, and the checks on a mutating request).
pub mod Access
use servora.Prelude.{
  List, Result, Text, [], bytes, err, has_prefix, if◌then◌else◌, none, not, ok, some, ℕ, ◌&&◌, ◌++◌,
  ◌==◌, ◌||◌, ◌∷◌, text_eq,
}
use servora.Store.Sessions.{Session, StoreError, session, delete_session}
use servora.Store.Db.{Db}
use servora.App.Http.{
  Request, IpNet, Net, Reply, error, plain, mutation, peer_ip, contains_ip, same_origin,
}

-- A handler behind requireAuth: it gets the session of the request's context.
abbrev pub Handler : Type 0 → Type 0
Handler A = Session → Request → Db → Db × Reply A

-- The limits of the configuration that the gate reads.
pub record Limits : Type 0 where
  pub allowed_cidrs : List IpNet
  pub session_idle : ℕ
  pub session_absolute : ℕ

abbrev base_headers : List (Text × Text)
base_headers =
    (bytes "X-Content-Type-Options", bytes "nosniff")
    ∷ (bytes "X-Frame-Options", bytes "DENY")
    ∷ (bytes "Referrer-Policy", bytes "no-referrer")
    ∷ (bytes "Permissions-Policy", bytes "camera=(), microphone=(), geolocation=()")
    ∷ (
      bytes "Content-Security-Policy",
      bytes
          "default-src 'self'; style-src 'self'; script-src 'self'; connect-src 'self'; img-src 'self' data:; object-src 'none'; base-uri 'none'; frame-ancestors 'none'",
    )
    ∷ (bytes "Strict-Transport-Security", bytes "max-age=31536000")
    ∷ []

-- The headers that security sets, whatever it answers.
unfoldable pub security_headers : Request → List (Text × Text)
security_headers r =
    if has_prefix r.path (bytes "/api/")
    then base_headers ++ (bytes "Cache-Control", bytes "no-store") ∷ []
    else base_headers

module _ {A : Type 0} (net : Net) (limits : Limits) where
  unfoldable pub security : (Request → Db → Db × Reply A) → Request → Db → Db × Reply A
  security next r db =
      if not (contains_ip net limits.allowed_cidrs (net.parse_ip (peer_ip net r)))
      then (db, plain 403 (bytes "network not allowed"))
      else next r db

  module _ (hash : Text → Text) where
    -- After the lookup of the session: `db` is the database that it leaves.
    unfoldable pub authorize :
        (token : Text) (next : Handler A) → Request → Result StoreError Session → Db → Db × Reply A
    authorize token next r (err e) db = (
      record db { sessions = delete_session hash token db.sessions },
      error 401 (bytes "invalid_session"),
    )
    authorize token next r (ok s) db =
        if not (s.ip == peer_ip net r)
        then (
          record db { sessions = delete_session hash token db.sessions },
          error 401 (bytes "invalid_session"),
        )
        else if mutation r.method && (not (r.csrf_token == s.csrf) || not (same_origin net r))
        then (db, error 403 (bytes "csrf_failed"))
        else next s r db

    unfoldable pub require_auth : (now : ℕ) (next : Handler A) → Request → Db → Db × Reply A
    unfolding authorize
    require_auth now next r db = elim r.cookie [
      | none ↦ (db, error 401 (bytes "authentication_required"))
      | some token ↦
          let found =
            session hash token limits.session_idle limits.session_absolute now db.sessions in
          authorize token next r found.1 (record db { sessions = found.0 })
    ]
