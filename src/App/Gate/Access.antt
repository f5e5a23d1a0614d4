-- ===== src/App/Gate/Access.antt =====
-- Who passes requireAuth of internal/app/server.go, and what the others get.
use servora.Prelude.{
  ==_iff, ==_refl, Option-cases, Text, arith, false, find, inl, inr, some, true, ℕ, ◌≡◌, ◌⊎◌,
  text_eq,
}
use servora.Store.Sessions.{SessionRow, of_row, is_expired, session, touch, check_session}
use servora.Store.Db.{Db}
use servora.App.Http.{Request, Net, status, mutation, peer_ip, same_origin}
use servora.App.Gate.{Handler, Limits, require_auth}

module _ (net : Net) (limits : Limits) (hash : Text → Text) (now : ℕ) (r : Request) (db : Db) where
  -- The request carries the cookie of a stored session that is within its limits and belongs to the
  -- address it comes from; a mutating request carries its CSRF token and comes from the same origin.
  pub record IsAdmitted (token : Text) (row : SessionRow) : Type 0 where
    pub sent : r.cookie ≡ some token
    pub stored : find (hash token) db.sessions ≡ some row
    pub alive : is_expired limits.session_idle limits.session_absolute now (of_row row) ≡ false
    pub same_address : row.ip ≡ peer_ip net r
    pub verified : mutation r.method ≡ true → (r.csrf_token ≡ row.csrf) × (same_origin net r ≡ true)

  -- An admitted request (IsAdmitted) reaches the handler, with its session and with the
  -- session's use recorded in the database.
  pub require_auth-admits :
      {A : Type 0} (next : Handler A) {token : Text} {row : SessionRow}
      → IsAdmitted token row
      → require_auth net limits hash now next r db
        ≡ next
            (record (of_row row) { seen = now })
            r
            (record db { sessions = touch hash token now db.sessions })
  unfolding require_auth session check_session
  require_auth-admits next {token} {row} a = ground (arith, ==_refl row.ip, ==_refl row.csrf)

  -- A request that is not admitted, for any token and row, never reaches a handler: the answer,
  -- 401 or 403, and the database are the same whichever handler is behind the gate.
  pub require_auth-refuses :
      {A : Type 0} (next other : Handler A)
      → ((token : Text) (row : SessionRow) → ¬ IsAdmitted token row)
      → (require_auth net limits hash now next r db ≡ require_auth net limits hash now other r db)
        × ((status (require_auth net limits hash now next r db).1 ≡ 401)
            ⊎ (status (require_auth net limits hash now next r db).1 ≡ 403))
  unfolding require_auth session check_session status
  require_auth-refuses next other refused = elim (Option-cases r.cookie) [
    | inl none_sent ↦ (ground arith, ground arith)
    | inr (token, sent) ↦ elim (Option-cases (find (hash token) db.sessions)) [
      | inl none_stored ↦ (ground arith, ground arith)
      | inr (row, stored) ↦ (
        ground
            (arith, refused token row, ==_iff row.ip (peer_ip net r), ==_iff r.csrf_token row.csrf),
        ground
            (arith, refused token row, ==_iff row.ip (peer_ip net r), ==_iff r.csrf_token row.csrf),
      )
    ]
  ]
