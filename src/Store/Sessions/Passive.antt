-- ===== src/Store/Sessions/Passive.antt =====
-- SessionActive of internal/store/store.go, by which a long-lived stream polls its session.
use servora.Prelude.{
  All, List, Option, Result, Text, [], arith, err, find-remove_self, none, ok, refl, some, ℕ, ◌∙◌,
  ◌∷◌, ◌≡◌, ◌≤◌, text_eq,
}
use servora.Store.Sessions.{Sessions, session_active, session}

-- The polls of one stream, in the order in which they come.
unfoldable pub polls :
    (hash : Text → Text) (token : Text) (idle absolute : ℕ) → List ℕ → Sessions → Sessions
polls hash token idle absolute [] db = db
polls hash token idle absolute (t ∷ ts) db =
    polls hash token idle absolute ts (session_active hash token idle absolute t db).0

abbrev pub value {ℓ κ} : {E : Type ℓ} {A : Type κ} → Result E A → Option A
value (ok a) = some a
value (err e) = none

module _ (hash : Text → Text) (token : Text) (idle absolute now : ℕ) where
  -- One poll that does not come later than the lookup.
  session-session_active :
      (t : ℕ) (db : Sessions)
      → t ≤ now
      → value
          (session hash token idle absolute now (session_active hash token idle absolute t db).0).1
        ≡ value (session hash token idle absolute now db).1
  unfolding session_active session
  session-session_active t db h = ground (arith, find-remove_self (hash token) db)

  -- Polls, as many as there are, never change what a lookup that does not come before any of
  -- them gives: the session of a stream ends when it would have ended without the stream.
  pub session-polls :
      (ts : List ℕ) (db : Sessions)
      → All (λ t. t ≤ now) ts
      → value (session hash token idle absolute now (polls hash token idle absolute ts db)).1
        ≡ value (session hash token idle absolute now db).1
  unfolding polls
  session-polls [] db h = refl
  session-polls (t ∷ ts) db h =
      session-polls ts (session_active hash token idle absolute t db).0 h.1
      ∙ session-session_active t db h.0
