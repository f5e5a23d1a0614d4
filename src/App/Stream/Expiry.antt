-- ===== src/App/Stream/Expiry.antt =====
-- A stream outlives its session by one check at most.
use servora.Prelude.{
  ==_iff, List, Text, [], arith, false, find, inl, inr, none, some, ℕ, ◌++◌, ◌+◌, ◌<◌, ◌∷◌, ◌≡◌,
  ◌≢◌, ◌⊎◌, text_eq,
}
use servora.Clock.{from_unix}
use servora.Store.Sessions.{Sessions, SessionRow, session_active, check_session}
use servora.App.Gate.{Limits}
use servora.App.Stream.{StreamEvent, auth_expired, check, session_holds, on_event, stream_loop}

-- The session of a stream is over: its row is gone, one of its limits has passed, or it belongs to
-- another address.
abbrev pub IsOver : Limits → (hash : Text → Text) (token peer : Text) (now : ℕ) → Sessions → Type 0
IsOver limits hash token peer now sessions =
    (find (hash token) sessions ≡ none)
    ⊎ ((row : SessionRow) × (find (hash token) sessions ≡ some row)
        × ((from_unix row.created_at + limits.session_absolute < now)
            ⊎ (from_unix row.seen_at + limits.session_idle < now)
            ⊎ (row.ip ≢ peer)))

session_holds-over :
    (limits : Limits) (hash : Text → Text) (token peer : Text) (now : ℕ) (sessions : Sessions)
    → IsOver limits hash token peer now sessions
    → session_holds limits hash token peer now sessions ≡ false
unfolding session_holds session_active check_session
session_holds-over limits hash token peer now sessions (inl gone) = ground arith
session_holds-over limits hash token peer now sessions (inr (row, held, inl late)) = ground arith
session_holds-over limits hash token peer now sessions (inr (row, held, inr (inl late))) =
    ground arith
session_holds-over limits hash token peer now sessions (inr (row, held, inr (inr other))) =
    ground (arith, ==_iff row.ip peer)

-- A stream that checks a session which is over writes auth-expired and then nothing: what it had
-- written before and that is all that it ever writes, whatever happens later.
pub stream_loop-expired :
    {D : Type 0} (limits : Limits) (hash : Text → Text) (token peer : Text)
    (before after : List (StreamEvent D)) (now : ℕ) (sessions : Sessions)
    → IsOver limits hash token peer now sessions
    → (stream_loop limits hash token peer (check now sessions ∷ after) ≡ auth_expired ∷ [])
      × (stream_loop limits hash token peer (before ++ check now sessions ∷ after)
          ≡ stream_loop limits hash token peer (before ++ check now sessions ∷ []))
unfolding stream_loop on_event
stream_loop-expired limits hash token peer [] after now sessions h =
    let over = session_holds-over limits hash token peer now sessions h in
    (ground arith, ground arith)
stream_loop-expired limits hash token peer (event ∷ before) after now sessions h =
    let (ends, unchanged) =
      stream_loop-expired limits hash token peer before after now sessions h in
    (ends, ground (arith, unchanged))
