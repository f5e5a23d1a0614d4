-- ===== src/App/Stream.antt =====
-- internal/app/server.go: the hub of the live streams, and the handler stream behind requireAuth,
-- which checks its session again at every tick of five seconds.
pub mod Hub
pub mod Expiry
use servora.Prelude.{
  Bool, List, Option, Result, Text, [], bytes, err, false, if◌then◌else◌, inl, inr, none, not, ok,
  some, true, ℕ, ◌++◌, ◌==◌, ◌∷◌, ◌⊎◌, text_eq,
}
use servora.Store.Sessions.{Sessions, Session, StoreError, session_active}
use servora.App.Gate.{Limits}
use servora.App.Http.{Request, Net, Reply, error, method_not_allowed, is_get, peer_ip}

-- What is written to the client.
pub data Frame (D : Type 0) : Type 0 where
  retry : Frame D
  snapshot : D → Frame D
  keepalive : Frame D
  auth_expired : Frame D

-- The case that the select of the loop takes; `check` comes with the instant and the sessions that
-- are stored then.
pub data StreamEvent (D : Type 0) : Type 0 where
  arrived : D → StreamEvent D
  tick : StreamEvent D
  check : (now : ℕ) → Sessions → StreamEvent D
  cancelled : StreamEvent D

-- err == nil && session.IP == peer
abbrev is_session_of : (peer : Text) → Result StoreError Session → Bool
is_session_of peer (err e) = false
is_session_of peer (ok session) = session.ip == peer

module _ (limits : Limits) (hash : Text → Text) (token peer : Text) where
  unfoldable pub session_holds : (now : ℕ) → Sessions → Bool
  session_holds now sessions =
      is_session_of peer
        (session_active hash token limits.session_idle limits.session_absolute now sessions).1

module _ {D : Type 0} (limits : Limits) (hash : Text → Text) (token peer : Text) where
  -- What one event writes, and whether the loop goes on.
  unfoldable pub on_event : StreamEvent D → List (Frame D) × Bool
  unfolding session_holds
  on_event (arrived d) = (snapshot d ∷ [], true)
  on_event tick = (keepalive ∷ [], true)
  on_event (check now sessions) =
      if session_holds limits hash token peer now sessions
      then ([], true)
      else (auth_expired ∷ [], false)
  on_event cancelled = ([], false)

  unfoldable pub stream_loop : List (StreamEvent D) → List (Frame D)
  unfolding on_event
  stream_loop [] = []
  stream_loop (event ∷ events) =
      let rest = stream_loop events in
      let (frames, goes_on) = on_event event in if goes_on then frames ++ rest else frames

abbrev with_cookie : {A : Type 0} → (found : Text → Reply Unit ⊎ A) → Option Text → Reply Unit ⊎ A
with_cookie found none = inl (error 401 (bytes "authentication_required"))
with_cookie found (some token) = found token

-- The refusal, or the frames of the stream, from the snapshot that it begins with and the events of
-- its life. `flushes` is whether the connection can flush.
unfoldable pub stream :
    {D : Type 0}
    → Net
    → Limits
    → (hash : Text → Text) (flushes : Bool) → Request
    → (latest : D) → List (StreamEvent D)
    → Reply Unit ⊎ List (Frame D)
unfolding stream_loop
stream net limits hash flushes r latest events =
    let served =
      with_cookie
        (λ token.
          inr (retry ∷ snapshot latest ∷ stream_loop limits hash token (peer_ip net r) events))
        r.cookie in
    if not (is_get r.method)
    then inl method_not_allowed
    else if not flushes
    then inl (error 500 (bytes "stream_unsupported"))
    else served
