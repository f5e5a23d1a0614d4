-- ===== src/Store/Bans/Runs.antt =====
-- Rows of failed logins from one address, as LoginFailed of internal/store/store.go counts them.
use servora.Prelude.{
  ==_refl, All, List, Text, [], arith, count_if, count_if-append, count_if-le-length, find, keep,
  length, not, refl, true, ℕ, ◌*◌, ◌+◌, ◌==◌, ◌∙◌, ◌∷◌, ◌≡◌, ◌≤◌, text_eq,
}
use servora.Clock.{minute, second, unix}
use servora.Store.Bans.{
  Failure, Bans, is_banned, is_recent, login_failed, clear_failures, old_strikes,
}
use servora.Store.Bans.Escalation.{
  recent, ban_end_bounds, is_banned-login_failed, bans-login_failed,
}

pub record Attempt : Type 0 where
  pub username : Text
  pub at : ℕ

-- The failures of an address, one after another.
unfoldable pub fail_all : (ip : Text) → List Attempt → Bans → Bans
fail_all ip [] db = db
fail_all ip (a ∷ rest) db = fail_all ip rest (login_failed ip a.username a.at db).0

module _ (ip : Text) (now : ℕ) where
  pub recent-login_failed :
      (username : Text) (t : ℕ) (db : Bans)
      → (recent ip now db ≤ recent ip now (login_failed ip username t db).0)
        × (recent ip now (login_failed ip username t db).0 ≤ recent ip now db + 1)
        × (now ≤ t + 15 * minute
            → recent ip now (login_failed ip username t db).0 ≡ recent ip now db + 1)
  unfolding recent login_failed
  recent-login_failed username t db =
      let new : Failure = record { ip = ip; username = username; ts = unix t } in
      let appended = count_if-append (is_recent ip now) db.login_failures (new ∷ []) in
      let at_most : count_if (is_recent ip now) (new ∷ []) ≤ 1 =
        count_if-le-length (is_recent ip now) (new ∷ []) in
      let counted : now ≤ t + 15 * minute → count_if (is_recent ip now) (new ∷ []) ≡ 1 =
        λ h. unfold count_if is_recent in ground (arith, ==_refl ip) in
      (
        ground (arith, appended),
        ground (arith, appended, at_most),
        λ h. ground (arith, appended, counted h),
      )

  recent-fail_all :
      (attempts : List Attempt) (db : Bans)
      → All (λ a. now ≤ a.at + 15 * minute) attempts
      → recent ip now (fail_all ip attempts db) ≡ recent ip now db + length attempts
  unfolding fail_all
  recent-fail_all [] db h = omega arith
  recent-fail_all (a ∷ rest) db h = omega (
    arith,
    recent-fail_all rest (login_failed ip a.username a.at db).0 h.1,
    (recent-login_failed a.username a.at db).2 h.0,
  )

  -- Five failures of an address within a quarter of an hour ban it: from any state of the store,
  -- IsBanned answers yes for half an hour after the last of them, up to a second.
  pub five_failures_ban :
      (attempts : List Attempt) (username : Text) (db : Bans) (t : ℕ)
      → 4 ≤ length attempts
      → All (λ a. now ≤ a.at + 15 * minute) attempts
      → t + second ≤ now + 30 * minute
      → (is_banned ip t (login_failed ip username now (fail_all ip attempts db)).0).1 ≡ true
  five_failures_ban attempts username db t many close soon =
      let before = fail_all ip attempts db in
      let banned =
        is_banned-login_failed ip username now before t
          (omega (arith, recent-fail_all attempts db close)) in
      rw banned.0 (ground (arith, ban_end_bounds now (old_strikes (find ip before.bans))))

recent_mono_rows :
    (ip : Text) (early late : ℕ) (rows : List Failure)
    → early ≤ late
    → count_if (is_recent ip late) rows ≤ count_if (is_recent ip early) rows
unfolding count_if is_recent
recent_mono_rows ip early late [] h = omega arith
recent_mono_rows ip early late (f ∷ rest) h = ground (arith, recent_mono_rows ip early late rest h)

-- The later the time, the fewer failures are recent.
pub recent_mono :
    (ip : Text) (early late : ℕ) (db : Bans) → early ≤ late → recent ip late db ≤ recent ip early db
unfolding recent
recent_mono ip early late db h = recent_mono_rows ip early late db.login_failures h

cleared :
    (ip : Text) (now : ℕ) (rows : List Failure)
    → count_if (is_recent ip now) (keep (λ f. not (f.ip == ip)) rows) ≡ 0
unfolding count_if keep is_recent
cleared ip now [] = refl
cleared ip now (f ∷ rest) = ground (arith, cleared ip now rest)

-- The address that ClearFailures names has no failures left.
recent-clear_failures : (ip : Text) (now : ℕ) (db : Bans) → recent ip now (clear_failures ip db) ≡ 0
unfolding recent clear_failures
recent-clear_failures ip now db = cleared ip now db.login_failures

-- Too few failures change no ban, at whatever times they come.
bans-fail_all :
    (ip : Text) (attempts : List Attempt) (db : Bans)
    → ((now : ℕ) → recent ip now db + length attempts ≤ 4)
    → (fail_all ip attempts db).bans ≡ db.bans
unfolding fail_all
bans-fail_all ip [] db few = refl
bans-fail_all ip (a ∷ rest) db few =
    bans-fail_all ip rest (login_failed ip a.username a.at db).0
      (λ now. omega (arith, few now, (recent-login_failed ip now a.username a.at db).1))
    ∙ (bans-login_failed ip a.username a.at db (omega (arith, few a.at))).0

-- After ClearFailures, as a successful login calls it, up to four failures of the address, at
-- whatever times, change no ban.
pub cleared_allows_four :
    (ip : Text) (attempts : List Attempt) (db : Bans)
    → length attempts ≤ 4
    → (fail_all ip attempts (clear_failures ip db)).bans ≡ db.bans
cleared_allows_four ip attempts db few =
    bans-fail_all ip attempts (clear_failures ip db)
      (λ now. omega (arith, recent-clear_failures ip now db))
    ∙ unfold clear_failures in refl
