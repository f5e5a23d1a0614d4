-- ===== src/Store/Bans/Escalation.antt =====
-- What LoginFailed of internal/store/store.go makes of a row of failures: when it bans an address,
-- for how long, and what it leaves alone.
use servora.Prelude.{
  ==_iff, ==_refl, List, Text, [], arith, count_if, count_if-append, find, find-put, find-put_self,
  ltb, none, some, suc, zero, ℕ, ◌*◌, ◌++◌, ◌+◌, ◌-◌, ◌^◌, ◌↔◌, ◌∷◌, ◌≡◌, ◌≢◌, ◌≤◌, text_eq,
}
use servora.Clock.{minute, hour, unix, from_unix}
use servora.Store.Bans.{
  Failure, Bans, is_banned, is_recent, old_strikes, next_strikes, ban_end, login_failed,
}

-- The failures of an address that LoginFailed would count at a time, before it adds its own.
unfoldable pub recent : (ip : Text) (now : ℕ) → Bans → ℕ
recent ip now db = count_if (is_recent ip now) db.login_failures

-- LoginFailed counts one more failure than there were.
count-login_failed :
    (ip username : Text) (now : ℕ) (rows : List Failure)
    → count_if
        (is_recent ip now)
        (rows ++ record { ip = ip; username = username; ts = unix now } ∷ [])
      ≡ count_if (is_recent ip now) rows + 1
count-login_failed ip username now rows =
    rw (count_if-append (is_recent ip now) rows)
      (unfold is_recent count_if in ground (arith, ==_refl ip))

next_strikes_capped : (n : ℕ) → next_strikes (suc (suc (suc (suc (suc n))))) ≡ 6
unfolding next_strikes
next_strikes_capped n = ground arith

power_bounds : (n : ℕ) → (1 ≤ 2 ^ (next_strikes n - 1)) × (2 ^ (next_strikes n - 1) ≤ 32)
unfolding next_strikes
power_bounds zero = omega arith
power_bounds (suc zero) = omega arith
power_bounds (suc (suc zero)) = omega arith
power_bounds (suc (suc (suc zero))) = omega arith
power_bounds (suc (suc (suc (suc zero)))) = omega arith
power_bounds (suc (suc (suc (suc (suc n))))) = rw (next_strikes_capped n) (omega arith)

-- A ban ends from half an hour to sixteen hours after the failure, whatever the strikes before
-- it.
pub ban_end_bounds :
    (now n : ℕ)
    → (now + 30 * minute ≤ ban_end now (next_strikes n))
      × (ban_end now (next_strikes n) ≤ now + 16 * hour)
unfolding ban_end
ban_end_bounds now n = omega (arith, power_bounds n)

module _ (ip username : Text) (now : ℕ) (db : Bans) where
  -- A failure bans its address exactly when at least four others of the address are in the last
  -- quarter of an hour.
  pub login_failed-bans : ((login_failed ip username now db).1 ≢ none) ↔ (4 ≤ recent ip now db)
  unfolding login_failed recent
  login_failed-bans = (
    λ h. ground (arith, count-login_failed ip username now db.login_failures),
    λ h. ground (arith, count-login_failed ip username now db.login_failures),
  )

  -- With fewer than four others there is no ban, and the table of bans is left alone.
  pub bans-login_failed :
      recent ip now db ≤ 3
      → ((login_failed ip username now db).0.bans ≡ db.bans)
        × ((login_failed ip username now db).1 ≡ none)
  unfolding login_failed recent
  bans-login_failed few = ground (arith, count-login_failed ip username now db.login_failures)

  -- With four recent failures of the address before it, a failure sets the ban's end by the
  -- strikes of the address, which go up by one to at most six: IsBanned then answers yes exactly
  -- before the second of that end.
  pub is_banned-login_failed :
      (t : ℕ)
      → 4 ≤ recent ip now db
      → let s = next_strikes (old_strikes (find ip db.bans)) in
        (is_banned ip t (login_failed ip username now db).0
          ≡ (some (from_unix (unix (ban_end now s))), ltb (unix t) (unix (ban_end now s))))
        × (old_strikes (find ip (login_failed ip username now db).0.bans) ≡ s)
  unfolding login_failed recent is_banned
  is_banned-login_failed t many =
      let s = next_strikes (old_strikes (find ip db.bans)) in
      ground (
        arith,
        count-login_failed ip username now db.login_failures,
        find-put_self ip (record { until_ts = unix (ban_end now s); strikes = s }) db.bans,
      )

  -- A failure of one address leaves every other address as it was: its ban and its count.
  pub login_failed-ne :
      (j : Text) (t : ℕ)
      → ip ≢ j
      → (is_banned j t (login_failed ip username now db).0 ≡ is_banned j t db)
        × (recent j t (login_failed ip username now db).0 ≡ recent j t db)
  unfolding login_failed recent is_banned
  login_failed-ne j t ne =
      let s = next_strikes (old_strikes (find ip db.bans)) in
      let new : Failure = record { ip = ip; username = username; ts = unix now } in
      let appended = count_if-append (is_recent j t) db.login_failures (new ∷ []) in
      let not_counted : count_if (is_recent j t) (new ∷ []) ≡ 0 =
        unfold count_if is_recent in ground (arith, ==_iff ip j) in
      ground (
        arith,
        ==_iff ip j,
        appended,
        not_counted,
        find-put ip j (record { until_ts = unix (ban_end now s); strikes = s }) db.bans,
      )
