-- ===== src/Store/Bans.antt =====
-- internal/store/store.go: the login_failures and bans tables and IsBanned, LoginFailed,
-- ClearFailures.
pub mod Escalation
pub mod Runs
use servora.Prelude.{
  ℕ, ◌+◌, ◌-◌, ◌*◌, ◌^◌, Text, Bool, true, false, not, ◌&&◌, Option, none, some, List, [], ◌∷◌,
  ◌++◌, Table, find, put, ltb, leb, ◌==◌, text_eq, keep, count_if, if◌then◌else◌,
}
use servora.Clock.{minute, unix, from_unix}

pub record Failure : Type 0 where
  pub ip : Text
  pub username : Text
  pub ts : ℕ

-- A row of the bans table; its key is the address.
pub record Ban : Type 0 where
  pub until_ts : ℕ
  pub strikes : ℕ

pub record Bans : Type 0 where
  pub login_failures : List Failure
  pub bans : Table Text Ban

-- The end of the ban if there is a row (the zero time if not), and whether it lies ahead.
unfoldable pub is_banned : (ip : Text) (now : ℕ) → Bans → Option ℕ × Bool
is_banned ip now db = elim (find ip db.bans) [
  | none ↦ (none, false)
  | some ban ↦ (some (from_unix ban.until_ts), ltb (unix now) ban.until_ts)
]

-- WHERE ip=? AND ts>=?, with the time fifteen minutes ago
unfoldable pub is_recent : (ip : Text) (now : ℕ) → Failure → Bool
is_recent ip now f = f.ip == ip && leb (unix (now - 15 * minute)) f.ts

-- `strikes` stays 0 where there is no row.
abbrev pub old_strikes : Option Ban → ℕ
old_strikes none = 0
old_strikes (some ban) = ban.strikes

-- strikes++, then the bounds 1 and 6
unfoldable pub next_strikes : ℕ → ℕ
next_strikes n = let low = if ltb (n + 1) 1 then 1 else n + 1 in if ltb 6 low then 6 else low

-- now.Add(30 * time.Minute * time.Duration(1<<(strikes-1)))
unfoldable pub ban_end : (now strikes : ℕ) → ℕ
ban_end now strikes = now + 30 * minute * 2 ^ (strikes - 1)

unfoldable pub login_failed : (ip username : Text) (now : ℕ) → Bans → Bans × Option ℕ
login_failed ip username now db =
    let failures =
      db.login_failures ++ record { ip = ip; username = username; ts = unix now } ∷ [] in
    if ltb (count_if (is_recent ip now) failures) 5
    then (record db { login_failures = failures }, none)
    else (let strikes = next_strikes (old_strikes (find ip db.bans)) in
        (
          record {
            login_failures = failures;
            bans =
                put ip (record { until_ts = unix (ban_end now strikes); strikes = strikes })
                  db.bans;
          },
          some (ban_end now strikes),
        ))

unfoldable pub clear_failures : (ip : Text) → Bans → Bans
clear_failures ip db = record db { login_failures = keep (λ f. not (f.ip == ip)) db.login_failures }
