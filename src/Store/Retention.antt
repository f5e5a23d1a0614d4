-- ===== src/Store/Retention.antt =====
-- The part of RollupAndPrune of internal/store/store.go that cleans the tables of Db, as the server
-- does every quarter of an hour.
use servora.Prelude.{
  ==_iff, Bool, HasDistinctKeys, List, Option-cases, Table, Text, [], arith, count_if, false, find,
  inl, inr, keep, leb, none, refl, some, true, ℕ, ◌*◌, ◌-◌, ◌<◌, ◌∷◌, ◌≡◌, ◌≤◌, text_eq,
}
use servora.Clock.{hour, unix}
use servora.Store.Sessions.{SessionRow, session, check_session}
use servora.Store.Sessions.Passive.{value}
use servora.Store.Bans.{Ban, Failure, is_banned, is_recent, old_strikes}
use servora.Store.Bans.Escalation.{recent}
use servora.Store.Db.{Db}

unfoldable pub rollup_and_prune : (now rollup_retention : ℕ) → Db → Db
rollup_and_prune now rollup_retention db = record {
  sessions = keep (λ entry. leb (unix (now - 24 * hour)) entry.1.created_at) db.sessions;
  login = record {
    login_failures = keep (λ f. leb (unix (now - 24 * hour)) f.ts) db.login.login_failures;
    bans = keep (λ entry. leb (unix now) entry.1.until_ts) db.login.bans;
  };
  audits = keep (λ a. leb (unix (now - rollup_retention)) a.ts) db.audits;
}

module _ {V : Type 0} (p : Text × V → Bool) (k : Text) where
  find-keep-none : (t : Table Text V) → find k t ≡ none → find k (keep p t) ≡ none
  unfolding find keep
  find-keep-none [] h = refl
  find-keep-none ((j, v) ∷ rest) h = ground (arith, find-keep-none rest)

  find-keep_kept :
      (t : Table Text V) {v : V} → find k t ≡ some v → p (k, v) ≡ true → find k (keep p t) ≡ some v
  unfolding find keep
  find-keep_kept [] h kept = cc h
  find-keep_kept ((j, w) ∷ rest) {v} h kept =
      ground (arith, find-keep_kept rest {v = v}, ==_iff j k)

  find-keep_dropped :
      (t : Table Text V) {v : V}
      → HasDistinctKeys t
      → find k t ≡ some v
      → p (k, v) ≡ false
      → find k (keep p t) ≡ none
  unfolding find keep
  find-keep_dropped [] d h dropped = refl
  find-keep_dropped ((j, w) ∷ rest) {v} d h dropped =
      ground (arith, d.0, find-keep-none rest, find-keep_dropped rest {v = v} d.1, ==_iff j k)

count-keep :
    (p q : Failure → Bool) (rows : List Failure)
    → ((f : Failure) → q f ≡ true → p f ≡ true)
    → count_if q (keep p rows) ≡ count_if q rows
unfolding count_if keep
count-keep p q [] h = refl
count-keep p q (f ∷ rest) h = ground (arith, count-keep p q rest h, h f)

module _ (now rollup_retention : ℕ) (db : Db) where
  banned_same :
      (ip : Text) (t : ℕ)
      → HasDistinctKeys db.login.bans
      → now ≤ t
      → (is_banned ip t (rollup_and_prune now rollup_retention db).login).1
        ≡ (is_banned ip t db.login).1
  unfolding rollup_and_prune is_banned
  banned_same ip t distinct later =
      let kept : Text × Ban → Bool = λ entry. leb (unix now) entry.1.until_ts in
      elim (Option-cases (find ip db.login.bans)) [
        | inl unknown ↦ ground (arith, find-keep-none kept ip db.login.bans)
        | inr (ban, found) ↦ ground (
          arith,
          find-keep_kept kept ip db.login.bans found,
          find-keep_dropped kept ip db.login.bans distinct found,
        )
      ]

  recent_same :
      (ip : Text) (t : ℕ)
      → now ≤ t
      → recent ip t (rollup_and_prune now rollup_retention db).login ≡ recent ip t db.login
  unfolding rollup_and_prune recent
  recent_same ip t later =
      count-keep (λ f. leb (unix (now - 24 * hour)) f.ts) (is_recent ip t) db.login.login_failures
        (λ f h. unfold is_recent in ground arith)

  session_same :
      (hash : Text → Text) (token : Text) (idle absolute t : ℕ)
      → HasDistinctKeys db.sessions
      → now ≤ t
      → absolute ≤ 24 * hour
      → value
          (session hash token idle absolute t (rollup_and_prune now rollup_retention db).sessions).1
        ≡ value (session hash token idle absolute t db.sessions).1
  unfolding rollup_and_prune session check_session
  session_same hash token idle absolute t distinct later short =
      let kept : Text × SessionRow → Bool =
        λ entry. leb (unix (now - 24 * hour)) entry.1.created_at in
      elim (Option-cases (find (hash token) db.sessions)) [
        | inl unknown ↦ ground (arith, find-keep-none kept (hash token) db.sessions)
        | inr (row, found) ↦ ground (
          arith,
          find-keep_kept kept (hash token) db.sessions found,
          find-keep_dropped kept (hash token) db.sessions distinct found,
        )
      ]

  -- What is asked next, at any later instant, is answered after the cleanup as it would be without
  -- it: whether an address is banned, how many of its failures count, and which session a token
  -- finds, where a session's absolute lifetime is at most a day and the tables have no key twice.
  -- Nothing is said of bans that later failures bring.
  pub rollup_and_prune-decisions :
      (hash : Text → Text) (ip token : Text) (idle absolute t : ℕ)
      → HasDistinctKeys db.login.bans
      → HasDistinctKeys db.sessions
      → now ≤ t
      → absolute ≤ 24 * hour
      → let after = rollup_and_prune now rollup_retention db in
        ((is_banned ip t after.login).1 ≡ (is_banned ip t db.login).1)
        × (recent ip t after.login ≡ recent ip t db.login)
        × (value (session hash token idle absolute t after.sessions).1
            ≡ value (session hash token idle absolute t db.sessions).1)
  rollup_and_prune-decisions hash ip token idle absolute t bans sessions later short = (
    banned_same ip t bans later,
    recent_same ip t later,
    session_same hash token idle absolute t sessions later short,
  )

  -- The cleanup forgets the strikes of every ban whose end has passed, where the table has no
  -- address twice: the address has no strikes afterwards.
  pub old_strikes-rollup_and_prune :
      (ip : Text) {ban : Ban}
      → HasDistinctKeys db.login.bans
      → find ip db.login.bans ≡ some ban
      → ban.until_ts < unix now
      → old_strikes (find ip (rollup_and_prune now rollup_retention db).login.bans) ≡ 0
  unfolding rollup_and_prune
  old_strikes-rollup_and_prune ip distinct found past =
      rw
        (find-keep_dropped (λ entry. leb (unix now) entry.1.until_ts) ip db.login.bans distinct
          found (ground arith))
        refl
