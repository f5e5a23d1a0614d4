-- ===== src/App/Login/BruteForce.antt =====
-- Guessing passwords through login of internal/app/server.go.
use mathlib.Core.Path.{subst}
use servora.Prelude.{
  All, Bool-cases, List, Table, Text, [], arith, bytes, false, find, inl, inr, leb, length, some,
  sym, true, ℕ, ◌*◌, ◌+◌, ◌∷◌, ◌≡◌, ◌≤◌, ◌⊎◌, text_eq,
}
use servora.Clock.{minute}
use servora.Store.Bans.{Bans, Ban, is_banned, login_failed, old_strikes}
use servora.Store.Bans.Escalation.{
  recent, bans-login_failed, is_banned-login_failed, ban_end_bounds,
}
use servora.Store.Bans.Runs.{recent-login_failed, recent_mono}
use servora.Store.Db.{Db}
use servora.App.Http.{Request, Net, Method, error, peer_ip}
use servora.App.Login.{LoginCall, Credentials, login, login_with, reject_login, agent_authenticate}

-- One request to log in, with what the handler takes from outside.
pub record Guess : Type 0 where
  pub call : LoginCall
  pub request : Request

module _ (net : Net) (hash : Text → Text) (ip : Text) (now : ℕ) where
  -- A guess from the address that arrives in the quarter of an hour before `now`, and that the agent
  -- rejects by `now`.
  pub record IsWrong (g : Guess) : Type 0 where
    pub posted : g.request.method ≡ Method.post
    pub from_ip : peer_ip net g.request ≡ ip
    pub answered : g.call.arrival ≤ g.call.now
    pub recent_enough : now ≤ g.call.arrival + 15 * minute
    pub past : g.call.now ≤ now
    pub input : Credentials
    pub decoded : g.call.input ≡ some input
    pub rejected : agent_authenticate (g.call.agent input.username input.password ip) ≡ false

  unfoldable pub guess_all : List Guess → Db → Db
  guess_all [] db = db
  guess_all (g ∷ rest) db = guess_all rest (login hash net g.call g.request db).0

  step_free :
      (g : Guess) (w : IsWrong g) (db : Db)
      → (is_banned ip g.call.arrival db.login).1 ≡ false
      → (login hash net g.call g.request db).0.login
        ≡ (login_failed ip w.input.username g.call.now db.login).0
  unfolding login login_with reject_login
  step_free g w db free = rw w.from_ip (ground arith)

  step_banned :
      (g : Guess) (w : IsWrong g) (db : Db)
      → (is_banned ip g.call.arrival db.login).1 ≡ true
      → (login hash net g.call g.request db).0.login ≡ db.login
  unfolding login
  step_banned g w db banned = rw w.from_ip (ground arith)

  is_banned_earlier :
      (t : ℕ) (db : Bans) → t ≤ now → (is_banned ip now db).1 ≡ true → (is_banned ip t db).1 ≡ true
  unfolding is_banned
  is_banned_earlier t db h banned = ground arith

  -- After k guesses: either no ban has been in force since a quarter of an hour ago and they are
  -- all counted, or a ban is in force now.
  abbrev Progress : ℕ → Bans → Type 0
  Progress k db =
      (((t : ℕ) → now ≤ t + 15 * minute → (is_banned ip t db).1 ≡ false)
        × (k ≤ recent ip now db)
        × (k ≤ 4))
      ⊎ ((is_banned ip now db).1 ≡ true)

  banned_by :
      (username : Text) (t : ℕ) (db : Bans)
      → now ≤ t + 15 * minute
      → 4 ≤ recent ip t db
      → (is_banned ip now (login_failed ip username t db).0).1 ≡ true
  banned_by username t db close many =
      let banned = is_banned-login_failed ip username t db now many in
      rw banned.0 (ground (arith, ban_end_bounds t (old_strikes (find ip db.bans))))

  counted_by :
      (username : Text) (t : ℕ) (db : Bans) (k : ℕ)
      → now ≤ t + 15 * minute
      → t ≤ now
      → ((u : ℕ) → now ≤ u + 15 * minute → (is_banned ip u db).1 ≡ false)
      → k ≤ recent ip now db
      → recent ip t db ≤ 3
      → Progress (k + 1) (login_failed ip username t db).0
  counted_by username t db k close past free counted few = inl (
    (λ u h.
        subst
          (λ (b : Table Text Ban).
            (is_banned ip u (record {
              login_failures = (login_failed ip username t db).0.login_failures;
              bans = b;
            })).1
            ≡ false)
          (sym (bans-login_failed ip username t db few).0) (unfold is_banned in free u h)),
    omega (arith, (recent-login_failed ip now username t db).2 close),
    omega (arith, recent_mono ip t now db past),
  )

  step_Progress :
      (g : Guess) (w : IsWrong g) (db : Db) (k : ℕ)
      → Progress k db.login
      → Progress (k + 1) (login hash net g.call g.request db).0.login
  step_Progress g w db k (inl (free, counted, few)) =
      rw (step_free g w db (free g.call.arrival w.recent_enough))
        (elim (Bool-cases (leb 4 (recent ip g.call.now db.login))) [
          | inl many ↦ inr (
              banned_by w.input.username g.call.now db.login
                (omega (arith, w.recent_enough, w.answered)) (ground arith))
          | inr rare ↦
              counted_by w.input.username g.call.now db.login k
                (omega (arith, w.recent_enough, w.answered)) w.past free counted (ground arith)
        ])
  step_Progress g w db k (inr banned) = inr (
      rw
        (step_banned g w db
          (is_banned_earlier g.call.arrival db.login (omega (arith, w.past, w.answered)) banned))
        banned)

  locked :
      (db : Db) (c : LoginCall) (r : Request)
      → r.method ≡ Method.post
      → peer_ip net r ≡ ip
      → c.arrival ≡ now
      → (is_banned ip now db.login).1 ≡ true
      → ((login hash net c r db).1.reply ≡ error 429 (bytes "temporarily_banned"))
        × ((login hash net c r db).0 ≡ db)
  unfolding login
  locked db c r posted from_ip at_now banned = rw from_ip (rw at_now (ground arith))

  progress :
      (guesses : List Guess) (db : Db) (k : ℕ)
      → All IsWrong guesses
      → Progress k db.login
      → Progress (k + length guesses) (guess_all guesses db).login
  unfolding guess_all
  progress [] db k w p = subst (λ (n : ℕ). Progress n db.login) (omega arith) p
  progress (g ∷ rest) db k w p =
      subst (λ (n : ℕ). Progress n (guess_all (g ∷ rest) db).login) (omega arith)
        (progress rest (login hash net g.call g.request db).0 (k + 1) w.1
          (step_Progress g w.0 db k p))

  -- Five or more wrong guesses, one after the other, that arrive within a quarter of an hour and are
  -- answered within it, each at any time after its arrival, lock the address out: from any database
  -- with no ban of it in force in that time, whatever the user names, and with bans on the way, the
  -- next POST of the address is answered with 429 and changes nothing, whatever its password.
  pub five_guesses_lock :
      (guesses : List Guess) (db : Db) (c : LoginCall) (r : Request)
      → 5 ≤ length guesses
      → All IsWrong guesses
      → ((t : ℕ) → now ≤ t + 15 * minute → (is_banned ip t db.login).1 ≡ false)
      → r.method ≡ Method.post
      → peer_ip net r ≡ ip
      → c.arrival ≡ now
      → let db' = guess_all guesses db in
        ((login hash net c r db').1.reply ≡ error 429 (bytes "temporarily_banned"))
        × ((login hash net c r db').0 ≡ db')
  five_guesses_lock guesses db c r many wrong free posted from_ip at_now =
      let p : Progress (0 + length guesses) (guess_all guesses db).login =
        progress guesses db 0 wrong (inl (free, omega arith, omega arith)) in
      locked (guess_all guesses db) c r posted from_ip at_now (banned_now p)
    where
      banned_now :
          Progress (0 + length guesses) (guess_all guesses db).login
          → (is_banned ip now (guess_all guesses db).login).1 ≡ true
      banned_now (inl (free', counted, few)) = absurd (omega arith)
      banned_now (inr banned) = banned
