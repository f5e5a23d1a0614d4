-- ===== src/App/Config/Limits.antt =====
-- What each configuration that LoadConfig of internal/app/config.go accepts keeps to.
use servora.Prelude.{
  Bool, Bool-cases, List, Option, Result, Table, Text, [], any_of, ap, arith, bytes, err, false,
  if◌then◌else◌, inl, inr, none, ok, refl, some, sym, text_beq, true, ℕ, ◌*◌, ◌++◌, ◌==◌, ◌∙◌, ◌∷◌,
  ◌≡◌, ◌≤◌, text_eq,
}
use mathlib.Core.Path.{subst}
use servora.Clock.{second, minute, hour}
use servora.Agent.Actions.Effects.{ℤ, pos, negsuc}
use servora.App.Config.{
  Config, Std, then_do, default_config, default_protected, loopback_cidrs, in_range, optional,
  value_of, parse_cidrs, load_values, labelled, parse_lines, scan_result, Source, missing,
  unreadable, scanned, load_config,
}

then_do-ok :
    {A B : Type 0} (m : Result Text A) (f : A → Result Text B) {b : B}
    → then_do m f ≡ ok b
    → (a : A) × (m ≡ ok a) × (f a ≡ ok b)
unfolding then_do
then_do-ok (ok a) f h = (a, refl, h)
then_do-ok (err e) f h = absurd (cc h)

in_range-ok :
    (low high : ℕ) (message : Text) (o : Option ℤ) {n : ℕ}
    → in_range low high message o ≡ ok n
    → (low ≤ n) × (n ≤ high)
unfolding in_range
in_range-ok low high message none h = absurd (cc h)
in_range-ok low high message (some (negsuc m)) h = absurd (cc h)
in_range-ok low high message (some (pos m)) h = ground arith

optional-in_range :
    (value message : Text) (low high default : ℕ) (parse : Text → Option ℤ) {n : ℕ}
    → low ≤ default
    → default ≤ high
    → optional value default (λ v. in_range low high message (parse v)) ≡ ok n
    → (low ≤ n) × (n ≤ high)
unfolding optional
optional-in_range value message low high default parse hl hh h = elim (Bool-cases (value == [])) [
  | inl empty ↦ ground arith
  | inr given ↦ in_range-ok low high message (parse value) (ground arith)
]

optional-unset :
    {A : Type 0} (value : Text) (default : A) (parse : Text → Result Text A)
    → value ≡ []
    → optional value default parse ≡ ok default
unfolding optional text_beq
optional-unset value default parse h = rw h refl

-- The intervals are in the ranges that the messages of LoadConfig name, and every service that is
-- protected by default is protected.
pub record IsSafe (std : Std) (cfg : Config) : Type 0 where
  pub sample : (500000000 ≤ cfg.sample_interval) × (cfg.sample_interval ≤ minute)
  pub scan : (5 * minute ≤ cfg.package_scan_interval) × (cfg.package_scan_interval ≤ 24 * hour)
  pub refresh :
      (hour ≤ cfg.package_metadata_refresh_interval)
      × (cfg.package_metadata_refresh_interval ≤ 7 * 24 * hour)
  pub retention :
      (24 * hour ≤ cfg.package_event_retention) × (cfg.package_event_retention ≤ 3650 * 24 * hour)
  pub protects :
      (service : Text)
      → any_of (λ s. s == service) (default_protected std) ≡ true
      → any_of (λ s. s == service) cfg.protected_services ≡ true

any_of-append :
    (p : Text → Bool) (xs ys : List Text) → any_of p xs ≡ true → any_of p (xs ++ ys) ≡ true
unfolding any_of
any_of-append p [] ys h = absurd (cc h)
any_of-append p (x ∷ xs) ys h = ground (arith, any_of-append p xs ys)

ok-injective : {A : Type 0} {a b : A} → ◌≡◌ {A = Result Text A} (ok a) (ok b) → a ≡ b
ok-injective h = cc h

protects_more :
    (b : Bool) (more base : List Text) (service : Text)
    → any_of (λ s. s == service) base ≡ true
    → any_of (λ s. s == service) (if b then base else base ++ more) ≡ true
protects_more true more base service h = h
protects_more false more base service h = any_of-append (λ s. s == service) base more h

days_range :
    (value message : Text) (default : ℕ) (parse : Text → Option ℤ) {n : ℕ}
    → default ≡ 365 * 24 * hour
    → optional value default
        (λ v. then_do (in_range 1 3650 message (parse v)) (λ days. ok (days * (24 * hour))))
      ≡ ok n
    → (24 * hour ≤ n) × (n ≤ 3650 * 24 * hour)
unfolding optional
days_range value message default parse {n} year h = elim (Bool-cases (value == [])) [
  | inl empty ↦ ground arith
  | inr given ↦
      let (days, parsed, product) =
        then_do-ok (in_range 1 3650 message (parse value)) (λ days. ok (days * (24 * hour))) {b = n}
          (ground arith) in
      ground (arith, in_range-ok 1 3650 message (parse value) parsed)
]

module _ (std : Std) where
  scan_result-ok :
      (error : Option Text) (read : Table Text Text) {kept : Table Text Text}
      → scan_result std error read ≡ ok kept
      → read ≡ kept
  scan_result-ok none read h = ok-injective h
  scan_result-ok (some e) read h = absurd (cc h)

  default-IsSafe : IsSafe std (default_config std)
  unfolding default_config
  default-IsSafe = record {
    sample = omega arith;
    scan = omega arith;
    refresh = omega arith;
    retention = omega arith;
    protects = λ service h. h;
  }

  load_values-IsSafe :
      (values : Table Text Text) {cfg : Config} → load_values std values ≡ ok cfg → IsSafe std cfg
  unfolding load_values default_config
  load_values-IsSafe values h =
      let (allowed, h1, k1) = then_do-ok _ _ h in
      let (proxies, h2, k2) = then_do-ok _ _ k1 in
      let (max_bytes, h3, k3) = then_do-ok _ _ k2 in
      let (sample, h4, k4) = then_do-ok _ _ k3 in
      let (scan, h5, k5) = then_do-ok _ _ k4 in
      let (refresh, h6, k6) = then_do-ok _ _ k5 in
      let (retention, h7, k7) = then_do-ok _ _ k6 in
      subst (IsSafe std) (ok-injective k7) (record {
        sample =
            optional-in_range _ _ 500000000 minute second std.parse_duration (omega arith)
              (omega arith) h4;
        scan =
            optional-in_range _ _ (5 * minute) (24 * hour) (15 * minute) std.parse_duration
              (omega arith) (omega arith) h5;
        refresh =
            optional-in_range _ _ hour (7 * 24 * hour) (12 * hour) std.parse_duration (omega arith)
              (omega arith) h6;
        retention = days_range _ _ (365 * 24 * hour) std.parse_int refl h7;
        protects = protects_more (value_of (bytes "PROTECTED_SERVICES") values == []) _ _;
      })

  load_values-loopback :
      (values : Table Text Text) {cfg : Config}
      → value_of (bytes "ALLOWED_CIDRS") values ≡ []
      → load_values std values ≡ ok cfg
      → cfg.allowed_cidrs ≡ loopback_cidrs std
  unfolding load_values default_config
  load_values-loopback values unset h =
      let (allowed, h1, k1) = then_do-ok _ _ h in
      let (proxies, h2, k2) = then_do-ok _ _ k1 in
      let (max_bytes, h3, k3) = then_do-ok _ _ k2 in
      let (sample, h4, k4) = then_do-ok _ _ k3 in
      let (scan, h5, k5) = then_do-ok _ _ k4 in
      let (refresh, h6, k6) = then_do-ok _ _ k5 in
      let (retention, h7, k7) = then_do-ok _ _ k6 in
      sym (ap (λ (c : Config). c.allowed_cidrs) (ok-injective k7))
      ∙ ok-injective (
          sym h1
          ∙ optional-unset _ (loopback_cidrs std)
              (λ v. labelled (bytes "ALLOWED_CIDRS: ") (parse_cidrs std v)) unset)

  -- Every configuration that LoadConfig accepts, whatever the file says: each interval is in the
  -- range that its error message names, the retention of events is between one day and 3650, and
  -- every service that is protected by default is still protected.
  pub load_config-IsSafe :
      (source : Source std) {cfg : Config} → load_config std source ≡ ok cfg → IsSafe std cfg
  unfolding load_config
  load_config-IsSafe missing h = subst (IsSafe std) (ok-injective h) default-IsSafe
  load_config-IsSafe (unreadable e) h = absurd (cc h)
  load_config-IsSafe (scanned lines error) h =
      let (values, h1, k1) = then_do-ok _ _ h in
      let (same_values, h2, k2) = then_do-ok _ _ k1 in load_values-IsSafe same_values k2

  -- A file without a value for ALLOWED_CIDRS, if it is accepted, admits the loopback addresses only.
  pub load_config-loopback :
      (lines : List Text) (error : Option Text) {values : Table Text Text} {cfg : Config}
      → parse_lines std lines [] ≡ ok values
      → value_of (bytes "ALLOWED_CIDRS") values ≡ []
      → load_config std (scanned lines error) ≡ ok cfg
      → cfg.allowed_cidrs ≡ loopback_cidrs std
  unfolding load_config
  load_config-loopback lines error {values} parsed unset h =
      let (read, h1, k1) = then_do-ok _ _ h in
      let (kept, h2, k2) = then_do-ok _ _ k1 in
      let same_read : read ≡ values = ok-injective (sym h1 ∙ parsed) in
      let same_kept : read ≡ kept = scan_result-ok error read h2 in
      load_values-loopback kept (rw (sym same_kept, same_read) unset) k2
