-- ===== src/Prelude/Tables.antt =====
-- A table of the database with a primary key, and a Go map: an association list. `put` is an
-- upsert, `remove` deletes the key's row.
use Prim.Native.Nat.{ℕ, ◌+◌}
use mathlib.Core.Path.{◌≡◌, refl}
use mathlib.Core.Option.{Option, none, some}
use mathlib.Core.List.{List, [], ◌∷◌}
use native.Mathlib.Omega.{arith}
use mathlib.Core.Logic.{inl, inr}
use servora.Prelude.Tests.{Eq, ◌==◌, ==_iff, ==_refl, if◌then◌else◌, Bool-cases}
use servora.Prelude.Lists.{All}

abbrev pub Table {ℓ κ} : Type ℓ → Type κ → Type (ℓ ⊔ κ)
Table K V = List (K × V)

module _ {ℓ κ} {K : Type ℓ} {V : Type κ} ⦃e : Eq K⦄ where
  unfoldable pub find : K → Table K V → Option V
  find k [] = none
  find k ((j, v) ∷ t) = if j == k then some v else find k t

  unfoldable pub put : K → V → Table K V → Table K V
  put k v [] = (k, v) ∷ []
  put k v ((j, w) ∷ t) = if j == k then (k, v) ∷ t else (j, w) ∷ put k v t

  unfoldable pub remove : K → Table K V → Table K V
  remove k [] = []
  remove k ((j, v) ∷ t) = let rest = remove k t in if j == k then rest else (j, v) ∷ rest

  pub find-put :
      (k j : K) (v : V) (t : Table K V) → find j (put k v t) ≡ (if k == j then some v else find j t)
  unfolding find put
  find-put k j v [] = refl
  find-put k j v ((i, w) ∷ t) = ground (arith, ==_iff k j, ==_iff i k, ==_iff i j, find-put k j v t)

  pub find-remove :
      (k j : K) (t : Table K V) → find j (remove k t) ≡ (if k == j then none else find j t)
  unfolding find remove
  find-remove k j [] = ground arith
  find-remove k j ((i, v) ∷ t) =
      ground (arith, find-remove k j t, ==_iff i k, ==_iff i j, ==_iff k j)

  pub find-put_self : (k : K) (v : V) (t : Table K V) → find k (put k v t) ≡ some v
  find-put_self k v t = ground (arith, find-put k k v t, ==_refl k)

  pub find-remove_self : (k : K) (t : Table K V) → find k (remove k t) ≡ none
  find-remove_self k t = ground (arith, find-remove k k t, ==_refl k)

-- The sum of a weight over the rows.
module _ {ℓ κ} {K : Type ℓ} {V : Type κ} (weight : K → V → ℕ) where
  unfoldable pub sum_rows : Table K V → ℕ
  sum_rows [] = 0
  sum_rows ((k, v) ∷ t) = weight k v + sum_rows t

  abbrev pub weight_of : K → Option V → ℕ
  weight_of k none = 0
  weight_of k (some v) = weight k v

  -- An upsert changes the sum by the new row less the old one.
  pub sum_rows-put :
      ⦃e : Eq K⦄ (k : K) (v : V) (t : Table K V)
      → sum_rows (put k v t) + weight_of k (find k t) ≡ sum_rows t + weight k v
  unfolding sum_rows put find
  sum_rows-put k v [] = omega arith
  sum_rows-put k v ((j, w) ∷ t) = ground (arith, ==_iff j k, sum_rows-put k v t)

pub ruleset table_laws = (find-put, find-remove, find-put_self, find-remove_self)

-- A primary key: no key stands twice.
abbrev pub HasDistinctKeys {ℓ κ} : {K : Type ℓ} {V : Type κ} ⦃e : Eq K⦄ → Table K V → Type (ℓ ⊔ κ)
HasDistinctKeys [] = Unit
HasDistinctKeys ((k, v) ∷ t) = (find k t ≡ none) × HasDistinctKeys t

-- A predicate on every row.
module _ {ℓ κ μ} {K : Type ℓ} {V : Type κ} ⦃e : Eq K⦄ where
  pub All-find :
      (P : V → Type μ) (k : K) (v : V) (t : Table K V)
      → find k t ≡ some v
      → All (λ (entry : K × V). P entry.1) t
      → P v
  unfolding find
  All-find P k v [] h a = ground arith
  All-find P k v ((j, w) ∷ t) h a = elim (Bool-cases (j == k)) [
    | inl hit ↦ let eq : w ≡ v = ground arith in rw (← eq) a.0
    | inr miss ↦ All-find P k v t (ground arith) a.1
  ]

  pub All-put :
      (P : K × V → Type μ) (k : K) (v : V) (t : Table K V) → P (k, v) → All P t → All P (put k v t)
  unfolding put
  All-put P k v [] p a = (p, tt)
  All-put P k v ((j, w) ∷ t) p a = elim (Bool-cases (j == k)) [
    | inl hit ↦ rw hit (p, a.1)
    | inr miss ↦ rw miss (a.0, All-put P k v t p a.1)
  ]

  pub All-remove : (P : K × V → Type μ) (k : K) (t : Table K V) → All P t → All P (remove k t)
  unfolding remove
  All-remove P k [] a = tt
  All-remove P k ((j, w) ∷ t) a = elim (Bool-cases (j == k)) [
    | inl hit ↦ rw hit (All-remove P k t a.1)
    | inr miss ↦ rw miss (a.0, All-remove P k t a.1)
  ]
