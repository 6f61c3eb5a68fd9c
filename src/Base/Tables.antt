-- ===== src/Base/Tables.antt =====
-- A hash table as an association list with one entry for a key: QHash and QJsonObject.
use mathlib.Core.Path.{◌≡◌, refl, sym, subst₂}
use mathlib.Core.Option.{Option, none, some, some-injective}
use mathlib.Core.List.{List, [], ◌∷◌, ◌++◌, map}
use mathlib.Core.Option
use native.Mathlib.Omega.{arith}
use mathlib.Core.Logic.{inl, inr, if_pos, if_neg, ◌≢◌}
use pipelinerunner.Base.Tests.{if◌then◌else◌, Bool-cases}
use pipelinerunner.Base.Equality.{Eq, ◌==◌}

abbrev pub Dict {ℓ κ} : Type ℓ → Type κ → Type (ℓ ⊔ κ)
Dict K V = List (K × V)

module _ {ℓ κ} {K : Type ℓ} {V : Type κ} ⦃e : Eq K⦄ where
  unfoldable pub lookup : K → Dict K V → Option V
  lookup k [] = none
  lookup k ((j, w) ∷ d) = if k == j then some w else lookup k d

  unfoldable pub insert : K → V → Dict K V → Dict K V
  insert k v [] = (k, v) ∷ []
  insert k v ((j, w) ∷ d) = if k == j then (k, v) ∷ d else (j, w) ∷ insert k v d

  unfoldable pub erase : K → Dict K V → Dict K V
  erase k [] = []
  erase k ((j, w) ∷ d) = let rest = erase k d in if k == j then rest else (j, w) ∷ rest

  pub lookup-nil : (k : K) → lookup k [] ≡ none
  unfolding lookup
  lookup-nil k = refl

  pub lookup-insert :
      (j k : K) (v : V) (d : Dict K V)
      → lookup j (insert k v d) ≡ (if j == k then some v else lookup j d)
  unfolding insert lookup
  lookup-insert j k v [] = refl
  lookup-insert j k v (_ ∷ d) = ground (arith, lookup-insert j k v d)

  pub lookup-erase :
      (j k : K) (d : Dict K V) → lookup j (erase k d) ≡ (if j == k then none else lookup j d)
  unfolding erase lookup
  lookup-erase j k [] = ground arith
  lookup-erase j k (_ ∷ d) = ground (arith, lookup-erase j k d)

  -- The entries of other keys, and the entry itself, after a change of one.
  pub lookup-insert_other :
      (j k : K) (v : V) (d : Dict K V) → j ≢ k → lookup j (insert k v d) ≡ lookup j d
  lookup-insert_other j k v d n = rw (lookup-insert j k v d, if_neg (e.dec j k) n) refl

  pub lookup-insert_same :
      (j k : K) (v : V) (d : Dict K V) → j ≡ k → lookup j (insert k v d) ≡ some v
  lookup-insert_same j k v d same = rw (lookup-insert j k v d, if_pos (e.dec j k) same) refl

  pub lookup-erase_other : (j k : K) (d : Dict K V) → j ≢ k → lookup j (erase k d) ≡ lookup j d
  lookup-erase_other j k d n = rw (lookup-erase j k d, if_neg (e.dec j k) n) refl

  pub lookup-erase-some :
      (j k : K) (v : V) (d : Dict K V)
      → lookup j (erase k d) ≡ some v
      → (j ≢ k) × (lookup j d ≡ some v)
  lookup-erase-some j k v d f = elim (e.dec j k) [
    | yes p ↦ cc (rw (lookup-erase j k d, if_pos (e.dec j k) p) at f)
    | no n ↦ (n, rw (lookup-erase j k d, if_neg (e.dec j k) n) at f)
  ]

-- A loop over the values of a table: each is changed in place, and gives what it says, in order.
unfoldable pub each {ℓ κ μ} :
    {K : Type ℓ} {V : Type κ} {S : Type μ} → (V → V × List S) → Dict K V → Dict K V × List (K × S)
each f [] = ([], [])
each f ((k, v) ∷ d) =
    let (v', said) = f v in
    let (d', rest) = each f d in ((k, v') ∷ d', map (λ s. (k, s)) said ++ rest)

-- Every entry has the property.
abbrev pub AllEntries {ℓ κ μ} : {K : Type ℓ} {V : Type κ} → (K → V → Type μ) → Dict K V → Type μ
AllEntries P [] = Unit
AllEntries P ((k, v) ∷ d) = P k v × AllEntries P d

module _ {ℓ κ μ} {K : Type ℓ} {V : Type κ} ⦃e : Eq K⦄ (P : K → V → Type μ) where
  pub AllEntries-insert :
      (k : K) (v : V) (d : Dict K V) → P k v → AllEntries P d → AllEntries P (insert k v d)
  unfolding insert
  AllEntries-insert k v [] p all = (p, tt)
  AllEntries-insert k v ((j, w) ∷ d) p all = elim (Bool-cases (k == j)) [
    | inl h ↦ rw h (p, all.1)
    | inr h ↦ rw h (all.0, AllEntries-insert k v d p all.1)
  ]

  pub AllEntries-lookup :
      (k : K) (v : V) (d : Dict K V) → AllEntries P d → lookup k d ≡ some v → P k v
  unfolding lookup
  AllEntries-lookup k v [] all h = cc
  AllEntries-lookup k v ((j, w) ∷ d) all h = elim (e.dec k j) [
    | yes p ↦
        (let same : w ≡ v = some-injective w v (rw (if_pos (e.dec k j) p) at h) in
          subst₂ P (sym p) same all.0)
    | no n ↦ AllEntries-lookup k v d all.1 (rw (if_neg (e.dec k j) n) at h)
  ]

-- What the loop makes true of each value.
pub AllEntries-each {ℓ κ μ ν ξ} :
    {K : Type ℓ} {V : Type κ} {S : Type μ} (P : K → V → Type ν) (Q : K → V → Type ξ)
    (f : V → V × List S) (d : Dict K V)
    → ((k : K) (v : V) → P k v → Q k (f v).0)
    → AllEntries P d
    → AllEntries Q (each f d).0
unfolding each
AllEntries-each P Q f [] step all = tt
AllEntries-each P Q f ((k, v) ∷ d) step all = (step k v all.0, AllEntries-each P Q f d step all.1)

module _ {ℓ κ μ} {K : Type ℓ} {V : Type κ} {S : Type μ} ⦃e : Eq K⦄ where
  pub lookup-each :
      (f : V → V × List S) (k : K) (d : Dict K V)
      → lookup k (each f d).0 ≡ Option.map (λ v. (f v).0) (lookup k d)
  unfolding lookup each
  lookup-each f k [] = refl
  lookup-each f k ((j, v) ∷ d) = ground (arith, lookup-each f k d)
