-- ===== src/Prelude/Maps.antt =====
-- A Go map as a list of pairs in which no key stands twice.
use mathlib.Core.Path.{◌≡◌, refl}
use mathlib.Core.Logic.{inl, inr}
use mathlib.Core.Bool.{Bool}
use mathlib.Core.Option.{Option, none, some}
use mathlib.Core.List.{List, [], ◌∷◌}
use native.Mathlib.Omega.{arith}
use interface.Prelude.Tests.{if◌then◌else◌, holds, Bool-cases}

-- what a test leaves of an optional value
abbrev pub keep_if {ℓ} : {V : Type ℓ} → (V → Bool) → Option V → Option V
keep_if p none = none
keep_if p (some v) = if p v then some v else none

module _ {K V : Type 0} (dec : Discrete K) where
  -- `v, ok := m[k]`
  unfoldable pub lookup : K → List (K × V) → Option V
  lookup k [] = none
  lookup k ((j, v) ∷ m) = if holds (dec j k) then some v else lookup k m

  -- `m[k] = v`
  unfoldable pub insert : K → V → List (K × V) → List (K × V)
  insert k v [] = (k, v) ∷ []
  insert k v ((j, w) ∷ m) = if holds (dec j k) then (k, v) ∷ m else (j, w) ∷ insert k v m

  -- `delete(m, k)`
  unfoldable pub delete : K → List (K × V) → List (K × V)
  delete k [] = []
  delete k ((j, w) ∷ m) = let rest = delete k m in if holds (dec j k) then rest else (j, w) ∷ rest

  -- the map without the entries whose value fails the test
  unfoldable pub keep : (V → Bool) → List (K × V) → List (K × V)
  keep p [] = []
  keep p ((j, w) ∷ m) = let rest = keep p m in if p w then (j, w) ∷ rest else rest

  -- no key stands twice
  abbrev pub Distinct : List (K × V) → Type 0
  Distinct [] = Unit
  Distinct ((j, w) ∷ m) = (lookup j m ≡ none) × Distinct m

  pub lookup-insert :
      (k j : K) (v : V) (m : List (K × V))
      → lookup j (insert k v m) ≡ (if holds (dec k j) then some v else lookup j m)
  unfolding lookup insert
  lookup-insert k j v [] = refl
  lookup-insert k j v ((i, w) ∷ m) = ground (arith, lookup-insert k j v m)

  pub lookup-delete :
      (k j : K) (m : List (K × V))
      → lookup j (delete k m) ≡ (if holds (dec k j) then none else lookup j m)
  unfolding lookup delete
  lookup-delete k j [] = ground arith
  lookup-delete k j ((i, w) ∷ m) = ground (arith, lookup-delete k j m)

  lookup-keep_absent :
      (p : V → Bool) (k : K) (m : List (K × V)) → lookup k m ≡ none → lookup k (keep p m) ≡ none
  unfolding lookup keep
  lookup-keep_absent p k [] h = refl
  lookup-keep_absent p k ((j, w) ∷ m) h = ground (arith, lookup-keep_absent p k m)

  pub lookup-keep :
      (p : V → Bool) (k : K) (m : List (K × V))
      → Distinct m
      → lookup k (keep p m) ≡ keep_if p (lookup k m)
  unfolding lookup keep
  lookup-keep p k [] d = refl
  lookup-keep p k ((j, w) ∷ m) (new, d) =
      ground (arith, lookup-keep p k m d, lookup-keep_absent p j m new)

  pub Distinct-insert : (k : K) (v : V) (m : List (K × V)) → Distinct m → Distinct (insert k v m)
  unfolding lookup insert
  Distinct-insert k v [] d = (refl, tt)
  Distinct-insert k v ((j, w) ∷ m) (new, d) = elim (Bool-cases (holds (dec j k))) [
    | inl e ↦ rw e (ground arith, d)
    | inr e ↦ rw e (ground (arith, lookup-insert k j v m), Distinct-insert k v m d)
  ]

  pub Distinct-keep : (p : V → Bool) (m : List (K × V)) → Distinct m → Distinct (keep p m)
  unfolding lookup keep
  Distinct-keep p [] d = tt
  Distinct-keep p ((j, w) ∷ m) (new, d) = elim (Bool-cases (p w)) [
    | inl e ↦ rw e (lookup-keep_absent p j m new, Distinct-keep p m d)
    | inr e ↦ rw e (Distinct-keep p m d)
  ]

  pub Distinct-delete : (k : K) (m : List (K × V)) → Distinct m → Distinct (delete k m)
  unfolding lookup delete
  Distinct-delete k [] d = tt
  Distinct-delete k ((j, w) ∷ m) (new, d) = elim (Bool-cases (holds (dec j k))) [
    | inl e ↦ rw e (Distinct-delete k m d)
    | inr e ↦ rw e (ground (arith, lookup-delete k j m), Distinct-delete k m d)
  ]
