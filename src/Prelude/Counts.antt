-- ===== src/Prelude/Counts.antt =====
-- A Go map of numbers, to which a program adds, and how often an element stands in a list.
use mathlib.Core.Path.{◌≡◌, refl}
use mathlib.Core.Logic.{inl, inr}
use mathlib.Core.Bool.{true, false}
use mathlib.Core.Option.{Option, none, some}
use mathlib.Core.List.{List, [], ◌∷◌}
use Prim.Native.Nat.{ℕ, ◌+◌, ◌≤◌}
use native.Mathlib.Omega.{arith}
use interface.Prelude.Tests.{if◌then◌else◌, holds, Bool-cases}
use interface.Prelude.Maps.{lookup, insert, lookup-insert}

abbrev pub sum_counts : {K : Type 0} → List (K × ℕ) → ℕ
sum_counts [] = 0
sum_counts ((k, n) ∷ rows) = n + sum_counts rows

abbrev pub or_zero : Option ℕ → ℕ
or_zero none = 0
or_zero (some n) = n

module _ {K : Type 0} (dec : Discrete K) where
  -- `m[k]` of a map of numbers
  unfoldable pub count_of : K → List (K × ℕ) → ℕ
  count_of k m = or_zero (lookup dec k m)

  -- `m[k] += n`
  unfoldable pub bump : K → ℕ → List (K × ℕ) → List (K × ℕ)
  bump k n m = insert dec k (count_of k m + n) m

  -- the loop over rows of a key and a number
  unfoldable pub bump_all : List (K × ℕ) → List (K × ℕ) → List (K × ℕ)
  bump_all [] m = m
  bump_all ((k, n) ∷ rows) m = bump_all rows (bump k n m)

  -- how often an element stands in a list
  abbrev pub occurrences : K → List K → ℕ
  occurrences k [] = 0
  occurrences k (x ∷ xs) = (if holds (dec x k) then 1 else 0) + occurrences k xs

  pub count_of-insert :
      (k j : K) (v : ℕ) (m : List (K × ℕ))
      → count_of j (insert dec k v m) ≡ (if holds (dec k j) then v else count_of j m)
  unfolding count_of
  count_of-insert k j v m = ground (arith, lookup-insert dec k j v m)

  count_here :
      (k j : K) (w : ℕ) (m : List (K × ℕ)) → holds (dec j k) ≡ true → count_of k ((j, w) ∷ m) ≡ w
  unfolding count_of lookup
  count_here k j w m h = ground arith

  count_there :
      (k j : K) (w : ℕ) (m : List (K × ℕ))
      → holds (dec j k) ≡ false
      → count_of k ((j, w) ∷ m) ≡ count_of k m
  unfolding count_of lookup
  count_there k j w m h = ground arith

  pub count_nothing : (k : K) → count_of k [] ≡ 0
  unfolding count_of lookup
  count_nothing k = refl

  pub sum-insert :
      (k : K) (v : ℕ) (m : List (K × ℕ))
      → sum_counts (insert dec k v m) + count_of k m ≡ sum_counts m + v
  unfolding insert
  sum-insert k v [] = omega (arith, count_nothing k)
  sum-insert k v ((j, w) ∷ m) = elim (Bool-cases (holds (dec j k))) [
    | inl here ↦ rw here (omega (arith, count_here k j w m here))
    | inr there ↦ rw there (omega (arith, sum-insert k v m, count_there k j w m there))
  ]

  pub count_of_le : (k : K) (m : List (K × ℕ)) → count_of k m ≤ sum_counts m
  count_of_le k [] = omega (arith, count_nothing k)
  count_of_le k ((j, w) ∷ m) = elim (Bool-cases (holds (dec j k))) [
    | inl here ↦ omega (arith, count_here k j w m here)
    | inr there ↦ omega (arith, count_of_le k m, count_there k j w m there)
  ]

  pub sum-bump : (k : K) (n : ℕ) (m : List (K × ℕ)) → sum_counts (bump k n m) ≡ sum_counts m + n
  unfolding bump
  sum-bump k n m = omega (arith, sum-insert k (count_of k m + n) m)

  pub sum-bump_all :
      (rows m : List (K × ℕ)) → sum_counts (bump_all rows m) ≡ sum_counts m + sum_counts rows
  unfolding bump_all
  sum-bump_all [] m = omega arith
  sum-bump_all ((k, n) ∷ rows) m = omega (arith, sum-bump_all rows (bump k n m), sum-bump k n m)
