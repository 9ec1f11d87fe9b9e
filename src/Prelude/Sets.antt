-- ===== src/Prelude/Sets.antt =====
-- A Go map to `struct{}` as a list without repetition.
use Prim.Native.Nat.{◌+◌, ◌≤◌}
use mathlib.Core.Path.{◌≡◌, refl, sym}
use mathlib.Core.Bool.{Bool, true, false, not, ◌&&◌, ◌||◌}
use mathlib.Core.List.{List, [], ◌∷◌, ◌++◌}
use mathlib.Core.Logic.{inl, inr}
use native.Mathlib.Omega.{arith}
use interface.Prelude.Tests.{if◌then◌else◌, holds, Bool-cases}
use interface.Prelude.Lists.{length, any, In}

module _ {A : Type 0} (dec : Discrete A) where
  -- `_, ok := s[a]`
  abbrev pub has : A → List A → Bool
  has a = any (λ x. holds (dec x a))

  -- `s[a] = struct{}{}`
  unfoldable pub add : A → List A → List A
  add a s = if has a s then s else s ++ a ∷ []

  -- `delete(s, a)`
  unfoldable pub drop_from : A → List A → List A
  drop_from a [] = []
  drop_from a (x ∷ xs) = let rest = drop_from a xs in if holds (dec x a) then rest else x ∷ rest

  -- no element stands twice
  abbrev pub NoRepeat : List A → Type 0
  NoRepeat [] = Unit
  NoRepeat (x ∷ xs) = (has x xs ≡ false) × NoRepeat xs

  has-append : (a b : A) (s : List A) → has b (s ++ a ∷ []) ≡ (has b s || holds (dec a b))
  has-append a b [] = ground arith
  has-append a b (x ∷ s) = ground (arith, has-append a b s)

  pub has-add : (a b : A) (s : List A) → has b (add a s) ≡ (has b s || holds (dec a b))
  unfolding add
  has-add a b s = elim (Bool-cases (has a s)) [
    | inl old ↦ rw old (ground (arith, old))
    | inr new ↦ rw new (has-append a b s)
  ]

  pub has-drop_from :
      (a b : A) (s : List A) → has b (drop_from a s) ≡ (has b s && not (holds (dec a b)))
  unfolding drop_from
  has-drop_from a b [] = refl
  has-drop_from a b (x ∷ s) = ground (arith, has-drop_from a b s)

  length-append_one : (a : A) (s : List A) → length (s ++ a ∷ []) ≡ length s + 1
  length-append_one a [] = omega arith
  length-append_one a (x ∷ s) = omega (arith, length-append_one a s)

  pub length-add : (a : A) (s : List A) → length (add a s) ≤ length s + 1
  unfolding add
  length-add a s = ground (arith, length-append_one a s)

  pub length-drop_from : (a : A) (s : List A) → length (drop_from a s) ≤ length s
  unfolding drop_from
  length-drop_from a [] = omega arith
  length-drop_from a (x ∷ s) = ground (arith, length-drop_from a s)

  NoRepeat-append : (a : A) (s : List A) → has a s ≡ false → NoRepeat s → NoRepeat (s ++ a ∷ [])
  NoRepeat-append a [] h d = (refl, tt)
  NoRepeat-append a (x ∷ s) h (new, d) =
      (ground (arith, has-append a x s), NoRepeat-append a s (ground arith) d)

  pub NoRepeat-add : (a : A) (s : List A) → NoRepeat s → NoRepeat (add a s)
  unfolding add
  NoRepeat-add a s d = elim (Bool-cases (has a s)) [
    | inl old ↦ rw old d
    | inr new ↦ rw new (NoRepeat-append a s new d)
  ]

  pub NoRepeat-drop_from : (a : A) (s : List A) → NoRepeat s → NoRepeat (drop_from a s)
  unfolding drop_from
  NoRepeat-drop_from a [] d = tt
  NoRepeat-drop_from a (x ∷ s) (new, d) = elim (Bool-cases (holds (dec x a))) [
    | inl e ↦ rw e (NoRepeat-drop_from a s d)
    | inr e ↦ rw e (ground (arith, has-drop_from a x s), NoRepeat-drop_from a s d)
  ]

  pub has-length : (a : A) (s : List A) → has a s ≡ true → 1 ≤ length s
  has-length a [] h = absurd (cc)
  has-length a (x ∷ s) h = omega arith

  pub has-In : (a : A) (s : List A) → has a s ≡ true → In a s
  has-In a [] h = absurd (cc)
  has-In a (x ∷ s) h = elim (dec x a) [
    | yes p ↦ inl (sym p)
    | no p ↦ inr (has-In a s (ground arith))
  ]

  pub In-has : (a : A) (s : List A) → In a s → has a s ≡ true
  In-has a [] m = absurd m
  In-has a (x ∷ s) (inl e) = ground arith
  In-has a (x ∷ s) (inr m) = ground (arith, In-has a s m)
