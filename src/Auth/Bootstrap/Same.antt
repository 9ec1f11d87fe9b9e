-- ===== src/Auth/Bootstrap/Same.antt =====
-- Two roles are the same when they hold the same permissions, as often.
use interface.Prelude.{
  ℕ, zero, suc, ◌+◌, ◌≤◌, ◌≡◌, ◌⊎◌, ◌↔◌, refl, sym, ap, subst, true, some, List, [], ◌∷◌, length,
  ◌==◌, arith, Option-cases, inl, inr, ==_iff,
}
use interface.Prelude.Maps.{insert}
use interface.Prelude.Counts.{
  count_of, bump, occurrences, sum_counts, count_of-insert, count_nothing, sum-insert, count_of_le,
  sum-bump,
}
use interface.Text.{Text, text_dec}
use interface.Auth.Bootstrap.{Tally, tally, take_one, untally, same_permissions}

abbrev count : Text → Tally → ℕ
count = count_of text_dec

abbrev pub times : Text → List Text → ℕ
times = occurrences text_dec

count-tally :
    (q : Text) (ps : List Text) (seen : Tally) → count q (tally ps seen) ≡ count q seen + times q ps
unfolding tally bump
count-tally q [] seen = omega arith
count-tally q (p ∷ ps) seen = ground (
  arith,
  count-tally q ps (bump text_dec p 1 seen),
  count_of-insert text_dec p q (count p seen + 1) seen,
)

sum-tally :
    (ps : List Text) (seen : Tally) → sum_counts (tally ps seen) ≡ sum_counts seen + length ps
unfolding tally
sum-tally [] seen = omega arith
sum-tally (p ∷ ps) seen =
    omega (arith, sum-tally ps (bump text_dec p 1 seen), sum-bump text_dec p 1 seen)

-- what one turn of the second loop leaves
IsTaken : Text → Tally → Tally → Type 0
IsTaken p seen rest =
    ((q : Text) → count q seen ≡ times q (p ∷ []) + count q rest)
    × (sum_counts seen ≡ suc (sum_counts rest))

taken :
    (p : Text) (seen : Tally) (n : ℕ)
    → count p seen ≡ suc n
    → IsTaken p seen (insert text_dec p n seen)
unfolding IsTaken
taken p seen n h = (
  λ q. ground (arith, h, count_of-insert text_dec p q n seen),
  omega (arith, h, sum-insert text_dec p n seen),
)

take_one-IsTaken :
    (p : Text) (seen rest : Tally) → take_one p seen ≡ some rest → IsTaken p seen rest
unfolding take_one
take_one-IsTaken p seen rest h = go (count p seen) refl
  where
    go : (n : ℕ) → count p seen ≡ n → IsTaken p seen rest
    go zero e = absurd (ground arith)
    go (suc n) e =
        let same : insert text_dec p n seen ≡ rest = ground arith in
        subst (IsTaken p seen) same (taken p seen n e)

untally_lem :
    (ps : List Text) (seen rest : Tally)
    → untally ps seen ≡ some rest
    → ((q : Text) → count q seen ≡ times q ps + count q rest)
      × (sum_counts seen ≡ length ps + sum_counts rest)
unfolding untally IsTaken
untally_lem [] seen rest h =
    let same : seen ≡ rest = ground arith in
    (λ q. omega (arith, ap (count q) same), omega (arith, ap sum_counts same))
untally_lem (p ∷ ps) seen rest h = elim (Option-cases (take_one p seen)) [
  | inl nothing ↦ absurd (ground arith)
  | inr (seen', one) ↦
      let (counts, sums) = take_one-IsTaken p seen seen' one in
      let (more, total) = untally_lem ps seen' rest (ground arith) in
      (λ q. omega (arith, counts q, more q), omega (arith, sums, total))
]

zero_or_suc : (n : ℕ) → (n ≡ 0) ⊎ ((m : ℕ) × (n ≡ suc m))
zero_or_suc zero = inl refl
zero_or_suc (suc m) = inr (m, refl)

untally-enough :
    (ps : List Text) (seen : Tally)
    → ((q : Text) → times q ps ≤ count q seen)
    → (rest : Tally) × (untally ps seen ≡ some rest)
unfolding untally take_one IsTaken
untally-enough [] seen h = (seen, refl)
untally-enough (p ∷ ps) seen h = elim (zero_or_suc (count p seen)) [
  | inl none_left ↦ absurd (ground (arith, h p))
  | inr (n, e) ↦
      let (counts, _) = taken p seen n e in
      let left = insert text_dec p n seen in
      let (rest, more) = untally-enough ps left (λ q. omega (arith, counts q, h q)) in
      (rest, ground arith)
]

counted : (q : Text) (a : List Text) → count q (tally a []) ≡ times q a
counted q a = omega (arith, count-tally q a [], count_nothing text_dec q)

summed : (a : List Text) → sum_counts (tally a []) ≡ length a
summed a = omega (arith, sum-tally a [])

-- the same permissions, each as often
abbrev pub SameTimes : List Text → List Text → Type 0
SameTimes a b = (q : Text) → times q a ≡ times q b

-- the second list can be taken off the first
within :
    (a b : List Text)
    → SameTimes a b
    → (rest : Tally) × (untally b (tally a []) ≡ some rest)
      × (length a ≡ length b + sum_counts rest)
within a b h =
    let (rest, off) = untally-enough b (tally a []) (λ q. omega (arith, counted q a, h q)) in
    let (_, sums) = untally_lem b (tally a []) rest off in
    (rest, off, omega (arith, sums, summed a))

-- Two lists of permissions are taken for the same exactly when each permission stands in both as
-- often: neither the order nor anything else is looked at.
pub same_permissions-SameTimes_iff :
    (a b : List Text) → (same_permissions a b ≡ true) ↔ SameTimes a b
unfolding same_permissions
same_permissions-SameTimes_iff a b = (to, from)
  where
    to : same_permissions a b ≡ true → SameTimes a b
    to h = elim (Option-cases (untally b (tally a []))) [
      | inl nothing ↦ absurd (ground arith)
      | inr (rest, off) ↦
          let (counts, sums) = untally_lem b (tally a []) rest off in
          let lengths : length a ≡ length b = ground arith in
          λ q.
            omega
              (arith, counts q, counted q a, summed a, sums, lengths, count_of_le text_dec q rest)
    ]

    from : SameTimes a b → same_permissions a b ≡ true
    from h =
        let (rest, off, longer) = within a b h in
        let (_, _, shorter) = within b a (λ q. sym (h q)) in
        let lengths : (length a == length b) ≡ true =
          (==_iff (length a) (length b)).1 (omega (arith, longer, shorter)) in
        rw (lengths, off) refl
