-- ===== src/Events/Delivery.antt =====
-- What a flush brings to a subscriber.
use interface.Prelude.{ℕ, ◌≤◌, ◌≡◌, ◌⊎◌, true, List, [], ◌∷◌, ℕ_discrete, arith, inl, inr, In}
use interface.Prelude.Sets.{has, has-add, NoRepeat}
use interface.Text.{Text, text_dec}
use interface.Events.{Change, change_dec, Hub, Walk, publish}

-- Go walks a map in some order, and reaches every entry and no other.
pub record IsComplete (walk : Walk) : Type 0 where
  pub changes :
      (cs : List Change) (c : Change) → has change_dec c (walk.changes cs) ≡ has change_dec c cs
  pub topics : (ts : List Text) (t : Text) → has text_dec t (walk.topics ts) ≡ has text_dec t ts
  pub channels : (ids : List ℕ) → NoRepeat ℕ_discrete ids → NoRepeat ℕ_discrete (walk.channels ids)
  pub subscribed :
      (ids : List ℕ) (ch : ℕ) → has ℕ_discrete ch (walk.channels ids) ≡ has ℕ_discrete ch ids

unfoldable pub publish_all : List Change → Hub → Hub
publish_all [] h = h
publish_all (c ∷ cs) h = publish_all cs (publish c h)

-- One change: what is pending stays, and the change is pending or counted as dropped.
publish-has :
    (c d : Change) (h : Hub)
    → has change_dec d h.pending ≡ true
    → has change_dec d (publish c h).pending ≡ true
unfolding publish
publish-has c d h m = ground (arith, has-add change_dec c d h.pending)

publish-counted :
    (c : Change) (h : Hub)
    → (has change_dec c (publish c h).pending ≡ true) ⊎ (1 ≤ (publish c h).dropped)
unfolding publish
publish-counted c h = ground (arith, has-add change_dec c c h.pending)

publish-dropped : (c : Change) (h : Hub) → h.dropped ≤ (publish c h).dropped
unfolding publish
publish-dropped c h = ground arith

publish-new :
    (c d : Change) (h : Hub)
    → has change_dec d (publish c h).pending ≡ true
    → (has change_dec d h.pending ≡ true) ⊎ (d ≡ c)
unfolding publish
publish-new c d h m = ground (arith, has-add change_dec c d h.pending)

publish_all-dropped : (cs : List Change) (h : Hub) → h.dropped ≤ (publish_all cs h).dropped
unfolding publish_all
publish_all-dropped [] h = omega arith
publish_all-dropped (c ∷ cs) h =
    omega (arith, publish_all-dropped cs (publish c h), publish-dropped c h)

publish_all-has :
    (cs : List Change) (d : Change) (h : Hub)
    → has change_dec d h.pending ≡ true
    → has change_dec d (publish_all cs h).pending ≡ true
unfolding publish_all
publish_all-has [] d h m = m
publish_all-has (c ∷ cs) d h m = publish_all-has cs d (publish c h) (publish-has c d h m)

-- Every published change is pending, unless the count of dropped changes says that some are not.
pub publish_all-counted :
    (cs : List Change) (d : Change) (h : Hub)
    → In d cs
    → (has change_dec d (publish_all cs h).pending ≡ true) ⊎ (1 ≤ (publish_all cs h).dropped)
unfolding publish_all
publish_all-counted [] d h m = absurd m
publish_all-counted (c ∷ cs) d h (inl e) = rw e (elim (publish-counted c h) [
  | inl kept ↦ inl (publish_all-has cs c (publish c h) kept)
  | inr lost ↦ inr (omega (arith, publish_all-dropped cs (publish c h)))
])
publish_all-counted (c ∷ cs) d h (inr m) = publish_all-counted cs d (publish c h) m

pub publish_all-new :
    (cs : List Change) (d : Change) (h : Hub)
    → has change_dec d (publish_all cs h).pending ≡ true
    → (has change_dec d h.pending ≡ true) ⊎ In d cs
unfolding publish_all
publish_all-new [] d h m = inl m
publish_all-new (c ∷ cs) d h m = elim (publish_all-new cs d (publish c h) m) [
  | inl old ↦ elim (publish-new c d h old) [ inl older ↦ inl older | inr e ↦ inr (inl e) ]
  | inr later ↦ inr (inr later)
]
