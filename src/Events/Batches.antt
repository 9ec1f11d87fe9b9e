-- ===== src/Events/Batches.antt =====
-- What a batch tells of the changes published since the last one.
use interface.Prelude.{
  ℕ, ◌≤◌, ◌≡◌, ◌↔◌, ◌⊎◌, refl, sym, subst, ◌∙◌, true, List, [], ◌∷◌, arith, inl, inr, In,
}
use interface.Prelude.Sets.{has, has-add}
use interface.Text.{Text, text_dec}
use interface.Events.{Change, change_dec, Batch, Hub, Walk, batch_of, topic_set}
use interface.Events.Delivery.{IsComplete, publish_all, publish_all-counted, publish_all-new}

topic_set_sound :
    (cs : List Change) (t : Text)
    → has text_dec t (topic_set cs) ≡ true
    → (c : Change) × (has change_dec c cs ≡ true) × (c.topic ≡ t)
unfolding topic_set
topic_set_sound [] t h = absurd (cc)
topic_set_sound (c ∷ cs) t h = elim (text_dec c.topic t) [
  | yes p ↦ (c, ground arith, p)
  | no p ↦
      let (d, m, e) =
        topic_set_sound cs t (ground (arith, has-add text_dec c.topic t (topic_set cs))) in
      (d, ground arith, e)
]

topic_set_complete :
    (cs : List Change) (c : Change)
    → has change_dec c cs ≡ true
    → has text_dec c.topic (topic_set cs) ≡ true
unfolding topic_set
topic_set_complete [] c h = absurd (cc)
topic_set_complete (d ∷ cs) c h =
    ground (arith, topic_set_complete cs c, has-add text_dec d.topic c.topic (topic_set cs))

-- A batch taken after some publications on an empty hub lists each of them, unless it says that
-- changes were dropped; it lists nothing else; and its topics are exactly those of its changes.
pub batch_of-publish_all :
    (walk : Walk) (now : ℕ) (cs : List Change) (h : Hub)
    → IsComplete walk
    → h.pending ≡ []
    → (b : Batch) × (b ≡ batch_of walk now (publish_all cs h))
      × ((d : Change) → In d cs → (has change_dec d b.changes ≡ true) ⊎ (1 ≤ b.dropped))
      × ((d : Change) → has change_dec d b.changes ≡ true → In d cs)
      × ((t : Text)
          → (has text_dec t b.topics ≡ true)
            ↔ ((d : Change) × (has change_dec d b.changes ≡ true) × (d.topic ≡ t)))
batch_of-publish_all walk now cs h w e = (batch_of walk now after, refl, all, only, topics)
  where
    after : Hub
    after = publish_all cs h

    all :
        (d : Change)
        → In d cs
        → (has change_dec d (walk.changes after.pending) ≡ true) ⊎ (1 ≤ after.dropped)
    all d m = elim (publish_all-counted cs d h m) [
      | inl kept ↦ inl (w.changes after.pending d ∙ kept)
      | inr lost ↦ inr lost
    ]

    only : (d : Change) → has change_dec d (walk.changes after.pending) ≡ true → In d cs
    only d m = elim (publish_all-new cs d h (sym (w.changes after.pending d) ∙ m)) [
      | inl old ↦ absurd (ground arith)
      | inr fresh ↦ fresh
    ]

    topics :
        (t : Text)
        → (has text_dec t (walk.topics (topic_set after.pending)) ≡ true)
          ↔ ((d : Change) × (has change_dec d (walk.changes after.pending) ≡ true) × (d.topic ≡ t))
    topics t = (
      λ m.
          let (d, k, q) =
            topic_set_sound after.pending t (sym (w.topics (topic_set after.pending) t) ∙ m) in
          (d, w.changes after.pending d ∙ k, q),
      λ (d, m, q).
          w.topics (topic_set after.pending) t
          ∙ subst (λ x. has text_dec x (topic_set after.pending) ≡ true) q
              (topic_set_complete after.pending d (sym (w.changes after.pending d) ∙ m)),
    )
