-- ===== src/Events/Tests.antt =====
-- The theorems on the hub, at a hub with one client.
use interface.Prelude.{
  ℕ, ◌/◌, ◌<◌, ◌≤◌, ◌≡◌, ◌⊎◌, ◌↔◌, refl, true, none, some, [], ◌∷◌, if◌then◌else◌, arith,
  ℕ_discrete, In,
}
use mathlib.Core.Option
use interface.Prelude.Int.{pos}
use interface.Prelude.Sets.{has, add}
use interface.Text.{Text, ascii, text_dec}
use interface.Events.{
  Change, change_dec, Batch, Hub, Walk, new_hub, subscribe, publish, batch_of, channel, flush, send,
}
use interface.Events.Worker.{EventFields, change_from, object_change, delay}
use interface.Events.Invariant.{IsValid}
use interface.Events.Interleavings.{
  System, subscribes, publishes, Reach, here, next, start, start-Reach-IsValid, flush_race,
}
use interface.Events.Delivery.{IsComplete, publish_all}
use interface.Events.Flush.{received, reaches, flush-received}
use interface.Events.Batches.{batch_of-publish_all}

abbrev change : Change
change = object_change (ascii "t") (ascii "db") (ascii "cpu")

-- after one client has come and one change has been published
abbrev busy : System
busy = record (record (start (pos 2) (pos 3)) { hub = (subscribe (start (pos 2) (pos 3)).hub).0 }) {
  hub = publish change (subscribe (start (pos 2) (pos 3)).hub).0;
}

busy-Reach : Reach (start (pos 2) (pos 3)) busy
busy-Reach = next (next here (subscribes (start (pos 2) (pos 3)))) (
    publishes (record (start (pos 2) (pos 3)) { hub = (subscribe (start (pos 2) (pos 3)).hub).0 })
      change)

busy-IsValid : IsValid busy.hub
busy-IsValid = start-Reach-IsValid (pos 2) (pos 3) busy busy-Reach

start-Reach-IsValid_example : IsValid busy.hub
start-Reach-IsValid_example = start-Reach-IsValid (pos 2) (pos 3) busy busy-Reach

-- maps walked in the order of insertion
abbrev walk : Walk
walk = record { changes = λ cs. cs; topics = λ ts. ts; channels = λ ids. ids }

walk-IsComplete : IsComplete walk
walk-IsComplete = record {
  changes = λ cs c. refl;
  topics = λ ts t. refl;
  channels = λ ids d. d;
  subscribed = λ ids ch. refl;
}

busy-subscribers : busy.hub.subscribers ≡ 0 ∷ []
unfolding publish subscribe new_hub add
busy-subscribers = refl

busy-pending : busy.hub.pending ≡ change ∷ []
unfolding publish subscribe new_hub add
busy-pending = refl

subscribed : has ℕ_discrete 0 busy.hub.subscribers ≡ true
unfolding publish subscribe new_hub add ℕ_discrete
subscribed = refl

flush_race_example :
    (t : System) × (b : Batch) × Reach busy t
    × (t.flushing ≡ some (b, 0 ∷ []))
    × (send b 0 t.hub ≡ none)
flush_race_example =
    flush_race busy walk 5 0 [] busy-IsValid refl (λ e. absurd (cc (busy-pending, e))) subscribed
      busy-subscribers

flush-received_example :
    (h' : Hub) × (flush walk 5 busy.hub ≡ some h')
    × (h'.pending ≡ [])
    × (h'.dropped ≡ 0)
    × ((q : ℕ)
        → channel q h' ≡ (
            if reaches busy.hub q
            then Option.map (received (batch_of walk 5 busy.hub)) (channel q busy.hub)
            else channel q busy.hub))
flush-received_example = flush-received walk 5 busy.hub walk-IsComplete busy-IsValid

abbrev empty_hub : Hub
empty_hub = new_hub (pos 2) (pos 3)

nothing_pending : empty_hub.pending ≡ []
unfolding new_hub
nothing_pending = refl

batch_of-publish_all_example :
    (b : Batch) × (b ≡ batch_of walk 5 (publish_all (change ∷ []) empty_hub))
    × ((d : Change) → In d (change ∷ []) → (has change_dec d b.changes ≡ true) ⊎ (1 ≤ b.dropped))
    × ((d : Change) → has change_dec d b.changes ≡ true → In d (change ∷ []))
    × ((t : Text)
        → (has text_dec t b.topics ≡ true)
          ↔ ((d : Change) × (has change_dec d b.changes ≡ true) × (d.topic ≡ t)))
batch_of-publish_all_example =
    batch_of-publish_all walk 5 (change ∷ []) empty_hub walk-IsComplete nothing_pending

-- a state change of a host, which carries the name of a service nonetheless
abbrev fields : EventFields
fields = record {
  name = [];
  host_name = ascii "db";
  description = ascii "cpu";
  service_desc = [];
  statechange_type = some (pos 0);
  downtime = none;
}

abbrev host_change : Change
host_change = object_change (ascii "t") (ascii "db") []

change_from_ok : change_from (ascii "t") (some fields) ≡ some host_change
unfolding change_from text_dec ℕ_discrete
change_from_ok = refl

jitter_small : 7 < delay 3 / 4
unfolding delay
jitter_small = omega arith
