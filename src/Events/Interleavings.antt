-- ===== src/Events/Interleavings.antt =====
-- The hub as the goroutines drive it: handlers subscribe, receive and leave, the worker source
-- publishes, and the one flush loop sends between them.
use interface.Prelude.{
  ℕ, ◌≡◌, ◌≢◌, refl, Bool, true, false, Option, none, some, List, [], ◌∷◌, arith, ℕ_discrete,
}
use interface.Prelude.Int.{ℤ}
use interface.Prelude.Maps.{lookup-insert}
use interface.Prelude.Sets.{has, has-length}
use interface.Events.{
  Change, Batch, Channel, Hub, Walk, channel, new_hub, subscribe, detach, close_channel, publish,
  set_connected, take_batch, batch_of, send, receive,
}
use interface.Events.Invariant.{
  IsValid, new_hub-IsValid, publish-IsValid, subscribe-IsValid, detach-IsValid,
  close_channel-IsValid, send-IsValid, receive-IsValid, take_batch-cleared, take_batch-IsValid,
  set_connected-IsValid,
}

-- The hub, and the sends that the flush loop still has to make.
pub record System : Type 0 where
  pub hub : Hub
  pub flushing : Option (Batch × List ℕ)

-- A step of one goroutine. A step that would panic is no step.
pub data Step : System → System → Type 0 where
  subscribes : (s : System) → Step s (record s { hub = (subscribe s.hub).0 })
  leaves : (s : System) (ch : ℕ) → Step s (record s { hub = detach ch s.hub })
  closes : (s : System) (ch : ℕ) → Step s (record s { hub = close_channel ch s.hub })
  publishes : (s : System) (c : Change) → Step s (record s { hub = publish c s.hub })
  connects : (s : System) (up : Bool) → Step s (record s { hub = set_connected up s.hub })
  receives : (s : System) (ch : ℕ) → Step s (record s { hub = (receive ch s.hub).0 })
  ticks :
      (s : System) (walk : Walk) (now : ℕ)
      → s.flushing ≡ none
      → Step s
          (record { hub = (take_batch walk now s.hub).0; flushing = (take_batch walk now s.hub).1 })
  sends :
      (s : System) (b : Batch) (ch : ℕ) (chs : List ℕ) (h : Hub)
      → s.flushing ≡ some (b, ch ∷ chs)
      → send b ch s.hub ≡ some h
      → Step s (record { hub = h; flushing = some (b, chs) })
  rests :
      (s : System) (b : Batch) → s.flushing ≡ some (b, []) → Step s (record s { flushing = none })

pub data Reach (s : System) : System → Type 0 where
  here : Reach s s
  next : {t u : System} → Reach s t → Step t u → Reach s u

Step-IsValid : {s t : System} → Step s t → IsValid s.hub → IsValid t.hub
Step-IsValid (subscribes s) v = subscribe-IsValid s.hub v
Step-IsValid (leaves s ch) v = detach-IsValid ch s.hub v
Step-IsValid (closes s ch) v = close_channel-IsValid ch s.hub v
Step-IsValid (publishes s c) v = publish-IsValid c s.hub v
Step-IsValid (connects s up) v = set_connected-IsValid up s.hub v
Step-IsValid (receives s ch) v = receive-IsValid ch s.hub v
Step-IsValid (ticks s walk now idle) v = take_batch-IsValid walk now s.hub v
Step-IsValid (sends s b ch chs h busy sent) v = send-IsValid b ch s.hub h v sent
Step-IsValid (rests s b done) v = v

abbrev pub start : ℤ → ℤ → System
start max_batch max_clients = record { hub = new_hub max_batch max_clients; flushing = none }

Reach-IsValid : {s t : System} → IsValid s.hub → Reach s t → IsValid t.hub
Reach-IsValid v here = v
Reach-IsValid v (next r st) = Step-IsValid st (Reach-IsValid v r)

-- However the goroutines interleave, from a new hub: no more changes are pending than a batch may
-- hold, and none twice; no more clients are subscribed than
-- allowed, and none twice; no buffer holds more than eight batches; and every subscribed channel is open.
pub start-Reach-IsValid :
    (max_batch max_clients : ℤ) (s : System) → Reach (start max_batch max_clients) s → IsValid s.hub
start-Reach-IsValid max_batch max_clients s r =
    Reach-IsValid (new_hub-IsValid max_batch max_clients) r

channel-detach :
    (ch : ℕ) (c : Channel) (h : Hub)
    → channel ch h ≡ some c
    → c.released ≡ false
    → channel ch (detach ch h) ≡ some (record c { released = true })
unfolding detach
channel-detach ch c h found first =
    ground (arith, lookup-insert ℕ_discrete ch ch (record c { released = true }) h.channels)

send_after_close :
    (b : Batch) (ch : ℕ) (c : Channel) (h : Hub)
    → channel ch h ≡ some c
    → c.released ≡ true
    → c.closed ≡ false
    → send b ch (close_channel ch h) ≡ none
unfolding send close_channel
send_after_close b ch c h found spent opened =
    ground (arith, lookup-insert ℕ_discrete ch ch (record c { closed = true }) h.channels)

send_after_leave :
    (b : Batch) (ch : ℕ) (c : Channel) (h : Hub)
    → channel ch h ≡ some c
    → c.released ≡ false
    → c.closed ≡ false
    → send b ch (close_channel ch (detach ch h)) ≡ none
send_after_leave b ch c h found first opened =
    send_after_close b ch (record c { released = true }) (detach ch h)
      (channel-detach ch c h found first) refl opened

take_batch-busy :
    (walk : Walk) (now : ℕ) (h : Hub) (ch : ℕ)
    → h.pending ≢ []
    → has ℕ_discrete ch h.subscribers ≡ true
    → (b : Batch) × ((take_batch walk now h).1 ≡ some (b, walk.channels h.subscribers))
unfolding take_batch
take_batch-busy walk now h ch p m =
    (batch_of walk now h, ground (arith, has-length ℕ_discrete ch h.subscribers m))

-- From every valid hub with a change pending and no flush under way, a subscriber whose channel the
-- walk lists first can leave and close its channel between the listing and the send; the send on the
-- closed channel then panics.
pub flush_race :
    (s : System) (walk : Walk) (now ch : ℕ) (chs : List ℕ)
    → IsValid s.hub
    → s.flushing ≡ none
    → s.hub.pending ≢ []
    → has ℕ_discrete ch s.hub.subscribers ≡ true
    → walk.channels s.hub.subscribers ≡ ch ∷ chs
    → (t : System) × (b : Batch) × Reach s t
      × (t.flushing ≡ some (b, ch ∷ chs))
      × (send b ch t.hub ≡ none)
flush_race s walk now ch chs v idle p m order =
    let taken : Hub = (take_batch walk now s.hub).0 in
    let (b, busy) = take_batch-busy walk now s.hub ch p m in
    let (c, found, opened) =
      (take_batch-IsValid walk now s.hub v).live ch (rw take_batch-cleared m) in
    (
      record { hub = close_channel ch (detach ch taken); flushing = (take_batch walk now s.hub).1 },
      b,
      next
          (next (next here (ticks s walk now idle))
            (leaves (record { hub = taken; flushing = (take_batch walk now s.hub).1 }) ch))
          (closes (record { hub = detach ch taken; flushing = (take_batch walk now s.hub).1 }) ch),
      rw order at busy,
      send_after_leave b ch c taken found
          ((take_batch-IsValid walk now s.hub v).unreleased ch c (rw take_batch-cleared m) found)
          opened,
    )
