-- ===== src/Events.antt =====
-- internal/events/hub.go: the hub that fans changes out to subscribers.
-- What a method does while it holds the lock is one step. `flush` releases it before it sends, so it
-- is a step that takes a batch and then one step for each send; a client that leaves gives the lock
-- back before it closes its channel, so that is two steps, `detach` and `close_channel`.
pub mod Worker
mod Invariant
mod Delivery
mod Flush
mod Batches
mod Interleavings
mod Tests
use interface.Prelude.{
  ℕ, zero, suc, ◌+◌, ◌≤◌, Bool, true, false, ◌||◌, ◌&&◌, not, Option, none, some, List, [], ◌∷◌,
  ◌++◌, length, any, ltb, leb, ◌==◌, if◌then◌else◌, holds, map, ℕ_discrete,
}
use interface.Prelude.Int.{ℤ, pos, leb_ℤ, pos_part}
use interface.Prelude.Maps.{lookup, insert}
use interface.Prelude.Sets.{has, add, drop_from}
use interface.Text.{Text, text_dec}

pub record Change : Type 0 where
  pub topic : Text
  pub kind : Text
  pub host : Text
  pub service : Text

pub change_dec : Discrete Change
change_dec = hlevel ℕ_discrete

pub record Batch : Type 0 where
  pub changes : List Change
  pub topics : List Text
  pub at_time : ℕ
  pub dropped : ℕ

-- A `chan Batch` of capacity 8; `released` says that the `once` of its subscription is spent.
pub record Channel : Type 0 where
  pub buffer : List Batch
  pub released : Bool
  pub closed : Bool

-- The maps `subscribers` and `pending` are sets: lists without repetition. `channels` is the heap
-- of the channels that `Subscribe` made, numbered in the order of their making.
pub record Hub : Type 0 where
  pub max_batch : ℕ
  pub max_clients : ℕ
  pub subscribers : List ℕ
  pub pending : List Change
  pub dropped : ℕ
  pub connected : Bool
  pub channels : List (ℕ × Channel)
  pub made : ℕ

abbrev or_default : ℤ → ℕ → ℕ
or_default n d = if leb_ℤ n (pos 0) then d else pos_part n

-- `NewHub`; the flush interval only sets the pace of the ticks
unfoldable pub new_hub : ℤ → ℤ → Hub
new_hub max_batch max_clients = record {
  max_batch = or_default max_batch 500;
  max_clients = or_default max_clients 500;
  subscribers = [];
  pending = [];
  dropped = 0;
  connected = false;
  channels = [];
  made = 0;
}

abbrev pub capacity : ℕ
capacity = 8

-- `Subscribe`: the channel, or nothing when the hub is full
unfoldable pub subscribe : Hub → Hub × Option ℕ
subscribe h =
    let made : Hub = record h {
      channels = (h.made, record { buffer = []; released = false; closed = false }) ∷ h.channels;
      made = suc h.made;
    } in
    if leb h.max_clients (length h.subscribers)
    then (made, none)
    else (record made { subscribers = add ℕ_discrete h.made h.subscribers }, some h.made)

abbrev pub channel : ℕ → Hub → Option Channel
channel ch h = lookup ℕ_discrete ch h.channels

-- The function that `Subscribe` returns, up to the release of the lock.
unfoldable pub detach : ℕ → Hub → Hub
detach ch h = elim (channel ch h) [
  | none ↦ h
  | some c ↦ if c.released then h else record h {
    subscribers = drop_from ℕ_discrete ch h.subscribers;
    channels = insert ℕ_discrete ch (record c { released = true }) h.channels;
  }
]

-- The rest of it: `close(ch)`. Only the call that spent the `once` gets here, and only once, so a
-- channel that is released and not closed is one whose `close` is still to come.
unfoldable pub close_channel : ℕ → Hub → Hub
close_channel ch h = elim (channel ch h) [
  | none ↦ h
  | some c ↦
      if c.released && not c.closed
      then record h { channels = insert ℕ_discrete ch (record c { closed = true }) h.channels }
      else h
]

unfoldable pub publish : Change → Hub → Hub
publish c h =
    if leb h.max_batch (length h.pending)
    then if has change_dec c h.pending then h else record h { dropped = h.dropped + 1 }
    else record h { pending = add change_dec c h.pending }

unfoldable pub set_connected : Bool → Hub → Hub
set_connected up h = record h { connected = up }

-- the set of the topics of some changes
unfoldable pub topic_set : List Change → List Text
topic_set [] = []
topic_set (c ∷ cs) = add text_dec c.topic (topic_set cs)

-- The orders in which Go happens to walk the three maps.
pub record Walk : Type 0 where
  pub changes : List Change → List Change
  pub topics : List Text → List Text
  pub channels : List ℕ → List ℕ

abbrev pub cleared : Hub → Hub
cleared h = record h { pending = []; dropped = 0 }

-- the batch of what is pending
abbrev pub batch_of : Walk → ℕ → Hub → Batch
batch_of walk now h = record {
  changes = walk.changes h.pending;
  topics = walk.topics (topic_set h.pending);
  at_time = now;
  dropped = h.dropped;
}

-- `flush` up to the release of the lock: the batch and the channels it is for, if there are any
unfoldable pub take_batch : Walk → ℕ → Hub → Hub × Option (Batch × List ℕ)
take_batch walk now h =
    if length h.pending == 0 || length h.subscribers == 0
    then (cleared h, none)
    else (cleared h, some (batch_of walk now h, walk.channels h.subscribers))

-- One turn of the sending loop. A send on a closed channel panics, `none`; one that finds the
-- buffer full takes the `default` branch.
unfoldable pub send : Batch → ℕ → Hub → Option Hub
send b ch h = elim (channel ch h) [
  | none ↦ some h
  | some c ↦
      if c.closed
      then none
      else if ltb (length c.buffer) capacity
      then some (record h {
        channels = insert ℕ_discrete ch (record c { buffer = c.buffer ++ b ∷ [] }) h.channels;
      })
      else some h
]

unfoldable pub send_all : Batch → List ℕ → Hub → Option Hub
send_all b [] h = some h
send_all b (ch ∷ chs) h = elim (send b ch h) [ none ↦ none | some h' ↦ send_all b chs h' ]

-- `flush`, when nothing comes between its steps
unfoldable pub flush : Walk → ℕ → Hub → Option Hub
flush walk now h = elim (take_batch walk now h).1 [
  | none ↦ some (take_batch walk now h).0
  | some (b, chs) ↦ send_all b chs (take_batch walk now h).0
]

-- the receive in `ServeHTTP`: the oldest batch leaves the buffer
unfoldable pub receive : ℕ → Hub → Hub × Option Batch
receive ch h = elim (channel ch h) [
  | none ↦ (h, none)
  | some c ↦ elim c.buffer [
    | [] ↦ (h, none)
    | b ∷ bs ↦
        (record h { channels = insert ℕ_discrete ch (record c { buffer = bs }) h.channels }, some b)
  ]
]
