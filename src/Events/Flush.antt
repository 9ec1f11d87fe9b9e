-- ===== src/Events/Flush.antt =====
-- A flush that runs undisturbed: who gets the batch, and what it holds.
use interface.Prelude.{
  ℕ, ◌≡◌, refl, sym, ◌∙◌, Bool, true, false, Option, some, List, [], ◌∷◌, ◌++◌, length, ltb,
  if◌then◌else◌, holds, ℕ_discrete, arith, Bool-cases, List-cases, inl, inr,
}
use mathlib.Core.Option
use interface.Prelude.Maps.{insert, lookup-insert}
use interface.Prelude.Sets.{has, NoRepeat}
use interface.Events.{
  Batch, Channel, Hub, Walk, batch_of, capacity, channel, take_batch, send, send_all, flush,
  cleared,
}
use interface.Events.Invariant.{IsValid}
use interface.Events.Delivery.{IsComplete}

-- what a client has after a batch was sent to it: the batch in its buffer, or nothing new when it
-- is eight batches behind
abbrev pub received : Batch → Channel → Channel
received b c =
    if ltb (length c.buffer) capacity then record c { buffer = c.buffer ++ b ∷ [] } else c

abbrev AreOpen : List ℕ → Hub → Type 0
AreOpen [] h = Unit
AreOpen (ch ∷ chs) h =
    ((c : Channel) × (channel ch h ≡ some c) × (c.closed ≡ false)) × AreOpen chs h

-- one send changes one channel
send-channel :
    (b : Batch) (ch : ℕ) (h : Hub) (c : Channel)
    → channel ch h ≡ some c
    → c.closed ≡ false
    → (h' : Hub) × (send b ch h ≡ some h')
      × (h'.pending ≡ h.pending)
      × (h'.dropped ≡ h.dropped)
      × ((q : ℕ)
          → channel q h' ≡ (if holds (ℕ_discrete ch q) then some (received b c) else channel q h))
unfolding send
send-channel b ch h c found opened = elim (Bool-cases (ltb (length c.buffer) capacity)) [
  | inl room ↦
      let c' : Channel = record c { buffer = c.buffer ++ b ∷ [] } in
      (
        record h { channels = insert ℕ_discrete ch c' h.channels },
        ground arith,
        refl,
        refl,
        λ q. ground (arith, lookup-insert ℕ_discrete ch q c' h.channels),
      )
  | inr full ↦ (h, ground arith, refl, refl, λ q. ground arith)
]

AreOpen-other :
    (chs : List ℕ) (ch : ℕ) (h h' : Hub) (c : Option Channel)
    → has ℕ_discrete ch chs ≡ false
    → ((q : ℕ) → channel q h' ≡ (if holds (ℕ_discrete ch q) then c else channel q h))
    → AreOpen chs h
    → AreOpen chs h'
AreOpen-other [] ch h h' c n same o = tt
AreOpen-other (q ∷ chs) ch h h' c n same ((k, found, opened), o) =
    ((k, ground (arith, same q), opened), AreOpen-other chs ch h h' c (ground arith) same o)

send_all-channel :
    (b : Batch) (chs : List ℕ) (h : Hub)
    → NoRepeat ℕ_discrete chs
    → AreOpen chs h
    → (h' : Hub) × (send_all b chs h ≡ some h')
      × (h'.pending ≡ h.pending)
      × (h'.dropped ≡ h.dropped)
      × ((q : ℕ)
          → channel q h'
            ≡ (if has ℕ_discrete q chs then Option.map (received b) (channel q h) else channel q h))
unfolding send_all
send_all-channel b [] h d o = (h, refl, refl, refl, λ q. refl)
send_all-channel b (ch ∷ chs) h (new, d) ((c, found, opened), o) =
    let (h₁, sent, p₁, d₁, after) = send-channel b ch h c found opened in
    let (h₂, rest, p₂, d₂, later) =
      send_all-channel b chs h₁ d (AreOpen-other chs ch h h₁ (some (received b c)) new after o) in
    (h₂, rw (sent, send_all) rest, p₂ ∙ p₁, d₂ ∙ d₁, λ q. ground (arith, later q, after q))

subscribers-AreOpen :
    (chs : List ℕ) (h : Hub)
    → ((ch : ℕ)
        → has ℕ_discrete ch chs ≡ true
        → (c : Channel) × (channel ch h ≡ some c) × (c.closed ≡ false))
    → AreOpen chs h
subscribers-AreOpen [] h all = tt
subscribers-AreOpen (ch ∷ chs) h all =
    (all ch (ground arith), subscribers-AreOpen chs h (λ q m. all q (ground arith)))

-- the clients of a flush: the subscribers, when something is pending
abbrev pub reaches : Hub → ℕ → Bool
reaches h q = elim h.pending [ [] ↦ false | c ∷ cs ↦ has ℕ_discrete q h.subscribers ]

-- Undisturbed, a flush of a valid hub never panics and never waits. It empties what is pending,
-- and each subscriber, and no other channel, receives the batch, but for one whose buffer is full.
pub flush-received :
    (walk : Walk) (now : ℕ) (h : Hub)
    → IsComplete walk
    → IsValid h
    → (h' : Hub) × (flush walk now h ≡ some h')
      × (h'.pending ≡ [])
      × (h'.dropped ≡ 0)
      × ((q : ℕ)
          → channel q h' ≡ (
              if reaches h q
              then Option.map (received (batch_of walk now h)) (channel q h)
              else channel q h))
flush-received walk now h w v = elim (List-cases h.pending) [
  | inl quiet ↦ (cleared h, unfold flush take_batch in ground arith, refl, refl, λ q. ground arith)
  | inr (c, cs, some_pending) ↦ elim (List-cases h.subscribers) [
    | inl nobody ↦
        (cleared h, unfold flush take_batch in ground arith, refl, refl, λ q. ground arith)
    | inr (s, ss, somebody) ↦
        let chs = walk.channels h.subscribers in
        let (h', sent, p, d, after) =
          send_all-channel (batch_of walk now h) chs (cleared h) (w.channels h.subscribers v.once) (
            subscribers-AreOpen chs (cleared h)
              (λ ch m. v.live ch (sym (w.subscribed h.subscribers ch) ∙ m))) in
        (
          h',
          unfold flush take_batch in ground (arith, sent),
          p,
          d,
          λ q. ground (arith, after q, w.subscribed h.subscribers q),
        )
  ]
]
