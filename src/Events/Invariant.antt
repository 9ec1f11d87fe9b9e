-- ===== src/Events/Invariant.antt =====
-- Every interleaving of the hub's steps keeps its bounds.
use interface.Prelude.{
  ℕ, ◌≤◌, ◌<◌, ◌≡◌, refl, subst, Bool, true, false, not, ◌&&◌, some, List, [], ◌∷◌, ◌++◌, length,
  length-append, ltb, leb, ℕ_discrete, arith, Bool-cases, Option-cases, List-cases, inl, inr,
}
use interface.Prelude.Int.{ℤ}
use interface.Prelude.Maps.{lookup, insert, lookup-insert}
use interface.Prelude.Sets.{
  has, drop_from, NoRepeat, has-add, has-drop_from, length-add, length-drop_from, NoRepeat-add,
  NoRepeat-drop_from,
}
use interface.Events.{
  Change, change_dec, Batch, Channel, Hub, Walk, capacity, channel, new_hub, subscribe, detach,
  close_channel, publish, set_connected, take_batch, send, receive, cleared,
}

pub record IsValid (h : Hub) : Type 0 where
  pub batch_bound : length h.pending ≤ h.max_batch
  pub client_bound : length h.subscribers ≤ h.max_clients
  pub distinct : NoRepeat change_dec h.pending
  pub once : NoRepeat ℕ_discrete h.subscribers
  pub buffer_bound : (ch : ℕ) (c : Channel) → channel ch h ≡ some c → length c.buffer ≤ capacity
  pub live :
      (ch : ℕ)
      → has ℕ_discrete ch h.subscribers ≡ true
      → (c : Channel) × (channel ch h ≡ some c) × (c.closed ≡ false)
  -- a subscription's `once` is not spent
  pub unreleased :
      (ch : ℕ) (c : Channel)
      → has ℕ_discrete ch h.subscribers ≡ true
      → channel ch h ≡ some c
      → c.released ≡ false
  pub numbered : (ch : ℕ) (c : Channel) → channel ch h ≡ some c → ch < h.made

pub new_hub-IsValid : (max_batch max_clients : ℤ) → IsValid (new_hub max_batch max_clients)
unfolding new_hub lookup
new_hub-IsValid max_batch max_clients = record {
  batch_bound = omega arith;
  client_bound = omega arith;
  distinct = tt;
  once = tt;
  buffer_bound = λ ch c h. absurd (cc);
  live = λ ch h. absurd (cc);
  unreleased = λ ch c m h. absurd (cc);
  numbered = λ ch c h. absurd (cc);
}

publish-NoRepeat :
    (c : Change) (h : Hub)
    → NoRepeat change_dec h.pending
    → NoRepeat change_dec (publish c h).pending
unfolding publish
publish-NoRepeat c h d = elim (Bool-cases (leb h.max_batch (length h.pending))) [
  | inl full ↦ elim (Bool-cases (has change_dec c h.pending)) [
    | inl old ↦ rw (full, old) d
    | inr new ↦ rw (full, new) d
  ]
  | inr room ↦ rw room (NoRepeat-add change_dec c h.pending d)
]

pub publish-IsValid : (c : Change) (h : Hub) → IsValid h → IsValid (publish c h)
publish-IsValid c h v = record {
  batch_bound = unfold publish in ground (arith, v.batch_bound, length-add change_dec c h.pending);
  client_bound = unfold publish in ground arith;
  distinct = publish-NoRepeat c h v.distinct;
  once = unfold publish in ground (arith, v.once);
  buffer_bound = λ ch k e. v.buffer_bound ch k (unfold publish in ground arith);
  live = λ ch m. unfold publish in ground (arith, v.live ch);
  unreleased = λ ch k m e. unfold publish in ground (arith, v.unreleased ch k);
  numbered = λ ch k e. unfold publish in ground (arith, v.numbered ch k);
}

subscribe-NoRepeat :
    (h : Hub) → NoRepeat ℕ_discrete h.subscribers → NoRepeat ℕ_discrete (subscribe h).0.subscribers
unfolding subscribe
subscribe-NoRepeat h d = elim (Bool-cases (leb h.max_clients (length h.subscribers))) [
  | inl full ↦ rw full d
  | inr room ↦ rw room (NoRepeat-add ℕ_discrete h.made h.subscribers d)
]

pub subscribe-IsValid : (h : Hub) → IsValid h → IsValid (subscribe h).0
unfolding subscribe lookup
subscribe-IsValid h v = record {
  batch_bound = ground arith;
  client_bound = ground (arith, length-add ℕ_discrete h.made h.subscribers);
  distinct = ground arith;
  once = subscribe-NoRepeat h v.once;
  buffer_bound = λ ch c e. ground (arith, v.buffer_bound ch c);
  live = λ ch m. elim (ℕ_discrete h.made ch) [
    | yes p ↦ (record { buffer = []; released = false; closed = false }, ground arith, refl)
    | no p ↦
        let (c, found, opened) =
          v.live ch (ground (arith, has-add ℕ_discrete h.made ch h.subscribers)) in
        (c, ground arith, opened)
  ];
  unreleased =
      λ ch c m e. ground (arith, v.unreleased ch c, has-add ℕ_discrete h.made ch h.subscribers);
  numbered = λ ch c e. ground (arith, v.numbered ch c);
}

-- a channel is replaced by another that is no fuller
replace-IsValid :
    (ch : ℕ) (c : Channel) (subscribers : List ℕ) (h : Hub)
    → IsValid h
    → length c.buffer ≤ capacity
    → length subscribers ≤ h.max_clients
    → NoRepeat ℕ_discrete subscribers
    → ch < h.made
    → ((q : ℕ)
        → has ℕ_discrete q subscribers ≡ true
        → (has ℕ_discrete q h.subscribers ≡ true)
          × (ch ≡ q → (c.closed ≡ false) × (c.released ≡ false)))
    → IsValid (record h { subscribers = subscribers; channels = insert ℕ_discrete ch c h.channels })
replace-IsValid ch c subscribers h v fits few d made open_ones = record {
  batch_bound = v.batch_bound;
  client_bound = few;
  distinct = v.distinct;
  once = d;
  buffer_bound =
      λ q k e. ground (arith, lookup-insert ℕ_discrete ch q c h.channels, v.buffer_bound q k);
  live = λ q m. elim (ℕ_discrete ch q) [
    | yes p ↦
        (c, ground (arith, lookup-insert ℕ_discrete ch q c h.channels), ((open_ones q m).1 p).0)
    | no p ↦
        let (k, found, opened) = v.live q (open_ones q m).0 in
        (k, ground (arith, lookup-insert ℕ_discrete ch q c h.channels), opened)
  ];
  unreleased = λ q k m e. elim (ℕ_discrete ch q) [
    | yes p ↦ ground (arith, lookup-insert ℕ_discrete ch q c h.channels, ((open_ones q m).1 p).1)
    | no p ↦
        v.unreleased q k (open_ones q m).0
          (ground (arith, lookup-insert ℕ_discrete ch q c h.channels))
  ];
  numbered = λ q k e. ground (arith, lookup-insert ℕ_discrete ch q c h.channels, v.numbered q k);
}

pub detach-IsValid : (ch : ℕ) (h : Hub) → IsValid h → IsValid (detach ch h)
unfolding detach
detach-IsValid ch h v = elim (Option-cases (channel ch h)) [
  | inl missing ↦ rw (missing, detach) v
  | inr (c, found) ↦ elim (Bool-cases c.released) [
    | inl spent ↦ rw (found, detach) (rw spent v)
    | inr first ↦
        rw (found, detach)
          (rw first (
            replace-IsValid ch (record c { released = true })
              (drop_from ℕ_discrete ch h.subscribers) h v (v.buffer_bound ch c found)
              (omega (arith, length-drop_from ℕ_discrete ch h.subscribers, v.client_bound))
              (NoRepeat-drop_from ℕ_discrete ch h.subscribers v.once) (v.numbered ch c found)
              (λ q m. (
                ground (arith, has-drop_from ℕ_discrete ch q h.subscribers),
                λ p. absurd (ground (arith, has-drop_from ℕ_discrete ch q h.subscribers)),
              ))))
  ]
]

-- A channel that is closed has been released, so nobody is subscribed to it.
pub close_channel-IsValid : (ch : ℕ) (h : Hub) → IsValid h → IsValid (close_channel ch h)
unfolding close_channel
close_channel-IsValid ch h v = elim (Option-cases (channel ch h)) [
  | inl missing ↦ rw (missing, close_channel) v
  | inr (c, found) ↦ elim (Bool-cases (c.released && not c.closed)) [
    | inr other ↦ rw (found, close_channel) (rw other v)
    | inl pending ↦
        rw (found, close_channel)
          (rw pending (
            replace-IsValid ch (record c { closed = true }) h.subscribers h v
              (v.buffer_bound ch c found) v.client_bound v.once (v.numbered ch c found)
              (λ q m. (m, λ p. absurd (ground (arith, v.unreleased q c m, found))))))
  ]
]

-- a channel keeps its state, open or closed, and is given another buffer
rebuffer-IsValid :
    (ch : ℕ) (c : Channel) (buffer : List Batch) (h : Hub)
    → IsValid h
    → channel ch h ≡ some c
    → length buffer ≤ capacity
    → IsValid
        (record h { channels = insert ℕ_discrete ch (record c { buffer = buffer }) h.channels })
rebuffer-IsValid ch c buffer h v found fits =
    replace-IsValid ch (record c { buffer = buffer }) h.subscribers h v fits v.client_bound v.once
      (v.numbered ch c found)
      (λ q m. (m, λ p. let (k, e, opened) = v.live q m in ground (arith, v.unreleased q c m)))

pub send-IsValid :
    (b : Batch) (ch : ℕ) (h h' : Hub) → IsValid h → send b ch h ≡ some h' → IsValid h'
unfolding send
send-IsValid b ch h h' v e = elim (Option-cases (channel ch h)) [
  | inl missing ↦ subst IsValid (ground arith) v
  | inr (c, found) ↦ elim (Bool-cases (ltb (length c.buffer) capacity)) [
    | inl room ↦ subst IsValid (ground arith) (
        rebuffer-IsValid ch c (c.buffer ++ b ∷ []) h v found
          (ground (arith, length-append c.buffer (b ∷ []))))
    | inr full ↦ subst IsValid (ground arith) v
  ]
]

pub receive-IsValid : (ch : ℕ) (h : Hub) → IsValid h → IsValid (receive ch h).0
unfolding receive
receive-IsValid ch h v = elim (Option-cases (channel ch h)) [
  | inl missing ↦ subst IsValid (ground arith) v
  | inr (c, found) ↦ elim (List-cases c.buffer) [
    | inl empty ↦ subst IsValid (ground arith) v
    | inr (b, bs, full) ↦
        subst IsValid (ground arith)
          (rebuffer-IsValid ch c bs h v found (ground (arith, v.buffer_bound ch c found)))
  ]
]

-- Either branch of the first half of `flush` forgets what was pending.
pub take_batch-cleared : (walk : Walk) (now : ℕ) (h : Hub) → (take_batch walk now h).0 ≡ cleared h
unfolding take_batch
take_batch-cleared walk now h = ground arith

pub take_batch-IsValid :
    (walk : Walk) (now : ℕ) (h : Hub) → IsValid h → IsValid (take_batch walk now h).0
take_batch-IsValid walk now h v = rw take_batch-cleared (record {
  batch_bound = omega arith;
  client_bound = v.client_bound;
  distinct = tt;
  once = v.once;
  buffer_bound = v.buffer_bound;
  live = v.live;
  unreleased = v.unreleased;
  numbered = v.numbered;
})

pub set_connected-IsValid : (up : Bool) (h : Hub) → IsValid h → IsValid (set_connected up h)
unfolding set_connected
set_connected-IsValid up h v = record {
  batch_bound = v.batch_bound;
  client_bound = v.client_bound;
  distinct = v.distinct;
  once = v.once;
  buffer_bound = v.buffer_bound;
  live = v.live;
  unreleased = v.unreleased;
  numbered = v.numbered;
}
