-- ===== src/RateLimit/Quota.antt =====
-- How many events of one key a window lets through.
use interface.Prelude.{
  ℕ, ◌+◌, ◌-◌, ◌≤◌, ◌≡◌, ◌≢◌, refl, ◌∙◌, ◌*◌, Bool, true, false, Option, none, some, holds,
  Option-cases, inl, inr, List, [], ◌∷◌, if◌then◌else◌, arith, leb,
}
use interface.Prelude.Maps.{lookup-delete}
use interface.Text.{Text, text_dec, eq}
use interface.RateLimit.{Entry, Window, is_stale, allow, reset}
use interface.RateLimit.Live.{IsValid, live}
use interface.RateLimit.Steps.{
  allow_same, allow-IsValid, reset-IsValid, live-allow_ne, live-allow_self,
}

-- What happens to a window: an `Allow` of a key at a time, and a `Reset` of a key.
pub data Event : Type 0 where
  asks : Text → ℕ → Event
  resets : Text → Event

abbrev pub Events : Type 0
Events = List Event

-- the times do not fall, and lie between the two given
abbrev pub Within : ℕ → ℕ → Events → Type 0
Within from until [] = Unit
Within from until (asks q t ∷ es) = (from ≤ t) × (t ≤ until) × Within t until es
Within from until (resets q ∷ es) = Within from until es

abbrev pub one_if : Bool → ℕ
one_if b = if b then 1 else 0

-- how many events of `key` are let through
unfoldable pub admitted : Text → Window → Events → ℕ
admitted key w [] = 0
admitted key w (asks q t ∷ es) =
    (if eq q key then one_if (allow q t w).1 else 0) + admitted key (allow q t w).0 es
admitted key w (resets q ∷ es) = admitted key (reset q w) es

-- how often `key` is reset
unfoldable pub times_reset : Text → Events → ℕ
times_reset key [] = 0
times_reset key (asks q t ∷ es) = times_reset key es
times_reset key (resets q ∷ es) = one_if (eq q key) + times_reset key es

-- what those resets give back
unfoldable pub regained : Text → ℕ → Events → ℕ
regained key limit [] = 0
regained key limit (asks q t ∷ es) = regained key limit es
regained key limit (resets q ∷ es) = (if eq q key then limit else 0) + regained key limit es

pub regained-times_reset :
    (key : Text) (limit : ℕ) (es : Events) → regained key limit es ≡ times_reset key es * limit
unfolding regained times_reset
regained-times_reset key limit [] = omega arith
regained-times_reset key limit (asks q t ∷ es) = regained-times_reset key limit es
regained-times_reset key limit (resets q ∷ es) = grind (arith, regained-times_reset key limit es)

pub live-reset :
    (q : Text) (w : Window) (t : ℕ) (key : Text)
    → live (reset q w) t key ≡ (if holds (text_dec q key) then none else live w t key)
unfolding live reset
live-reset q w t key = ground (arith, lookup-delete text_dec q key w.entries)

pub live_earlier :
    (w : Window) (key : Text) (now later : ℕ) (e : Entry)
    → now ≤ later
    → live w later key ≡ some e
    → live w now key ≡ some e
unfolding live
live_earlier w key now later e h l = ground arith

pub live-fresh :
    (w : Window) (key : Text) (now : ℕ) (e : Entry)
    → live w now key ≡ some e
    → is_stale w now e ≡ false
unfolding live
live-fresh w key now e l = ground arith

-- a window that has closed stays closed
pub live_later :
    (w : Window) (key : Text) (now later : ℕ)
    → now ≤ later
    → live w now key ≡ none
    → live w later key ≡ none
live_later w key now later h l = elim (Option-cases (live w later key)) [
  | inl closed ↦ closed
  | inr (e, opened) ↦ absurd (cc (live_earlier w key now later e h opened))
]

pub admitted_self :
    (key : Text) (w : Window) (t : ℕ) (es : Events)
    → admitted key w (asks key t ∷ es)
      ≡ one_if (allow key t w).1 + admitted key (allow key t w).0 es
unfolding admitted
admitted_self key w t es = ground arith

pub admitted-ne :
    (key : Text) (w : Window) (q : Text) (t : ℕ) (es : Events)
    → q ≢ key
    → admitted key w (asks q t ∷ es) ≡ admitted key (allow q t w).0 es
unfolding admitted
admitted-ne key w q t es d = ground arith

pub admitted-reset :
    (key : Text) (w : Window) (q : Text) (es : Events)
    → admitted key w (resets q ∷ es) ≡ admitted key (reset q w) es
unfolding admitted
admitted-reset key w q es = refl

-- the open window after an event of the key, while it stays open until the end
pub live_bumped :
    (key : Text) (w : Window) (t until : ℕ) (e : Entry)
    → key ≢ []
    → IsValid w
    → t ≤ until
    → live w until key ≡ some e
    → ((allow key t w).1 ≡ leb (e.count + 1) w.limit)
      × (live (allow key t w).0 until key ≡ some (record e { count = e.count + 1 }))
live_bumped key w t until e n v k l =
    let (answer, after) = live-allow_self key t until w n v k in
    let now_open = live_earlier w key t until e k l in
    let fresh : is_stale w until e ≡ false = live-fresh w key until e l in
    (rw now_open at answer, (rw now_open at after) ∙ rw fresh)

-- what is left until the end of a window that is open, or of one that is still to open
abbrev pub allowance : ℕ → Option Entry → ℕ
allowance limit none = limit
allowance limit (some e) = limit - e.count

-- the next event of a key whose window closed, in a span no longer than the window
live_opened :
    (key : Text) (w : Window) (t until : ℕ)
    → key ≢ []
    → IsValid w
    → t ≤ until
    → until ≤ t + w.window
    → live w t key ≡ none
    → ((allow key t w).1 ≡ true)
      × (live (allow key t w).0 until key ≡ some (record { count = 1; start = t }))
live_opened key w t until n v k span closed =
    let (answer, after) = live-allow_self key t until w n v k in
    (rw closed at answer, (rw closed at after) ∙ ground arith)

-- a window's state at both ends of a span is its state between them
live_between :
    (w : Window) (key : Text) (from t until : ℕ) (o : Option Entry)
    → from ≤ t
    → t ≤ until
    → live w from key ≡ o
    → live w until key ≡ o
    → live w t key ≡ o
live_between w key from t until none h i l k = live_later w key from t h l
live_between w key from t until (some e) h i l k = live_earlier w key t until e i k

-- In a span no longer than the window, no more events of a key are let through than its window
-- leaves, or a whole window where none is open, and again as many for each reset.
pub admitted_short :
    (key : Text) (w : Window) (from until : ℕ) (es : Events) (o : Option Entry)
    → key ≢ []
    → IsValid w
    → until ≤ from + w.window
    → live w from key ≡ o
    → live w until key ≡ o
    → Within from until es
    → admitted key w es ≤ allowance w.limit o + regained key w.limit es
unfolding regained reset
admitted_short key w from until [] o n v span l k h = unfold admitted in omega arith
admitted_short key w from until (resets q ∷ es) o n v span l k hs = elim (text_dec q key) [
  | yes p ↦
      let rest : admitted key (reset q w) es ≤ w.limit + regained key w.limit es =
        admitted_short key (reset q w) from until es none n (reset-IsValid q w v) span
          (live-reset q w from key ∙ ground arith) (live-reset q w until key ∙ ground arith) hs in
      rw admitted-reset (ground (arith, rest))
  | no p ↦
      let rest : admitted key (reset q w) es ≤ allowance w.limit o + regained key w.limit es =
        admitted_short key (reset q w) from until es o n (reset-IsValid q w v) span
          (live-reset q w from key ∙ ground arith) (live-reset q w until key ∙ ground arith) hs in
      rw admitted-reset (ground (arith, rest))
]
admitted_short key w from until (asks q t ∷ es) o n v span l k (h, i, hs) = elim (text_dec q key) [
  | no p ↦
      let rest =
        admitted_short key (allow q t w).0 t until es o n (allow-IsValid q t w v)
          (omega (arith, (allow_same q t w).1))
          (live-allow_ne q t t w key v (omega arith) p ∙ live_between w key from t until o h i l k)
          (live-allow_ne q t until w key v i p ∙ k) hs in
      rw (admitted-ne key w q t es p) (ground (arith, rest, (allow_same q t w).0))
  | yes p ↦ rw p (elim (Option-cases o) [
    | inl shut ↦
        let closed = live_later w key from t h (l ∙ shut) in
        let (answer, after) = live_opened key w t until n v i (omega arith) closed in
        let rest =
          admitted_short key (allow key t w).0 t until es (some _) n (allow-IsValid key t w v)
            (omega (arith, (allow_same key t w).1))
            (live_earlier (allow key t w).0 key t until _ i after) after hs in
        rw (shut, admitted_self, answer) (ground (arith, rest, (allow_same key t w).0, v.positive))
    | inr (e, opened) ↦
        let (answer, after) = live_bumped key w t until e n v i (k ∙ opened) in
        let rest =
          admitted_short key (allow key t w).0 t until es (some _) n (allow-IsValid key t w v)
            (omega (arith, (allow_same key t w).1))
            (live_earlier (allow key t w).0 key t until _ i after) after hs in
        rw (opened, admitted_self, answer) (ground (arith, rest, (allow_same key t w).0))
  ])
]
