-- ===== src/RateLimit/Interval.antt =====
-- How many events of one key get through in any interval as long as the window, wherever it starts, and
-- whatever is forgotten in between.
use interface.Prelude.{
  ℕ, ◌+◌, ◌-◌, ◌*◌, ◌≤◌, ◌≡◌, ◌≢◌, ◌∙◌, Option, none, some, [], ◌∷◌, arith, Option-cases, inl, inr,
}
use native.Mathlib.Nat.{le_trans}
use interface.Text.{Text, text_dec}
use interface.RateLimit.{Entry, Window, allow, reset}
use interface.RateLimit.Live.{IsValid, live}
use interface.RateLimit.Steps.{allow_same, allow-IsValid, reset-IsValid, live-allow_ne}
use interface.RateLimit.Quota.{
  Events, asks, resets, Within, admitted, times_reset, regained, regained-times_reset, live-reset,
  live_earlier, live_later, admitted_self, admitted-ne, admitted-reset, admitted_short, live_bumped,
}

-- what an open window still lets through
abbrev pub left : ℕ → Option Entry → ℕ
left limit none = 0
left limit (some e) = limit - e.count

left_mono :
    (key : Text) (w : Window) (now later : ℕ)
    → now ≤ later
    → left w.limit (live w later key) ≤ left w.limit (live w now key)
left_mono key w now later h = elim (Option-cases (live w later key)) [
  | inl closed ↦ rw closed (omega arith)
  | inr (e, opened) ↦ rw (opened, live_earlier w key now later e h opened) (omega arith)
]

admitted_after :
    (key : Text) (w : Window) (from until : ℕ) (es : Events)
    → key ≢ []
    → IsValid w
    → until ≤ from + w.window
    → Within from until es
    → admitted key w es ≤ left w.limit (live w from key) + (w.limit + regained key w.limit es)
unfolding regained reset
admitted_after key w from until [] n v span h = unfold admitted in omega arith
admitted_after key w from until (resets q ∷ es) n v span hs =
    let rest : admitted key (reset q w) es
        ≤ left w.limit (live (reset q w) from key) + (w.limit + regained key w.limit es) =
      admitted_after key (reset q w) from until es n (reset-IsValid q w v) span hs in
    elim (text_dec q key) [
      | yes p ↦
          let shut : live (reset q w) from key ≡ none = live-reset q w from key ∙ ground arith in
          rw admitted-reset (ground (arith, (rw shut at rest)))
      | no p ↦
          let same : live (reset q w) from key ≡ live w from key =
            live-reset q w from key ∙ ground arith in
          rw admitted-reset (ground (arith, (rw same at rest)))
    ]
admitted_after key w from until (asks q t ∷ es) n v span (h, k, hs) =
    let rest : admitted key (allow q t w).0 es
        ≤ left (allow q t w).0.limit (live (allow q t w).0 t key)
          + ((allow q t w).0.limit + regained key (allow q t w).0.limit es) =
      admitted_after key (allow q t w).0 t until es n (allow-IsValid q t w v)
        (omega (arith, (allow_same q t w).1)) hs in
    let fewer = left_mono key w from t h in
    elim (text_dec q key) [
      | yes p ↦ elim (Option-cases (live w t key)) [
        | inl closed ↦ rw p (
            le_trans
              (admitted_short key w t until (asks key t ∷ es) none n v (omega arith) closed
                (live_later w key t until k closed) (omega arith, k, hs))
              (omega arith))
        | inr (e, opened) ↦
            let (answer, after) = live_bumped key w t t e n v (omega arith) opened in
            let rest' = rw p at rest in
            let room = rw opened at fewer in
            let spent = rw ((allow_same key t w).0, after) at rest' in
            rw (p, admitted_self, answer) (ground (arith, spent, room))
      ]
      | no p ↦ rw (admitted-ne key w q t es p) (
          ground
            (arith, rest, fewer, (allow_same q t w).0, live-allow_ne q t t w key v (omega arith) p))
    ]

-- In any interval as long as the window, at most twice the limit of the events of a key that is not
-- empty get through, and once more the limit for each `Reset` of that key in between, whatever is
-- asked of other keys.
pub admitted-le :
    (key : Text) (w : Window) (from until : ℕ) (es : Events)
    → key ≢ []
    → IsValid w
    → until ≤ from + w.window
    → Within from until es
    → admitted key w es ≤ (2 + times_reset key es) * w.limit
admitted-le key w from until es n v span h =
    let bound = admitted_after key w from until es n v span h in
    let given = regained-times_reset key w.limit es in
    elim (Option-cases (live w from key)) [
      | inl closed ↦ grind (arith, (rw closed at bound), given)
      | inr (e, opened) ↦ grind (arith, (rw opened at bound), given)
    ]
