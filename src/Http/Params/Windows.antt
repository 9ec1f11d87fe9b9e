-- ===== src/Http/Params/Windows.antt =====
-- The window that a request may ask for.
use interface.Prelude.{
  ℕ, ◌-◌, ◌^◌, ◌≤◌, ◌<◌, ◌≡◌, refl, ap, ◌∙◌, true, false, some, arith, Bool-cases, Option-cases,
  inl, inr,
}
use interface.Prelude.Int.{ℤ, pos, negsuc, ◌-ℤ◌, ltb_ℤ, wrap64, wrap64_of_small}
use interface.Prelude.Result.{ok, Result-cases}
use interface.Text.{Text, ascii, is_empty}
use interface.Http.Params.{
  Readers, Values, get, TimeRange, read_time, too_wide, check_range, parse_time_range,
}

-- `strconv.ParseInt` reads numbers of 64 bits.
abbrev pub Reads64 : Readers → Type 0
Reads64 s = (v : Text) (n : ℕ) → s.parse_int v ≡ some (pos n) → n < 2 ^ 63

-- A time that is not negative, below the bound of an `int64`.
abbrev pub IsTime : ℤ → Type 0
IsTime t = (n : ℕ) × (t ≡ pos n) × (n < 2 ^ 63)

-- A window from an earlier to a later time that is at most so long.
abbrev pub IsWindow : ℕ → TimeRange → Type 0
IsWindow max_window tr =
    (a : ℕ) × (b : ℕ) × (tr.from ≡ pos a)
    × (tr.to ≡ pos b)
    × (a ≤ b)
    × (0 < max_window → b - a ≤ max_window)

read_time-IsTime :
    (s : Readers) (q : Values) (name : Text) (default t : ℤ)
    → Reads64 s
    → IsTime default
    → read_time s q name default ≡ ok t
    → IsTime t
unfolding read_time
read_time-IsTime s q name default t r d h = elim (Bool-cases (is_empty (get q name))) [
  | inl absent ↦ let e : t ≡ default = ground arith in rw e d
  | inr present ↦ elim (Option-cases (s.parse_int (get q name))) [
    | inl bad_text ↦ absurd (ground arith)
    | inr (pos n, read) ↦ (n, ground arith, r (get q name) n read)
    | inr (negsuc n, read) ↦ absurd (ground arith)
  ]
]

minus_of_le : (a b : ℕ) → a ≤ b → b < 2 ^ 63 → wrap64 (pos b -ℤ pos a) ≡ pos (b - a)
minus_of_le a b h k =
    let exact : pos b -ℤ pos a ≡ pos (b - a) = unfold ◌-ℤ◌ in ground arith in
    let small : b - a < 2 ^ 63 = omega arith in ap wrap64 exact ∙ wrap64_of_small (b - a) small

not_wide :
    (max_window a b : ℕ)
    → a ≤ b
    → b < 2 ^ 63
    → too_wide max_window (pos a) (pos b) ≡ false
    → 0 < max_window
    → b - a ≤ max_window
not_wide max_window a b h k n p =
    let exact = minus_of_le a b h k in
    let positive : ltb_ℤ (pos 0) (pos max_window) ≡ true = ground arith in
    let within : ltb_ℤ (pos max_window) (pos (b - a)) ≡ false = ground arith in ground arith

abbrev range : ℕ → ℕ → TimeRange
range a b = record { from = pos a; to = pos b }

range-IsWindow :
    (max_window a b : ℕ) (checked : TimeRange)
    → b < 2 ^ 63
    → check_range max_window (range a b) ≡ ok checked
    → IsWindow max_window checked
unfolding check_range
range-IsWindow max_window a b checked k h = elim (Bool-cases (ltb_ℤ (pos b) (pos a))) [
  | inl before ↦ absurd (ground arith)
  | inr after ↦ elim (Bool-cases (too_wide max_window (pos a) (pos b))) [
    | inl wide ↦ absurd (ground arith)
    | inr fits ↦
        let same : checked ≡ range a b = ground arith in
        let ordered : a ≤ b = ground arith in
        rw same (a, b, refl, refl, ordered, not_wide max_window a b ordered k fits)
  ]
]

-- A window that the request gets is one from an earlier to a later time, and at most as long as the
-- longest window, if there is one. The clock is past the default window.
pub parse_time_range-IsWindow :
    (s : Readers) (q : Values) (now default_window max_window : ℕ) (tr : TimeRange)
    → Reads64 s
    → default_window ≤ now
    → now < 2 ^ 63
    → parse_time_range s q (pos now) default_window max_window ≡ ok tr
    → IsWindow max_window tr
parse_time_range-IsWindow s q now default_window max_window tr r d k h =
    let start = wrap64 (pos now -ℤ pos default_window) in
    let begins : IsTime start =
      (now - default_window, minus_of_le default_window now d k, omega arith) in
    elim (Result-cases (read_time s q (ascii "from") start)) [
      | inr (e, refused) ↦ absurd (unfold parse_time_range in ground arith)
      | inl (from, read_from) ↦ elim (Result-cases (read_time s q (ascii "to") (pos now))) [
        | inr (e, refused) ↦ absurd (unfold parse_time_range in ground arith)
        | inl (to, read_to) ↦
            let (a, from_is, _) =
              read_time-IsTime s q (ascii "from") start from r begins read_from in
            let (b, to_is, small) =
              read_time-IsTime s q (ascii "to") (pos now) to r (now, refl, k) read_to in
            range-IsWindow max_window a b tr small (unfold parse_time_range in ground arith)
      ]
    ]
