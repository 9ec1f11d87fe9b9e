-- ===== src/Commands/Downtimes.antt =====
-- Scheduled downtimes: which requests are accepted, and what the core reads.
use interface.Prelude.{
  ℕ, ◌≡◌, ◌≢◌, ◌↔◌, ap, ap₂, refl, true, false, Option, some, List, [], ◌∷◌, arith, Bool-cases, inl,
  inr, ◌⊎◌, if◌then◌else◌, map,
}
use interface.Prelude.Int.{pos, leb_ℤ, wrap64, ◌-ℤ◌}
use interface.Prelude.Result.{ok}
use interface.Text.{Text, ascii, eq}
use interface.Text.Fields.{Lacks}
use interface.Text.Decimal.{format_int, format_nat, format_nat-Lacks, format_int-Lacks}
use interface.Domain.{Kind, kind_service}
use interface.Commands.{is_service, validate, Envelope, messages, raw, bool_field}
use interface.Commands.Builders.{
  check_comment, DowntimeRequest, downtime_fields, downtime_envelope, schedule_downtime,
  delete_downtime,
}
use interface.Commands.Carried.{IsAddressable, validate-IsAddressable_iff}
use interface.Commands.Arguments.{
  arguments, Undivided, arguments-raw, bool_field-Lacks, object_fields-Undivided, IsSigned,
  check_comment-IsSigned_iff, either_name-Lacks,
}
use interface.Commands.Acceptance.{Accepted}

-- The window ends after it starts, a flexible one has a duration, and only a host target takes all
-- its services along.
abbrev pub IsWindow : DowntimeRequest → Type 0
IsWindow r =
    (leb_ℤ r.finish r.start ≡ false)
    × ((r.fixed ≡ true) ⊎ (leb_ℤ r.duration (pos 0) ≡ false))
    × ((r.all_services ≡ false) ⊎ (is_service r.target ≡ false))

-- A downtime is accepted exactly when its target can be addressed, its comment and author are
-- fit for a field each, and its window is one.
schedule_downtime-Accepted_iff :
    (r : DowntimeRequest) (author : Text)
    → Accepted (schedule_downtime r author)
      ↔ (IsAddressable r.target × IsSigned r.comment author × IsWindow r)
schedule_downtime-Accepted_iff r author = (to, from)
  where
    t : (validate r.target ≡ ok tt) ↔ IsAddressable r.target
    t = validate-IsAddressable_iff r.target

    c : (check_comment r.comment author ≡ ok tt) ↔ IsSigned r.comment author
    c = check_comment-IsSigned_iff r.comment author

    to :
        Accepted (schedule_downtime r author)
        → IsAddressable r.target × IsSigned r.comment author × IsWindow r
    to h = (
      t.0 (unfold schedule_downtime in ground arith),
      c.0 (unfold schedule_downtime in ground arith),
      unfold schedule_downtime in ground arith,
    )

    from :
        IsAddressable r.target × IsSigned r.comment author × IsWindow r
        → Accepted (schedule_downtime r author)
    from (a, s, w) = (
      downtime_envelope r author,
      unfold schedule_downtime in rw (t.1 a, c.1 s) (ground (arith, w)),
    )

-- What the core documents after the object: the start, the end, the flag, no trigger, the length in
-- seconds, the author and the comment.
abbrev pub window_fields : DowntimeRequest → Text → List Text
window_fields r author =
    format_int r.start
    ∷ format_int r.finish
    ∷ (if r.fixed then ascii "1" else ascii "0")
    ∷ ascii "0"
    ∷ format_int (if r.fixed then wrap64 (r.finish -ℤ r.start) else r.duration)
    ∷ author
    ∷ r.comment
    ∷ []

-- the lines that an accepted downtime consists of, as the core reads them
abbrev pub downtime_lines : DowntimeRequest → Text → List (Option (List Text))
downtime_lines r author =
    let fields = window_fields r author in
    if is_service r.target
    then some (ascii "SCHEDULE_SVC_DOWNTIME" ∷ r.target.hostname ∷ r.target.description ∷ fields)
      ∷ []
    else if r.all_services
    then some (ascii "SCHEDULE_HOST_DOWNTIME" ∷ r.target.hostname ∷ fields)
      ∷ some (ascii "SCHEDULE_HOST_SVC_DOWNTIME" ∷ r.target.hostname ∷ fields)
      ∷ []
    else some (ascii "SCHEDULE_HOST_DOWNTIME" ∷ r.target.hostname ∷ fields) ∷ []

-- the commands of an envelope: its messages, or itself
abbrev pub commands_of : Envelope → List Envelope
commands_of e = elim (messages e) [ [] ↦ e ∷ [] | m ∷ ms ↦ m ∷ ms ]

downtime_fields-Undivided :
    (r : DowntimeRequest) (author : Text)
    → IsSigned r.comment author
    → Undivided (downtime_fields r author)
downtime_fields-Undivided r author s = (
  format_int-Lacks _ _ (omega arith),
  (
    format_int-Lacks _ _ (omega arith),
    (
      bool_field-Lacks r.fixed,
      (omega arith, (format_int-Lacks _ _ (omega arith), (s.2.undivided, (s.1.undivided, tt)))),
    ),
  ),
)

commands_of-raw :
    (name : Text) (fields : List Text) → commands_of (raw name fields) ≡ raw name fields ∷ []
unfolding raw
commands_of-raw name [] = refl
commands_of-raw name (f ∷ fields) = refl

read_downtime :
    (r : DowntimeRequest) (author : Text)
    → IsAddressable r.target
    → Undivided (downtime_fields r author)
    → map arguments (commands_of (downtime_envelope r author)) ≡ downtime_lines r author
unfolding downtime_envelope bool_field
read_downtime r author a k = elim (Bool-cases (is_service r.target)) [
  | inl e ↦
      let object : Undivided (r.target.hostname ∷ r.target.description ∷ []) =
        rw e at (object_fields-Undivided r.target a) in
      rw (e, commands_of-raw)
        (ap (λ x. x ∷ [])
          (arguments-raw (ascii "SCHEDULE_SVC_DOWNTIME") _ (omega arith)
            (object.0, (object.1.0, k))))
  | inr e ↦ elim (Bool-cases r.all_services) [
    | inl f ↦
        rw (e, f)
          (ap₂ (λ x y. x ∷ y ∷ [])
            (arguments-raw (ascii "SCHEDULE_HOST_DOWNTIME") _ (omega arith) (a.0.undivided, k))
            (arguments-raw (ascii "SCHEDULE_HOST_SVC_DOWNTIME") _ (omega arith) (a.0.undivided, k)))
    | inr f ↦
        rw (e, f, commands_of-raw)
          (ap (λ x. x ∷ [])
            (arguments-raw (ascii "SCHEDULE_HOST_DOWNTIME") _ (omega arith) (a.0.undivided, k)))
  ]
]

abbrev pub delete_name : Kind → Text
delete_name kind =
    if eq kind kind_service then ascii "DEL_SVC_DOWNTIME" else ascii "DEL_HOST_DOWNTIME"

delete_name-Lacks : (kind : Kind) → Lacks b';' (delete_name kind)
delete_name-Lacks kind =
    either_name-Lacks (eq kind kind_service) (ascii "DEL_SVC_DOWNTIME") (ascii "DEL_HOST_DOWNTIME")
      (omega arith) (omega arith)

-- The core reads an accepted downtime as one line for its object, with the times, the flag, the
-- duration, the author and the comment, and as a second line for the services of a host exactly
-- when that was asked for.
pub schedule_downtime-arguments :
    (r : DowntimeRequest) (author : Text) (e : Envelope)
    → schedule_downtime r author ≡ ok e
    → map arguments (commands_of e) ≡ downtime_lines r author
schedule_downtime-arguments r author e h =
    let (a, s, w) = (schedule_downtime-Accepted_iff r author).0 (e, h) in
    let built : e ≡ downtime_envelope r author = unfold schedule_downtime in ground arith in
    rw built (read_downtime r author a (downtime_fields-Undivided r author s))

-- A deletion is accepted exactly when the id is not zero; the core then reads the name for the
-- kind and the id in decimal.
pub delete_downtime-arguments :
    (kind : Kind) (internal_id : ℕ)
    → (Accepted (delete_downtime kind internal_id) ↔ (internal_id ≢ 0))
      × ((e : Envelope)
          → delete_downtime kind internal_id ≡ ok e
          → arguments e ≡ some (delete_name kind ∷ format_nat internal_id ∷ []))
delete_downtime-arguments kind internal_id = ((to, from), reads)
  where
    to : Accepted (delete_downtime kind internal_id) → internal_id ≢ 0
    to h = unfold delete_downtime in ground arith

    from : internal_id ≢ 0 → Accepted (delete_downtime kind internal_id)
    from h = (
      raw (delete_name kind) (format_nat internal_id ∷ []),
      unfold delete_downtime in ground arith,
    )

    reads :
        (e : Envelope)
        → delete_downtime kind internal_id ≡ ok e
        → arguments e ≡ some (delete_name kind ∷ format_nat internal_id ∷ [])
    reads e h =
        let built : e ≡ raw (delete_name kind) (format_nat internal_id ∷ []) =
          unfold delete_downtime in ground arith in
        rw built (
          arguments-raw _ _ (delete_name-Lacks kind)
            (format_nat-Lacks internal_id b';' (omega arith), tt))
