-- ===== src/Commands/Reports.antt =====
-- Notifications and passive results: acceptance, and what is sent.
use interface.Prelude.{◌≡◌, ◌↔◌, Bool, true, false, some, List, [], ◌∷◌, ◌++◌, arith, if◌then◌else◌}
use interface.Prelude.Int.{ℤ, pos, ◌≤ℤ◌}
use interface.Prelude.Result.{ok}
use interface.Text.{Text, ascii, is_empty}
use interface.Text.Trim.{trim_space}
use interface.Text.Fields.{Lacks}
use interface.Text.Decimal.{format_nat, format_nat-Lacks}
use interface.Commands.{Target, is_service, validate, Envelope, raw}
use interface.Commands.Builders.{check_comment, object_fields}
use interface.Commands.Results.{
  NotifyRequest, notify, notify_options, SubmitResultRequest, submit_result, max_code,
  has_line_break, check_lines, result_envelope,
}
use interface.Commands.Carried.{IsAddressable, validate-IsAddressable_iff}
use interface.Commands.Arguments.{
  arguments, IsSigned, check_comment-IsSigned_iff, arguments-object, either_name-Lacks,
}
use interface.Commands.Acceptance.{Accepted}

abbrev pub notify_name : Target → Text
notify_name t =
    if is_service t
    then ascii "SEND_CUSTOM_SVC_NOTIFICATION"
    else ascii "SEND_CUSTOM_HOST_NOTIFICATION"

notify_name-Lacks : (t : Target) → Lacks b';' (notify_name t)
notify_name-Lacks t =
    either_name-Lacks (is_service t) (ascii "SEND_CUSTOM_SVC_NOTIFICATION")
      (ascii "SEND_CUSTOM_HOST_NOTIFICATION") (omega arith) (omega arith)

abbrev pub notify_fields : NotifyRequest → Text → List Text
notify_fields r author = format_nat (notify_options r) ∷ author ∷ r.comment ∷ []

-- A custom notification is accepted exactly when its target can be addressed and its comment and
-- author are fit for a field each; the core then reads the name, the object, the option bits, the
-- author and the comment.
pub notify-arguments :
    (r : NotifyRequest) (author : Text)
    → (Accepted (notify r author) ↔ (IsAddressable r.target × IsSigned r.comment author))
      × ((e : Envelope)
          → notify r author ≡ ok e
          → arguments e
            ≡ some (notify_name r.target ∷ (object_fields r.target ++ notify_fields r author)))
notify-arguments r author = ((to, from), reads)
  where
    t : (validate r.target ≡ ok tt) ↔ IsAddressable r.target
    t = validate-IsAddressable_iff r.target

    c : (check_comment r.comment author ≡ ok tt) ↔ IsSigned r.comment author
    c = check_comment-IsSigned_iff r.comment author

    to : Accepted (notify r author) → IsAddressable r.target × IsSigned r.comment author
    to h = (t.0 (unfold notify in ground arith), c.0 (unfold notify in ground arith))

    from : IsAddressable r.target × IsSigned r.comment author → Accepted (notify r author)
    from (a, s) = (
      raw (notify_name r.target) (object_fields r.target ++ notify_fields r author),
      unfold notify in rw (t.1 a, c.1 s),
    )

    reads :
        (e : Envelope)
        → notify r author ≡ ok e
        → arguments e
          ≡ some (notify_name r.target ∷ (object_fields r.target ++ notify_fields r author))
    reads e h =
        let (a, s) = to (e, h) in
        let built : e
            ≡ raw (notify_name r.target) (object_fields r.target ++ notify_fields r author) =
          unfold notify in ground arith in
        rw built (
          arguments-object _ r.target _ (notify_name-Lacks r.target) a
            (format_nat-Lacks _ b';' (omega arith), (s.2.undivided, (s.1.undivided, tt))))

-- The conditions on a passive result, beside those on its target.
abbrev pub IsReport : SubmitResultRequest → Type 0
IsReport r =
    (pos 0 ≤ℤ r.return_code)
    × (r.return_code ≤ℤ pos (max_code r.target))
    × (is_empty (trim_space r.output) ≡ false)
    × (has_line_break r.output ≡ false)
    × (has_line_break r.perf_data ≡ false)

check_lines_iff :
    (perf_first : Bool) (r : SubmitResultRequest)
    → (check_lines perf_first r ≡ ok tt)
      ↔ ((has_line_break r.output ≡ false) × (has_line_break r.perf_data ≡ false))
unfolding check_lines
check_lines_iff true r = (λ h. ground arith, λ h. ground arith)
check_lines_iff false r = (λ h. ground arith, λ h. ground arith)

-- Whichever of the two texts is checked first, a passive result is accepted exactly when its
-- target can be addressed, its code is from 0 to 3 for a service and from 0 to 2 for a host, its
-- output is more than white space, and neither output nor performance data has a line break.
submit_result-Accepted_iff :
    (perf_first : Bool) (r : SubmitResultRequest) (now : ℤ)
    → Accepted (submit_result perf_first r now) ↔ (IsAddressable r.target × IsReport r)
submit_result-Accepted_iff perf_first r now = (to, from)
  where
    t : (validate r.target ≡ ok tt) ↔ IsAddressable r.target
    t = validate-IsAddressable_iff r.target

    lines :
        (check_lines perf_first r ≡ ok tt)
        ↔ ((has_line_break r.output ≡ false) × (has_line_break r.perf_data ≡ false))
    lines = check_lines_iff perf_first r

    to : Accepted (submit_result perf_first r now) → IsAddressable r.target × IsReport r
    to h = (
      t.0 (unfold submit_result in ground arith),
      unfold submit_result in ground (arith, lines.0),
    )

    from : IsAddressable r.target × IsReport r → Accepted (submit_result perf_first r now)
    from (a, p) =
        (result_envelope r now, unfold submit_result in rw (t.1 a) (ground (arith, lines.1)))
