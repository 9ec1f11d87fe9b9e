-- ===== src/Commands/Acceptance.antt =====
-- Which requests the builders accept, and what the core reads in the lines they build.
use interface.Prelude.{◌≡◌, ◌↔◌, refl, some, List, [], ◌∷◌, ◌++◌, arith, if◌then◌else◌}
use interface.Prelude.Result.{Result, ok}
use interface.Text.{Text, ascii}
use interface.Text.Fields.{Lacks}
use interface.Commands.{CommandError, Target, is_service, validate, Envelope, raw, bool_field}
use interface.Commands.Builders.{
  check_comment, object_fields, AcknowledgeRequest, acknowledge, remove_acknowledgement,
}
use interface.Commands.Carried.{IsAddressable, validate-IsAddressable_iff}
use interface.Commands.Arguments.{
  arguments, arguments-raw, bool_field-Lacks, object_fields-Undivided, IsSigned, arguments-object,
  either_name-Lacks, check_comment-IsSigned_iff,
}

-- a request is answered with an envelope
abbrev pub Accepted : Result CommandError Envelope → Type 0
Accepted r = (e : Envelope) × (r ≡ ok e)

abbrev pub acknowledge_name : Target → Text
acknowledge_name t =
    if is_service t then ascii "ACKNOWLEDGE_SVC_PROBLEM" else ascii "ACKNOWLEDGE_HOST_PROBLEM"

abbrev pub acknowledge_flags : AcknowledgeRequest → Text → List Text
acknowledge_flags r author =
    bool_field r.sticky ∷ bool_field r.notify ∷ bool_field r.persistent ∷ author ∷ r.comment ∷ []

abbrev pub acknowledge_line : AcknowledgeRequest → Text → Envelope
acknowledge_line r author =
    raw (acknowledge_name r.target) (object_fields r.target ++ acknowledge_flags r author)

abbrev pub remove_name : Target → Text
remove_name t =
    if is_service t then ascii "REMOVE_SVC_ACKNOWLEDGEMENT" else ascii "REMOVE_HOST_ACKNOWLEDGEMENT"

acknowledge_name-Lacks : (t : Target) → Lacks b';' (acknowledge_name t)
acknowledge_name-Lacks t =
    either_name-Lacks (is_service t) (ascii "ACKNOWLEDGE_SVC_PROBLEM")
      (ascii "ACKNOWLEDGE_HOST_PROBLEM") (omega arith) (omega arith)

remove_name-Lacks : (t : Target) → Lacks b';' (remove_name t)
remove_name-Lacks t =
    either_name-Lacks (is_service t) (ascii "REMOVE_SVC_ACKNOWLEDGEMENT")
      (ascii "REMOVE_HOST_ACKNOWLEDGEMENT") (omega arith) (omega arith)

-- An acknowledgement is accepted exactly when its target can be addressed, its comment is more
-- than white space, and comment and author can each be carried in one field.
pub acknowledge-Accepted_iff :
    (r : AcknowledgeRequest) (author : Text)
    → Accepted (acknowledge r author) ↔ (IsAddressable r.target × IsSigned r.comment author)
acknowledge-Accepted_iff r author = (to, from)
  where
    t : (validate r.target ≡ ok tt) ↔ IsAddressable r.target
    t = validate-IsAddressable_iff r.target

    c : (check_comment r.comment author ≡ ok tt) ↔ IsSigned r.comment author
    c = check_comment-IsSigned_iff r.comment author

    to : Accepted (acknowledge r author) → IsAddressable r.target × IsSigned r.comment author
    to h = (t.0 (unfold acknowledge in ground arith), c.0 (unfold acknowledge in ground arith))

    from : IsAddressable r.target × IsSigned r.comment author → Accepted (acknowledge r author)
    from (a, s) = (acknowledge_line r author, unfold acknowledge in rw (t.1 a, c.1 s))

-- The core reads an accepted acknowledgement as its name, the object, the three flags, the author
-- and the comment, whatever those hold.
pub acknowledge-arguments :
    (r : AcknowledgeRequest) (author : Text) (e : Envelope)
    → acknowledge r author ≡ ok e
    → arguments e
      ≡ some (acknowledge_name r.target ∷ (object_fields r.target ++ acknowledge_flags r author))
acknowledge-arguments r author e h =
    let (a, s) = (acknowledge-Accepted_iff r author).0 (e, h) in
    let built : e ≡ acknowledge_line r author = unfold acknowledge in ground arith in
    rw built (
      arguments-object _ r.target _ (acknowledge_name-Lacks r.target) a (
        bool_field-Lacks r.sticky,
        (
          bool_field-Lacks r.notify,
          (bool_field-Lacks r.persistent, (s.2.undivided, (s.1.undivided, tt))),
        ),
      ))

-- A removal of an acknowledgement is accepted exactly when its target can be addressed, and the
-- core then reads its name and the object.
pub remove_acknowledgement-arguments :
    (t : Target)
    → (Accepted (remove_acknowledgement t) ↔ IsAddressable t)
      × ((e : Envelope)
          → remove_acknowledgement t ≡ ok e
          → arguments e ≡ some (remove_name t ∷ object_fields t))
remove_acknowledgement-arguments t = ((to, from), reads)
  where
    v : (validate t ≡ ok tt) ↔ IsAddressable t
    v = validate-IsAddressable_iff t

    to : Accepted (remove_acknowledgement t) → IsAddressable t
    to h = v.0 (unfold remove_acknowledgement in ground arith)

    from : IsAddressable t → Accepted (remove_acknowledgement t)
    from a = unfold remove_acknowledgement in rw (v.1 a) (_, refl)

    reads :
        (e : Envelope)
        → remove_acknowledgement t ≡ ok e
        → arguments e ≡ some (remove_name t ∷ object_fields t)
    reads e h =
        let built : e ≡ raw (remove_name t) (object_fields t) =
          unfold remove_acknowledgement in ground arith in
        rw built (arguments-raw _ _ (remove_name-Lacks t) (object_fields-Undivided t (to (e, h))))
