-- ===== src/Http/Handlers/Authored.antt =====
-- What the core reads when a handler answers that a command was accepted.
use interface.Prelude.{
  ◌≡◌, ap, ap₂, refl, sym, ◌∙◌, subst, Bool, some, List, [], ◌∷◌, ◌++◌, map, arith, All, inl, inr,
}
use interface.Prelude.Result.{Result, ok, bind_inv, ok_inj, Result-cases}
use interface.Text.{Text}
use interface.Commands.{
  Target, Envelope, CommandError, messages, envelope, nil, cons, line, nothing, schedule_check,
  check_result, bool_field,
}
use interface.Commands.Arguments.{arguments}
use interface.Commands.Acceptance.{acknowledge_name, acknowledge-arguments}
use interface.Commands.Builders.{AcknowledgeRequest, acknowledge, object_fields}
use interface.Commands.Results.{NotifyRequest, notify}
use interface.Commands.Reports.{notify_name, notify_fields, notify-arguments}
use interface.Commands.Bulk.{flatten}
use interface.Commands.Downtimes.{commands_of}
use interface.Commands.Flattening.{IsShallow, flatten-carried, bulk-commands}
use interface.Http.Targets.{TargetRequest, decode_targets}
use interface.Http.Submission.{Verdict, Done, build_all, submit, author}
use interface.Http.Submission.Recorded.{submit-status_iff, submit-handed}
use interface.Http.Handlers.{
  CommandBody, acknowledge_body, notify_body, Caller, build_for, check_body, request_of, handle,
}

-- Each target is built into one line that the core reads so.
abbrev pub Builds : (Target → Result CommandError Envelope) → (Target → List Text) → Type 0
Builds build read = (t : Target) (e : Envelope) → build t ≡ ok e → arguments e ≡ some (read t)

single_of_arguments : (e : Envelope) (args : List Text) → arguments e ≡ some args → messages e ≡ []
single_of_arguments (envelope c p nil) args h = refl
single_of_arguments (envelope c nothing (cons m ms)) args h = absurd (cc)
single_of_arguments (envelope c (line l) (cons m ms)) args h = absurd (cc)
single_of_arguments (envelope c (schedule_check d) (cons m ms)) args h = absurd (cc)
single_of_arguments (envelope c (check_result d) (cons m ms)) args h = absurd (cc)

-- what the lines of all the targets are read as
abbrev AreRead : (Target → List Text) → List Target → List Envelope → Type 0
AreRead read ts es = All IsShallow es × (map arguments (flatten es) ≡ map (λ t. some (read t)) ts)

flatten-single :
    (e : Envelope) (es : List Envelope) → messages e ≡ [] → flatten (e ∷ es) ≡ e ∷ flatten es
unfolding flatten
flatten-single (envelope c p nil) es h = refl
flatten-single (envelope c p (cons m ms)) es h = absurd (cc)

built_one :
    (read : Target → List Text) (t : Target) (e : Envelope) (ts : List Target) (es : List Envelope)
    → arguments e ≡ some (read t)
    → AreRead read ts es
    → AreRead read (t ∷ ts) (e ∷ es)
built_one read t e ts es h (shallow, lines) =
    let single = single_of_arguments e (read t) h in
    (((rw single tt), shallow), rw (flatten-single e es single) (ap₂ (λ x xs. x ∷ xs) h lines))

built_all :
    (build : Target → Result CommandError Envelope) (read : Target → List Text) (ts : List Target)
    (es : List Envelope)
    → Builds build read
    → build_all build ts ≡ ok es
    → AreRead read ts es
unfolding build_all
built_all build read [] es h built =
    subst (AreRead read []) (ok_inj _ es built) (tt, unfold flatten in refl)
built_all build read (t ∷ ts) es h built = elim (Result-cases (build t)) [
  | inr (e, refused) ↦ absurd (ground arith)
  | inl (e, one) ↦ elim (Result-cases (build_all build ts)) [
    | inr (e', refused) ↦ absurd (ground arith)
    | inl (more, rest) ↦
        let same : e ∷ more ≡ es = ground arith in
        subst (AreRead read (t ∷ ts)) same
          (built_one read t e ts more (h t e one) (built_all build read ts more h rest))
  ]
]

-- What the core has read after a handler answered 202: for each object that the request names, in
-- order, one line.
abbrev pub IsCarriedOut : Caller → List TargetRequest → (Target → List Text) → Done → Type 0
IsCarriedOut c raws read d =
    (targets : List Target) × (e : Envelope) × (decode_targets c.is_demo_account c.demo_max_targets
        raws
      ≡ ok targets)
    × (d.handed ≡ some e)
    × (map arguments (commands_of e) ≡ map (λ t. some (read t)) targets)

handle-IsCarriedOut :
    (c : Caller) (body : CommandBody) (read : Target → List Text) (raws : List TargetRequest)
    (worker : Envelope → Verdict) (d : Done)
    → Builds (build_for c body) read
    → handle c body raws worker ≡ ok d
    → d.status ≡ 202
    → IsCarriedOut c raws read d
unfolding handle
handle-IsCarriedOut c body read raws worker d builds handled accepted =
    let (targets, decoded, h1) =
      bind_inv (decode_targets c.is_demo_account c.demo_max_targets raws) _ d handled in
    let (u, checked, h2) = bind_inv (check_body body targets) _ d h1 in
    let same : submit (request_of c body) targets (build_for c body) worker ≡ d = ok_inj _ d h2 in
    let (e, n, sent, took_it) =
      (submit-status_iff (request_of c body) targets (build_for c body) worker).0
        (ap (λ (x : Done). x.status) same ∙ accepted) in
    let (es, built, bulked) =
      (submit-handed (request_of c body) targets (build_for c body) worker e).0 sent in
    let (shallow, lines) = built_all (build_for c body) read targets es builds built in
    let (same_commands, _, _) = bulk-commands es e shallow bulked in
    (
      targets,
      e,
      decoded,
      sym (ap (λ (x : Done). x.handed) same) ∙ sent,
      ap (map arguments) (same_commands ∙ sym (flatten-carried es)) ∙ lines,
    )

-- An acknowledgement that is answered with 202 is read by the core as one line for each object that
-- the request names, in order, each signed with the name of the session's own user, whatever the
-- body holds.
pub handle_acknowledge-IsCarriedOut :
    (c : Caller) (comment : Text) (sticky notify persistent : Bool) (raws : List TargetRequest)
    (worker : Envelope → Verdict) (d : Done)
    → handle c (acknowledge_body comment sticky notify persistent) raws worker ≡ ok d
    → d.status ≡ 202
    → IsCarriedOut c raws
        (λ t.
          acknowledge_name t
          ∷ (object_fields t
              ++ bool_field sticky
                ∷ bool_field notify
                ∷ bool_field persistent
                ∷ author c.ident
                ∷ comment
                ∷ []))
        d
handle_acknowledge-IsCarriedOut c comment sticky notify persistent raws worker d =
    handle-IsCarriedOut c (acknowledge_body comment sticky notify persistent) _ raws worker d
      (λ t e h.
        let r : AcknowledgeRequest = record {
          target = t;
          comment = comment;
          sticky = sticky;
          notify = notify;
          persistent = persistent;
        } in
        let built : acknowledge r (author c.ident) ≡ ok e = unfold build_for in h in
        acknowledge-arguments r (author c.ident) e built)

-- The same for a custom notification: one line for each object, in order, signed with the name of
-- the session's own user.
pub handle_notify-IsCarriedOut :
    (c : Caller) (comment : Text) (forced broadcast : Bool) (raws : List TargetRequest)
    (worker : Envelope → Verdict) (d : Done)
    → handle c (notify_body comment forced broadcast) raws worker ≡ ok d
    → d.status ≡ 202
    → IsCarriedOut c raws
        (λ t.
          notify_name t
          ∷ (object_fields t
              ++ notify_fields
                  (record { target = t; comment = comment; forced = forced; broadcast = broadcast })
                  (author c.ident)))
        d
handle_notify-IsCarriedOut c comment forced broadcast raws worker d =
    handle-IsCarriedOut c (notify_body comment forced broadcast) _ raws worker d (λ t e h.
      let r : NotifyRequest = record {
        target = t;
        comment = comment;
        forced = forced;
        broadcast = broadcast;
      } in
      let built : notify r (author c.ident) ≡ ok e = unfold build_for in h in
      (notify-arguments r (author c.ident)).1 e built)
