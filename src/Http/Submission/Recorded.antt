-- ===== src/Http/Submission/Recorded.antt =====
-- What a submission leaves behind, whatever its outcome.
use interface.Prelude.{
  ℕ, ◌≡◌, ◌≤◌, ◌↔◌, length, inl, inr, refl, some, List, [], ◌∷◌, map, arith, All,
}
use interface.Prelude.Result.{Result, ok, Result-cases}
use interface.Commands.{Target, target_string, Envelope, CommandError, envelope, of_list, nothing}
use interface.Commands.Bulk.{bulk, flatten, wrap}
use interface.Commands.Flattening.{carried, flatten-carried}
use interface.Http.Submission.{
  Verdict, took, disabled, refused, broken, Outcome, AuditEntry, Request, build_all,
  record_commands, refuse, refusal_status, conclude, submit,
}

-- An audit that holds one row for each object, in order, each with the status that was answered,
-- the caller's own name and the address given.
pub record IsAuditOf (q : Request) (targets : List Target) (status : ℕ) (rows : List AuditEntry)
    : Type 0 where
  pub in_order : map (λ (e : AuditEntry). e.target) rows ≡ map target_string targets
  pub stamped :
      All
        (λ (e : AuditEntry).
          (e.http_status ≡ status)
          × (e.username ≡ q.ident.user.username)
          × (e.remote_ip ≡ q.remote_ip))
        rows

record_commands-IsAuditOf :
    (q : Request) (targets : List Target) (status : ℕ) (response : Outcome)
    → IsAuditOf q targets status (record_commands q targets status response)
unfolding record_commands
record_commands-IsAuditOf q [] status response = record { in_order = refl; stamped = tt }
record_commands-IsAuditOf q (t ∷ ts) status response =
    let rest = record_commands-IsAuditOf q ts status response in
    record { in_order = rw rest.in_order; stamped = ((refl, refl, refl), rest.stamped) }

conclude-IsAuditOf :
    (q : Request) (targets : List Target) (e : Envelope) (v : Verdict)
    → IsAuditOf q targets (conclude q targets e v).status (conclude q targets e v).audit
unfolding conclude refuse
conclude-IsAuditOf q targets e (took n) = record_commands-IsAuditOf q targets 202 Outcome.accepted
conclude-IsAuditOf q targets e disabled =
    record_commands-IsAuditOf q targets 503 Outcome.worker_disabled
conclude-IsAuditOf q targets e (refused s message) =
    record_commands-IsAuditOf q targets (refusal_status s) (Outcome.worker_said message)
conclude-IsAuditOf q targets e (broken message) =
    record_commands-IsAuditOf q targets 500 (Outcome.failed_with message)

-- Whatever comes of a submission, the audit holds one row for each object it names, in order, each
-- with the status that was answered and with the caller's own name.
pub submit-IsAuditOf :
    (q : Request) (targets : List Target) (build : Target → Result CommandError Envelope)
    (worker : Envelope → Verdict)
    → IsAuditOf q targets
        (submit q targets build worker).status
        (submit q targets build worker).audit
unfolding submit refuse
submit-IsAuditOf q targets build worker = elim (Result-cases (build_all build targets)) [
  | inr ((t, e), bad) ↦
      rw (bad, submit) (record_commands-IsAuditOf q targets 400 (Outcome.not_built _ e))
  | inl (envelopes, built) ↦ elim (Result-cases (bulk envelopes)) [
    | inr (e, bad) ↦
        rw (built, bad, submit) (record_commands-IsAuditOf q targets 400 (Outcome.not_bulked e))
    | inl (e, bulked) ↦ rw (built, bulked, submit) (conclude-IsAuditOf q targets e (worker e))
  ]
]

conclude-handed :
    (q : Request) (targets : List Target) (e : Envelope) (v : Verdict)
    → (conclude q targets e v).handed ≡ some e
unfolding conclude refuse
conclude-handed q targets e (took n) = refl
conclude-handed q targets e disabled = refl
conclude-handed q targets e (refused s message) = refl
conclude-handed q targets e (broken message) = refl

conclude-status_iff :
    (q : Request) (targets : List Target) (e : Envelope) (v : Verdict)
    → ((conclude q targets e v).status ≡ 202) ↔ ((n : ℕ) × (v ≡ took n))
unfolding conclude refuse refusal_status
conclude-status_iff q targets e (took n) = (λ h. (n, refl), λ h. refl)
conclude-status_iff q targets e disabled = (λ h. absurd (omega (arith, h)), λ (n, h). absurd (cc))
conclude-status_iff q targets e (refused s message) =
    (λ h. absurd (ground (arith, h)), λ (n, h). absurd (cc))
conclude-status_iff q targets e (broken message) =
    (λ h. absurd (omega (arith, h)), λ (n, h). absurd (cc))

-- an envelope for each object, in order, each the one that is built for it
abbrev pub AreBuilt : (Target → Result CommandError Envelope) → List Target → List Envelope → Type 0
AreBuilt build [] [] = Unit
AreBuilt build [] (e ∷ es) = ⊥
AreBuilt build (t ∷ ts) [] = ⊥
AreBuilt build (t ∷ ts) (e ∷ es) = (build t ≡ ok e) × AreBuilt build ts es

-- one command is sent as it is, several as the messages of one envelope
abbrev pub IsWrapped : List Envelope → Envelope → Type 0
IsWrapped [] e = ⊥
IsWrapped (c ∷ []) e = e ≡ c
IsWrapped (c ∷ d ∷ cs) e =
    (length (c ∷ d ∷ cs) ≤ 1000) × (e ≡ envelope [] nothing (of_list (c ∷ d ∷ cs)))

build_all-AreBuilt_iff :
    (build : Target → Result CommandError Envelope) (ts : List Target) (es : List Envelope)
    → (build_all build ts ≡ ok es) ↔ AreBuilt build ts es
unfolding build_all
build_all-AreBuilt_iff build [] [] = (λ h. tt, λ h. refl)
build_all-AreBuilt_iff build [] (e ∷ es) = (λ h. cc, λ h. absurd h)
build_all-AreBuilt_iff build (t ∷ ts) [] = (λ h. ground arith, λ h. absurd h)
build_all-AreBuilt_iff build (t ∷ ts) (e ∷ es) =
    let (there, back) = build_all-AreBuilt_iff build ts es in
    (λ h. (ground arith, there (ground arith)), λ (h, k). ground (arith, back k))

wrap-IsWrapped_iff : (es : List Envelope) (e : Envelope) → (wrap es ≡ ok e) ↔ IsWrapped es e
unfolding wrap
wrap-IsWrapped_iff [] e = (λ h. cc, λ h. absurd h)
wrap-IsWrapped_iff (c ∷ []) e = (λ h. cc, λ h. cc)
wrap-IsWrapped_iff (c ∷ d ∷ cs) e = (λ h. ground arith, λ h. ground arith)

bulk-IsWrapped_iff :
    (es : List Envelope) (e : Envelope) → (bulk es ≡ ok e) ↔ IsWrapped (carried es) e
unfolding bulk
bulk-IsWrapped_iff es e = rw (← flatten-carried es) (wrap-IsWrapped_iff (flatten es) e)

pub submit-handed :
    (q : Request) (targets : List Target) (build : Target → Result CommandError Envelope)
    (worker : Envelope → Verdict) (e : Envelope)
    → ((submit q targets build worker).handed ≡ some e) ↔ (
        (envelopes : List Envelope) × (build_all build targets ≡ ok envelopes)
        × (bulk envelopes ≡ ok e))
unfolding submit refuse
submit-handed q targets build worker e = elim (Result-cases (build_all build targets)) [
  | inr ((t, x), bad) ↦ (λ h. absurd (ground arith), λ (envelopes, built, bulked). absurd (cc))
  | inl (envelopes, built) ↦ elim (Result-cases (bulk envelopes)) [
    | inr (x, bad) ↦ (λ h. absurd (ground arith), λ (es, built', bulked). absurd (cc))
    | inl (e', bulked) ↦
        let handed : (submit q targets build worker).handed ≡ some e' =
          rw (built, bulked, submit) (conclude-handed q targets e' (worker e')) in
        (λ h. (envelopes, built, cc), λ (es, built', bulked'). cc)
  ]
]

-- The worker's client is handed an envelope exactly when one was built for every target: it is the
-- one command, or it lists the commands of all of them in order, of which there are at most 1000.
pub submit-handed_iff :
    (q : Request) (targets : List Target) (build : Target → Result CommandError Envelope)
    (worker : Envelope → Verdict) (e : Envelope)
    → ((submit q targets build worker).handed ≡ some e) ↔ (
        (envelopes : List Envelope) × AreBuilt build targets envelopes
        × IsWrapped (carried envelopes) e)
submit-handed_iff q targets build worker e =
    let (there, back) = submit-handed q targets build worker e in
    (
      λ h.
          let (es, built, bulked) = there h in
          (
            es,
            (build_all-AreBuilt_iff build targets es).0 built,
            (bulk-IsWrapped_iff es e).0 bulked,
          ),
      λ (es, built, wrapped). back (
        es,
        (build_all-AreBuilt_iff build targets es).1 built,
        (bulk-IsWrapped_iff es e).1 wrapped,
      ),
    )

-- A submission answers 202 exactly when the worker's client was handed an envelope and the
-- worker took it.
pub submit-status_iff :
    (q : Request) (targets : List Target) (build : Target → Result CommandError Envelope)
    (worker : Envelope → Verdict)
    → ((submit q targets build worker).status ≡ 202) ↔ (
        (e : Envelope) × (n : ℕ) × ((submit q targets build worker).handed ≡ some e)
        × (worker e ≡ took n))
unfolding submit refuse
submit-status_iff q targets build worker = elim (Result-cases (build_all build targets)) [
  | inr ((t, x), bad) ↦ (λ h. absurd (ground arith), λ (e, n, sent, v). absurd (ground arith))
  | inl (envelopes, built) ↦ elim (Result-cases (bulk envelopes)) [
    | inr (x, bad) ↦ (λ h. absurd (ground arith), λ (e, n, sent, v). absurd (ground arith))
    | inl (e', bulked) ↦
        let same : submit q targets build worker ≡ conclude q targets e' (worker e') =
          ground arith in
        rw same (
          let (there, back) = conclude-status_iff q targets e' (worker e') in
          (
            λ h. let (n, v) = there h in (e', n, conclude-handed q targets e' (worker e'), v),
            λ (e, n, sent, v). back (n, cc (conclude-handed q targets e' (worker e'))),
          ))
  ]
]
