-- ===== src/Http/Targets/Resolved.antt =====
-- What the list of objects comes to, by the keys that the code compares.
use interface.Prelude.{
  ℕ, suc, ◌≡◌, ◌≤◌, ◌⊎◌, inl, inr, refl, Bool, true, false, ◌||◌, List, [], ◌∷◌, map, length, ltb,
  arith, All, In, ◌∙◌, Bool-cases,
}
use interface.Prelude.Sets.{has, NoRepeat}
use interface.Prelude.Result.{ok, Result-cases}
use interface.Text.{Text, eq, text_dec}
use interface.Domain.{kind_host, kind_service}
use interface.Commands.{Target}
use interface.Commands.Bulk.{max_bulk_commands}
use interface.Http.Targets.{
  TargetRequest, target, target_key, resolve_from, resolve, decode_targets,
}

-- the object that an element of the request asks for, its kind unchecked
abbrev pub asked : TargetRequest → Target
asked t = record { kind = t.kind; hostname = t.host; description = t.service }

abbrev pub keys : List Target → List Text
keys = map target_key

abbrev pub has_kind : Target → Bool
has_kind t = eq t.kind kind_host || eq t.kind kind_service

-- A resolved list: it names no object twice, every object asked for is among them, and every
-- kind is one of the two.
pub record IsResolved (seen : List Text) (raws : List TargetRequest) (out : List Target)
    : Type 0 where
  pub distinct : NoRepeat text_dec (keys out)
  pub fresh : All (λ t. has text_dec (target_key t) seen ≡ false) out
  pub covered :
      All
        (λ r.
          (has text_dec (target_key (asked r)) seen
            || has text_dec (target_key (asked r)) (keys out))
          ≡ true)
        raws
  pub shorter : length out ≤ length raws
  pub kinds : All (λ t. has_kind t ≡ true) out
  pub asked_kinds : All (λ r. has_kind (asked r) ≡ true) raws
  pub asked_for : (t : Target) → In t out → (r : TargetRequest) × In r raws × (t ≡ asked r)

target-ok : (r : TargetRequest) (t : Target) → target r ≡ ok t → (t ≡ asked r) × (has_kind t ≡ true)
unfolding target
target-ok r t h = ground arith

-- a key that all elements are fresh from is not among theirs
fresh-has :
    (k : Text) (seen : List Text) (out : List Target)
    → All (λ t. has text_dec (target_key t) (k ∷ seen) ≡ false) out
    → has text_dec k (keys out) ≡ false
fresh-has k seen [] h = refl
fresh-has k seen (t ∷ out) (new, h) = ground (arith, fresh-has k seen out h)

fresh-tail :
    (k : Text) (seen : List Text) (out : List Target)
    → All (λ t. has text_dec (target_key t) (k ∷ seen) ≡ false) out
    → All (λ t. has text_dec (target_key t) seen ≡ false) out
fresh-tail k seen [] h = tt
fresh-tail k seen (t ∷ out) (new, h) = (ground arith, fresh-tail k seen out h)

covered-cons :
    (t : Target) (seen : List Text) (out : List Target) (raws : List TargetRequest)
    → All
        (λ r.
          (has text_dec (target_key (asked r)) (target_key t ∷ seen)
            || has text_dec (target_key (asked r)) (keys out))
          ≡ true)
        raws
    → All
        (λ r.
          (has text_dec (target_key (asked r)) seen
            || has text_dec (target_key (asked r)) (keys (t ∷ out)))
          ≡ true)
        raws
covered-cons t seen out [] h = tt
covered-cons t seen out (r ∷ raws) (c, h) = (ground arith, covered-cons t seen out raws h)

-- elements that were asked for by the rest of a request were asked for by all of it
later :
    (r : TargetRequest) (raws : List TargetRequest) (out : List Target)
    → ((t : Target) → In t out → (q : TargetRequest) × In q raws × (t ≡ asked q))
    → (t : Target) → In t out
    → (q : TargetRequest) × In q (r ∷ raws) × (t ≡ asked q)
later r raws out h t m = let (q, i, e) = h t m in (q, inr i, e)

resolve_from-IsResolved :
    (i : ℕ) (seen : List Text) (raws : List TargetRequest) (out : List Target)
    → resolve_from i seen raws ≡ ok out
    → IsResolved seen raws out
unfolding resolve_from
resolve_from-IsResolved i seen [] out h =
    let empty : out ≡ [] = cc in
    rw empty (record {
      distinct = tt;
      fresh = tt;
      covered = tt;
      shorter = omega arith;
      kinds = tt;
      asked_kinds = tt;
      asked_for = λ t m. absurd m;
    })
resolve_from-IsResolved i seen (r ∷ raws) out h = elim (Result-cases (target r)) [
  | inr (e, bad) ↦ absurd (ground arith)
  | inl (t, good) ↦ elim (Bool-cases (has text_dec (target_key t) seen)) [
    | inl old ↦
        let rest =
          resolve_from-IsResolved (suc i) seen raws out (rw (good, old, resolve_from) at h) in
        let (same, kind) = target-ok r t good in
        record {
          distinct = rest.distinct;
          fresh = rest.fresh;
          covered = (ground arith, rest.covered);
          shorter = omega (arith, rest.shorter);
          kinds = rest.kinds;
          asked_kinds = (rw same at kind, rest.asked_kinds);
          asked_for = later r raws out rest.asked_for;
        }
    | inr new ↦ elim (Result-cases (resolve_from (suc i) (target_key t ∷ seen) raws)) [
      | inr (e, bad) ↦ absurd (ground arith)
      | inl (out', good') ↦
          let rest = resolve_from-IsResolved (suc i) (target_key t ∷ seen) raws out' good' in
          let (same, kind) = target-ok r t good in
          let listed : out ≡ t ∷ out' = ground arith in
          rw listed (record {
            distinct = (fresh-has (target_key t) seen out' rest.fresh, rest.distinct);
            fresh = (new, fresh-tail (target_key t) seen out' rest.fresh);
            covered = (ground arith, covered-cons t seen out' raws rest.covered);
            shorter = omega (arith, rest.shorter);
            kinds = (kind, rest.kinds);
            asked_kinds = (rw same at kind, rest.asked_kinds);
            asked_for = λ u m. elim m [
              | inl e ↦ (r, inl refl, e ∙ same)
              | inr k ↦ later r raws out' rest.asked_for u k
            ];
          })
    ]
  ]
]

pub resolve-IsResolved :
    (raws : List TargetRequest) (out : List Target)
    → resolve raws ≡ ok out
    → IsResolved [] raws out × (length raws ≤ max_bulk_commands)
unfolding resolve
resolve-IsResolved [] out h = absurd (cc)
resolve-IsResolved (r ∷ raws) out h =
    elim (Bool-cases (ltb max_bulk_commands (length (r ∷ raws)))) [
      | inl over ↦ absurd (ground arith)
      | inr within ↦
          let steps = rw (within, resolve) at h in
          (resolve_from-IsResolved 0 [] (r ∷ raws) out steps, ground arith)
    ]

-- Where the demo account has a ceiling, what it may address stays within it; and no caller gets
-- other objects than the request resolves to.
pub decode_targets-within :
    (demo : Bool) (demo_max : ℕ) (raws : List TargetRequest) (out : List Target)
    → decode_targets demo demo_max raws ≡ ok out
    → (resolve raws ≡ ok out) × ((demo ≡ false) ⊎ (demo_max ≡ 0) ⊎ (length out ≤ demo_max))
unfolding decode_targets
decode_targets-within demo demo_max raws out h = elim (Result-cases (resolve raws)) [
  | inr (e, bad) ↦ absurd (ground arith)
  | inl (out', good) ↦ ground arith
]
