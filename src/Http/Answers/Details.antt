-- ===== src/Http/Answers/Details.antt =====
-- When a host or a service is answered, and with what.
use interface.Prelude.{◌≡◌, ◌↔◌, refl, subst, Bool, true, false, none, [], arith, if◌then◌else◌}
use interface.Prelude.Result.{Result, ok, err, bind_inv, ok_inj}
use interface.Http.Answers.{
  Failure, internal_failure, get_failure, or_fail, ReadError, Detail, Sources, get_detail,
}

-- What a detail has of an optional part: what was read, or nothing at all.
abbrev pub ReadsIf : {A : Type 0} → Bool → Result ReadError A → A → A → Type 0
ReadsIf true source absent a = source ≡ ok a
ReadsIf false source absent a = a ≡ absent

or_fail_inv :
    {E A : Type 0} (f : E → Failure) (r : Result E A) (a : A) → or_fail f r ≡ ok a → r ≡ ok a
or_fail_inv f (ok b) a h = ground arith
or_fail_inv f (err e) a h = absurd (ground arith)

part_iff :
    {A : Type 0} (wanted : Bool) (source : Result ReadError A) (absent a : A)
    → ((if wanted then or_fail internal_failure source else ok absent) ≡ ok a)
      ↔ ReadsIf wanted source absent a
part_iff true source absent a = (or_fail_inv internal_failure source a, λ e. rw e refl)
part_iff false source absent a = (λ e. ground arith, λ e. rw e refl)

module _ {Row Downtime Ack : Type 0} (in_downtime acknowledged : Row → Bool) where
  -- A detail of the row that was found, whose downtimes and acknowledgement are read if the row says
  -- there are any, and are none otherwise.
  pub record IsDetail (sources : Sources Row Downtime Ack) (d : Detail Row Downtime Ack)
      : Type 0 where
    pub found : sources.found ≡ ok d.row
    pub downtimes : ReadsIf (in_downtime d.row) sources.for_object [] d.downtimes
    pub acknowledgement : ReadsIf (acknowledged d.row) sources.latest_for none d.acknowledgement

-- A host or a service is answered exactly with the row that was found, the downtimes that were read
-- if the row is in one, and the acknowledgement that was read if the row is acknowledged: nothing
-- stands in the answer that the status does not say applies, and a failed read of a table that is
-- not needed changes nothing.
pub get_detail-IsDetail_iff :
    {Row Downtime Ack : Type 0} (in_downtime acknowledged : Row → Bool)
    (sources : Sources Row Downtime Ack) (d : Detail Row Downtime Ack)
    → (get_detail in_downtime acknowledged sources ≡ ok d)
      ↔ IsDetail in_downtime acknowledged sources d
unfolding get_detail
get_detail-IsDetail_iff {Row} {Downtime} {Ack} in_downtime acknowledged sources d = (to, from)
  where
    to :
        get_detail in_downtime acknowledged sources ≡ ok d
        → IsDetail in_downtime acknowledged sources d
    to h =
        let (row, r, h1) = bind_inv (or_fail get_failure sources.found) _ d h in
        let (ds, e, h2) =
          bind_inv (if in_downtime row then or_fail internal_failure sources.for_object else ok [])
            _ d h1 in
        let (a, k, h3) =
          bind_inv
            (if acknowledged row then or_fail internal_failure sources.latest_for else ok none) _ d
            h2 in
        subst (IsDetail in_downtime acknowledged sources) (ok_inj _ d h3) (record {
          found = or_fail_inv get_failure sources.found row r;
          downtimes = (part_iff (in_downtime row) sources.for_object [] ds).0 e;
          acknowledgement = (part_iff (acknowledged row) sources.latest_for none a).0 k;
        })

    from :
        IsDetail in_downtime acknowledged sources d
        → get_detail in_downtime acknowledged sources ≡ ok d
    from i =
        rw
          (
            i.found,
            (part_iff (in_downtime d.row) sources.for_object [] d.downtimes).1 i.downtimes,
            (part_iff (acknowledged d.row) sources.latest_for none d.acknowledgement).1
                i.acknowledgement,
          )
          refl
