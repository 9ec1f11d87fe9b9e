-- ===== src/Commands/Carried.antt =====
-- What passes `checkField` and `Target.Validate`.
use interface.Prelude.{ℕ, ◌≡◌, ◌≢◌, ◌≤◌, ◌↔◌, ◌⊎◌, refl, false, List, [], ◌∷◌, length, All, arith}
use interface.Prelude.Result.{ok}
use interface.Text.{Text, ascii}
use interface.Text.Runes.{runes}
use interface.Text.Trim.{is_control}
use interface.Text.Fields.{Lacks}
use interface.Domain.{kind_host, kind_service}
use interface.Commands.{
  Target, contains, max_field_length, check_runes, check_field, validate_kind, validate,
}

-- A text that one command field can carry.
pub record IsCarried (value : Text) : Type 0 where
  pub short : length value ≤ max_field_length
  pub undivided : Lacks b';' value
  pub printable : All (λ r. is_control r ≡ false) (runes value)

contains-Lacks : (c : ℕ) (value : Text) → contains c value ≡ false → Lacks c value
contains-Lacks c [] h = tt
contains-Lacks c (b ∷ bs) h = (ground arith, contains-Lacks c bs (ground arith))

Lacks-contains : (c : ℕ) (value : Text) → Lacks c value → contains c value ≡ false
Lacks-contains c [] h = refl
Lacks-contains c (b ∷ bs) (n, h) = ground (arith, Lacks-contains c bs h)

check_runes-printable :
    (name : Text) (rs : List ℕ) → check_runes name rs ≡ ok tt → All (λ r. is_control r ≡ false) rs
unfolding check_runes
check_runes-printable name [] h = tt
check_runes-printable name (r ∷ rs) h = (ground arith, check_runes-printable name rs (ground arith))

printable-check_runes :
    (name : Text) (rs : List ℕ) → All (λ r. is_control r ≡ false) rs → check_runes name rs ≡ ok tt
unfolding check_runes is_control
printable-check_runes name [] h = refl
printable-check_runes name (r ∷ rs) (p, h) = ground (arith, printable-check_runes name rs h)

-- A field is accepted exactly when it has at most 255 bytes, no semicolon and no control
-- character among its runes.
pub check_field-IsCarried_iff :
    (name value : Text) → (check_field name value ≡ ok tt) ↔ IsCarried value
check_field-IsCarried_iff name value = (to, from)
  where
    to : check_field name value ≡ ok tt → IsCarried value
    to h = record {
      short = unfold check_field in ground arith;
      undivided = contains-Lacks b';' value (unfold check_field in ground arith);
      printable = check_runes-printable name (runes value) (unfold check_field in ground arith);
    }

    from : IsCarried value → check_field name value ≡ ok tt
    from c =
        unfold check_field in
        ground (
          arith,
          c.short,
          Lacks-contains b';' value c.undivided,
          printable-check_runes name (runes value) c.printable,
        )

-- A target that a command can name.
abbrev pub IsAddressable : Target → Type 0
IsAddressable t =
    IsCarried t.hostname
    × (t.hostname ≢ [])
    × (((t.kind ≡ kind_host) × (t.description ≡ []))
        ⊎ ((t.kind ≡ kind_service) × (t.description ≢ []) × IsCarried t.description))

-- `Validate` accepts a target exactly when its host name can be carried and is not empty and it is
-- either a host with no description or a service with a description that can be carried.
pub validate-IsAddressable_iff : (t : Target) → (validate t ≡ ok tt) ↔ IsAddressable t
validate-IsAddressable_iff t = (to, from)
  where
    host : (check_field (ascii "host") t.hostname ≡ ok tt) ↔ IsCarried t.hostname
    host = check_field-IsCarried_iff (ascii "host") t.hostname

    service : (check_field (ascii "service") t.description ≡ ok tt) ↔ IsCarried t.description
    service = check_field-IsCarried_iff (ascii "service") t.description

    to : validate t ≡ ok tt → IsAddressable t
    to h = unfold validate validate_kind in ground (arith, host.0, service.0)

    from : IsAddressable t → validate t ≡ ok tt
    from a = unfold validate validate_kind in ground (arith, host.1, service.1)
