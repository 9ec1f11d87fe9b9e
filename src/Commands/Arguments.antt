-- ===== src/Commands/Arguments.antt =====
-- A command line against the way the core reads it: `command_parse` splits it on semicolons.
use interface.Prelude.{
  ◌≡◌, ◌↔◌, ap, Bool, true, false, Option, none, some, List, [], ◌∷◌, ◌++◌, All, All-append, arith,
  Bool-cases, inl, inr, if◌then◌else◌,
}
use interface.Prelude.Result.{ok}
use interface.Text.{Text, ascii, is_empty, join, split}
use interface.Text.Fields.{Lacks, split-join}
use interface.Text.Trim.{trim_space}
use interface.Commands.{
  Target, is_service, check_field, line, Envelope, envelope, nil, raw, bool_field,
}
use interface.Commands.Builders.{check_comment, object_fields}
use interface.Commands.Carried.{IsCarried, IsAddressable, check_field-IsCarried_iff}

-- The arguments that the core reads from a single raw command.
abbrev pub arguments : Envelope → Option (List Text)
arguments (envelope command (line l) nil) = some (split b';' l)
arguments _ = none

abbrev pub Undivided : List Text → Type 0
Undivided = All (Lacks b';')

-- The core reads back the name and the fields that `raw` was given, if no field is divided.
pub arguments-raw :
    (name : Text) (fields : List Text)
    → Lacks b';' name
    → Undivided fields
    → arguments (raw name fields) ≡ some (name ∷ fields)
unfolding raw join
arguments-raw name [] h k = ap some (split-join b';' name [] (h, tt))
arguments-raw name (f ∷ fields) h k = ap some (split-join b';' name (f ∷ fields) (h, k))

pub bool_field-Lacks : (v : Bool) → Lacks b';' (bool_field v)
unfolding bool_field
bool_field-Lacks true = omega arith
bool_field-Lacks false = omega arith

pub object_fields-Undivided : (t : Target) → IsAddressable t → Undivided (object_fields t)
object_fields-Undivided t (host, named, inl (k, d)) = elim (Bool-cases (is_service t)) [
  | inl e ↦ rw (e, d) (host.undivided, (tt, tt))
  | inr e ↦ rw e (host.undivided, tt)
]
object_fields-Undivided t (host, named, inr (k, d, service)) = elim (Bool-cases (is_service t)) [
  | inl e ↦ rw e (host.undivided, (service.undivided, tt))
  | inr e ↦ rw e (host.undivided, tt)
]

-- A comment that says something and can be carried, beside an author that can.
abbrev pub IsSigned : Text → Text → Type 0
IsSigned comment author =
    (is_empty (trim_space comment) ≡ false) × IsCarried comment × IsCarried author

pub check_comment-IsSigned_iff :
    (comment author : Text) → (check_comment comment author ≡ ok tt) ↔ IsSigned comment author
check_comment-IsSigned_iff comment author = (to, from)
  where
    c : (check_field (ascii "comment") comment ≡ ok tt) ↔ IsCarried comment
    c = check_field-IsCarried_iff (ascii "comment") comment

    a : (check_field (ascii "author") author ≡ ok tt) ↔ IsCarried author
    a = check_field-IsCarried_iff (ascii "author") author

    to : check_comment comment author ≡ ok tt → IsSigned comment author
    to h = unfold check_comment in ground (arith, c.0, a.0)

    from : IsSigned comment author → check_comment comment author ≡ ok tt
    from h = unfold check_comment in ground (arith, c.1, a.1)

pub either_name-Lacks :
    (b : Bool) (x y : Text) → Lacks b';' x → Lacks b';' y → Lacks b';' (if b then x else y)
either_name-Lacks true x y h k = h
either_name-Lacks false x y h k = k

-- The same for a line that names an object and goes on with other fields.
pub arguments-object :
    (name : Text) (t : Target) (fields : List Text)
    → Lacks b';' name
    → IsAddressable t
    → Undivided fields
    → arguments (raw name (object_fields t ++ fields)) ≡ some (name ∷ (object_fields t ++ fields))
arguments-object name t fields h a k =
    arguments-raw name (object_fields t ++ fields) h
      (All-append (Lacks b';') (object_fields t) fields (object_fields-Undivided t a) k)
