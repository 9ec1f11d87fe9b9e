-- ===== src/Http/Guards/Admission.antt =====
-- Who reaches the handler behind the guards, and what the others are told.
use interface.Prelude.{◌≡◌, ◌↔◌, ◌⊎◌, inl, inr, true, false, arith}
use interface.Prelude.Result.{Result, ok, err, Result-cases}
use interface.Text.{Text, is_empty}
use interface.Auth.Model.{AuthError, not_found, Identity, Store, Crypto, Options, can}
use interface.Auth.Service.{Now, authenticate}
use interface.Http.{unauthorized}
use interface.Http.Guards.{
  answer, handler, identified, auth_middleware, require_permission, identity_from_request, guarded,
}

module _ (store : Store) (crypto : Crypto) (opt : Options) where
  abbrev pub found : Text → Now → store.State → Result AuthError Identity
  found cookie now rows = (authenticate store crypto opt cookie now rows).1

  -- The handler behind the guards runs for an identity exactly when the cookie is not empty, the
  -- session it names authenticates as that identity, and the identity holds the permission.
  pub guarded-handler_iff :
      (perm cookie : Text) (now : Now) (rows : store.State) (ident : Identity)
      → (guarded store crypto opt perm cookie now rows ≡ handler ident)
        ↔ ((is_empty cookie ≡ false) × (found cookie now rows ≡ ok ident) × (can ident perm ≡ true))
  unfolding guarded require_permission auth_middleware identity_from_request identified
  guarded-handler_iff perm cookie now rows ident = elim (Result-cases (found cookie now rows)) [
    | inl (i, ok_i) ↦ ground arith
    | inr (e, failed) ↦ ground arith
  ]

  -- A caller is answered 401 exactly when the cookie is empty or its session is not found.
  pub guarded-unauthorized_iff :
      (perm cookie : Text) (now : Now) (rows : store.State)
      → (guarded store crypto opt perm cookie now rows ≡ answer 401 unauthorized)
        ↔ ((is_empty cookie ≡ true) ⊎ (found cookie now rows ≡ err not_found))
  unfolding guarded require_permission auth_middleware identity_from_request identified
  guarded-unauthorized_iff perm cookie now rows = elim (Result-cases (found cookie now rows)) [
    | inl (i, ok_i) ↦ ground arith
    | inr (e, failed) ↦ ground arith
  ]
