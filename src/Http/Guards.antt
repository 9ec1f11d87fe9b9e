-- ===== src/Http/Guards.antt =====
-- internal/httpapi/middleware.go: who reaches a route.
pub mod Admission
use interface.Prelude.{
  ℕ, Bool, true, false, not, ◌&&◌, ◌||◌, Option, none, some, List, [], ◌∷◌, ltb, length,
  if◌then◌else◌,
}
use interface.Prelude.Result.{Result, ok, err}
use interface.Text.{Text, is_empty}
use interface.Auth.Model.{AuthError, not_found, Identity, Store, Crypto, Options, can}
use interface.Auth.Service.{Now, authenticate}
use interface.Http.{ApiCode, unauthorized, forbidden, unavailable}

-- the errors of `identityFromRequest`
pub data SessionError : Type 0 where
  no_session : SessionError
  unresolved : AuthError → SessionError

-- what a guard does: it answers, or hands the request on with the identity
pub data Passage : Type 0 where
  answer : ℕ → ApiCode → Passage
  handler : Identity → Passage

abbrev session_error : AuthError → SessionError
session_error not_found = no_session
session_error e = unresolved e

unfoldable pub identified : Result AuthError Identity → Result SessionError Identity
identified (ok ident) = ok ident
identified (err e) = err (session_error e)

-- `authMiddleware`
unfoldable pub auth_middleware : Result SessionError Identity → Passage
auth_middleware (ok ident) = handler ident
auth_middleware (err no_session) = answer 401 unauthorized
auth_middleware (err (unresolved e)) = answer 503 unavailable

-- `requirePermission`, which runs after `authMiddleware`
unfoldable pub require_permission : Text → Passage → Passage
require_permission perm (answer status code) = answer status code
require_permission perm (handler ident) =
    if not (can ident perm) then answer 403 forbidden else handler ident

module _ (store : Store) (crypto : Crypto) (opt : Options) where
  -- `identityFromRequest`; a cookie that is absent is empty
  unfoldable pub identity_from_request :
      Text → Now → store.State → store.State × Result SessionError Identity
  identity_from_request cookie now rows =
      if is_empty cookie
      then (rows, err no_session)
      else let (rows', found) = authenticate store crypto opt cookie now rows in
        (rows', identified found)

  -- a route behind both guards
  unfoldable pub guarded : Text → Text → Now → store.State → Passage
  guarded perm cookie now rows =
      require_permission perm (auth_middleware (identity_from_request cookie now rows).1)
