-- ===== src/Auth/Service/Sessions.antt =====
-- What a session resolves to, and what resolving it changes.
use interface.Prelude.{
  ◌+◌, ◌/◌, ◌≡◌, ap, true, false, not, List, ltb, if◌then◌else◌, arith, Bool-cases, inl, inr,
}
use interface.Prelude.Result.{ok, Result-cases}
use interface.Text.{Text, is_empty}
use interface.Auth.Model.{Role, User, Session, Identity, Store, Crypto, Options}
use interface.Auth.Service.{
  Now, unix, nanos_per_second, identity_for, slide, authenticate_user, authenticate,
}
use interface.Auth.Service.Logins.{IsIdentityOf, IsIdentityOf-session, identity_for-IsIdentityOf}

module _ (store : Store) (crypto : Crypto) (opt : Options) where
  -- the rows after a session was used: its expiry moves when it is past its half
  abbrev pub slid : Session → Text → Now → store.State → store.State
  slid sess hash now rows =
      if ltb (sess.created_at + opt.session_ttl / nanos_per_second / 2) (unix now)
      then (store.extend_session hash ((now.wall + opt.session_ttl) / nanos_per_second) rows).0
      else rows

  -- What a token that resolves rests on, and the rows that it leaves.
  pub record IsResumed (token : Text) (now : Now) (rows after : store.State) (i : Identity)
      : Type 0 where
    pub sess : Session
    pub user : User
    pub roles : List Role
    pub given : is_empty token ≡ false
    pub live : store.session_by_id (crypto.hash_token token) (unix now) rows ≡ ok sess
    pub known : store.user_by_id sess.user_id rows ≡ ok user
    pub active : user.is_active ≡ true
    pub roles_read : store.list_roles rows ≡ ok roles
    pub identity : IsIdentityOf user roles i
    pub session : i.session_id ≡ crypto.hash_token token
    pub left : after ≡ slid sess (crypto.hash_token token) now rows

  authenticate_user-ok :
      (sess : Session) (user : User) (hash : Text) (now : Now) (rows : store.State) (i : Identity)
      → (authenticate_user store crypto opt sess user hash now rows).1 ≡ ok i
      → (i₀ : Identity) × (identity_for store crypto opt user rows ≡ ok i₀)
        × (i ≡ record i₀ { session_id = hash })
        × (user.is_active ≡ true)
        × ((authenticate_user store crypto opt sess user hash now rows).0 ≡ slid sess hash now rows)
  unfolding authenticate_user slide
  authenticate_user-ok sess user hash now rows i h = elim (Bool-cases (not user.is_active)) [
    | inl disabled ↦ absurd (ground arith)
    | inr active ↦ elim (Result-cases (identity_for store crypto opt user rows)) [
      | inr (e, failed) ↦ absurd (ground arith)
      | inl (i₀, found) ↦ (i₀, found, ground arith, ground arith, ground arith)
    ]
  ]

  -- A token resolves only when it is not empty and names a session that the store still has, of a
  -- user who is known and active. The identity is that user's own, under that session; and of the
  -- store nothing changes but the expiry of a session past its half.
  pub authenticate-IsResumed :
      (token : Text) (now : Now) (rows : store.State) (i : Identity)
      → (authenticate store crypto opt token now rows).1 ≡ ok i
      → IsResumed token now rows (authenticate store crypto opt token now rows).0 i
  unfolding authenticate
  authenticate-IsResumed token now rows i h = elim (Bool-cases (is_empty token)) [
    | inl missing ↦ absurd (ground arith)
    | inr given ↦
        let hash = crypto.hash_token token in
        elim (Result-cases (store.session_by_id hash (unix now) rows)) [
          | inr (e, expired) ↦ absurd (ground arith)
          | inl (sess, live) ↦ elim (Result-cases (store.user_by_id sess.user_id rows)) [
            | inr (e, unknown) ↦ absurd (ground arith)
            | inl (user, known) ↦
                let same : authenticate store crypto opt token now rows
                    ≡ authenticate_user store crypto opt sess user hash now rows =
                  ground arith in
                let (i₀, found, named, active, left) =
                  authenticate_user-ok sess user hash now rows i (rw same at h) in
                let (roles, listed, identity) =
                  identity_for-IsIdentityOf store crypto opt user rows i₀ found in
                record {
                  sess = sess;
                  user = user;
                  roles = roles;
                  given = given;
                  live = live;
                  known = known;
                  active = active;
                  roles_read = listed;
                  identity = IsIdentityOf-session user roles i₀ i hash named identity;
                  session = ap (λ (x : Identity). x.session_id) named;
                  left = rw same left;
                }
          ]
        ]
  ]
