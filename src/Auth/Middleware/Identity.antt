-- ===== src/Auth/Middleware/Identity.antt =====
-- Who gets through as an administrator, and as a user.
use mathlib.Core.Path.{subst}
use adaptive_gateway.Prelude.{
  ◌≡◌, ap, ◌∙◌, sym, inl, inr, true, false, Option, some, [], default, arith, Bool-cases,
  Option-cases,
}
use adaptive_gateway.Prelude.Texts.{Text, str, text_eq, text_eq_iff}
use adaptive_gateway.Prelude.Dicts.{lookup}
use adaptive_gateway.Http.{Request}
use adaptive_gateway.Config.{is_empty}
use adaptive_gateway.Auth.{User, answer, find_user}
use adaptive_gateway.Auth.Middleware.{
  State, Accounts, Claims, is_access, decode_access_token, identify, by_token, by_key,
  require_admin, require_principal, token_of, is_bearer, is_public,
}

abbrev pub IsAccessToken : (Text → Option Claims) → Text → Claims → Type 0
IsAccessToken jwt_decode token claims =
    (jwt_decode token ≡ some claims)
    × (claims.kind ≡ some (str "access"))
    × (is_empty claims.sub ≡ false)

claims_are_access :
    (claims : Claims)
    → is_access claims ≡ true
    → (claims.kind ≡ some (str "access")) × (is_empty claims.sub ≡ false)
claims_are_access claims e = elim (Option-cases claims.kind) [
  | inl missing ↦ ground arith
  | inr (kind, k) ↦ elim (Bool-cases (text_eq kind (str "access"))) [
    | inl same ↦ (k ∙ ap some ((text_eq_iff kind (str "access")).0 same), ground arith)
    | inr other ↦ ground arith
  ]
]

decode_access_token_lem :
    (jwt_decode : Text → Option Claims) (token : Text) (claims : Claims)
    → decode_access_token jwt_decode token ≡ some claims
    → IsAccessToken jwt_decode token claims
unfolding decode_access_token
decode_access_token_lem jwt_decode token claims e = elim (Option-cases (jwt_decode token)) [
  | inl refused ↦ ground arith
  | inr (read, r) ↦ elim (Bool-cases (is_access read)) [
    | inl access ↦
        let same : read ≡ claims = ground arith in
        let (kind, given) = claims_are_access read access in
        subst (IsAccessToken jwt_decode token) same (r, kind, given)
    | inr other ↦ ground arith
  ]
]

module _ (jwt_decode : Text → Option Claims) (uuid : Text → Option Text) (hash_token : Text → Text)
    (accounts : Option Accounts) where
  admitted_admin :
      (state : State) (principal : Text)
      → require_admin state ≡ answer principal
      → (state.is_admin ≡ true) × (principal ≡ default state.user_id [])
  unfolding require_admin require_principal
  admitted_admin state principal e = (ground arith, ground arith)

  key_is_no_admin :
      (raw : Text) (state : State)
      → by_key jwt_decode uuid hash_token accounts raw ≡ answer state
      → state.is_admin ≡ false
  unfolding by_key
  key_is_no_admin raw state e = ground arith

  admin_has_token :
      (request : Request) (state : State)
      → identify jwt_decode uuid hash_token accounts request ≡ answer state
      → state.is_admin ≡ true
      → (is_public request.path ≡ false)
        × (is_bearer (default (lookup (str "authorization") request.headers) []) ≡ true)
        × (by_token jwt_decode uuid hash_token accounts
              (token_of (default (lookup (str "authorization") request.headers) []))
            ≡ answer state)
  unfolding identify
  admin_has_token request state e admin =
      let header = default (lookup (str "authorization") request.headers) [] in
      let key = default (lookup (str "x-api-key") request.headers) [] in
      elim (Bool-cases (is_public request.path)) [
        | inl public ↦ ground arith
        | inr private ↦ elim (Bool-cases (is_bearer header)) [
          | inl bearer ↦ (private, bearer, rw (private, bearer) at e)
          | inr other ↦ ground (arith, key_is_no_admin key state)
        ]
      ]

  -- The account of a token's subject.
  abbrev pub IsAccount : Text → User → Type 0
  IsAccount token user =
      (claims : Claims) × IsAccessToken jwt_decode token claims
      × (id : Text) × (uuid claims.sub ≡ some id)
      × (db : Accounts) × (accounts ≡ some db)
      × (find_user (λ u. text_eq u.id id) db.users ≡ some user)
      × (user.is_active ≡ true)

  token-IsAccount :
      (token : Text) (state : State)
      → by_token jwt_decode uuid hash_token accounts token ≡ answer state
      → (user : User) × IsAccount token user
        × (state.is_admin ≡ user.is_admin)
        × (state.user_id ≡ some user.id)
  unfolding by_token
  token-IsAccount token state e = elim (Option-cases (decode_access_token jwt_decode token)) [
    | inl invalid ↦ ground arith
    | inr (claims, c) ↦ elim (Option-cases (uuid claims.sub)) [
      | inl malformed ↦ ground arith
      | inr (id, s) ↦ elim (Option-cases accounts) [
        | inl down ↦ ground arith
        | inr (db, a) ↦ elim (Option-cases (find_user (λ u. text_eq u.id id) db.users)) [
          | inl missing ↦ ground arith
          | inr (user, f) ↦
              let access = decode_access_token_lem jwt_decode token claims c in
              (user, (claims, access, id, s, db, a, f, ground arith), ground arith, ground arith)
        ]
      ]
    ]
  ]

  -- Administrators are let in only with a bearer token that decodes to an access token whose
  -- subject is an active administrator in the database, on a path that is not public; the principal is that account.
  pub require_admin_lem :
      (request : Request) (state : State) (principal : Text)
      → identify jwt_decode uuid hash_token accounts request ≡ answer state
      → require_admin state ≡ answer principal
      → (is_public request.path ≡ false)
        × (is_bearer (default (lookup (str "authorization") request.headers) []) ≡ true)
        × (user : User) × IsAccount
            (token_of (default (lookup (str "authorization") request.headers) []))
            user
        × (user.is_admin ≡ true)
        × (principal ≡ user.id)
  require_admin_lem request state principal identified admitted =
      let (admin, known) = admitted_admin state principal admitted in
      let (private, bearer, signed) = admin_has_token request state identified admin in
      let (user, account, same, id) = token-IsAccount _ state signed in
      (private, bearer, user, account, sym same ∙ admin, known ∙ ap (λ u. default u []) id)
