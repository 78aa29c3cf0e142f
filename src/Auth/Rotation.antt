-- ===== src/Auth/Rotation.antt =====
-- Refresh tokens are used once.
use adaptive_gateway.Prelude.{
  ℕ, ◌≡◌, refl, ap, ◌∙◌, inl, inr, Bool, true, some, List, [], ◌∷◌, ◌++◌, All, arith, Bool-cases,
  Option-cases,
}
use adaptive_gateway.Prelude.Texts.{Text, str, text_eq}
use adaptive_gateway.Auth.{
  User, RefreshToken, Database, TokenResponse, Answer, answer, refuse, Lifetimes, find_token,
  find_user, revoke, issue_tokens, issued_token, revoked_in, rotate, refresh,
}

module _ (hash_token : Text → Text) (create_access_token : User → ℕ → Text)
    (hash_password : Text → Text) (verify_password : Text → Text → Bool)
    (lifetimes : Lifetimes) where
  abbrev pub refreshed : ℕ → Text → Text → Database → Answer TokenResponse × Database
  refreshed = refresh hash_token create_access_token hash_password verify_password lifetimes

  -- A token of the user is revoked.
  abbrev pub IsRevokedFor : Text → RefreshToken → Type 0
  IsRevokedFor user_id t = text_eq t.user_id user_id ≡ true → t.revoked ≡ true

  find_token-revoke :
      (hash : Text) (ts rest : List RefreshToken) (stored : RefreshToken)
      → find_token hash ts ≡ some stored
      → find_token hash (revoke (λ t. text_eq t.token_hash hash) ts ++ rest)
        ≡ some (record stored { revoked = true })
  unfolding find_token revoke
  find_token-revoke hash [] rest stored found = cc found
  find_token-revoke hash (t ∷ ts) rest stored found =
      elim (Bool-cases (text_eq t.token_hash hash)) [
        | inl same ↦ rw (same, same) (ground arith)
        | inr other ↦ rw (other, other) (find_token-revoke hash ts rest stored (rw other at found))
      ]

  revoke-All :
      (user_id : Text) (ts : List RefreshToken)
      → All (IsRevokedFor user_id) (revoke (λ t. text_eq t.user_id user_id) ts)
  unfolding revoke
  revoke-All user_id [] = tt
  revoke-All user_id (t ∷ ts) = elim (Bool-cases (text_eq t.user_id user_id)) [
    | inl same ↦ (rw same (λ _. refl), revoke-All user_id ts)
    | inr other ↦ (rw other (λ same. cc (other, same)), revoke-All user_id ts)
  ]

  refresh_granted :
      (now : ℕ) (new presented : Text) (db db' : Database) (tokens : TokenResponse)
      → refreshed now new presented db ≡ (answer tokens, db')
      → (stored : RefreshToken) × (rest : List RefreshToken) × (find_token
            (hash_token presented)
            db.refresh_tokens
          ≡ some stored)
        × (db'.refresh_tokens
            ≡ revoke (λ t. text_eq t.token_hash (hash_token presented)) db.refresh_tokens ++ rest)
  unfolding refresh rotate issue_tokens
  refresh_granted now new presented db db' tokens e =
      let hash = hash_token presented in
      elim (Option-cases (find_token hash db.refresh_tokens)) [
        | inl absent ↦ ground arith
        | inr (stored, found) ↦
            elim (Option-cases (find_user (λ u. text_eq u.id stored.user_id) db.users)) [
              | inl lost ↦ ground arith
              | inr (user, known) ↦ (
                stored,
                issued_token hash_token create_access_token hash_password verify_password lifetimes
                      now new user
                    ∷ [],
                found,
                ground arith,
              )
            ]
      ]

  reused :
      (now : ℕ) (new presented : Text) (db : Database) (stored : RefreshToken)
      → find_token (hash_token presented) db.refresh_tokens
        ≡ some (record stored { revoked = true })
      → refreshed now new presented db ≡ (
        refuse 401 (str "refresh token reused"),
        revoked_in hash_token create_access_token hash_password verify_password lifetimes
            (λ t. text_eq t.user_id stored.user_id)
            db,
      )
  unfolding refresh
  reused now new presented db stored found = rw (refresh, found) refl

  -- A refresh token that was exchanged for new ones is refused, as reused, when it is presented again,
  -- at any later time; then every refresh token of its user is revoked, the new one included.
  pub refresh_is_single_use :
      (now now' : ℕ) (new new' presented : Text) (db db' : Database) (tokens : TokenResponse)
      → refreshed now new presented db ≡ (answer tokens, db')
      → (stored : RefreshToken) × (find_token (hash_token presented) db.refresh_tokens
          ≡ some stored)
        × ((refreshed now' new' presented db').0 ≡ refuse 401 (str "refresh token reused"))
        × All (IsRevokedFor stored.user_id) (refreshed now' new' presented db').1.refresh_tokens
  refresh_is_single_use now now' new new' presented db db' tokens e =
      let (stored, rest, found, left) = refresh_granted now new presented db db' tokens e in
      let again = reused now' new' presented db' stored (
        ap (find_token (hash_token presented)) left
        ∙ find_token-revoke (hash_token presented) db.refresh_tokens rest stored found) in
      (stored, found, ap (λ x. x.0) again, rw again (revoke-All stored.user_id db'.refresh_tokens))
