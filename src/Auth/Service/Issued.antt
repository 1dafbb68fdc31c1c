-- ===== src/Auth/Service/Issued.antt =====
-- What the two tokens of a pair are good for.
use quantsim.Prelude.{
  ℕ, ◌+◌, ◌≡◌, inl, inr, refl, false, none, some, arith, Bool-cases, if◌then◌else◌, ltb,
}
use quantsim.Prelude.Text.{Text, is_empty}
use quantsim.Auth.Types.{ok, err, err_token_invalid, TokenPair}
use quantsim.Auth.World.{World, Env, Claims, access, refresh, ticked, bind_err}
use quantsim.Auth.Tokens.{claims_of, generate_token, key_for, validate_token, require_auth, IsJwt}
use quantsim.Auth.Service.{
  issue_token_pair, refresh_claims, refresh_valid, refresh_tokens, logout_valid, logout,
  access_token_ttl, refresh_token_ttl,
}

module _ (env : Env) where
  signed_lem :
      (jwt : IsJwt env) (t : Text) (c : Claims) (now : ℕ)
      → env.sign env.secret c ≡ some t
      → validate_token env now t ≡ (if ltb now c.expires_at then some c else none)
  unfolding validate_token key_for
  signed_lem jwt t c now e =
      rw (validate_token, key_for, jwt.hmac env.secret t c e) (jwt.reads env.secret t c now e)

  -- What was signed for the two tokens of a pair
  issued_lem :
      (id : ℕ) (w : World) (pair : TokenPair)
      → (issue_token_pair env id w).0 ≡ ok pair
      → (env.sign env.secret (claims_of env (env.print_uuid id) access access_token_ttl w.tick)
          ≡ some pair.access_token)
        × (env.sign env.secret
              (claims_of env (env.print_uuid id) refresh refresh_token_ttl (w.tick + 1))
            ≡ some pair.refresh_token)
  unfolding issue_token_pair generate_token ticked
  issued_lem id w pair e = (ground arith, ground arith)

  refresh_as_access :
      (c : Claims) (now : ℕ) (token : Text)
      → c.token_type ≡ refresh
      → validate_token env now token ≡ (if ltb now c.expires_at then some c else none)
      → require_auth env (some token) now ≡ none
  unfolding require_auth
  refresh_as_access c now token kind e = elim (Bool-cases (ltb now c.expires_at)) [
    | inl fresh ↦ rw (e, fresh, kind) (ground arith)
    | inr stale ↦ rw (e, stale) (ground arith)
  ]

  access_as_access :
      (c : Claims) (now : ℕ) (token : Text)
      → is_empty token ≡ false
      → c.token_type ≡ access
      → validate_token env now token ≡ (if ltb now c.expires_at then some c else none)
      → require_auth env (some token) now ≡ (if ltb now c.expires_at then some c.subject else none)
  unfolding require_auth
  access_as_access c now token filled kind e = elim (Bool-cases (ltb now c.expires_at)) [
    | inl fresh ↦ rw (filled, e, fresh, kind) refl
    | inr stale ↦ rw (filled, e, stale) refl
  ]

  access_as_refresh :
      (c : Claims) (v : World) (token : Text)
      → c.token_type ≡ access
      → validate_token env (env.clock v.tick) token
        ≡ (if ltb (env.clock v.tick) c.expires_at then some c else none)
      → refresh_claims env token v ≡ (err err_token_invalid, ticked v)
  unfolding refresh_claims
  access_as_refresh c v token kind e = elim (Bool-cases (ltb (env.clock v.tick) c.expires_at)) [
    | inl fresh ↦ ground arith
    | inr stale ↦ ground arith
  ]

  -- The two tokens of a pair cannot stand in for each other. At every instant and in every state:
  -- the access token passes the gate as the user it was issued for until its date of expiry and not
  -- after; the refresh token never passes the gate; and the access token is refused where a refresh
  -- token is asked for, in a refresh and in a sign-out, which change nothing then.
  pub issue_token_pair-Apart :
      (jwt : IsJwt env) (id : ℕ) (w : World) (pair : TokenPair)
      → (issue_token_pair env id w).0 ≡ ok pair
      → let expiry = env.numeric_date (env.clock w.tick + access_token_ttl) in
        ((now : ℕ)
          → require_auth env (some pair.access_token) now
            ≡ (if ltb now expiry then some (env.print_uuid id) else none))
        × (((now : ℕ) → require_auth env (some pair.refresh_token) now ≡ none)
            × (((v : World)
                  → refresh_tokens env pair.access_token v ≡ (err err_token_invalid, ticked v))
                × ((v : World)
                    → logout env pair.access_token v ≡ (err err_token_invalid, ticked v))))
  unfolding claims_of refresh_tokens logout
  issue_token_pair-Apart jwt id w pair e =
      let c = claims_of env (env.print_uuid id) access access_token_ttl w.tick in
      let d = claims_of env (env.print_uuid id) refresh refresh_token_ttl (w.tick + 1) in
      let s = pair.access_token in
      let t = pair.refresh_token in
      let (one, two) = issued_lem id w pair e in
      let filled = jwt.filled env.secret s c one in
      let misused : (v : World) → refresh_claims env s v ≡ (err err_token_invalid, ticked v) =
        λ v. access_as_refresh c v s refl (signed_lem jwt s c (env.clock v.tick) one) in
      (
        λ now. access_as_access c now s filled refl (signed_lem jwt s c now one),
        (
          λ now. refresh_as_access d now t refl (signed_lem jwt t d now two),
          (
            λ v.
                bind_err (refresh_claims env s) (refresh_valid env) v (ticked v) err_token_invalid
                  (misused v),
            λ v.
                bind_err (refresh_claims env s) (logout_valid env) v (ticked v) err_token_invalid
                  (misused v),
          ),
        ),
      )
