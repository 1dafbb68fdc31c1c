-- ===== src/Auth/Service/Revoked.antt =====
-- Signing out takes a refresh token out of use.
use mathlib.Core.Path.{subst}
use quantsim.Prelude.{
  ℕ, ◌+◌, ◌≤◌, ◌<◌, ◌≡◌, ◌⊎◌, inl, inr, ap, ◌∙◌, true, false, some, List, arith, Bool-cases,
  Option-cases,
}
use quantsim.Prelude.Int.{pos, sub_ℕ, leb_ℤ}
use quantsim.Prelude.Map.{lookup, insert, lookup-insert_self}
use quantsim.Prelude.Text.{Text, text_keys, is_empty}
use quantsim.Auth.Types.{ok, err, err_token_invalid}
use quantsim.Auth.World.{World, Env, Claims, ticked}
use quantsim.Auth.Tokens.{is_refresh, key_for, validate_token, IsJwt}
use quantsim.Auth.Store.{revoked_key, is_revoked, revoke}
use quantsim.Auth.Service.{
  Call, run, refresh_claims, refresh_valid, refresh_tokens, logout_valid, logout,
}
use quantsim.Auth.Service.Denied.{IsRegular, IsDenied, until_lem, run-tick, run-IsDenied}

module _ (env : Env) where
  -- A refresh whose denylist answers refuses what it holds, if the token does not expire between the
  -- two readings of the clock.
  refresh-IsDenied :
      (jwt : IsJwt env) (now : ℕ) (token : Text) (c : Claims) (w : World)
      → validate_token env now token ≡ some c
      → IsDenied env c w
      → env.fails (w.tick + 1) ≡ false
      → (env.clock w.tick < c.expires_at → env.clock (w.tick + 1) < c.expires_at)
      → (refresh_tokens env token w).0 ≡ err err_token_invalid
  unfolding validate_token refresh_tokens refresh_claims refresh_valid is_revoked ticked
  refresh-IsDenied jwt now token c w valid (until, (here, late)) up steady =
      elim (Option-cases (env.parse (key_for env token) (env.clock w.tick) token)) [
        | inl bad ↦ ground arith
        | inr (d, read) ↦
            let same : c ≡ d =
              jwt.constant (key_for env token) now (env.clock w.tick) token c d valid read in
            let soon = jwt.unexpired (key_for env token) (env.clock w.tick) token d read in
            let left : env.clock (w.tick + 1) < until =
              omega (arith, steady (rw same soon), late) in
            let found : lookup (revoked_key env d.id) w.denied ≡ some until =
              subst (λ x. lookup (revoked_key env x.id) w.denied ≡ some until) same here in
            elim (Bool-cases (is_refresh d.token_type)) [
              | inl fits ↦ ground arith
              | inr unfit ↦ ground arith
            ]
      ]

  logout_wrote :
      (c : Claims) (token : Text) (w : World)
      → validate_token env (env.clock w.tick) token ≡ some c
      → (logout env token w).0 ≡ ok tt
      → leb_ℤ (sub_ℕ c.expires_at (env.clock (w.tick + 1))) (pos 0) ≡ false
      → env.fails (w.tick + 1 + 1) ≡ false
      → (logout env token w).1.denied
        ≡ insert
            (revoked_key env c.id)
            (env.clock (w.tick + 1 + 1) + env.keeps (sub_ℕ c.expires_at (env.clock (w.tick + 1))))
            w.denied
  unfolding validate_token logout refresh_claims logout_valid revoke ticked
  logout_wrote c token w valid done left up =
      let typed : is_refresh c.token_type ≡ true = ground arith in
      let named : is_empty c.id ≡ false = ground arith in ground arith

  logout-Ticks : (token : Text) (w : World) → w.tick + 1 ≤ (logout env token w).1.tick
  unfolding logout refresh_claims logout_valid revoke ticked
  logout-Ticks token w = ground arith

  refresh_expired :
      (jwt : IsJwt env) (now : ℕ) (token : Text) (c : Claims) (w : World)
      → validate_token env now token ≡ some c
      → c.expires_at ≤ env.clock w.tick
      → (refresh_tokens env token w).0 ≡ err err_token_invalid
  unfolding validate_token refresh_tokens refresh_claims ticked
  refresh_expired jwt now token c w valid gone =
      elim (Option-cases (env.parse (key_for env token) (env.clock w.tick) token)) [
        | inl bad ↦ ground arith
        | inr (d, read) ↦
            let same =
              jwt.constant (key_for env token) now (env.clock w.tick) token c d valid read in
            let soon = jwt.unexpired (key_for env token) (env.clock w.tick) token d read in
            ground (arith, ap (λ x. x.expires_at) same, soon, gone)
      ]

  -- What a sign-out that reached Redis left: the id on the denylist, or a token that had expired.
  logout-IsDenied :
      (r : IsRegular env) (c : Claims) (token : Text) (w : World)
      → validate_token env (env.clock w.tick) token ≡ some c
      → (logout env token w).0 ≡ ok tt
      → env.fails (w.tick + 1 + 1) ≡ false
      → IsDenied env c (logout env token w).1 ⊎ (c.expires_at ≤ env.clock (w.tick + 1))
  unfolding logout refresh_claims logout_valid revoke ticked
  logout-IsDenied r c token w valid done up =
      let key = revoked_key env c.id in
      let ttl = sub_ℕ c.expires_at (env.clock (w.tick + 1)) in
      let until = env.clock (w.tick + 1 + 1) + env.keeps ttl in
      elim (Bool-cases (leb_ℤ ttl (pos 0))) [
        | inl gone ↦ inr (ground arith)
        | inr left ↦
            let found = lookup-insert_self key until w.denied in
            let late = until_lem env r c.expires_at (w.tick + 1 + 1) (w.tick + 1) (omega arith) in
            let wrote : (logout env token w).1.denied ≡ insert key until w.denied =
              logout_wrote c token w valid done left up in
            inl (until, (ap (lookup key) wrote ∙ found, late))
      ]

  -- Signing out holds. A sign-out that was accepted and whose write reached Redis takes its refresh
  -- token out of use: whatever requests come afterwards, a refresh with that token is refused, for as
  -- long as the denylist answers and the token does not expire between the two readings of the clock
  -- in that refresh. Time must not go back, Redis must keep a key for its time to live, and a jti
  -- must belong to one token.
  pub logout-refresh :
      (jwt : IsJwt env) (r : IsRegular env) (c : Claims) (token : Text) (calls : List Call)
      (w : World)
      → validate_token env (env.clock w.tick) token ≡ some c
      → (logout env token w).0 ≡ ok tt
      → env.fails (w.tick + 1 + 1) ≡ false
      → let w' = run env calls (logout env token w).1 in
        env.fails (w'.tick + 1) ≡ false
        → (env.clock w'.tick < c.expires_at → env.clock (w'.tick + 1) < c.expires_at)
        → (refresh_tokens env token w').0 ≡ err err_token_invalid
  logout-refresh jwt r c token calls w valid done up up' steady =
      let now = env.clock w.tick in
      let w1 = (logout env token w).1 in
      let w' = run env calls w1 in
      elim (logout-IsDenied r c token w valid done up) [
        | inl denied ↦
            let still = run-IsDenied env r now token c calls w1 valid denied in
            refresh-IsDenied jwt now token c w' valid still up' steady
        | inr over ↦
            let later = run-tick env calls w1 in
            let first = logout-Ticks token w in
            let gone : c.expires_at ≤ env.clock w'.tick =
              omega (arith, over, r.monotone (w.tick + 1) w'.tick (omega (arith, later, first))) in
            refresh_expired jwt now token c w' valid gone
      ]
