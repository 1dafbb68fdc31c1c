-- ===== src/Auth/Service/Denied.antt =====
-- What stays on the denylist, whatever requests come.
use quantsim.Prelude.{
  ℕ, ◌+◌, ◌≤◌, ◌≡◌, inl, inr, refl, sym, ap, ◌∙◌, some, List, [], ◌∷◌, arith, Bool-cases,
}
use quantsim.Prelude.Int.{ℤ, pos_part, sub_ℕ}
use quantsim.Prelude.Map.{lookup, lookup-insert}
use quantsim.Prelude.Text.{Text, text_eq, text_eq_iff, text_keys}
use quantsim.Auth.World.{World, Env, Claims}
use quantsim.Auth.Tokens.{validate_token}
use quantsim.Auth.Store.{revoked_key}
use quantsim.Auth.Service.{
  Call, registers, logs_in, refreshes, logs_out, reads_profile, after, run, register, login, me,
  refresh_tokens, logout,
}
use quantsim.Auth.Service.Registered.{Kept, register-Kept}
use quantsim.Auth.Service.Frame.{login-Same, refresh_tokens-Same, me-Same, Denies, logout-LoggedOut}

-- Time does not go back; Redis keeps a key for at least its time to live; and two tokens that are
-- accepted under one jti expire together (a jti is a UUID, made for one token).
pub record IsRegular (env : Env) : Type 0 where
  pub monotone : (m n : ℕ) → m ≤ n → env.clock m ≤ env.clock n
  pub keeps : (ttl : ℤ) → pos_part ttl ≤ env.keeps ttl
  pub jti :
      (m n : ℕ) (s t : Text) (c d : Claims)
      → validate_token env m s ≡ some c
      → validate_token env n t ≡ some d
      → c.id ≡ d.id
      → c.expires_at ≡ d.expires_at

module _ (env : Env) where
  -- The denylist holds the id of these claims until they have expired.
  abbrev pub IsDenied : Claims → World → Type 0
  IsDenied claims w =
      (until : ℕ) × ((lookup (revoked_key env claims.id) w.denied ≡ some until)
        × (claims.expires_at ≤ until))

  pub until_lem :
      (r : IsRegular env) (expires m n : ℕ)
      → n ≤ m
      → expires ≤ env.clock m + env.keeps (sub_ℕ expires (env.clock n))
  until_lem r expires m n h =
      ground (arith, r.monotone n m h, r.keeps (sub_ℕ expires (env.clock n)))

  revoked_key_inj : (a b : Text) → revoked_key env a ≡ revoked_key env b → a ≡ b
  unfolding revoked_key
  revoked_key_inj a b e = cc e

  Denies-IsDenied :
      (r : IsRegular env) (c d : Claims) (w w' : World)
      → (c.id ≡ d.id → c.expires_at ≡ d.expires_at)
      → Denies env d w w'
      → IsDenied c w
      → IsDenied c w'
  Denies-IsDenied r c d w w' unique (n, m, (h, put)) (until, (here, late)) =
      let key = revoked_key env c.id in
      let other = revoked_key env d.id in
      let expiry = env.clock m + env.keeps (sub_ℕ d.expires_at (env.clock n)) in
      let now = ap (lookup key) put ∙ lookup-insert key other expiry w.denied in
      elim (Bool-cases (text_eq other key)) [
        | inl same ↦
            let ids = revoked_key_inj d.id c.id ((text_eq_iff other key).0 same) in
            (
              expiry,
              (now ∙ rw same refl, omega (arith, unique (sym ids), until_lem r d.expires_at m n h)),
            )
        | inr differ ↦ (until, (now ∙ rw differ here, late))
      ]

  Kept-IsDenied : (c : Claims) (w w' : World) → Kept env w w' → IsDenied c w → IsDenied c w'
  Kept-IsDenied c w w' same (until, (here, late)) =
      (until, (ap (lookup (revoked_key env c.id)) same.0 ∙ here, late))

  after-Ticks : (call : Call) (w : World) → w.tick ≤ (after env call w).tick
  unfolding after
  after-Ticks (registers req) w = (register-Kept env req w).1
  after-Ticks (logs_in req) w = (login-Same env req w).1.1
  after-Ticks (refreshes token) w = (refresh_tokens-Same env token w).1.1
  after-Ticks (logs_out token) w = (logout-LoggedOut env token w).1.0
  after-Ticks (reads_profile id) w = (me-Same env id w).1.1

  pub run-tick : (calls : List Call) (w : World) → w.tick ≤ (run env calls w).tick
  unfolding run
  run-tick [] w = omega arith
  run-tick (call ∷ calls) w = omega (arith, after-Ticks call w, run-tick calls (after env call w))

  after-IsDenied :
      (r : IsRegular env) (now : ℕ) (token : Text) (c : Claims) (call : Call) (w : World)
      → validate_token env now token ≡ some c
      → IsDenied c w
      → IsDenied c (after env call w)
  unfolding after
  after-IsDenied r now token c (registers req) w valid h =
      Kept-IsDenied c w (register env req w).1 (register-Kept env req w) h
  after-IsDenied r now token c (logs_in req) w valid h =
      Kept-IsDenied c w (login env req w).1 (login-Same env req w).1 h
  after-IsDenied r now token c (refreshes other) w valid h =
      Kept-IsDenied c w (refresh_tokens env other w).1 (refresh_tokens-Same env other w).1 h
  after-IsDenied r now token c (logs_out other) w valid h =
      let w' = (logout env other w).1 in
      let (db_same, (later, deny)) = logout-LoggedOut env other w in
      elim deny [
        | inl same ↦ Kept-IsDenied c w w' (same, later) h
        | inr (d, (accepted, put)) ↦
            let unique = r.jti now (env.clock w.tick) token other c d valid accepted in
            Denies-IsDenied r c d w w' unique put h
      ]
  after-IsDenied r now token c (reads_profile id) w valid h =
      Kept-IsDenied c w (me env id w).1 (me-Same env id w).1 h

  pub run-IsDenied :
      (r : IsRegular env) (now : ℕ) (token : Text) (c : Claims) (calls : List Call) (w : World)
      → validate_token env now token ≡ some c
      → IsDenied c w
      → IsDenied c (run env calls w)
  unfolding run
  run-IsDenied r now token c [] w valid h = h
  run-IsDenied r now token c (call ∷ calls) w valid h =
      run-IsDenied r now token c calls (after env call w) valid
        (after-IsDenied r now token c call w valid h)
