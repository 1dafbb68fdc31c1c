-- ===== src/Gateway/Identity/Bearer.antt =====
-- Who a backend is told is calling.
use quantsim.Prelude.{
  ℕ, ◌≡◌, refl, ◌⊎◌, ◌++◌, none, some, List, [], ◌∷◌, String, arith, if◌then◌else◌,
}
use quantsim.Prelude.Keys.{string_keys}
use quantsim.Prelude.Text.{Text}
use quantsim.Auth.World.{access, Claims, Env}
use quantsim.Gateway.Http.{Request, get, del, values, Outcome, answered, passed}
use quantsim.Gateway.Identity.{user_id_header, bearer_prefix, Reverse, rewrite}

pub values-del : (name : String) (lines : List (String × Text)) → values name (del name lines) ≡ []
unfolding values del
values-del name [] = refl
values-del name ((key, value) ∷ lines) = ground (arith, values-del name lines)

pub values-del_other :
    (name other : String) (lines : List (String × Text))
    → ¬ (name ≡ other)
    → values name (del other lines) ≡ values name lines
unfolding values del
values-del_other name other [] apart = refl
values-del_other name other ((key, value) ∷ lines) apart = ground (
  arith,
  string_keys.beq_iff key name,
  string_keys.beq_iff key other,
  values-del_other name other lines apart,
)

-- The header holds "Bearer " and a token that the JWT library reads at that instant, under the
-- service's secret if it is signed with HMAC and under no key otherwise, as an access token of `id`.
pub record Bears (env : Env) (now : ℕ) (lines : List (String × Text)) (id : Text) : Type 0 where
  pub token : Text
  pub claims : Claims
  pub shown : get "Authorization" lines ≡ bearer_prefix ++ token
  pub read : env.parse (if env.is_hmac token then some env.secret else none) now token ≡ some claims
  pub kind : claims.token_type ≡ access
  pub whose : claims.subject ≡ id

-- What a request that is passed on says, to the proxy and to the backend: the subject of its token.
abbrev pub Told : Env → ℕ → Reverse → Request → Outcome → Type 0
Told env now lib r (answered status) = status ≡ 401 ⊎ status ≡ 500
Told env now lib r (passed r') =
    (id : Text) × (Bears env now r.header id
      × ((values user_id_header r'.header ≡ id ∷ [])
          × (((values user_id_header (rewrite lib r').header ≡ id ∷ [])
                ⊎ (values user_id_header (rewrite lib r').header ≡ []))
              × ((rewrite lib r').body ≡ r.body))))
