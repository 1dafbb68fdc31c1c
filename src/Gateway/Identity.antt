-- ===== src/Gateway/Identity.antt =====
-- The identity that a backend is told (services/gateway/internal/middleware/identity.go), and the header
-- that the proxy behind it sends (services/gateway/internal/proxy/proxy.go).
pub mod Bearer
use quantsim.Prelude.{
  ℕ, ◌≡◌, refl, sym, ap, ◌∙◌, ◌⊎◌, ◌++◌, Bool, true, inl, inr, Option-cases, Option, none, some,
  List, [], ◌∷◌, String, arith, if◌then◌else◌,
}
use quantsim.Prelude.Text.{Text, is_empty, cut_prefix}
use quantsim.Prelude.Keys.{string_keys}
use quantsim.Auth.World.{TokenType, access, refresh, other_type, Claims, Env}
use quantsim.Auth.Tokens.{is_access, key_for, validate_token, require_auth}
use quantsim.Gateway.Http.{Request, get, del, set, values, Outcome, answered, passed}

abbrev pub user_id_header : String
user_id_header = "X-User-Id"

unfoldable pub strip_user_id : Request → Request
unfolding del
strip_user_id r = record r { header = del user_id_header r.header }

-- `InjectUserID`
unfoldable pub inject_user_id : Request → Outcome
unfolding set
inject_user_id r = elim (r.user) [
  | none ↦ answered 500
  | some id ↦
      if is_empty id
      then answered 500
      else passed (record r { header = set user_id_header id r.header })
]

-- "Bearer "
abbrev pub bearer_prefix : Text
bearer_prefix = 66 ∷ 101 ∷ 97 ∷ 114 ∷ 101 ∷ 114 ∷ 32 ∷ []

-- The user that the gate lets through
unfoldable pub authenticated : Env → ℕ → Request → Option Text
unfolding get cut_prefix
authenticated env now r =
    require_auth env (cut_prefix (get "Authorization" r.header) bearer_prefix) now

-- The private routes: the gate puts the subject of the token on the context.
unfoldable pub authorise : Env → ℕ → Request → Outcome
unfolding inject_user_id authenticated
authorise env now r = elim (authenticated env now r) [
  | none ↦ answered 401
  | some id ↦ inject_user_id (record r { user = some id })
]

-- What `httputil.ReverseProxy` does to the header of a request that it sends on: `outgoing` takes away
-- the lines of one hop, those that the line Connection names among them, and `set_forwarded` is
-- `SetXForwarded`.
pub record Reverse : Type 0 where
  pub outgoing : List (String × Text) → List (String × Text)
  pub set_forwarded : Request → List (String × Text) → List (String × Text)

-- As documented: of each name all lines are kept or none, and `SetXForwarded` sets X-Forwarded-For,
-- -Host and -Proto only.
pub record IsReverse (lib : Reverse) : Type 0 where
  pub kept :
      (name : String) (lines : List (String × Text))
      → (values name (lib.outgoing lines) ≡ values name lines)
        ⊎ (values name (lib.outgoing lines) ≡ [])
  pub apart :
      (r : Request) (lines : List (String × Text))
      → values user_id_header (lib.set_forwarded r lines) ≡ values user_id_header lines

-- `Rewrite` of the proxy: what the backend sees of a request's header
unfoldable pub rewrite : Reverse → Request → Request
unfolding del
rewrite lib r = record r { header = lib.set_forwarded r (del "X-Real-Ip" (lib.outgoing r.header)) }
