-- ===== src/Gateway/Logins.antt =====
-- Logins in flight at the same time (RateLimitLoginByAccount in
-- services/gateway/internal/middleware/ratelimit.go). The two halves of a request, before and after
-- the backend's answer, each hold the limiter's lock once, and any other request may come between them.
pub mod Guesses
use mathlib.Core.Path.{subst}
use quantsim.Prelude.{
  ℕ, zero, suc, ◌+◌, ◌-◌, ◌≤◌, ◌≡◌, inl, inr, refl, sym, ap, ◌∙◌, Bool, true, false, Option, none,
  some, Option-cases, Bool-cases, List, [], ◌∷◌, ◌==◌, arith, String, ltb, length, if◌then◌else◌,
}
use quantsim.Prelude.Keys.{str_eq, string_keys}
use quantsim.Prelude.Map.{IsMap}
use quantsim.Limiter.Backoff.{BackoffConfig, Table, attempt, evict_stale, succeed, undo}
use quantsim.Limiter.Backoff.Attempts.{IsValid}
use quantsim.Limiter.Backoff.Counted.{
  failures_of, attempt_lem, succeed_lem, undo_lem, evict_stale_lem, attempt-free,
}
use quantsim.Prelude.Text.{Text, Unicode, is_empty}
use quantsim.Gateway.Http.{Stream, Request, Outcome, passed, answered}
use quantsim.Gateway.RateLimit.{Written, record_status, settle, login_email, login_email_lem}

-- The limiter's table, the accounts of the requests that are not settled, and the answers so far, the
-- last one first
pub record System : Type 0 where
  pub table : Table
  pub in_flight : List String
  pub verdicts : List (String × ℕ)

abbrev pub idle : System
idle = record { table = []; in_flight = []; verdicts = [] }

-- A request for an account arrives; the backend has answered one of those in flight, by its place; the
-- proxy has given one of them up by a panic (`http.ErrAbortHandler`); the ticker evicts.
pub data Event : Type 0 where
  arrives : ℕ → String → Event
  answers : ℕ → List Written → Event
  aborts : ℕ → Event
  evicts : ℕ → Event

-- One of the requests in flight, and the others
abbrev pick : ℕ → List String → Option (String × List String)
pick n [] = none
pick zero (key ∷ keys) = some (key, keys)
pick (suc n) (key ∷ keys) = elim (pick n keys) [
  | none ↦ none
  | some found ↦ some (found.0, key ∷ found.1)
]

-- The handler up to the proxy: a refused request ends there.
unfoldable pub arrive : BackoffConfig → ℕ → String → System → System
arrive cfg now key s =
    let o = attempt cfg now key s.table in
    if o.0.is_allowed
    then record s { table = o.1; in_flight = key ∷ s.in_flight }
    else record s { table = o.1 }

-- The handler from the backend's answer on
abbrev finish : ℕ → System → Option (String × List String) → System
finish status s none = s
finish status s (some (key, others)) = record {
  table = settle status key s.table;
  in_flight = others;
  verdicts = (key, status) ∷ s.verdicts;
}

-- A panic unwinds the handler before the `switch`: the request is never settled, and stays counted.
unfoldable pub handle : BackoffConfig → Event → System → System
unfolding arrive
handle cfg (arrives now key) s = arrive cfg now key s
handle cfg (answers place written) s = finish (record_status 0 written) s (pick place s.in_flight)
handle cfg (aborts place) s = s
handle cfg (evicts now) s = record s { table = evict_stale cfg now s.table }

unfoldable pub handle_all : BackoffConfig → List Event → System → System
unfolding handle
handle_all cfg [] s = s
handle_all cfg (event ∷ events) s = handle_all cfg events (handle cfg event s)

-- The wrong passwords of an account since its last success
unfoldable pub guesses : String → List (String × ℕ) → ℕ
guesses key [] = 0
guesses key ((j, status) ∷ verdicts) =
    let rest = guesses key verdicts in
    if str_eq j key
    then (if status == 401 then rest + 1 else if status == 200 then 0 else rest)
    else rest

-- Its requests that are not settled
unfoldable pub waiting : String → List String → ℕ
waiting key [] = 0
waiting key (j ∷ keys) = let rest = waiting key keys in if str_eq j key then rest + 1 else rest

-- `if restore != nil { r.Body = … }`
abbrev restored : Request → Option Stream → Request
restored r none = r
restored r (some s) = record r { body = some s }

module _ (u : Unicode) (decode_email : List ℕ → Option Text) (as_key : Text → String)
    (cfg : BackoffConfig) (max_bytes : ℕ) where
  -- `RateLimitLoginByAccount` up to the proxy: without a key the request is passed on uncounted.
  unfoldable pub admit : ℕ → Request → System → Outcome × System
  unfolding login_email arrive
  admit now r s =
      let (key, onward) = login_email u decode_email max_bytes r.body in
      let r' = restored r onward in
      if is_empty key then (passed r', s) else (
        (if (attempt cfg now (as_key key) s.table).0.is_allowed then passed r' else answered 429),
        arrive cfg now (as_key key) s,
      )

  -- The limiter is invisible to what it lets through: a login that it passes on has every header line
  -- and every byte of the body that came, whatever the key was, and whether the body was over the cap,
  -- could be decoded or not. (A body that breaks within the cap is passed on as one that ends.)
  pub admit-Passed :
      (now : ℕ) (r r' : Request) (body : Stream) (s : System)
      → r.body ≡ some body
      → (admit now r s).0 ≡ passed r'
      → r' ≡ record r {
        body = some (record {
          bytes = body.bytes;
          breaks = (if ltb max_bytes (length body.bytes) then body.breaks else false);
        });
      }
  unfolding admit
  admit-Passed now r r' body s e passes =
      let o = login_email u decode_email max_bytes r.body in
      let onward : restored r o.1 ≡ record r {
        body = some (record {
          bytes = body.bytes;
          breaks = (if ltb max_bytes (length body.bytes) then body.breaks else false);
        });
      } =
        ap (restored r) (
          ap (λ b. (login_email u decode_email max_bytes b).1) e
          ∙ (login_email_lem u decode_email max_bytes body).0) in
      let same : restored r o.1 ≡ r' = elim (Bool-cases (is_empty o.0)) [
        | inl unkeyed ↦ ground arith
        | inr keyed ↦ ground arith
      ] in
      sym same ∙ onward
