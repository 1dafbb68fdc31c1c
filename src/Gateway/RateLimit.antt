-- ===== src/Gateway/RateLimit.antt =====
-- The two limits on logins (services/gateway/internal/middleware/ratelimit.go): by the address that a
-- request came from, and by the account that it is for. What the JSON decoder finds under "email" is
-- a parameter, as is the name under which a limiter keeps a text.
use quantsim.Prelude.{
  ℕ, zero, suc, ◌+◌, ◌-◌, ◌*◌, ◌/◌, ◌≤◌, ◌<◌, ◌≡◌, ◌⊎◌, inl, inr, refl, ap, false, Option, none,
  some, List, [], ◌∷◌, ◌++◌, take, length, ltb, ◌==◌, arith, String, if◌then◌else◌, Option-cases,
}
use quantsim.Prelude.Int.{ℤ, pos, negsuc}
use quantsim.Prelude.Text.{Text, Unicode, is_empty, to_lower, trim_space}
use quantsim.Limiter.Backoff.{Table, succeed, undo}
use quantsim.Limiter.Memory.{Shards, allow}
use quantsim.Gateway.Http.{Stream, Request, Outcome, passed, answered}
use quantsim.Gateway.ClientIp.{Netip, client_ip}

-- `int(retryAfter.Seconds())`, a division that truncates (exact below 2^22 seconds), and one more if
-- something is left of it
abbrev rounded : ℤ → ℕ
rounded (pos n) =
    let seconds = n / 1_000_000_000 in
    if ltb (seconds * 1_000_000_000) n then seconds + 1 else seconds
rounded (negsuc n) = 0

-- The `Retry-After` of `writeRateLimited`. A duration that is not positive has 0 whole seconds, or
-- fewer.
unfoldable pub retry_after_seconds : ℤ → ℕ
retry_after_seconds wait = let seconds = rounded wait in if ltb seconds 1 then 1 else seconds

-- What a handler writes through `statusRecorder`
pub data Written : Type 0 where
  header : ℕ → Written
  bytes : Written

-- `rec.status` after what was written, 0 before
unfoldable pub record_status : ℕ → List Written → ℕ
record_status status [] = status
record_status status (header code ∷ ws) = record_status code ws
record_status status (bytes ∷ ws) = record_status (if status == 0 then 200 else status) ws

-- `io.ReadAll(io.LimitReader(body, n))`: what was read, whether that failed, and what is left to read
abbrev drop : ℕ → List ℕ → List ℕ
drop zero xs = xs
drop (suc n) [] = []
drop (suc n) (x ∷ xs) = drop n xs

module _ (u : Unicode) (decode_email : List ℕ → Option Text) where
  -- `loginEmail`: the key, and the body to hand onward
  unfoldable pub login_email : ℕ → Option Stream → Text × Option Stream
  login_email max_bytes none = ([], none)
  login_email max_bytes (some s) =
      if ltb max_bytes (length s.bytes)
      then (
        [],
        some (record {
          bytes = take (max_bytes + 1) s.bytes ++ drop (max_bytes + 1) s.bytes;
          breaks = s.breaks;
        }),
      )
      else if s.breaks
      then ([], some (record { bytes = s.bytes; breaks = false }))
      else elim (decode_email s.bytes) [
        | none ↦ ([], some (record { bytes = s.bytes; breaks = false }))
        | some email ↦
            (to_lower u (trim_space u email), some (record { bytes = s.bytes; breaks = false }))
      ]

-- `RateLimitByIP`: the address takes one of the requests of its window, or is refused.
unfoldable pub rate_limit_by_ip :
    {A P : Type 0}
    → Unicode
    → Netip A P
    → (String → ℕ)
    → (Text → String)
    → List P
    → ℕ
    → ℕ
    → ℤ
    → Request
    → Shards
    → Outcome × Shards
unfolding client_ip
rate_limit_by_ip u net sum32 as_key trusted now limit window r st =
    let o = allow sum32 now (as_key (client_ip u net trusted r)) limit window st in
    ((if o.0.is_allowed then passed r else answered 429), o.1)

-- The `switch` over the status that the recorder holds
unfoldable pub settle : ℕ → String → Table → Table
settle status key m =
    if status == 401 then m else if status == 200 then succeed key m else undo key m

take-drop : (n : ℕ) (xs : List ℕ) → take n xs ++ drop n xs ≡ xs
take-drop zero xs = refl
take-drop (suc n) [] = refl
take-drop (suc n) (x ∷ xs) = ap (λ rest. x ∷ rest) (take-drop n xs)

module _ (u : Unicode) (decode_email : List ℕ → Option Text) where
  -- Reading the address out of a login takes nothing from it: what is handed onward has the bytes that
  -- came, in their order, whatever branch was taken, and no key is made of a body that is over the cap,
  -- that breaks, or that the decoder refuses. A body that breaks within the cap is handed on as one
  -- that ends.
  pub login_email_lem :
      (max_bytes : ℕ) (s : Stream)
      → let (key, onward) = login_email u decode_email max_bytes (some s) in
        (onward
          ≡ some (record {
            bytes = s.bytes;
            breaks = (if ltb max_bytes (length s.bytes) then s.breaks else false);
          }))
        × ((is_empty key ≡ false)
            → (length s.bytes ≤ max_bytes)
              × ((s.breaks ≡ false)
                  × ((email : Text) × ((decode_email s.bytes ≡ some email)
                        × (key ≡ to_lower u (trim_space u email))))))
  unfolding login_email
  login_email_lem max_bytes s = (
    ground (arith, take-drop (max_bytes + 1) s.bytes),
    λ named. elim (Option-cases (decode_email s.bytes)) [
      | inl bad ↦ ground arith
      | inr (email, is) ↦ (ground arith, (ground arith, (email, (is, ground arith))))
    ],
  )

-- The seconds that a refused caller is told to wait are enough, and are not a whole second too many
-- unless they are the one second that is the least.
pub retry_after_seconds_lem :
    (n : ℕ)
    → (n ≤ retry_after_seconds (pos n) * 1_000_000_000)
      × ((retry_after_seconds (pos n) ≡ 1)
          ⊎ ((retry_after_seconds (pos n) - 1) * 1_000_000_000 < n))
unfolding retry_after_seconds
retry_after_seconds_lem n = ground arith
