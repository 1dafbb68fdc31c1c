-- ===== src/Gateway/Tests.antt =====
-- The theorems about the middleware at concrete inputs.
use quantsim.Prelude.{
  ℕ, ◌+◌, ◌≤◌, ◌≡◌, ◌⊎◌, ◌↔◌, refl, false, none, some, List, [], ◌∷◌, length, String, if◌then◌else◌,
  ltb, ◌==◌, arith,
}
use quantsim.Prelude.Int.{pos}
use quantsim.Prelude.Text.{Text, is_empty, trim_space, to_lower}
use quantsim.Prelude.Map.{lookup, insert}
use quantsim.Limiter.Backoff.{BackoffConfig, attempt}
use quantsim.Auth.Toy.{toy}
use quantsim.Gateway.Http.{Stream, Request, answered, passed, get, del}
use quantsim.Gateway.Bodies.{IsOver, IsLong, IsBroken, Kept, limit_body, limit_body_exact}
use quantsim.Gateway.Identity.{user_id_header, Reverse}
use quantsim.Gateway.ClientIp.{Netip}
use quantsim.Gateway.RateLimit.{header, record_status}
use quantsim.Gateway.Logins.{
  idle, Event, arrives, answers, handle, handle_all, guesses, waiting, admit, admit-Passed,
}
use quantsim.Gateway.Logins.Guesses.{arrives-Admitted}

-- "::1"-like short texts stand for addresses: 7 is the proxy's, 8 a client's, and 58 is ":".
abbrev toy_net : Netip ℕ ℕ
toy_net = record {
  parse_addr = λ s. elim s [ [] ↦ none | c ∷ rest ↦ if is_empty rest then some c else none ];
  parse_prefix = λ s. none;
  single = λ a. a;
  contains = λ p a. p == a;
  print = λ a. a ∷ [];
  split_host_port =
      λ s. elim s [ [] ↦ none | c ∷ rest ↦ if is_empty rest then none else some (c ∷ []) ];
}

-- A login of three bytes through the proxy, with a forged address and a forged identity
abbrev posted : Request
posted = record {
  remote_addr = 7 ∷ 58 ∷ 1 ∷ [];
  header =
      ("X-Forwarded-For", 9 ∷ 44 ∷ 8 ∷ [])
      ∷ ("X-User-Id", 66 ∷ [])
      ∷ ("Authorization", 66 ∷ 101 ∷ 97 ∷ 114 ∷ 101 ∷ 114 ∷ 32 ∷ 1 ∷ 0 ∷ 5 ∷ 2 ∷ [])
      ∷ [];
  content_length = none;
  body = some (record { bytes = 1 ∷ 2 ∷ 3 ∷ []; breaks = false });
  user = none;
}

abbrev sent : Stream
sent = record { bytes = 1 ∷ 2 ∷ 3 ∷ []; breaks = false }

limit_body_exact_example :
    ((r' : Request)
      → (limit_body 3 posted ≡ passed r')
        ↔ ((¬ IsOver 3 posted.content_length) × Kept 3 posted posted.body r'))
    × (((limit_body 3 posted ≡ answered 413)
          ↔ (IsOver 3 posted.content_length ⊎ IsLong 3 posted.body))
        × ((limit_body 3 posted ≡ answered 400)
            ↔ ((¬ IsOver 3 posted.content_length) × IsBroken 3 posted.body)))
limit_body_exact_example = limit_body_exact 3 posted

-- A proxy that drops the lines that Connection names, one name for one line.
abbrev named_dropped : List (String × Text) → List (String × Text)
named_dropped lines = if is_empty (get "Connection" lines) then lines else del user_id_header lines

abbrev proxy : Reverse
proxy = record { outgoing = named_dropped; set_forwarded = λ r lines. lines }

abbrev cfg : BackoffConfig
cfg = record { free_failures = 2; base_delay = pos 60; max_delay = pos 900 }

-- Two requests in flight; the later is answered 502, the other had a wrong password.
abbrev history : List Event
history =
    arrives 10 "ann"
    ∷ arrives 11 "bob"
    ∷ answers 0 (header 502 ∷ [])
    ∷ answers 0 (header 401 ∷ [])
    ∷ []

one_guess :
    guesses "ann" (handle_all cfg history idle).verdicts
      + waiting "ann" (handle_all cfg history idle).in_flight
    ≤ 2
unfolding handle_all guesses waiting attempt lookup insert record_status
one_guess = omega arith

arrives-Admitted_example :
    let s = handle_all cfg history idle in
    handle cfg (arrives 12 "ann") s
    ≡ record s { table = (attempt cfg 12 "ann" s.table).1; in_flight = "ann" ∷ s.in_flight }
arrives-Admitted_example = arrives-Admitted cfg history 12 "ann" one_guess

let_through :
    (admit toy.unicode (λ bytes. some bytes) (λ t. "ann") cfg 100 12 posted idle).0 ≡ passed posted
unfolding admit attempt lookup trim_space to_lower
let_through = refl

admit-Passed_example : posted ≡ record posted {
  body = some (record {
    bytes = sent.bytes;
    breaks = (if ltb 100 (length sent.bytes) then sent.breaks else false);
  });
}
admit-Passed_example =
    admit-Passed toy.unicode (λ bytes. some bytes) (λ t. "ann") cfg 100 12 posted posted sent idle
      refl let_through
