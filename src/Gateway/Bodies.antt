-- ===== src/Gateway/Bodies.antt =====
-- The cap on a body and its buffering (services/gateway/internal/middleware/bodylimit.go).
use quantsim.Prelude.{
  ℕ, ◌≤◌, ◌<◌, ◌≡◌, refl, ◌↔◌, ◌⊎◌, inl, inr, Bool, Bool-cases, true, false, Option, none, some,
  List, ltb, length, arith, if◌then◌else◌,
}
use quantsim.Gateway.Http.{Stream, Request, Outcome, answered, passed}

abbrev pub max_body_bytes : ℕ
max_body_bytes = 65_536

-- What `io.ReadAll` makes of a body behind `MaxBytesReader`
pub data Reading : Type 0 where
  whole : List ℕ → Reading
  over_limit : Reading
  broken : Reading

unfoldable pub read_all : ℕ → Stream → Reading
read_all limit s =
    if ltb limit (length s.bytes) then over_limit else if s.breaks then broken else whole s.bytes

-- The declared length is over the limit; an unknown length is not.
abbrev pub declared_over : ℕ → Option ℕ → Bool
declared_over limit none = false
declared_over limit (some n) = ltb limit n

-- `BufferBody` on the body that `LimitBody` has put behind its reader. `none` is a nil body;
-- `http.NoBody` is the stream of no bytes, which is no longer `http.NoBody` behind that reader, so
-- that it is read and buffered as any other.
unfoldable pub buffer_body : ℕ → Request → Outcome
unfolding read_all
buffer_body limit r = elim (r.body) [
  | none ↦ passed r
  | some s ↦ elim (read_all limit s) [
    | over_limit ↦ answered 413
    | broken ↦ answered 400
    | whole bytes ↦ passed (record r {
      body = some (record { bytes = bytes; breaks = false });
      content_length = some (length bytes);
    })
  ]
]

-- `LimitBody` around it
unfoldable pub limit_body : ℕ → Request → Outcome
unfolding buffer_body
limit_body limit r =
    if declared_over limit r.content_length then answered 413 else buffer_body limit r

-- The request with its body in memory
abbrev pub buffered : Request → Stream → Request
buffered r s = record r {
  body = some (record { bytes = s.bytes; breaks = false });
  content_length = some (length s.bytes);
}

-- Behind the limit on the declared length, what is passed on for a request: itself without a body, and
-- else its buffered form, for a body that ends within the limit.
abbrev pub Kept : ℕ → Request → Option Stream → Request → Type 0
Kept limit r none r' = r ≡ r'
Kept limit r (some s) r' = (s.breaks ≡ false) × ((length s.bytes ≤ limit) × (buffered r s ≡ r'))

abbrev pub IsLong : ℕ → Option Stream → Type 0
IsLong limit none = ⊥
IsLong limit (some s) = limit < length s.bytes

abbrev pub IsBroken : ℕ → Option Stream → Type 0
IsBroken limit none = ⊥
IsBroken limit (some s) = (length s.bytes ≤ limit) × (s.breaks ≡ true)

-- The length that is declared, if one is, is over the limit.
abbrev pub IsOver : ℕ → Option ℕ → Type 0
IsOver limit none = ⊥
IsOver limit (some n) = limit < n

IsOver-cases :
    (limit : ℕ) (o : Option ℕ)
    → (IsOver limit o × (declared_over limit o ≡ true))
      ⊎ ((¬ IsOver limit o) × (declared_over limit o ≡ false))
IsOver-cases limit none = inr (λ h. h, refl)
IsOver-cases limit (some n) = elim (Bool-cases (ltb limit n)) [
  | inl over ↦ inl (ground arith, over)
  | inr under ↦ inr (λ h. ground (arith, h), under)
]

buffer_body_exact :
    (limit : ℕ) (r : Request) (o : Option Stream)
    → r.body ≡ o
    → ((r' : Request) → (buffer_body limit r ≡ passed r') ↔ Kept limit r o r')
      × (((buffer_body limit r ≡ answered 413) ↔ IsLong limit o)
          × ((buffer_body limit r ≡ answered 400) ↔ IsBroken limit o))
unfolding buffer_body read_all
buffer_body_exact limit r none e = (λ r'. ground arith, (ground arith, ground arith))
buffer_body_exact limit r (some s) e = (λ r'. ground arith, (ground arith, ground arith))

-- What becomes of every request. It is answered 413 exactly when the length that it declares is over
-- the limit or it has more bytes than the limit; else 400 exactly when its body breaks off; and else
-- it is passed on: with a body byte for byte, from memory and under its true length, so that no
-- backend waits for the client, and as it is where its Body is nil.
pub limit_body_exact :
    (limit : ℕ) (r : Request)
    → ((r' : Request)
        → (limit_body limit r ≡ passed r')
          ↔ ((¬ IsOver limit r.content_length) × Kept limit r r.body r'))
      × (((limit_body limit r ≡ answered 413)
            ↔ (IsOver limit r.content_length ⊎ IsLong limit r.body))
          × ((limit_body limit r ≡ answered 400)
              ↔ ((¬ IsOver limit r.content_length) × IsBroken limit r.body)))
unfolding limit_body
limit_body_exact limit r =
    let (kept, (long, cut)) = buffer_body_exact limit r r.body refl in
    elim (IsOver-cases limit r.content_length) [
      | inl (over, test) ↦ rw test (
        λ r'. (λ e. cc e, λ h. absurd (h.0 over)),
        ((λ e. inl over, λ h. refl), (λ e. absurd (ground arith), λ h. absurd (h.0 over))),
      )
      | inr (under, test) ↦ rw test (
        λ r'. (λ e. (under, (kept r').0 e), λ h. (kept r').1 h.1),
        (
          (
            λ e. inr (long.0 e),
            λ h. elim h [ inl over ↦ absurd (under over) | inr more ↦ long.1 more ],
          ),
          (λ e. (under, cut.0 e), λ h. cut.1 h.1),
        ),
      )
    ]
