-- ===== src/Limiter/Memory/Window.antt =====
-- The budget of one address: what its requests can get through in one window, whatever else the
-- store is doing.
use quantsim.Prelude.{
  ℕ, suc, ◌+◌, ◌≤◌, ◌<◌, ◌≡◌, ◌≢◌, refl, ap, ◌∙◌, min, inl, inr, not, Option, none, some, List, [],
  ◌∷◌, All, arith, String, ◌==◌, if◌then◌else◌, Bool-cases, ltb,
}
use quantsim.Prelude.Int.{ℤ, pos}
use quantsim.Prelude.Keys.{string_keys, str_eq, str_eq_iff}
use quantsim.Prelude.Map.{kept, IsMap, lookup-retain, insert-IsMap, retain-IsMap}
use quantsim.Limiter.Memory.{
  Counter, Shard, Shards, opened, expired, allow, allow_in, allow_known, shard_for, evict_stale,
}
use quantsim.Limiter.Memory.Shards.{outcome, counter_of, allow-outcome, allow_apart}

-- What reaches the store: a request (its key, limit, window and instant), or a sweep.
pub data Event : Type 0 where
  ask : String → ℕ → ℤ → ℕ → Event
  sweep : ℕ → Event

module _ (sum32 : String → ℕ) where
  after_event : Event → Shards → Shards
  after_event (ask key limit window now) s = (allow sum32 now key limit window s).1
  after_event (sweep now) s = evict_stale now s

  -- 1 if the event is a request of this key that is let through.
  passes : String → Event → Shards → ℕ
  passes key (ask k limit window now) s =
      if str_eq k key then (if (allow sum32 now k limit window s).0.is_allowed then 1 else 0) else 0
  passes key (sweep now) s = 0

  pub passed : String → List Event → Shards → ℕ
  unfolding after_event passes
  passed key [] s = 0
  passed key (v ∷ vs) s = passes key v s + passed key vs (after_event v s)

asks : String → Event → ℕ
asks key (ask k limit window now) = if str_eq k key then 1 else 0
asks key (sweep now) = 0

pub asked : String → List Event → ℕ
unfolding asks
asked key [] = 0
asked key (v ∷ vs) = asks key v + asked key vs

-- The requests of the key use one limit and window, and arrive, like every sweep, before the window
-- that opens at `t` ends. Those of other keys are arbitrary.
abbrev pub OnBudget : String → ℕ → ℕ → ℕ → Event → Type 0
OnBudget key limit w t (ask k l window now) =
    k ≡ key → (l ≡ limit) × (window ≡ pos w) × (t ≤ now) × (now < t + w)
OnBudget key limit w t (sweep now) = now < t + w

allow_in-IsMap :
    (now : ℕ) (key : String) (limit : ℕ) (window : ℤ) (m : Shard)
    → IsMap m
    → IsMap (allow_in now key limit window m).1
unfolding allow_in allow_known
allow_in-IsMap now key limit window m u = grind (
  arith,
  insert-IsMap key (opened now window) m u,
  λ (c : Counter). insert-IsMap key (record c { count = c.count + 1 }) m u,
)

-- Every shard lists a key once.
abbrev pub IsTable : Shards → Type 0
IsTable s = (i : ℕ) → IsMap (s i)

pub allow-IsTable :
    (sum32 : String → ℕ) (now : ℕ) (key : String) (limit : ℕ) (window : ℤ) (s : Shards)
    → IsTable s
    → IsTable (allow sum32 now key limit window s).1
unfolding allow
allow-IsTable sum32 now key limit window s u i =
    let own =
      allow_in-IsMap now key limit window (s (shard_for sum32 key)) (u (shard_for sum32 key)) in
    elim (Bool-cases (i == shard_for sum32 key)) [
      | inl same ↦ rw same own
      | inr apart ↦ rw apart (u i)
    ]

after_event-IsTable :
    (sum32 : String → ℕ) (v : Event) (s : Shards) → IsTable s → IsTable (after_event sum32 v s)
unfolding after_event evict_stale
after_event-IsTable sum32 (ask k limit window now) s u i =
    allow-IsTable sum32 now k limit window s u i
after_event-IsTable sum32 (sweep now) s u i = retain-IsMap (λ c. not (expired c now)) (s i) (u i)

module _ (sum32 : String → ℕ) (key : String) (limit w t : ℕ) (pl : 0 < limit) (pw : 0 < w) where
  -- n requests of the key have passed in this window.
  abbrev Spent : ℕ → Option Counter → Type 0
  Spent n none = n ≡ 0
  Spent n (some c) =
      (0 < n) × (c.count ≡ n) × (c.window ≡ pos w) × (t ≤ c.window_start) × (c.window_start < t + w)

  Spent-step :
      (n now : ℕ) (o : Option Counter)
      → n ≤ limit
      → Spent n o
      → t ≤ now
      → now < t + w
      → ((outcome now limit (pos w) o).0.is_allowed ≡ ltb n limit)
        × Spent (if ltb n limit then suc n else n) (outcome now limit (pos w) o).1
  Spent-step n now none le c l h = ground arith
  Spent-step n now (some a) le c l h = ground arith

  Spent-kept :
      (n now : ℕ) (o : Option Counter)
      → Spent n o
      → now < t + w
      → Spent n (kept (λ c. not (expired c now)) o)
  unfolding expired
  Spent-kept n now none c h = c
  Spent-kept n now (some a) c h = ground arith

  swept_step :
      (n now : ℕ) (s : Shards)
      → IsTable s
      → Spent n (counter_of sum32 s key)
      → now < t + w
      → Spent n (counter_of sum32 (evict_stale now s) key)
  unfolding counter_of evict_stale
  swept_step n now s u c h =
      rw
        (lookup-retain key (λ a. not (expired a now)) (s (shard_for sum32 key))
          (u (shard_for sum32 key)))
        (Spent-kept n now (counter_of sum32 s key) c h)

  own_step :
      (n now : ℕ) (s : Shards)
      → n ≤ limit
      → Spent n (counter_of sum32 s key)
      → t ≤ now
      → now < t + w
      → let (r, s') = allow sum32 now key limit (pos w) s in
        (n + (if r.is_allowed then 1 else 0) ≡ min (n + 1) limit)
        × Spent (min (n + 1) limit) (counter_of sum32 s' key)
  own_step n now s le c l h =
      let step = allow-outcome sum32 now key limit (pos w) s in
      let (answer, next) = Spent-step n now (counter_of sum32 s key) le c l h in
      let entry = ap (λ p. p.1) step in
      let count : (if ltb n limit then suc n else n) ≡ min (n + 1) limit = ground arith in
      (rw (ap (λ p. p.0.is_allowed) step ∙ answer) (ground arith), rw entry (rw count at next))

  -- The counter of the key after one event, and whether the event got through.
  event_step :
      (n : ℕ) (v : Event) (s : Shards)
      → n ≤ limit
      → IsTable s
      → Spent n (counter_of sum32 s key)
      → OnBudget key limit w t v
      → let n' = min (n + asks key v) limit in
        (n + passes sum32 key v s ≡ n') × Spent n' (counter_of sum32 (after_event sum32 v s) key)
  unfolding asks passes after_event
  event_step n (sweep now) s le u c within =
      let same : min (n + 0) limit ≡ n = omega arith in
      (omega arith, rw same (swept_step n now s u c within))
  event_step n (ask k l window now) s le u c within = elim (Bool-cases (str_eq k key)) [
    | inl own ↦
        let e : k ≡ key = (str_eq_iff k key).0 own in
        let (el, ew, tl, th) = within e in
        rw own (rw e (rw el (rw ew (own_step n now s le c tl th))))
    | inr other ↦
        let ne : k ≢ key = λ e. cc ((str_eq_iff k key).1 e) in
        let same : min (n + 0) limit ≡ n = omega arith in
        rw other (omega arith, rw same (rw (allow_apart sum32 now k key l window s ne) c))
  ]

  passed_from :
      (n : ℕ) (vs : List Event) (s : Shards)
      → n ≤ limit
      → IsTable s
      → Spent n (counter_of sum32 s key)
      → All (OnBudget key limit w t) vs
      → n + passed sum32 key vs s ≡ min (n + asked key vs) limit
  unfolding passed asked
  passed_from n [] s le u c b = omega arith
  passed_from n (v ∷ vs) s le u c (within, rest) =
      let (gone, next) = event_step n v s le u c within in
      let n' = min (n + asks key v) limit in
      let s' = after_event sum32 v s in
      let ih = passed_from n' vs s' (omega arith) (after_event-IsTable sum32 v s u) next rest in
      omega (arith, gone, ih)

-- The budget is exact: of the requests of an address without a counter that arrive within one window
-- of the first, exactly the first `limit` get through, however they interleave with the requests of
-- other addresses and with sweeps, and whatever shard the hash puts any of them in, for a limit and
-- a window above zero and shards that list a key once.
pub budget_exact :
    (sum32 : String → ℕ) (key : String) (limit w t : ℕ) (vs : List Event) (s : Shards)
    → 0 < limit
    → 0 < w
    → IsTable s
    → counter_of sum32 s key ≡ none
    → All (OnBudget key limit w t) vs
    → passed sum32 key vs s ≡ min (asked key vs) limit
budget_exact sum32 key limit w t vs s pl pw u new b =
    let count = passed_from sum32 key limit w t pl pw 0 vs s (omega arith) u (rw new refl) b in
    omega (arith, count)
