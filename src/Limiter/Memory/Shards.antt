-- ===== src/Limiter/Memory/Shards.antt =====
-- The sixteen shards behave as one map: what a call reads and writes is its own key's counter.
use mathlib.Core.Path.{subst}
use quantsim.Prelude.{
  ℕ, ◌+◌, ◌≡◌, ◌≢◌, sym, ap, ◌∙◌, inl, inr, true, Option, none, some, arith, String, ◌==◌, ==_iff,
  if◌then◌else◌, Option-cases, Bool-cases, leb,
}
use quantsim.Prelude.Int.{ℤ, ◌-ℤ◌, leb_ℤ}
use quantsim.Prelude.Keys.{string_keys, str_eq, str_eq_iff, beq_ne}
use quantsim.Prelude.Map.{lookup, insert, lookup-insert, lookup-insert_self}
use quantsim.Limiter.Answer.{Result, allowed, refused}
use quantsim.Limiter.Memory.{
  Counter, Shard, Shards, since, opened, allow_known, allow_in, allow, shard_for,
}

-- What a call does to its own key, read from the key's counter alone.
abbrev pub outcome : ℕ → ℕ → ℤ → Option Counter → Result × Option Counter
outcome now limit window none = (allowed, some (opened now window))
outcome now limit window (some c) =
    if leb_ℤ window (since c now)
    then (allowed, some (opened now window))
    else if leb limit c.count
    then (refused (window -ℤ since c now), some c)
    else (allowed, some (record c { count = c.count + 1 }))

known-outcome :
    (now : ℕ) (key : String) (limit : ℕ) (window : ℤ) (c : Counter) (m : Shard)
    → lookup key m ≡ some c
    → let (r, m') = allow_known now key limit window c m in
      ◌≡◌ {A = Result × Option Counter} (r, lookup key m') (outcome now limit window (some c))
unfolding allow_known
known-outcome now key limit window c m e = ground (
  arith,
  lookup-insert_self key (opened now window) m,
  lookup-insert_self key (record c { count = c.count + 1 }) m,
)

pub allow_in-outcome :
    (now : ℕ) (key : String) (limit : ℕ) (window : ℤ) (m : Shard)
    → let (r, m') = allow_in now key limit window m in
      ◌≡◌ {A = Result × Option Counter} (r, lookup key m') (outcome now limit window (lookup key m))
unfolding allow_in
allow_in-outcome now key limit window m = elim (Option-cases (lookup key m)) [
  | inl e ↦ rw (e, allow_in) (λ i. (allowed, lookup-insert_self key (opened now window) m i))
  | inr (c, e) ↦ rw (e, allow_in) (known-outcome now key limit window c m e)
]

insert_apart :
    (key other : String) (c : Counter) (m : Shard)
    → key ≢ other
    → lookup other (insert key c m) ≡ lookup other m
insert_apart key other c m ne = rw lookup-insert (rw (beq_ne key other ne))

allow_in_apart :
    (now : ℕ) (key other : String) (limit : ℕ) (window : ℤ) (m : Shard)
    → key ≢ other
    → lookup other (allow_in now key limit window m).1 ≡ lookup other m
unfolding allow_in allow_known
allow_in_apart now key other limit window m ne = elim (Option-cases (lookup key m)) [
  | inl e ↦ rw (e, allow_in) (insert_apart key other (opened now window) m ne)
  | inr (c, e) ↦
      rw (e, allow_in)
        (ground (
          arith,
          insert_apart key other (opened now window) m ne,
          insert_apart key other (record c { count = c.count + 1 }) m ne,
        ))
]

module _ (sum32 : String → ℕ) where
  -- The counter of a key, in the shard where the hash puts it.
  unfoldable pub counter_of : Shards → String → Option Counter
  counter_of s key = lookup key (s (shard_for sum32 key))

  pub allow-outcome :
      (now : ℕ) (key : String) (limit : ℕ) (window : ℤ) (s : Shards)
      → let (r, s') = allow sum32 now key limit window s in
        ◌≡◌ {A = Result × Option Counter}
          (r, counter_of s' key)
          (outcome now limit window (counter_of s key))
  unfolding allow counter_of
  allow-outcome now key limit window s =
      let own : (shard_for sum32 key == shard_for sum32 key) ≡ true = ground arith in
      rw own (allow_in-outcome now key limit window (s (shard_for sum32 key)))

  pub allow_apart :
      (now : ℕ) (key other : String) (limit : ℕ) (window : ℤ) (s : Shards)
      → key ≢ other
      → counter_of (allow sum32 now key limit window s).1 other ≡ counter_of s other
  unfolding allow counter_of
  allow_apart now key other limit window s ne =
      elim (Bool-cases (shard_for sum32 other == shard_for sum32 key)) [
        | inl same ↦
            let e : shard_for sum32 other ≡ shard_for sum32 key = (==_iff _ _).0 same in
            rw same (rw e (allow_in_apart now key other limit window (s (shard_for sum32 key)) ne))
        | inr apart ↦ rw apart
      ]

  -- A single map with the same counters.
  abbrev pub SameCounters : Shards → Shard → Type 0
  SameCounters s m = (key : String) → counter_of s key ≡ lookup key m

  -- Splitting the keys over shards changes nothing, whatever the hash: against a store with one
  -- map that has the same counters, a call gives the same answer and leaves the same counters.
  pub allow_refines :
      (now : ℕ) (key : String) (limit : ℕ) (window : ℤ) (s : Shards) (m : Shard)
      → SameCounters s m
      → let (r, s') = allow sum32 now key limit window s in
        let (r₁, m') = allow_in now key limit window m in (r ≡ r₁) × SameCounters s' m'
  allow_refines now key limit window s m same =
      let sharded = allow-outcome now key limit window s in
      let single = allow_in-outcome now key limit window m in
      let both = sharded ∙ ap (outcome now limit window) (same key) ∙ sym single in
      (
        ap (λ p. p.0) both,
        λ other. elim (Bool-cases (str_eq key other)) [
          | inl own ↦
              let e : key ≡ other = (str_eq_iff key other).0 own in
              subst
                (λ k.
                  counter_of (allow sum32 now key limit window s).1 k
                  ≡ lookup k (allow_in now key limit window m).1)
                e (ap (λ p. p.1) both)
          | inr apart ↦
              let ne : key ≢ other = λ e. cc ((str_eq_iff key other).1 e) in
              allow_apart now key other limit window s ne
              ∙ same other
              ∙ sym (allow_in_apart now key other limit window m ne)
        ],
      )
