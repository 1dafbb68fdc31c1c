-- ===== src/Limiter/Memory.antt =====
-- The fixed-window counter per client address (services/gateway/internal/limiter/memory.go). The
-- store splits its keys over sixteen maps by a hash, so that a sweep blocks a sixteenth of the
-- traffic; the hash (FNV, of Go's library) is a parameter.
pub mod Window
pub mod Shards
mod Tests
use quantsim.Prelude.{
  ℕ, ◌+◌, ◌%◌, Bool, true, false, not, Option, none, some, String, List, [], ◌∷◌, if◌then◌else◌,
  length, leb, ◌==◌, zero, suc,
}
use quantsim.Prelude.Int.{ℤ, pos, sub_ℕ, ◌-ℤ◌, leb_ℤ}
use quantsim.Prelude.Keys.{string_keys}
use quantsim.Prelude.Map.{Map, lookup, insert, retain}
use quantsim.Limiter.Answer.{Result, allowed, refused}

abbrev pub shard_count : ℕ
shard_count = 16

pub record Counter : Type 0 where
  pub count : ℕ
  pub window_start : ℕ
  pub window : ℤ

-- `shard.entries`, and the array of shards as a function of the index
abbrev pub Shard : Type 0
Shard = Map String Counter

abbrev pub Shards : Type 0
Shards = ℕ → Shard

abbrev pub empty : Shards
empty i = []

abbrev pub since : Counter → ℕ → ℤ
since c now = sub_ℕ now c.window_start

abbrev pub opened : ℕ → ℤ → Counter
opened now window = record { count = 1; window_start = now; window = window }

-- `Allow` on the one shard of the key, after the look-up found a counter.
allow_known : ℕ → String → ℕ → ℤ → Counter → Shard → Result × Shard
allow_known now key limit window c m =
    if leb_ℤ window (since c now)
    then (allowed, insert key (opened now window) m)
    else if leb limit c.count
    then (refused (window -ℤ since c now), m)
    else (allowed, insert key (record c { count = c.count + 1 }) m)

pub allow_in : ℕ → String → ℕ → ℤ → Shard → Result × Shard
unfolding allow_known
allow_in now key limit window m = elim (lookup key m) [
  | none ↦ (allowed, insert key (opened now window) m)
  | some c ↦ allow_known now key limit window c m
]

module _ (sum32 : String → ℕ) where
  pub shard_for : String → ℕ
  shard_for key = sum32 key % shard_count

  -- `Allow`: only the key's own shard is written.
  pub allow : ℕ → String → ℕ → ℤ → Shards → Result × Shards
  unfolding shard_for
  allow now key limit window s =
      let (r, m) = allow_in now key limit window (s (shard_for key)) in
      (r, λ i. if i == shard_for key then m else s i)

-- `EvictStale`: each shard in turn.
pub expired : Counter → ℕ → Bool
expired c now = leb_ℤ c.window (since c now)

pub evict_stale : ℕ → Shards → Shards
unfolding expired
evict_stale now s i = retain (λ c. not (expired c now)) (s i)

-- `Len`, over the first n shards.
len_upto : ℕ → Shards → ℕ
len_upto zero s = 0
len_upto (suc n) s = len_upto n s + length (s n)

pub tracked : Shards → ℕ
unfolding len_upto
tracked s = len_upto shard_count s
