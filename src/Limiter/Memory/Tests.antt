-- ===== src/Limiter/Memory/Tests.antt =====
-- The address counter on a few requests; the hash sends every key to shard 3.
use quantsim.Prelude.{ℕ, ◌≡◌, refl, min, none, List, [], ◌∷◌, String, arith}
use quantsim.Prelude.Int.{pos}
use quantsim.Prelude.Keys.{str_ne}
use quantsim.Prelude.Map.{lookup}
use quantsim.Limiter.Memory.{empty, allow, allow_in}
use quantsim.Limiter.Memory.Shards.{SameCounters, counter_of, allow_refines}
use quantsim.Limiter.Memory.Window.{Event, ask, sweep, passed, asked, budget_exact}

abbrev hash : String → ℕ
hash key = 3

abbrev day : List Event
day =
    ask "10.0.0.1" 2 (pos 60) 100
    ∷ ask "10.0.0.2" 5 (pos 9) 101
    ∷ ask "10.0.0.1" 2 (pos 60) 102
    ∷ sweep 120
    ∷ ask "10.0.0.1" 2 (pos 60) 130
    ∷ []

empty-SameCounters : SameCounters hash empty []
unfolding counter_of
empty-SameCounters key = refl

no_counter : counter_of hash empty "10.0.0.1" ≡ none
unfolding counter_of lookup
no_counter = refl

allow_refines_example :
    let (r, s') = allow hash 100 "10.0.0.1" 2 (pos 60) empty in
    let (r₁, m') = allow_in 100 "10.0.0.1" 2 (pos 60) [] in (r ≡ r₁) × SameCounters hash s' m'
allow_refines_example = allow_refines hash 100 "10.0.0.1" 2 (pos 60) empty [] empty-SameCounters

budget_exact_example : passed hash "10.0.0.1" day empty ≡ min (asked "10.0.0.1" day) 2
budget_exact_example =
    budget_exact hash "10.0.0.1" 2 60 100 day empty (omega arith) (omega arith) (λ i. tt) no_counter
      (
        λ _. (refl, refl, omega arith, omega arith),
        (
          λ e. absurd (str_ne "10.0.0.2" "10.0.0.1" refl e),
          (
            λ _. (refl, refl, omega arith, omega arith),
            (omega arith, (λ _. (refl, refl, omega arith, omega arith), tt)),
          ),
        ),
      )
