-- ===== src/Auth/Blocklist/Weak.antt =====
-- What the blocklist turns away, described without its loops.
use mathlib.Core.Path.{subst}
use quantsim.Prelude.{
  sym, ℕ, ◌+◌, ◌≡◌, ◌↔◌, ◌⊎◌, inl, inr, refl, ap, Bool, true, false, none, List, [], ◌∷◌, ◌++◌, All,
  arith, length, leb, ◌≤◌, some, Option-cases, Bool-cases, if◌then◌else◌,
}
use quantsim.Prelude.Int.{pos, negsuc}
use quantsim.Prelude.Text.{Text, Unicode, text_eq_iff, to_lower}
use quantsim.Auth.Blocklist.{
  has_prefix, contains, all_same, is_repeated_rune, keeps_step, is_sequential, listed,
  any_contained, context_terms, check_blocklist, before_last_at, long_terms, email_local_part,
}

abbrev service_name : Text
service_name = 113 ∷ 117 ∷ 97 ∷ 110 ∷ 116 ∷ 115 ∷ 105 ∷ 109 ∷ []

abbrev trading_word : Text
trading_word = 116 ∷ 114 ∷ 97 ∷ 100 ∷ 105 ∷ 110 ∷ 103 ∷ []

-- `t` stands somewhere in `s`.
pub Contains : Text → Text → Type 0
Contains s t = (pre : Text) × (post : Text) × (pre ++ (t ++ post) ≡ s)

-- One character and nothing else
pub IsRepeated : Text → Type 0
IsRepeated s = (c : ℕ) × All (λ r. r ≡ c) s

-- Each character is related to the next one.
pub Linked : (ℕ → ℕ → Type 0) → Text → Type 0
Linked R [] = Unit
Linked R (a ∷ []) = Unit
Linked R (a ∷ b ∷ s) = R a b × Linked R (b ∷ s)

-- Each character is the successor of the one before, or each is the predecessor.
pub IsRun : Text → Type 0
unfolding Linked
IsRun s = Linked (λ a b. b ≡ a + 1) s ⊎ Linked (λ a b. a ≡ b + 1) s

-- What stands before the last "@" (64) of an address
pub IsLocalPart : Text → Text → Type 0
IsLocalPart email part =
    (domain : Text) × ((part ++ (64 ∷ domain) ≡ email) × All (λ c. ¬ (c ≡ 64)) domain)

-- A password that is on no list, contains neither a name of the service ("quantsim", "trading") nor,
-- from three characters on, the username or the local part of the address, and is no trivial pattern.
pub record IsUnguessable (u : Unicode) (common : List Text) (password email username : Text)
    : Type 0 where
  pub uncommon : All (λ entry. ¬ (entry ≡ to_lower u password)) common
  pub unbranded : ¬ Contains (to_lower u password) service_name
  pub untraded : ¬ Contains (to_lower u password) trading_word
  pub unnamed : 3 ≤ length username → ¬ Contains (to_lower u password) username
  pub unaddressed :
      (part : Text)
      → IsLocalPart email part
      → 3 ≤ length part
      → ¬ Contains (to_lower u password) part
  pub varied : ¬ IsRepeated password
  pub irregular : ¬ IsRun password

has_prefix_iff : (s p : Text) → (has_prefix s p ≡ true) ↔ ((post : Text) × (p ++ post ≡ s))
unfolding has_prefix
has_prefix_iff s [] = (λ e. (s, refl), λ h. refl)
has_prefix_iff [] (d ∷ p) = (λ e. cc e, λ h. cc h.1)
has_prefix_iff (c ∷ s) (d ∷ p) = (
  λ e.
      let (post, q) = (has_prefix_iff s p).0 (ground arith) in
      let same : d ≡ c = ground arith in (post, cc (q, same)),
  λ (post, q).
      let same : d ≡ c = ap (λ w. elim w [ [] ↦ d | x ∷ xs ↦ x ]) q in
      let tails : p ++ post ≡ s = ap (λ w. elim w [ [] ↦ p ++ post | x ∷ xs ↦ xs ]) q in
      ground (arith, same, (has_prefix_iff s p).1 (post, tails)),
)

contains_iff : (s t : Text) → (contains s t ≡ true) ↔ Contains s t
unfolding contains Contains
contains_iff [] t = (
  λ e. let (post, q) = (has_prefix_iff [] t).0 e in ([], post, q),
  λ (pre, post, q).
      elim pre as (λ pre. pre ++ (t ++ post) ≡ [] → has_prefix [] t ≡ true) [
        | [] ↦ λ q. (has_prefix_iff [] t).1 (post, q)
        | x ∷ xs ↦ λ q. cc q
      ]
        q,
)
contains_iff (c ∷ s) t = (
  λ e. elim (Bool-cases (has_prefix (c ∷ s) t)) [
    | inl here ↦ let (post, q) = (has_prefix_iff (c ∷ s) t).0 here in ([], post, q)
    | inr there ↦
        let (pre, post, q) = (contains_iff s t).0 (ground arith) in
        (c ∷ pre, post, ap (λ w. c ∷ w) q)
  ],
  λ (pre, post, q).
      elim pre
          as (λ pre.
            pre ++ (t ++ post) ≡ c ∷ s
            → (if has_prefix (c ∷ s) t then true else contains s t) ≡ true) [
              | [] ↦ λ q. rw ((has_prefix_iff (c ∷ s) t).1 (post, q)) refl
              | x ∷ xs ↦ λ q.
                  let tails : xs ++ (t ++ post) ≡ s =
                    ap (λ w. elim w [ [] ↦ xs ++ (t ++ post) | y ∷ ys ↦ ys ]) q in
                  ground (arith, (contains_iff s t).1 (xs, post, tails))
            ]
        q,
)

all_same_iff : (c : ℕ) (s : Text) → (all_same c s ≡ true) ↔ All (λ r. r ≡ c) s
unfolding all_same
all_same_iff c [] = (λ e. tt, λ h. refl)
all_same_iff c (r ∷ rs) = (
  λ e. (ground arith, (all_same_iff c rs).0 (ground arith)),
  λ h. ground (arith, h.0, (all_same_iff c rs).1 h.1),
)

is_repeated_rune_lem : (c : ℕ) (s : Text) → is_repeated_rune (c ∷ s) ≡ false → ¬ IsRepeated (c ∷ s)
unfolding is_repeated_rune IsRepeated
is_repeated_rune_lem c s e (d, (same, rest)) =
    let all : All (λ r. r ≡ c) s = rw same rest in cc (e, (all_same_iff c s).1 all)

is_repeated_rune_sound : (s : Text) → is_repeated_rune s ≡ true → IsRepeated s
unfolding is_repeated_rune IsRepeated
is_repeated_rune_sound [] e = (0, tt)
is_repeated_rune_sound (c ∷ s) e = (c, (refl, (all_same_iff c s).0 e))

up_iff : (a : ℕ) (s : Text) → (keeps_step (pos 1) a s ≡ true) ↔ Linked (λ a b. b ≡ a + 1) (a ∷ s)
unfolding keeps_step Linked
up_iff a [] = (λ e. tt, λ h. refl)
up_iff a (r ∷ rs) = (
  λ e. (ground arith, (up_iff r rs).0 (ground arith)),
  λ h. ground (arith, h.0, (up_iff r rs).1 h.1),
)

down_iff :
    (a : ℕ) (s : Text) → (keeps_step (negsuc 0) a s ≡ true) ↔ Linked (λ a b. a ≡ b + 1) (a ∷ s)
unfolding keeps_step Linked
down_iff a [] = (λ e. tt, λ h. refl)
down_iff a (r ∷ rs) = (
  λ e. (ground arith, (down_iff r rs).0 (ground arith)),
  λ h. ground (arith, h.0, (down_iff r rs).1 h.1),
)

step_cases :
    (a b : ℕ) (s : Text)
    → is_sequential (a ∷ b ∷ s) ≡ true
    → ((b ≡ a + 1) × (keeps_step (pos 1) b s ≡ true))
      ⊎ ((a ≡ b + 1) × (keeps_step (negsuc 0) b s ≡ true))
unfolding is_sequential
step_cases a b s e = ground arith

-- From two characters on, the code's test is that of an unbroken run.
is_sequential_iff : (a b : ℕ) (s : Text) → (is_sequential (a ∷ b ∷ s) ≡ true) ↔ IsRun (a ∷ b ∷ s)
unfolding is_sequential IsRun Linked
is_sequential_iff a b s = (
  λ e. elim (step_cases a b s e) [
    | inl up ↦ inl (up.0, (up_iff b s).0 up.1)
    | inr down ↦ inr (down.0, (down_iff b s).0 down.1)
  ],
  λ h. elim h [
    | inl up ↦ ground (arith, up.0, (up_iff b s).1 up.1)
    | inr down ↦ ground (arith, down.0, (down_iff b s).1 down.1)
  ],
)

listed_iff : (w : Text) (es : List Text) → (listed w es ≡ false) ↔ All (λ entry. ¬ (entry ≡ w)) es
unfolding listed
listed_iff w [] = (λ e. tt, λ h. refl)
listed_iff w (entry ∷ es) = (
  λ e. (λ same. ground (arith, (text_eq_iff entry w).1 same), (listed_iff w es).0 (ground arith)),
  λ h. ground (arith, h.0, (text_eq_iff entry w).0, (listed_iff w es).1 h.1),
)

any_contained_iff :
    (s : Text) (ts : List Text) → (any_contained s ts ≡ false) ↔ All (λ term. ¬ Contains s term) ts
unfolding any_contained
any_contained_iff s [] = (λ e. tt, λ h. refl)
any_contained_iff s (term ∷ ts) = (
  λ e. (
    λ inside. ground (arith, (contains_iff s term).1 inside),
    (any_contained_iff s ts).0 (ground arith),
  ),
  λ h. ground (arith, h.0, (contains_iff s term).0, (any_contained_iff s ts).1 h.1),
)

-- Going back from the end, the part before the last "@" is found exactly where there is an "@".
before_last_at-none : (s : Text) → before_last_at s ≡ none → All (λ c. ¬ (c ≡ 64)) s
unfolding before_last_at
before_last_at-none [] e = tt
before_last_at-none (c ∷ s) e = elim (Option-cases (before_last_at s)) [
  | inl clear ↦ (λ same. ground arith, before_last_at-none s clear)
  | inr (pre, is) ↦ ground arith
]

before_last_at-clear : (s : Text) → All (λ c. ¬ (c ≡ 64)) s → before_last_at s ≡ none
unfolding before_last_at
before_last_at-clear [] h = refl
before_last_at-clear (c ∷ s) h = rw (before_last_at-clear s h.1) (ground (arith, h.0))

before_last_at-part :
    (part domain : Text)
    → All (λ c. ¬ (c ≡ 64)) domain
    → before_last_at (part ++ (64 ∷ domain)) ≡ some part
unfolding before_last_at
before_last_at-part [] domain h = rw (before_last_at-clear domain h) refl
before_last_at-part (c ∷ part) domain h = rw (before_last_at-part part domain h) refl

before_last_at-some :
    (email part : Text) → before_last_at email ≡ some part → IsLocalPart email part
unfolding before_last_at IsLocalPart
before_last_at-some [] part e = cc e
before_last_at-some (c ∷ s) part e = elim (Option-cases (before_last_at s)) [
  | inl clear ↦
      let at : c ≡ 64 = ground arith in
      let here : part ≡ [] = ground arith in rw here (s, (rw at refl, before_last_at-none s clear))
  | inr (pre, is) ↦
      let (domain, (whole, h)) = before_last_at-some s pre is in
      let here : c ∷ pre ≡ part = ground arith in rw⁻¹ here (domain, (ap (λ w. c ∷ w) whole, h))
]

off : (b : Bool) → ¬ (b ≡ true) → b ≡ false
off true h = absurd (h refl)
off false h = refl

-- A term of the context is one of the service's, or is the name or the local part and is long enough.
long_terms_iff :
    (P : Text → Type 0) (name part : Text)
    → All P (long_terms (name ∷ part ∷ []))
      ↔ ((3 ≤ length name → P name) × (3 ≤ length part → P part))
unfolding long_terms
long_terms_iff P name part = elim (Bool-cases (leb 3 (length name))) [
  | inl one ↦ elim (Bool-cases (leb 3 (length part))) [
    | inl two ↦
        rw (one, two)
          (λ h. (λ l. h.0, λ l. h.1.0), λ h. (h.0 (ground arith), (h.1 (ground arith), tt)))
    | inr short ↦
        rw (one, short)
          (λ h. (λ l. h.0, λ l. absurd (ground (arith, l))), λ h. (h.0 (ground arith), tt))
  ]
  | inr brief ↦ elim (Bool-cases (leb 3 (length part))) [
    | inl two ↦
        rw (brief, two)
          (λ h. (λ l. absurd (ground (arith, l)), λ l. h.0), λ h. (h.1 (ground arith), tt))
    | inr short ↦
        rw (brief, short)
          (λ h. (λ l. absurd (ground (arith, l)), λ l. absurd (ground (arith, l))), λ h. tt)
  ]
]

email_local_part-some :
    (email part : Text) → before_last_at email ≡ some part → email_local_part email ≡ part
unfolding email_local_part
email_local_part-some email part e = rw (e, email_local_part) refl

email_local_part-none : (email : Text) → before_last_at email ≡ none → email_local_part email ≡ []
unfolding email_local_part
email_local_part-none email e = rw (e, email_local_part) refl

-- The part that the code finds is the local part of the address, and "" where there is none.
email_local_part_lem :
    (P : Text → Type 0) (email : Text)
    → (3 ≤ length (email_local_part email) → P (email_local_part email))
      ↔ ((part : Text) → IsLocalPart email part → 3 ≤ length part → P part)
unfolding IsLocalPart
email_local_part_lem P email = (
  λ h part (domain, (whole, clear)) l.
      let found : before_last_at email ≡ some part =
        rw⁻¹ whole (before_last_at-part part domain clear) in
      subst (λ t. 3 ≤ length t → P t) (email_local_part-some email part found) h l,
  λ h. elim (Option-cases (before_last_at email)) [
    | inl nowhere ↦
        subst (λ t. 3 ≤ length t → P t) (sym (email_local_part-none email nowhere))
          (λ l. absurd (omega (arith, l)))
    | inr (part, is) ↦
        subst (λ t. 3 ≤ length t → P t) (sym (email_local_part-some email part is))
          (h part (before_last_at-some email part is))
  ],
)

context_terms_iff :
    (P : Text → Type 0) (email username : Text)
    → All P (context_terms email username) ↔ (
        P service_name
        × (P trading_word
            × ((3 ≤ length username → P username)
                × ((part : Text) → IsLocalPart email part → 3 ≤ length part → P part))))
unfolding context_terms
context_terms_iff P email username =
    let long = long_terms_iff P username (email_local_part email) in
    let part = email_local_part_lem P email in
    (
      λ h. (h.0, (h.1.0, ((long.0 h.1.1).0, part.0 (long.0 h.1.1).1))),
      λ h. (h.0, (h.1.0, long.1 (h.1.1.0, part.1 h.1.1.1))),
    )

-- The checks let through exactly what is hard to guess, from two characters on.
pub check_blocklist_iff :
    (u : Unicode) (common : List Text) (a b : ℕ) (s email username : Text)
    → (check_blocklist u common (a ∷ b ∷ s) email username ≡ none)
      ↔ IsUnguessable u common (a ∷ b ∷ s) email username
unfolding check_blocklist
check_blocklist_iff u common a b s email username =
    let low = to_lower u (a ∷ b ∷ s) in
    let apart = any_contained_iff low (context_terms email username) in
    let related = context_terms_iff (λ term. ¬ Contains low term) email username in
    (
      λ e. record {
        uncommon = (listed_iff low common).0 (ground arith);
        unbranded = (related.0 (apart.0 (ground arith))).0;
        untraded = (related.0 (apart.0 (ground arith))).1.0;
        unnamed = (related.0 (apart.0 (ground arith))).1.1.0;
        unaddressed = (related.0 (apart.0 (ground arith))).1.1.1;
        varied = is_repeated_rune_lem a (b ∷ s) (ground arith);
        irregular = λ run. ground (arith, (is_sequential_iff a b s).1 run);
      },
      λ h.
          let one = (listed_iff low common).1 h.uncommon in
          let two = apart.1 (related.1 (h.unbranded, (h.untraded, (h.unnamed, h.unaddressed)))) in
          let three : is_repeated_rune (a ∷ b ∷ s) ≡ false =
            off _ (λ same. h.varied (is_repeated_rune_sound (a ∷ b ∷ s) same)) in
          let four : is_sequential (a ∷ b ∷ s) ≡ false =
            off _ (λ run. h.irregular ((is_sequential_iff a b s).0 run)) in
          ground (arith, one, two, three, four),
    )
