-- ===== src/Auth/Blocklist.antt =====
-- The passwords that are too weak whatever their length
-- (services/auth/internal/service/blocklist.go). The embedded file is an argument.
pub mod Weak
use quantsim.Prelude.{
  ℕ, ◌≤◌, Bool, true, false, ◌||◌, ◌&&◌, Option, none, some, List, [], ◌∷◌, ◌++◌, if◌then◌else◌,
  ltb, leb, ◌==◌, length, not,
}
use quantsim.Prelude.Int.{ℤ, pos, negsuc, sub_ℕ}
use quantsim.Prelude.Text.{Text, Unicode, text_eq, is_empty, trim_space, to_lower, split}
use quantsim.Auth.Types.{Rule, password_common, password_contextual, password_trivial}

-- `strings.HasPrefix(s, p)`
has_prefix : Text → Text → Bool
has_prefix s [] = true
has_prefix [] (d ∷ p) = false
has_prefix (c ∷ s) (d ∷ p) = c == d && has_prefix s p

-- `strings.Contains(s, t)`
contains : Text → Text → Bool
unfolding has_prefix
contains [] t = has_prefix [] t
contains (c ∷ s) t = let rest = contains s t in if has_prefix (c ∷ s) t then true else rest

-- `continue` in the loop of `parseBlocklist`: an empty line or a comment
skipped : Text → Bool
unfolding has_prefix
skipped entry = is_empty entry || has_prefix entry (35 ∷ [])

module _ (u : Unicode) where
  entries_of : List Text → List Text
  unfolding skipped
  entries_of [] = []
  entries_of (line ∷ ls) =
      let entry = to_lower u (trim_space u line) in
      let rest = entries_of ls in if skipped entry then rest else entry ∷ rest

  -- The set is the list of its members.
  pub parse_blocklist : Text → List Text
  unfolding entries_of
  parse_blocklist raw = entries_of (split 10 raw)

-- "quantsim" and "trading"
abbrev pub service_terms : List Text
service_terms =
    (113 ∷ 117 ∷ 97 ∷ 110 ∷ 116 ∷ 115 ∷ 105 ∷ 109 ∷ [])
    ∷ (116 ∷ 114 ∷ 97 ∷ 100 ∷ 105 ∷ 110 ∷ 103 ∷ [])
    ∷ []

abbrev pub min_context_term : ℕ
min_context_term = 3

-- What stands before the last "@" (64), and `none` where there is none.
pub before_last_at : Text → Option Text
before_last_at [] = none
before_last_at (c ∷ s) = elim (before_last_at s) [
  | some pre ↦ some (c ∷ pre)
  | none ↦ if c == 64 then some [] else none
]

-- An "@" in front of everything gives "" as well: the branch `at > 0` yields a prefix that is not
-- empty.
pub email_local_part : Text → Text
unfolding before_last_at
email_local_part email = elim (before_last_at email) [ some pre ↦ pre | none ↦ [] ]

-- The loop of `contextTerms` over the candidates
pub long_terms : List Text → List Text
long_terms [] = []
long_terms (candidate ∷ cs) =
    let rest = long_terms cs in
    if leb min_context_term (length candidate) then candidate ∷ rest else rest

pub context_terms : Text → Text → List Text
unfolding long_terms email_local_part
context_terms email username = service_terms ++ long_terms (username ∷ email_local_part email ∷ [])

-- The loop of `isRepeatedRune` over `runes[1:]`
all_same : ℕ → Text → Bool
all_same first [] = true
all_same first (r ∷ rs) = let rest = all_same first rs in if not (r == first) then false else rest

pub is_repeated_rune : Text → Bool
unfolding all_same
is_repeated_rune [] = false
is_repeated_rune (r ∷ rs) = all_same r rs

-- `runes[i]-runes[i-1]`: code points, so the difference fits an int32.
abbrev eq_ℤ : ℤ → ℤ → Bool
eq_ℤ (pos a) (pos b) = a == b
eq_ℤ (pos a) (negsuc b) = false
eq_ℤ (negsuc a) (pos b) = false
eq_ℤ (negsuc a) (negsuc b) = a == b

-- The loop of `isSequential` from `runes[i-1]` on
keeps_step : ℤ → ℕ → Text → Bool
keeps_step step previous [] = true
keeps_step step previous (r ∷ rs) =
    let rest = keeps_step step r rs in if not (eq_ℤ (sub_ℕ r previous) step) then false else rest

pub is_sequential : Text → Bool
unfolding keeps_step
is_sequential [] = false
is_sequential (a ∷ []) = false
is_sequential (a ∷ b ∷ rs) =
    let step = sub_ℕ b a in
    if not (eq_ℤ step (pos 1)) && not (eq_ℤ step (negsuc 0)) then false else keeps_step step b rs

-- A look-up in the set
listed : Text → List Text → Bool
listed w [] = false
listed w (entry ∷ es) = text_eq entry w || listed w es

-- The loop over the context terms
any_contained : Text → List Text → Bool
unfolding contains
any_contained s [] = false
any_contained s (term ∷ ts) =
    let rest = any_contained s ts in if contains s term then true else rest

-- `nil` is `none`.
unfoldable pub check_blocklist : Unicode → List Text → Text → Text → Text → Option Rule
unfolding listed any_contained context_terms is_repeated_rune is_sequential
check_blocklist u common password email username =
    let low = to_lower u password in
    if listed low common
    then some password_common
    else if any_contained low (context_terms email username)
    then some password_contextual
    else if is_repeated_rune password || is_sequential password
    then some password_trivial
    else none
