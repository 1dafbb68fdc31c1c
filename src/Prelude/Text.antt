-- ===== src/Prelude/Text.antt =====
-- Go's strings as lists of code points, and what the program takes of `strings` and `unicode/utf8`.
-- The Unicode tables of Go's library (upper and lower case, white space, the length of an encoding)
-- are a parameter.
use quantsim.Prelude.{
  ℕ, ◌+◌, ◌≡◌, refl, ap, ◌∙◌, ◌↔◌, Bool, true, false, ◌&&◌, Option, none, some, List, [], ◌∷◌, map,
  ◌++◌, All, Bool-cases, inl, inr, length, ◌≤◌, arith, ◌==◌, if◌then◌else◌,
}
use quantsim.Prelude.Keys.{Eq}

abbrev pub Text : Type 0
Text = List ℕ

unfoldable pub text_eq : Text → Text → Bool
text_eq [] [] = true
text_eq [] (d ∷ t) = false
text_eq (c ∷ s) [] = false
text_eq (c ∷ s) (d ∷ t) = c == d && text_eq s t

pub text_eq_iff : (s t : Text) → (text_eq s t ≡ true) ↔ (s ≡ t)
unfolding text_eq
text_eq_iff [] [] = ground arith
text_eq_iff [] (d ∷ t) = ground arith
text_eq_iff (c ∷ s) [] = ground arith
text_eq_iff (c ∷ s) (d ∷ t) = ground (arith, text_eq_iff s t)

instance abbrev pub text_keys : Eq Text
text_keys = record { beq = text_eq; beq_iff = text_eq_iff }

abbrev pub is_empty : Text → Bool
is_empty [] = true
is_empty (c ∷ s) = false

-- `strings.Split(s, sep)` at a separator of one character
abbrev pub put_first : ℕ → List Text → List Text
put_first c [] = (c ∷ []) ∷ []
put_first c (w ∷ ws) = (c ∷ w) ∷ ws

unfoldable pub split : ℕ → Text → List Text
split sep [] = [] ∷ []
split sep (c ∷ s) = let rest = split sep s in if c == sep then [] ∷ rest else put_first c rest

-- `strings.CutPrefix(s, p)`, `none` where it is no prefix
unfoldable pub cut_prefix : Text → Text → Option Text
cut_prefix s [] = some s
cut_prefix [] (d ∷ p) = none
cut_prefix (c ∷ s) (d ∷ p) = let rest = cut_prefix s p in if c == d then rest else none

pub record Unicode : Type 0 where
  pub upper : ℕ → ℕ
  pub lower : ℕ → ℕ
  pub is_space : ℕ → Bool
  pub width : ℕ → ℕ

module _ (u : Unicode) where
  unfoldable pub trim_left : Text → Text
  trim_left [] = []
  trim_left (c ∷ s) = if u.is_space c then trim_left s else c ∷ s

  unfoldable pub trim_right : Text → Text
  trim_right [] = []
  trim_right (c ∷ s) = let r = trim_right s in if is_empty r && u.is_space c then [] else c ∷ r

  -- `strings.TrimSpace`
  unfoldable pub trim_space : Text → Text
  unfolding trim_left trim_right
  trim_space s = trim_right (trim_left s)

  -- `strings.ToUpper(strings.TrimSpace(s))` and the same with `ToLower`
  unfoldable pub to_upper : Text → Text
  to_upper = map u.upper

  unfoldable pub to_lower : Text → Text
  to_lower = map u.lower

  -- `len(s)`: bytes of UTF-8
  unfoldable pub byte_len : Text → ℕ
  byte_len [] = 0
  byte_len (c ∷ s) = u.width c + byte_len s

length-trim_left : (u : Unicode) (s : Text) → length (trim_left u s) ≤ length s
unfolding trim_left
length-trim_left u [] = omega arith
length-trim_left u (c ∷ s) = ground (arith, length-trim_left u s)

-- What Go's tables say of a case mapping: it neither makes nor removes white space.
pub record IsCaseMap (u : Unicode) (f : ℕ → ℕ) : Type 0 where
  pub space : (c : ℕ) → u.is_space (f c) ≡ u.is_space c

-- White space around a text does not change what trimming leaves of it.
module _ (u : Unicode) where
  trim_left_blank : (after : Text) → All (λ c. u.is_space c ≡ true) after → trim_left u after ≡ []
  unfolding trim_left
  trim_left_blank [] h = refl
  trim_left_blank (c ∷ after) h = rw h.0 (trim_left_blank after h.1)

  trim_left-blank :
      (before s : Text)
      → All (λ c. u.is_space c ≡ true) before
      → trim_left u (before ++ s) ≡ trim_left u s
  unfolding trim_left
  trim_left-blank [] s h = refl
  trim_left-blank (c ∷ before) s h = rw h.0 (trim_left-blank before s h.1)

  trim_right-blank : (after : Text) → All (λ c. u.is_space c ≡ true) after → trim_right u after ≡ []
  unfolding trim_right
  trim_right-blank [] h = refl
  trim_right-blank (c ∷ after) h = rw (trim_right-blank after h.1, h.0) refl

  trim_right-append :
      (s after : Text)
      → All (λ c. u.is_space c ≡ true) after
      → trim_right u (s ++ after) ≡ trim_right u s
  unfolding trim_right
  trim_right-append [] after h = trim_right-blank after h
  trim_right-append (c ∷ s) after h = rw (trim_right-append s after h) refl

  trim_space-append :
      (s after : Text)
      → All (λ c. u.is_space c ≡ true) after
      → trim_right u (trim_left u (s ++ after)) ≡ trim_right u (trim_left u s)
  unfolding trim_left
  trim_space-append [] after h = ap (trim_right u) (trim_left_blank after h)
  trim_space-append (c ∷ s) after h = elim (Bool-cases (u.is_space c)) [
    | inl blank ↦ rw blank (trim_space-append s after h)
    | inr solid ↦ rw solid (trim_right-append (c ∷ s) after h)
  ]

  pub trim_space-padded :
      (before s after : Text)
      → All (λ c. u.is_space c ≡ true) before
      → All (λ c. u.is_space c ≡ true) after
      → trim_space u (before ++ (s ++ after)) ≡ trim_space u s
  unfolding trim_space
  trim_space-padded before s after h h' =
      ap (trim_right u) (trim_left-blank before (s ++ after) h) ∙ trim_space-append s after h'

is_empty-map : (f : ℕ → ℕ) (s : Text) → is_empty (map f s) ≡ is_empty s
is_empty-map f [] = refl
is_empty-map f (c ∷ s) = refl

module _ (u : Unicode) (f : ℕ → ℕ) (m : IsCaseMap u f) where
  trim_left-map : (s : Text) → trim_left u (map f s) ≡ map f (trim_left u s)
  unfolding trim_left
  trim_left-map [] = refl
  trim_left-map (c ∷ s) = ground (arith, m.space c, trim_left-map s)

  trim_right-map : (s : Text) → trim_right u (map f s) ≡ map f (trim_right u s)
  unfolding trim_right
  trim_right-map [] = refl
  trim_right-map (c ∷ s) =
      rw (trim_right-map s) (rw (m.space c) (ground (arith, is_empty-map f (trim_right u s))))

  pub trim_space-map : (s : Text) → trim_space u (map f s) ≡ map f (trim_space u s)
  unfolding trim_space
  trim_space-map s = ap (trim_right u) (trim_left-map s) ∙ trim_right-map (trim_left u s)
