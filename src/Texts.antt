-- ===== src/Texts.antt =====
-- Python's `str.split` on one separator, `len` and `isascii`, on texts by their characters. A
-- separator is given by its code point.
use Prim.Native.Char.{Char, code}
use payment_platform_quality.Prelude.{
  ℕ, suc, Bool, true, not, ◌&&◌, Option, none, some, List, [], ◌∷◌, String, ◌≡◌, refl, arith, ltb,
  ◌==◌, if◌then◌else◌,
}

-- `a + b` on texts
abbrev pub append : String → String → String
append String.[] t = t
append (String.◌∷◌ c s) t = String.◌∷◌ c (append s t)

abbrev pub text_length : String → ℕ
text_length String.[] = 0
text_length (String.◌∷◌ c s) = suc (text_length s)

abbrev pub is_ascii : String → Bool
is_ascii String.[] = true
is_ascii (String.◌∷◌ c s) = ltb (code c) 128 && is_ascii s

-- The separator does not occur.
abbrev pub lacks : ℕ → String → Bool
lacks sep String.[] = true
lacks sep (String.◌∷◌ c s) = not (code c == sep) && lacks sep s

-- A character more in the first part.
abbrev pub extend : Char → List String → List String
extend c [] = String.◌∷◌ c String.[] ∷ []
extend c (p ∷ ps) = String.◌∷◌ c p ∷ ps

-- `s.split(sep)`
unfoldable pub split : ℕ → String → List String
split sep String.[] = String.[] ∷ []
split sep (String.◌∷◌ c s) =
    let rest = split sep s in if code c == sep then String.[] ∷ rest else extend c rest

abbrev pub extend_first : Char → Option (String × String) → Option (String × String)
extend_first c none = none
extend_first c (some (p, rest)) = some (String.◌∷◌ c p, rest)

-- `s.split(sep, 1)` where the separator occurs
unfoldable pub cut_at : ℕ → String → Option (String × String)
cut_at sep String.[] = none
cut_at sep (String.◌∷◌ c s) =
    let rest = cut_at sep s in if code c == sep then some (String.[], s) else extend_first c rest

module _ (sep : ℕ) where
  pub split-lacks : (p : String) → lacks sep p ≡ true → split sep p ≡ p ∷ []
  unfolding split
  split-lacks String.[] h = refl
  split-lacks (String.◌∷◌ c p) h = ground (arith, split-lacks p)

  pub split-append :
      (p s : String) (c : Char)
      → code c ≡ sep
      → lacks sep p ≡ true
      → split sep (append p (String.◌∷◌ c s)) ≡ p ∷ split sep s
  unfolding split
  split-append String.[] s c e h = ground arith
  split-append (String.◌∷◌ d p) s c e h = ground (arith, split-append p s c e)

  pub cut_at-append :
      (p s : String) (c : Char)
      → code c ≡ sep
      → lacks sep p ≡ true
      → cut_at sep (append p (String.◌∷◌ c s)) ≡ some (p, s)
  unfolding cut_at
  cut_at-append String.[] s c e h = ground arith
  cut_at-append (String.◌∷◌ d p) s c e h = ground (arith, cut_at-append p s c e)

pub lacks-append :
    (sep : ℕ) (p q : String)
    → lacks sep p ≡ true
    → lacks sep q ≡ true
    → lacks sep (append p q) ≡ true
lacks-append sep String.[] q h k = k
lacks-append sep (String.◌∷◌ c p) q h k = ground (arith, lacks-append sep p q)

pub append_assoc : (p q r : String) → append (append p q) r ≡ append p (append q r)
append_assoc String.[] q r = refl
append_assoc (String.◌∷◌ c p) q r = rw (append_assoc p q r) refl
