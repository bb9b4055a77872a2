-- ===== src/Webhooks/Columns.antt =====
-- The UPDATE that SQLAlchemy writes for a changed object: only the columns whose assigned value is
-- not the loaded one.
use payment_platform_quality.Prelude.{
  Bool, true, false, Option, none, some, if◌then◌else◌, ◌≡◌, inl, inr, refl, Bool-cases, ℕ, str_eq,
  eq_iff, ◌==◌, eqb_ℤ, eq_of_parts, arith,
}

abbrev pub same_option : {A : Type 0} → (A → A → Bool) → Option A → Option A → Bool
same_option same none none = true
same_option same none (some b) = false
same_option same (some a) none = false
same_option same (some a) (some b) = same a b

-- A column of an UPDATE: it is assigned only where the assigned value is not the loaded one.
abbrev pub column : {A : Type 0} → (A → A → Bool) → A → A → A → A
column same loaded assigned stored = if same loaded assigned then stored else assigned

-- A test that holds of equal values alone.
abbrev pub IsSound : {A : Type 0} → (A → A → Bool) → Type 0
IsSound {A} same = (a b : A) → same a b ≡ true → a ≡ b

-- Over a row that is still as it was loaded, the column is the assigned one.
pub column-loaded :
    {A : Type 0} (same : A → A → Bool) (a b : A) → IsSound same → column same a b a ≡ b
column-loaded same a b sound = elim (Bool-cases (same a b)) [
  | inl s ↦ rw s (sound a b s)
  | inr d ↦ rw d refl
]

pub same_option-IsSound :
    {A : Type 0} (same : A → A → Bool) → IsSound same → IsSound (same_option same)
same_option-IsSound same sound none none h = refl
same_option-IsSound same sound none (some b) h = cc
same_option-IsSound same sound (some a) none h = cc
same_option-IsSound same sound (some a) (some b) h = rw (sound a b h) refl

pub eqb_ℤ-IsSound : IsSound eqb_ℤ
eqb_ℤ-IsSound a b h = eq_of_parts a b (ground (arith, h))

pub str_eq-IsSound : IsSound str_eq
str_eq-IsSound a b h = (eq_iff a b).0 h

pub time-IsSound : IsSound {A = ℕ} (λ a b. a == b)
time-IsSound a b h = ground (arith, h)
