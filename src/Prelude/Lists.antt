-- ===== src/Prelude/Lists.antt =====
-- Lists measured by native numbers, and the list functions that the components share.
use Prim.Native.Nat.{ℕ, zero, suc, ◌+◌, ◌≤◌}
use mathlib.Core.Bool.{Bool, true, ◌&&◌}
use mathlib.Core.List.{List, [], ◌∷◌}
use native.Mathlib.Omega.{arith}
use mathlib.Core.Path.{◌≡◌}
use mathlib.Core.Logic.{inl, inr}
use payment_platform_quality.Prelude.Tests.{if◌then◌else◌, Bool-cases}

module _ {ℓ} {A : Type ℓ} where
  abbrev pub length : List A → ℕ
  length [] = 0
  length (x ∷ xs) = suc (length xs)

  abbrev pub take : ℕ → List A → List A
  take zero xs = []
  take (suc n) [] = []
  take (suc n) (x ∷ xs) = x ∷ take n xs

  -- `[x for x in xs if keep(x)]`
  abbrev pub select : (A → Bool) → List A → List A
  select keep [] = []
  select keep (x ∷ xs) = let rest = select keep xs in if keep x then x ∷ rest else rest

  abbrev pub all_true : (A → Bool) → List A → Bool
  all_true test [] = true
  all_true test (x ∷ xs) = test x && all_true test xs

  -- `sum(test(x) for x in xs)`
  abbrev pub count_true : (A → Bool) → List A → ℕ
  count_true test [] = 0
  count_true test (x ∷ xs) = (if test x then 1 else 0) + count_true test xs

  -- A predicate of every element, as a tuple.
  abbrev pub All {κ} : (A → Type κ) → List A → Type κ
  All P [] = Unit
  All P (x ∷ xs) = P x × All P xs

  pub length-take_le : (n : ℕ) (xs : List A) → length (take n xs) ≤ n
  length-take_le zero xs = omega arith
  length-take_le (suc n) [] = omega arith
  length-take_le (suc n) (x ∷ xs) = omega (arith, length-take_le n xs)

-- `ORDER BY` and `sorted`: a stable insertion sort by a test of order.
module _ {ℓ} {A : Type ℓ} (before_or_same : A → A → Bool) where
  abbrev pub insert_sorted : A → List A → List A
  insert_sorted a [] = a ∷ []
  insert_sorted a (b ∷ xs) =
      let rest = insert_sorted a xs in if before_or_same a b then a ∷ b ∷ xs else b ∷ rest

  unfoldable pub sort_by : List A → List A
  sort_by [] = []
  sort_by (a ∷ xs) = insert_sorted a (sort_by xs)

-- What holds of every row holds of the rows of a query.
module _ {ℓ κ} {A : Type ℓ} (P : A → Type κ) where
  pub All-select :
      (keep : A → Bool) (xs : List A) → All P xs → All (λ a. P a × (keep a ≡ true)) (select keep xs)
  All-select keep [] h = tt
  All-select keep (x ∷ xs) h = elim (Bool-cases (keep x)) [
    | inl kept ↦ rw kept ((h.0, kept), All-select keep xs h.1)
    | inr left ↦ rw left (All-select keep xs h.1)
  ]

  pub All-insert_sorted :
      (before_or_same : A → A → Bool) (a : A) (xs : List A)
      → P a
      → All P xs
      → All P (insert_sorted before_or_same a xs)
  All-insert_sorted before_or_same a [] h hs = (h, tt)
  All-insert_sorted before_or_same a (b ∷ xs) h hs = elim (Bool-cases (before_or_same a b)) [
    | inl first ↦ rw first (h, hs)
    | inr later ↦ rw later (hs.0, All-insert_sorted before_or_same a xs h hs.1)
  ]

  pub All-sort_by :
      (before_or_same : A → A → Bool) (xs : List A) → All P xs → All P (sort_by before_or_same xs)
  unfolding sort_by
  All-sort_by before_or_same [] h = tt
  All-sort_by before_or_same (a ∷ xs) h =
      All-insert_sorted before_or_same a (sort_by before_or_same xs) h.0
        (All-sort_by before_or_same xs h.1)

  pub All-take : (n : ℕ) (xs : List A) → All P xs → All P (take n xs)
  All-take zero xs h = tt
  All-take (suc n) [] h = tt
  All-take (suc n) (x ∷ xs) h = (h.0, All-take n xs h.1)

pub All-imp {ℓ κ μ} :
    {A : Type ℓ} (P : A → Type κ) (Q : A → Type μ) (xs : List A)
    → ((a : A) → P a → Q a)
    → All P xs
    → All Q xs
All-imp P Q [] f h = tt
All-imp P Q (x ∷ xs) f h = (f x h.0, All-imp P Q xs f h.1)
