-- ===== src/Database/Tables.antt =====
-- A table as the list of its rows, the newest first, with a column `key` that is unique.
use payment_platform_quality.Prelude.{
  Bool, true, false, Option, none, some, List, [], ◌∷◌, ◌≡◌, refl, String, str_eq, eq_iff, eq_refl,
  if◌then◌else◌, Bool-cases, ◌∙◌, inl, inr, All, All-imp, arith,
}
use payment_platform_quality.Failure.{Result, ok, err, integrity_error}

-- Whether a row is there: `session.get(...) is not None`.
abbrev pub is_some {ℓ} : {A : Type ℓ} → Option A → Bool
is_some none = false
is_some (some a) = true

module _ {ℓ} {A : Type ℓ} (key : A → String) where
  -- `session.get(Row, k)`, or a `select` by a unique column
  unfoldable pub find : String → List A → Option A
  find k [] = none
  find k (a ∷ rows) = if str_eq (key a) k then some a else find k rows

  -- An INSERT: the unique column refuses a second row.
  unfoldable pub insert : A → List A → Result (List A)
  unfolding find
  insert a rows = if is_some (find (key a) rows) then err integrity_error else ok (a ∷ rows)

  -- An UPDATE of the row that has the key of `a`.
  unfoldable pub replace : A → List A → List A
  replace a [] = []
  replace a (b ∷ rows) =
      let rest = replace a rows in if str_eq (key b) (key a) then a ∷ rows else b ∷ rest

  pub find-replace :
      (a : A) (k : String) (rows : List A)
      → is_some (find (key a) rows) ≡ true
      → find k (replace a rows) ≡ (if str_eq (key a) k then some a else find k rows)
  unfolding find replace
  find-replace a k [] h = cc
  find-replace a k (b ∷ rows) h =
      ground
        (arith, eq_iff (key b) (key a), eq_iff (key b) k, eq_iff (key a) k, find-replace a k rows)

  pub find-insert :
      (a : A) (k : String) (rows rows' : List A)
      → insert a rows ≡ ok rows'
      → find k rows' ≡ (if str_eq (key a) k then some a else find k rows)
  unfolding insert
  find-insert a k rows rows' h = ground arith

  pub find_key : (k : String) (a : A) (rows : List A) → find k rows ≡ some a → key a ≡ k
  unfolding find
  find_key k a [] h = cc
  find_key k a (b ∷ rows) h = ground (arith, eq_iff (key b) k, find_key k a rows)

  -- A row put on top is found first.
  pub find-first :
      (a : A) (k : String) (rows : List A)
      → find k (a ∷ rows) ≡ (if str_eq (key a) k then some a else find k rows)
  unfolding find
  find-first a k rows = refl

  -- The key is unique in the table.
  abbrev pub Keyed : List A → Type ℓ
  Keyed [] = Unit
  Keyed (a ∷ rows) = (find (key a) rows ≡ none) × Keyed rows

  find-replace_ne :
      (a : A) (k : String) (rows : List A)
      → str_eq (key a) k ≡ false
      → find k (replace a rows) ≡ find k rows
  unfolding find replace
  find-replace_ne a k [] h = refl
  find-replace_ne a k (b ∷ rows) h = ground (
    arith,
    eq_iff (key b) (key a),
    eq_iff (key b) k,
    eq_iff (key a) k,
    find-replace_ne a k rows h,
  )

  pub Keyed-replace : (a : A) (rows : List A) → Keyed rows → Keyed (replace a rows)
  unfolding replace
  Keyed-replace a [] h = tt
  Keyed-replace a (b ∷ rows) h = elim (Bool-cases (str_eq (key b) (key a))) [
    | inl same ↦
        let e : key b ≡ key a = (eq_iff (key b) (key a)).0 same in rw same (rw (← e) h.0, h.1)
    | inr other ↦ rw other (
      find-replace_ne a (key b) rows
            (ground (arith, eq_iff (key b) (key a), eq_iff (key a) (key b)))
          ∙ h.0,
      Keyed-replace a rows h.1,
    )
  ]

  -- In such a table every row is found by its key.
  pub Keyed-found : (rows : List A) → Keyed rows → All (λ a. find (key a) rows ≡ some a) rows
  unfolding find
  Keyed-found [] h = tt
  Keyed-found (a ∷ rows) h = (
    simp eq_refl,
    All-imp (λ b. find (key b) rows ≡ some b) (λ b. find (key b) (a ∷ rows) ≡ some b) rows
        (λ b found. ground (arith, eq_iff (key a) (key b), found, h.0)) (Keyed-found rows h.1),
  )
