-- ===== src/ControlApi/Tables/Clauses.antt =====
-- The clauses of SQL that the statements of apps/control-api/internal/handler share, on rows in a list.
use openserve.Prelude.{
  ℕ, leb, not, select, Bool, true, false, List, [], ◌∷◌, Option, none, some, ◌||◌,
}

module _ {A : Type 0} where
  -- The first row that meets the condition.
  unfoldable pub find : (A → Bool) → List A → Option A
  find p [] = none
  find p (x ∷ xs) = elim (p x) [ true ↦ some x | false ↦ find p xs ]

  unfoldable pub any : (A → Bool) → List A → Bool
  any p [] = false
  any p (x ∷ xs) = p x || any p xs

  -- `UPDATE … WHERE`
  unfoldable pub update_where : (A → Bool) → (A → A) → List A → List A
  update_where p f [] = []
  update_where p f (x ∷ xs) = elim (p x) [
    | true ↦ f x ∷ update_where p f xs
    | false ↦ x ∷ update_where p f xs
  ]

  -- `DELETE … WHERE`
  unfoldable pub delete_where : (A → Bool) → List A → List A
  delete_where p xs = select (λ x. not (p x)) xs

  unfoldable pub insert_by : (A → A → Bool) → A → List A → List A
  insert_by before x [] = x ∷ []
  insert_by before x (y ∷ ys) =
      let rest = insert_by before x ys in elim (before x y) [ true ↦ x ∷ y ∷ ys | false ↦ y ∷ rest ]

  unfoldable pub sort_by : (A → A → Bool) → List A → List A
  unfolding insert_by
  sort_by before [] = []
  sort_by before (x ∷ xs) = insert_by before x (sort_by before xs)

  -- `ORDER BY … DESC`, `ORDER BY … ASC`
  unfoldable pub order_desc : (A → ℕ) → List A → List A
  unfolding sort_by
  order_desc time xs = sort_by (λ x y. leb (time y) (time x)) xs

  unfoldable pub order_asc : (A → ℕ) → List A → List A
  unfolding sort_by
  order_asc time xs = sort_by (λ x y. leb (time x) (time y)) xs
