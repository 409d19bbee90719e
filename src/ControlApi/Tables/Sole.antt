-- ===== src/ControlApi/Tables/Sole.antt =====
-- A row that is the only one with its id in a table of the control API, behind the statements that
-- add, delete and update rows.
use openserve.Prelude.{
  Bytes, bytes_eq_iff, List, [], ◌∷◌, ◌++◌, some, arith, Bool, true, false, ◌≡◌, ◌≢◌, refl, select,
  Bool-cases, inl, inr, ap, ◌∙◌,
}
use openserve.ControlApi.Tables.{find, any, update_where, delete_where}
use openserve.ControlApi.Tables.Rows.{with_key}

module _ {A : Type 0} where
  pub select-append_other :
      (p : A → Bool) (xs : List A) (y : A) → p y ≡ false → select p (xs ++ y ∷ []) ≡ select p xs
  select-append_other p [] y h = ground arith
  select-append_other p (x ∷ xs) y h = ground (arith, select-append_other p xs y)

  pub any-select : (p q : A → Bool) (xs : List A) → any p (select q xs) ≡ true → any p xs ≡ true
  unfolding any
  any-select p q [] h = h
  any-select p q (x ∷ xs) h = ground (arith, any-select p q xs)

  find-select_none :
      (p q : A → Bool) (xs : List A) (x : A) → select q xs ≡ [] → find p xs ≡ some x → q x ≢ true
  unfolding find
  find-select_none p q [] x none_left e h = ground arith
  find-select_none p q (y ∷ xs) x none_left e h = elim (Bool-cases (p y)) [
    | inl here ↦
        let same : y ≡ x = ground arith in let at : q y ≡ true = ap q same ∙ h in ground arith
    | inr there ↦ find-select_none p q xs x (ground arith) (ground arith) h
  ]

  -- A row that another condition finds is the only one, if it meets its condition.
  pub find-sole :
      (p q : A → Bool) (xs : List A) (x c : A)
      → select q xs ≡ c ∷ []
      → find p xs ≡ some x
      → q x ≡ true
      → x ≡ c
  unfolding find
  find-sole p q [] x c sole e h = ground arith
  find-sole p q (y ∷ xs) x c sole e h = elim (Bool-cases (p y)) [
    | inl here ↦
        let same : y ≡ x = ground arith in let at : q y ≡ true = ap q same ∙ h in ground arith
    | inr there ↦ elim (Bool-cases (q y)) [
      | inl first ↦ absurd (find-select_none p q xs x (ground arith) (ground arith) h)
      | inr later ↦ find-sole p q xs x c (ground arith) (ground arith) h
    ]
  ]

  -- The row that a test finds, and the absence of one.
  pub any-find :
      (p : A → Bool) (xs : List A) → any p xs ≡ true → (x : A) × (find p xs ≡ some x) × (p x ≡ true)
  unfolding any find
  any-find p [] e = ground arith
  any-find p (x ∷ xs) e = elim (Bool-cases (p x)) [
    | inl here ↦ (x, ground arith, here)
    | inr there ↦ let (y, at, h) = any-find p xs (ground arith) in (y, ground arith, h)
  ]

  pub any-select_none : (q : A → Bool) (xs : List A) → any q xs ≡ false → select q xs ≡ []
  unfolding any
  any-select_none q [] e = refl
  any-select_none q (x ∷ xs) e = ground (arith, any-select_none q xs)

  -- A statement that deletes none of the selected rows.
  pub select-delete_where :
      (p q : A → Bool) (xs : List A)
      → ((x : A) → p x ≡ true → q x ≡ false)
      → select p (delete_where q xs) ≡ select p xs
  unfolding delete_where
  select-delete_where p q [] h = refl
  select-delete_where p q (x ∷ xs) h = ground (arith, h x, select-delete_where p q xs h)

  select-delete_where_none :
      (p q : A → Bool) (xs : List A) → select p xs ≡ [] → select p (delete_where q xs) ≡ []
  unfolding delete_where
  select-delete_where_none p q [] h = refl
  select-delete_where_none p q (x ∷ xs) h = ground (arith, select-delete_where_none p q xs)

  pub select-delete_where_sole :
      (p q : A → Bool) (xs : List A) (c : A)
      → select p xs ≡ c ∷ []
      → q c ≡ false
      → select p (delete_where q xs) ≡ c ∷ []
  unfolding delete_where
  select-delete_where_sole p q [] c sole h = ground arith
  select-delete_where_sole p q (x ∷ xs) c sole h =
      ground (arith, select-delete_where_sole p q xs c, select-delete_where_none p q xs)

module _ {A : Type 0} (key : A → Bytes) where
  pub select-update_where :
      (id j : Bytes) (f : A → A) (xs : List A)
      → id ≢ j
      → ((x : A) → key (f x) ≡ key x)
      → select (with_key key j) (update_where (with_key key id) f xs) ≡ select (with_key key j) xs
  unfolding update_where
  select-update_where id j f [] h same = refl
  select-update_where id j f (x ∷ xs) h same = ground (
    arith,
    same x,
    bytes_eq_iff (key x) id,
    bytes_eq_iff (key x) j,
    bytes_eq_iff (key (f x)) j,
    select-update_where id j f xs h same,
  )
