-- ===== src/ControlApi/Tables/Rows.antt =====
-- A row that is found by its id in a table of the control API, behind the statements that
-- add, delete and update rows.
use openserve.Prelude.{
  Bytes, bytes_eq, bytes_eq_iff, List, [], ◌∷◌, ◌++◌, some, arith, Bool, true, ◌≡◌, ◌≢◌, refl,
}
use openserve.ControlApi.Tables.{find, update_where, delete_where}

module _ {A : Type 0} where
  pub find-append :
      (p : A → Bool) (xs ys : List A) (x : A) → find p xs ≡ some x → find p (xs ++ ys) ≡ some x
  unfolding find
  find-append p [] ys x e = ground arith
  find-append p (y ∷ xs) ys x e = ground (arith, find-append p xs ys x)

  pub find-holds : (p : A → Bool) (xs : List A) (x : A) → find p xs ≡ some x → p x ≡ true
  unfolding find
  find-holds p [] x e = ground arith
  find-holds p (y ∷ xs) x e = ground (arith, find-holds p xs x)

module _ {A : Type 0} (key : A → Bytes) where
  -- The row with this id.
  abbrev pub with_key : Bytes → A → Bool
  with_key id x = bytes_eq (key x) id

  pub find-delete_where :
      (id j : Bytes) (xs : List A)
      → id ≢ j
      → find (with_key j) (delete_where (with_key id) xs) ≡ find (with_key j) xs
  unfolding find delete_where
  find-delete_where id j [] h = refl
  find-delete_where id j (x ∷ xs) h =
      ground (arith, bytes_eq_iff (key x) id, bytes_eq_iff (key x) j, find-delete_where id j xs h)

  pub find-update_where_other :
      (id j : Bytes) (f : A → A) (xs : List A)
      → id ≢ j
      → ((x : A) → key (f x) ≡ key x)
      → find (with_key j) (update_where (with_key id) f xs) ≡ find (with_key j) xs
  unfolding find update_where
  find-update_where_other id j f [] h same = refl
  find-update_where_other id j f (x ∷ xs) h same = ground (
    arith,
    same x,
    bytes_eq_iff (key x) id,
    bytes_eq_iff (key x) j,
    bytes_eq_iff (key (f x)) j,
    find-update_where_other id j f xs h same,
  )

  pub find-update_where_same :
      (id : Bytes) (f : A → A) (xs : List A) (x : A)
      → ((x : A) → key (f x) ≡ key x)
      → find (with_key id) xs ≡ some x
      → find (with_key id) (update_where (with_key id) f xs) ≡ some (f x)
  unfolding find update_where
  find-update_where_same id f [] x same e = ground arith
  find-update_where_same id f (y ∷ xs) x same e = ground (
    arith,
    same y,
    bytes_eq_iff (key y) id,
    bytes_eq_iff (key (f y)) id,
    find-update_where_same id f xs x same,
  )
