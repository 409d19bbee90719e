-- ===== src/Gateway/RateLimit/Sample.antt =====
-- A sorted set as a list of entries in the order of their scores, for tests.
use mathlib.Core.List.{Perm, Permᴰ}
use mathlib.Core.List.Permᴰ
use openserve.Prelude.{
  ℕ, ◌+◌, ◌≤◌, Bytes, bytes_eq, bytes_eq_iff, leb, length, select, All, Bool, not, List, [], ◌∷◌,
  ◌≡◌, refl, arith, if◌then◌else◌, Bool-cases, inl, inr,
}
use openserve.Prelude.Words.{ℤ, pos, ltb_ℤ}
use openserve.Gateway.RateLimit.Redis.{Entry, SortedSet, IsSorted, without, above}

abbrev pub insert : Entry → List Entry → List Entry
insert e [] = e ∷ []
insert e (x ∷ xs) = if leb e.score x.score then e ∷ x ∷ xs else x ∷ insert e xs

insert-Permᴰ : (e : Entry) (xs : List Entry) → Permᴰ (insert e xs) (e ∷ xs)
insert-Permᴰ e [] = Permᴰ.cons refl Permᴰ.nil
insert-Permᴰ e (x ∷ xs) = elim (Bool-cases (leb e.score x.score)) [
  | inl h ↦ rw (h, insert) (Permᴰ.refl (e ∷ x ∷ xs))
  | inr h ↦
      rw (h, insert) (Permᴰ.trans (Permᴰ.cons refl (insert-Permᴰ e xs)) (Permᴰ.swap refl refl))
]

All-insert :
    (P : Entry → Type 0) (e : Entry) (xs : List Entry) → P e → All P xs → All P (insert e xs)
All-insert P e [] p h = (p, tt)
All-insert P e (x ∷ xs) p (q, h) = elim (Bool-cases (leb e.score x.score)) [
  | inl t ↦ rw (t, insert) (p, (q, h))
  | inr t ↦ rw (t, insert) (q, All-insert P e xs p h)
]

All-mono :
    (a b : ℕ) (xs : List Entry) → a ≤ b → All (λ f. b ≤ f.score) xs → All (λ f. a ≤ f.score) xs
All-mono a b [] le h = tt
All-mono a b (x ∷ xs) le (p, h) = (omega arith, All-mono a b xs le h)

insert-IsSorted : (e : Entry) (xs : List Entry) → IsSorted xs → IsSorted (insert e xs)
insert-IsSorted e [] h = (tt, tt)
insert-IsSorted e (x ∷ xs) (p, h) = elim (Bool-cases (leb e.score x.score)) [
  | inl t ↦
      let le : e.score ≤ x.score = ground arith in
      rw (t, insert) ((le, All-mono e.score x.score xs le p), (p, h))
  | inr t ↦
      let le : x.score ≤ e.score = ground arith in
      rw (t, insert) (All-insert (λ f. x.score ≤ f.score) e xs le p, insert-IsSorted e xs h)
]

All-select :
    (P : Entry → Type 0) (p : Entry → Bool) (xs : List Entry) → All P xs → All P (select p xs)
All-select P p [] h = tt
All-select P p (x ∷ xs) (q, h) = elim (Bool-cases (p x)) [
  | inl t ↦ rw (t, select) (q, All-select P p xs h)
  | inr t ↦ rw (t, select) (All-select P p xs h)
]

pub select-IsSorted : (p : Entry → Bool) (xs : List Entry) → IsSorted xs → IsSorted (select p xs)
select-IsSorted p [] h = tt
select-IsSorted p (x ∷ xs) (q, h) = elim (Bool-cases (p x)) [
  | inl t ↦ rw (t, select) (All-select (λ f. x.score ≤ f.score) p xs q, select-IsSorted p xs h)
  | inr t ↦ rw (t, select) (select-IsSorted p xs h)
]

abbrev pub with_member : Bytes → List Entry → List Entry
with_member m = select (λ e. bytes_eq e.member m)

with_member-select-le :
    (m : Bytes) (p : Entry → Bool) (xs : List Entry)
    → length (with_member m (select p xs)) ≤ length (with_member m xs)
with_member-select-le m p [] = omega arith
with_member-select-le m p (x ∷ xs) = ground (arith, with_member-select-le m p xs)

with_member-without : (m : Bytes) (xs : List Entry) → length (with_member m (without m xs)) ≡ 0
with_member-without m [] = refl
with_member-without m (x ∷ xs) = ground (arith, with_member-without m xs)

with_member-insert :
    (m : Bytes) (e : Entry) (xs : List Entry)
    → length (with_member m (insert e xs))
      ≡ (if bytes_eq e.member m then 1 else 0) + length (with_member m xs)
with_member-insert m e [] = ground arith
with_member-insert m e (x ∷ xs) = ground (arith, with_member-insert m e xs)

abbrev pub IsUnique : List Entry → Type 0
IsUnique xs = (m : Bytes) → length (with_member m xs) ≤ 1

abbrev pub put : Entry → List Entry → List Entry
put e xs = insert e (without e.member xs)

pub put-IsUnique : (e : Entry) (xs : List Entry) → IsUnique xs → IsUnique (put e xs)
put-IsUnique e xs h m = elim (Bool-cases (bytes_eq e.member m)) [
  | inl t ↦
      let same : e.member ≡ m = (bytes_eq_iff e.member m).0 t in
      let none_left : length (with_member m (without e.member xs)) ≡ 0 =
        rw same (with_member-without m xs) in
      ground (arith, with_member-insert m e (without e.member xs), none_left)
  | inr t ↦ ground (
    arith,
    with_member-insert m e (without e.member xs),
    with_member-select-le m (λ f. not (bytes_eq f.member e.member)) xs,
    h m,
  )
]

-- A list of entries with its two invariants.
pub record Listed : Type 0 where
  pub entries : List Entry
  pub sorted : IsSorted entries
  pub unique : (m : Bytes) → length (with_member m entries) ≤ 1

pub put-IsSorted : (e : Entry) (z : Listed) → IsSorted (put e z.entries)
put-IsSorted e z =
    insert-IsSorted e (without e.member z.entries)
      (select-IsSorted (λ f. not (bytes_eq f.member e.member)) z.entries z.sorted)

pub above-IsUnique : (bound : ℤ) (z : Listed) → IsUnique (above bound z.entries)
above-IsUnique bound z m =
    omega (arith, with_member-select-le m (λ e. ltb_ℤ bound (pos e.score)) z.entries, z.unique m)

abbrev pub listed_zadd : ℕ → Bytes → Listed → Listed
listed_zadd score m z =
    let e : Entry = record { member = m; score = score } in
    record {
      entries = put e z.entries;
      sorted = put-IsSorted e z;
      unique = put-IsUnique e z.entries z.unique;
    }

abbrev pub listed_remove : ℤ → Listed → Listed
listed_remove bound z = record {
  entries = above bound z.entries;
  sorted = select-IsSorted (λ e. ltb_ℤ bound (pos e.score)) z.entries z.sorted;
  unique = above-IsUnique bound z;
}

pub listed_zadd-Perm :
    (score : ℕ) (m : Bytes) (z : Listed)
    → Perm
        (listed_zadd score m z).entries
        (record { member = m; score = score } ∷ without m z.entries)
listed_zadd-Perm score m z =
    ∣ insert-Permᴰ (record { member = m; score = score }) (without m z.entries) ∣₁

pub listed-IsSorted : (z : Listed) → IsSorted z.entries
listed-IsSorted z = z.sorted

pub listed_unique : (m : Bytes) (z : Listed) → length (with_member m z.entries) ≤ 1
listed_unique m z = z.unique m

pub no_entries : IsUnique []
no_entries m = omega arith

abbrev pub listed_set : SortedSet
listed_set = record {
  Z = Listed;
  empty = record { entries = []; sorted = tt; unique = no_entries };
  zadd = listed_zadd;
  zremrangebyscore = listed_remove;
  zcard = λ z. length z.entries;
  zrange = λ z. z.entries;
  zrange-empty = refl;
  zrange-zadd = listed_zadd-Perm;
  zrange-zremrangebyscore = λ bound z. refl;
  zcard_lem = λ z. refl;
  zrange-IsSorted = listed-IsSorted;
  zrange_unique = listed_unique;
}
