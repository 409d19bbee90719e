-- ===== src/ControlApi/Database/Keeps.antt =====
-- Invariants of the database under handlers: one rule for each way to build a handler.
use openserve.Prelude.{Bool, true, false, ◌≡◌, refl, Option, none, some, Bytes, List}
use openserve.ControlApi.Tables.{Db, Fields}
use openserve.ControlApi.Database.{
  Verdict, answered, refused, lost, State, Response, Outcome, next, replied, Action, Found, found,
  no_rows, query_failed, Change, changed, unique_violation, violation, Done, done, not_unique,
  failed, give, stop, query_row, query_rows, row_result, exec, exec_db, fetch, found_or_else,
  exec_or, done_or_else, some_or, check, continue, ◌>>=◌, signed_in, write_audit_log,
}

-- Whatever happens to its statements, a handler that begins where `P` holds ends where `Q` holds,
-- whether it goes on or replies.
pub record Ensures {A : Type 0} (P Q : Db → Type 0) (m : Action A) : Type 0 where
  pub at : (s : State) → P s.db → Q (m s).1.db

abbrev pub Keeps : {A : Type 0} → (Db → Type 0) → Action A → Type 0
Keeps P m = Ensures P P m

-- A statement that writes leads to `Q`, if no constraint stops it.
abbrev pub Allows : {A : Type 0} → (Db → Type 0) → Change A → Type 0
Allows Q (changed a d) = Q d
Allows Q unique_violation = Unit {0}
Allows Q violation = Unit {0}

module _ {A : Type 0} (Q : Db → Type 0) where
  exec_db-Allows : (v : Verdict) (c : Change A) (d : Db) → Q d → Allows Q c → Q (exec_db v c d)
  unfolding exec_db
  exec_db-Allows answered (changed a new) d h k = k
  exec_db-Allows answered unique_violation d h k = h
  exec_db-Allows answered violation d h k = h
  exec_db-Allows (lost n) (changed a new) d h k = k
  exec_db-Allows (lost n) unique_violation d h k = h
  exec_db-Allows (lost n) violation d h k = h
  exec_db-Allows refused c d h k = h

  done_or_else-db :
      (conflict r : Response) (x : Done A) (s : State)
      → Q s.db
      → Q (done_or_else conflict r x s).1.db
  unfolding done_or_else give stop
  done_or_else-db conflict r (done a) s h = h
  done_or_else-db conflict r not_unique s h = h
  done_or_else-db conflict r failed s h = h

  found_or_else-db :
      (missing r : Response) (x : Found A) (s : State)
      → Q s.db
      → Q (found_or_else missing r x s).1.db
  unfolding found_or_else give stop
  found_or_else-db missing r (found a) s h = h
  found_or_else-db missing r no_rows s h = h
  found_or_else-db missing r query_failed s h = h

module _ {A : Type 0} {P : Db → Type 0} where
  pub Keeps-give : (a : A) → Keeps P (give a)
  unfolding give
  Keeps-give a = record { at = λ s h. h }

  pub Keeps-stop : (r : Response) → Keeps P (stop {A = A} r)
  unfolding stop
  Keeps-stop r = record { at = λ s h. h }

  pub Keeps-query_row : (f : Db → Option A) → Keeps P (query_row f)
  unfolding query_row
  Keeps-query_row f = record { at = λ s h. h }

  pub Keeps-query_rows : (f : Db → List A) → Keeps P (query_rows f)
  unfolding query_rows
  Keeps-query_rows f = record { at = λ s h. h }

  pub Keeps-fetch : (missing r : Response) (f : Db → Option A) → Keeps P (fetch missing r f)
  unfolding fetch
  Keeps-fetch missing r f = record { at = λ s h. found_or_else-db P missing r _ _ h }

  pub Keeps-some_or : (r : Response) (x : Option A) → Keeps P (some_or r x)
  unfolding some_or
  Keeps-some_or r none = Keeps-stop r
  Keeps-some_or r (some a) = Keeps-give a

module _ {A : Type 0} {P Q : Db → Type 0} where
  pub Ensures-exec :
      (f : Db → Change A)
      → ((d : Db) → P d → Q d)
      → ((d : Db) → P d → Allows Q (f d))
      → Ensures P Q (exec f)
  unfolding exec
  Ensures-exec f w k = record { at = λ s h. exec_db-Allows Q _ (f s.db) s.db (w s.db h) (k s.db h) }

  pub Ensures-exec_or :
      (conflict r : Response) (f : Db → Change A)
      → ((d : Db) → P d → Q d)
      → ((d : Db) → P d → Allows Q (f d))
      → Ensures P Q (exec_or conflict r f)
  unfolding exec_or
  Ensures-exec_or conflict r f w k = record {
    at = λ s h.
        done_or_else-db Q conflict r _ _ (exec_db-Allows Q _ (f s.db) s.db (w s.db h) (k s.db h));
  }

module _ {A : Type 0} {P : Db → Type 0} where
  pub Keeps-exec : (f : Db → Change A) → ((d : Db) → P d → Allows P (f d)) → Keeps P (exec f)
  Keeps-exec f k = Ensures-exec f (λ d h. h) k

  pub Keeps-exec_or :
      (conflict r : Response) (f : Db → Change A)
      → ((d : Db) → P d → Allows P (f d))
      → Keeps P (exec_or conflict r f)
  Keeps-exec_or conflict r f k = Ensures-exec_or conflict r f (λ d h. h) k

module _ {P : Db → Type 0} where
  pub Keeps-check : (b : Bool) (r : Response) → Keeps P (check b r)
  unfolding check
  Keeps-check true r = Keeps-give tt
  Keeps-check false r = Keeps-stop r

  pub Keeps-signed_in : (caller : Option Bytes) → Keeps P (signed_in caller)
  unfolding signed_in
  Keeps-signed_in caller = Keeps-some_or _ caller

  pub Keeps-write_audit_log :
      (org_id subject action resource_type resource_id : Bytes) (details : Option Fields)
      → Keeps P (write_audit_log org_id subject action resource_type resource_id details)
  unfolding write_audit_log
  Keeps-write_audit_log org_id subject action resource_type resource_id details = record {
    at = λ s h. h;
  }

module _ {A B : Type 0} {Q R : Db → Type 0} where
  Ensures-continue :
      (o : Outcome A) (f : A → Action B) (s : State)
      → ((d : Db) → Q d → R d)
      → ((a : A) → Ensures Q R (f a))
      → Q s.db
      → R (continue o f s).1.db
  unfolding continue
  Ensures-continue (next a) f s w k h = (k a).at s h
  Ensures-continue (replied r) f s w k h = w s.db h

module _ {A B : Type 0} {P Q R : Db → Type 0} where
  pub Ensures-bind :
      (m : Action A) (f : A → Action B)
      → Ensures P Q m
      → ((d : Db) → Q d → R d)
      → ((a : A) → Ensures Q R (f a))
      → Ensures P R (m >>= f)
  unfolding ◌>>=◌
  Ensures-bind m f km w kf = record {
    at = λ s h. let (o, s') = m s in Ensures-continue o f s' w kf (km.at s h);
  }

module _ {A B : Type 0} {P Q : Db → Type 0} where
  -- Behind a row that was read, the rest may use what the table holds.
  fetched :
      (missing r : Response) (f : Db → Option A) (k : A → Action B) (v : Verdict) (s : State)
      → ((d : Db) → P d → Q d)
      → ((a : A) → Ensures (λ d. P d × (f d ≡ some a)) Q (k a))
      → P s.db
      → (row : Option A) → f s.db ≡ row
      → Q (let (o, s') = found_or_else missing r (row_result v row) s in continue o k s').1.db
  unfolding found_or_else row_result give stop continue
  fetched missing r f k answered s w kf h none e = w s.db h
  fetched missing r f k answered s w kf h (some a) e = (kf a).at s (h, e)
  fetched missing r f k refused s w kf h row e = w s.db h
  fetched missing r f k (lost n) s w kf h row e = w s.db h

  pub Ensures-fetch :
      (missing r : Response) (f : Db → Option A) (k : A → Action B)
      → ((d : Db) → P d → Q d)
      → ((a : A) → Ensures (λ d. P d × (f d ≡ some a)) Q (k a))
      → Ensures P Q (fetch missing r f >>= k)
  unfolding fetch ◌>>=◌
  Ensures-fetch missing r f k w kf = record {
    at = λ s h. fetched missing r f k _ _ w kf h (f s.db) refl;
  }

module _ {B : Type 0} {P Q : Db → Type 0} where
  -- Behind a test that was passed, the rest may use it.
  pub Ensures-check :
      (b : Bool) (r : Response) (k : Unit {0} → Action B)
      → ((d : Db) → P d → Q d)
      → (b ≡ true → Ensures P Q (k tt))
      → Ensures P Q (check b r >>= k)
  unfolding check ◌>>=◌ give stop continue
  Ensures-check true r k w kf = record { at = λ s h. (kf refl).at s h }
  Ensures-check false r k w kf = record { at = λ s h. w s.db h }

  -- What holds of the database at this point and no longer depends on it.
  pub Ensures-fact :
      (R : Type 0) (P' : Db → Type 0) (m : Action B)
      → ((d : Db) → P d → R × P' d)
      → (R → Ensures P' Q m)
      → Ensures P Q m
  Ensures-fact R P' m f k = record { at = λ s h. let (r, h') = f s.db h in (k r).at s h' }

  -- Behind the test for claims, the rest may use whose they are.
  pub Ensures-signed_in :
      (caller : Option Bytes) (k : Bytes → Action B)
      → ((d : Db) → P d → Q d)
      → ((subject : Bytes) → caller ≡ some subject → Ensures P Q (k subject))
      → Ensures P Q (signed_in caller >>= k)
  unfolding signed_in ◌>>=◌ some_or give stop continue
  Ensures-signed_in none k w kf = record { at = λ s h. w s.db h }
  Ensures-signed_in (some subject) k w kf = record { at = λ s h. (kf subject refl).at s h }

module _ {A B : Type 0} {P : Db → Type 0} where
  pub Keeps-bind :
      (m : Action A) (f : A → Action B) → Keeps P m → ((a : A) → Keeps P (f a)) → Keeps P (m >>= f)
  Keeps-bind m f km kf = Ensures-bind m f km (λ d h. h) kf

pub ruleset keeps_rules = (
  Keeps-give, Keeps-stop, Keeps-query_row, Keeps-query_rows, Keeps-fetch, Keeps-some_or,
  Keeps-check, Keeps-signed_in, Keeps-write_audit_log, Keeps-bind,
)
