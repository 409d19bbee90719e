-- ===== src/ControlApi/Database/Statements.antt =====
-- The statements that the handlers of apps/control-api/internal/handler send to the database, any of
-- which may fail, and their early returns.
use openserve.Prelude.{ℕ, Bytes, take, Bool, true, false, List, [], ◌∷◌, Option, none, some}
use openserve.ControlApi.Tables.{Db, AuditEntry}
use openserve.ControlApi.Database.Replies.{Response}

-- What happens to one statement: the server runs it and the answer arrives; it is not run; or the
-- server runs it, but the connection is lost behind so many rows.
pub data Verdict : Type 0 where
  answered refused : Verdict
  lost : ℕ → Verdict

-- A document that a goroutine is to cut and store: its id, its org and its text.
pub record Job : Type 0 where
  pub document_id : Bytes
  pub org_id : Bytes
  pub text : Bytes

-- The database, the transaction that is open on it, and what becomes of the statements to come.
-- `tx` is the transaction's view, `aborted` says that one of its statements has failed; `spawned`
-- are the audit entries that are still to be inserted, `jobs` the documents to be processed.
pub record State : Type 0 where
  pub db : Db
  pub tx : Db
  pub aborted : Bool
  pub verdicts : List Verdict
  pub spawned : List AuditEntry
  pub jobs : List Job

-- A handler goes on with a value or has replied.
pub data Outcome (A : Type 0) : Type 0 where
  next : A → Outcome A
  replied : Response → Outcome A

abbrev pub Action : Type 0 → Type 0
Action A = State → Outcome A × State

pub data Found (A : Type 0) : Type 0 where
  found : A → Found A
  no_rows query_failed : Found A

-- What a statement that writes does, or the constraint that it violates.
pub data Change (A : Type 0) : Type 0 where
  changed : A → Db → Change A
  unique_violation violation : Change A

pub data Done (A : Type 0) : Type 0 where
  done : A → Done A
  not_unique failed : Done A

abbrev pub next_verdict : List Verdict → Verdict
next_verdict [] = answered
next_verdict (v ∷ vs) = v

abbrev pub later_verdicts : List Verdict → List Verdict
later_verdicts [] = []
later_verdicts (v ∷ vs) = vs

abbrev pub spend : State → State
spend s = record s { verdicts = later_verdicts s.verdicts }

module _ {A : Type 0} where
  -- The rest of the handler runs with the value.
  unfoldable pub give : A → Action A
  give a s = (next a, s)

  -- `return` behind a response.
  unfoldable pub stop : Response → Action A
  stop r s = (replied r, s)

  unfoldable pub row_result : Verdict → Option A → Found A
  row_result answered none = no_rows
  row_result answered (some a) = found a
  row_result refused row = query_failed
  row_result (lost n) row = query_failed

  -- `h.DB.QueryRow(…).Scan(…)` of a SELECT.
  unfoldable pub query_row : (Db → Option A) → Action (Found A)
  unfolding row_result
  query_row f s = (next (row_result (next_verdict s.verdicts) (f s.db)), spend s)

  unfoldable pub rows_result : Verdict → List A → Option (List A)
  rows_result answered rows = some rows
  rows_result refused rows = none
  rows_result (lost n) rows = some (take n rows)

  -- `h.DB.Query(…)` and the loop over `rows.Next`, which ends as quietly on a lost connection.
  unfoldable pub query_rows : (Db → List A) → Action (Option (List A))
  unfolding rows_result
  query_rows f s = (next (rows_result (next_verdict s.verdicts) (f s.db)), spend s)

  unfoldable pub exec_db : Verdict → Change A → Db → Db
  exec_db answered (changed a d) old = d
  exec_db (lost n) (changed a d) old = d
  exec_db v c old = old

  unfoldable pub exec_result : Verdict → Change A → Done A
  exec_result answered (changed a d) = done a
  exec_result answered unique_violation = not_unique
  exec_result v c = failed

  -- `h.DB.Exec(…)`, or `QueryRow` of a statement that writes.
  unfoldable pub exec : (Db → Change A) → Action (Done A)
  unfolding exec_db exec_result
  exec f s =
      let v = next_verdict s.verdicts in
      (next (exec_result v (f s.db)), record (spend s) { db = exec_db v (f s.db) s.db })

  unfoldable pub found_or_else : Response → Response → Found A → Action A
  unfolding give stop
  found_or_else missing r (found a) = give a
  found_or_else missing r no_rows = stop missing
  found_or_else missing r query_failed = stop r

  -- `QueryRow(…).Scan(…)` with `if err != nil { …; return }` behind it: the first response is for
  -- `pgx.ErrNoRows`, the second for any other error.
  unfoldable pub fetch : Response → Response → (Db → Option A) → Action A
  unfolding found_or_else row_result
  fetch missing r f s =
      found_or_else missing r (row_result (next_verdict s.verdicts) (f s.db)) (spend s)

  abbrev pub fetch_or : Response → (Db → Option A) → Action A
  fetch_or r f = fetch r r f

  -- `_ = QueryRow(…).Scan(…)`: on an error the variables keep their zero values.
  unfoldable pub scanned : A → Found A → A
  scanned zero_value (found a) = a
  scanned zero_value no_rows = zero_value
  scanned zero_value query_failed = zero_value

  unfoldable pub done_or_else : Response → Response → Done A → Action A
  unfolding give stop
  done_or_else conflict r (done a) = give a
  done_or_else conflict r not_unique = stop conflict
  done_or_else conflict r failed = stop r

  -- The rows of a query whose error is dropped.
  abbrev pub or_empty : Option (List A) → List A
  or_empty none = []
  or_empty (some rows) = rows

  -- A statement that writes, with `if err != nil { …; return }` behind it: the first response is
  -- for an error whose text has "unique constraint".
  unfoldable pub exec_or : Response → Response → (Db → Change A) → Action A
  unfolding exec_db exec_result done_or_else
  exec_or conflict r f s =
      let v = next_verdict s.verdicts in
      done_or_else conflict r (exec_result v (f s.db))
        (record (spend s) { db = exec_db v (f s.db) s.db })

  abbrev pub must : Response → (Db → Change A) → Action A
  must r f = exec_or r r f

  unfoldable pub some_or : Response → Option A → Action A
  unfolding give stop
  some_or r none = stop r
  some_or r (some a) = give a

-- `if !b { http.Error(…); return }`
unfoldable pub check : Bool → Response → Action (Unit {0})
unfolding give stop
check true r = give tt
check false r = stop r

module _ {A B : Type 0} where
  unfoldable pub continue : Outcome A → (A → Action B) → Action B
  continue (next a) f s = f a s
  continue (replied r) f s = (replied r, s)

  infixl 10 ◌>>=◌ ◌>>◌
  unfoldable pub ◌>>=◌ : Action A → (A → Action B) → Action B
  unfolding continue give stop query_row query_rows exec fetch exec_or scanned some_or check
  ◌>>=◌ m f s = let (o, s') = m s in continue o f s'

  abbrev pub ◌>>◌ : Action A → Action B → Action B
  m >> n = m >>= λ _. n

abbrev pub response_of : Outcome Response → Response
response_of (next r) = r
response_of (replied r) = r

-- The response of a handler and the state behind it.
abbrev pub serve : Action Response → State → Response × State
serve m s = let (o, s') = m s in (response_of o, s')
