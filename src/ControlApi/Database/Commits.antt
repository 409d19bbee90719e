-- ===== src/ControlApi/Database/Commits.antt =====
-- The transactions of apps/control-api/internal/handler.
use openserve.Prelude.{not, ◌||◌, Bool, true, false, Option, none, some}
use openserve.ControlApi.Tables.{Db}
use openserve.ControlApi.Database.Statements.{
  Verdict, answered, lost, State, next, Action, Found, found, no_rows, query_failed, Change,
  changed, next_verdict, spend,
}

-- A transaction: `h.DB.Begin`, statements on it, `tx.Commit`. A deferred `tx.Rollback` leaves the
-- database as it is. Behind a failed statement the server refuses all others, the commit too.
unfoldable pub tx_begun : Verdict → State → State
tx_begun answered s = record s { tx = s.db; aborted = false }
tx_begun v s = s

unfoldable pub is_answered : Verdict → Bool
is_answered answered = true
is_answered v = false

-- Whether it gives no error.
unfoldable pub begin : Action Bool
unfolding tx_begun is_answered
begin s = let v = next_verdict s.verdicts in (next (is_answered v), tx_begun v (spend s))

module _ {A : Type 0} where
  unfoldable pub tx_row : Bool → Verdict → Option A → Found A
  tx_row false answered none = no_rows
  tx_row false answered (some a) = found a
  tx_row b v row = query_failed

  unfoldable pub tx_query_row : (Db → Option A) → Action (Found A)
  unfolding tx_row is_answered
  tx_query_row f s =
      let v = next_verdict s.verdicts in
      (
        next (tx_row s.aborted v (f s.tx)),
        record (spend s) { aborted = s.aborted || not (is_answered v) },
      )

  unfoldable pub tx_change : Bool → Verdict → Change A → Db → Option A × Db
  tx_change false answered (changed a d) old = (some a, d)
  tx_change b v c old = (none, old)

  unfoldable pub after_tx : Option A × Db → State → Option A × State
  after_tx (none, d) s = (none, record s { aborted = true })
  after_tx (some a, d) s = (some a, record s { tx = d })

  -- `tx.Exec(…)`, or `tx.QueryRow` of a statement that writes; `none` is the error.
  unfoldable pub tx_exec : (Db → Change A) → Action (Option A)
  unfolding tx_change after_tx
  tx_exec f s =
      let v = next_verdict s.verdicts in
      let (row, s') = after_tx (tx_change s.aborted v (f s.tx) s.tx) (spend s) in (next row, s')

unfoldable pub tx_committed : Bool → Verdict → State → Bool × State
tx_committed false answered s = (true, record s { db = s.tx })
tx_committed false (lost n) s = (false, record s { db = s.tx })
tx_committed b v s = (false, s)

-- `tx.Commit(…)`: whether it gives no error.
unfoldable pub commit : Action Bool
unfolding tx_committed
commit s =
    let (fine, s') = tx_committed s.aborted (next_verdict s.verdicts) (spend s) in (next fine, s')
