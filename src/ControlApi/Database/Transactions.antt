-- ===== src/ControlApi/Database/Transactions.antt =====
-- Invariants of the database under handlers that open a transaction.
use openserve.Prelude.{Bool, true, false, Option, none, some}
use openserve.ControlApi.Tables.{Db}
use openserve.ControlApi.Database.{
  Verdict, answered, refused, lost, State, Response, Outcome, next, replied, Action, Change,
  changed, unique_violation, violation, give, stop, exec, some_or, check, continue, ◌>>=◌, begin,
  tx_begun, is_answered, tx_query_row, tx_exec, tx_change, after_tx, commit, tx_committed, spend,
}
use openserve.ControlApi.Database.Keeps.{Keeps, Allows, Keeps-exec}

-- In a transaction `P` is kept by the database and by the transaction's view of it.
pub record TxKeeps {A : Type 0} (P : Db → Type 0) (m : Action A) : Type 0 where
  pub at : (s : State) → P s.db → P s.tx → P (m s).1.db × P (m s).1.tx

module _ {A : Type 0} {P : Db → Type 0} where
  pub TxKeeps-give : (a : A) → TxKeeps P (give a)
  unfolding give
  TxKeeps-give a = record { at = λ s h k. (h, k) }

  pub TxKeeps-stop : (r : Response) → TxKeeps P (stop {A = A} r)
  unfolding stop
  TxKeeps-stop r = record { at = λ s h k. (h, k) }

  pub TxKeeps-some_or : (r : Response) (x : Option A) → TxKeeps P (some_or r x)
  unfolding some_or
  TxKeeps-some_or r none = TxKeeps-stop r
  TxKeeps-some_or r (some a) = TxKeeps-give a

  pub TxKeeps-tx_query_row : (f : Db → Option A) → TxKeeps P (tx_query_row f)
  unfolding tx_query_row
  TxKeeps-tx_query_row f = record { at = λ s h k. (h, k) }

  pub TxKeeps-exec : (f : Db → Change A) → ((d : Db) → P d → Allows P (f d)) → TxKeeps P (exec f)
  unfolding exec
  TxKeeps-exec f allowed = record { at = λ s h k. ((Keeps-exec f allowed).at s h, k) }

module _ {A : Type 0} (P : Db → Type 0) where
  after_tx-Keeps :
      (b : Bool) (v : Verdict) (c : Change A) (s : State)
      → P s.db
      → P s.tx
      → Allows P c
      → P (after_tx (tx_change b v c s.tx) s).1.db × P (after_tx (tx_change b v c s.tx) s).1.tx
  unfolding after_tx tx_change
  after_tx-Keeps false answered (changed a d) s h k allowed = (h, allowed)
  after_tx-Keeps false answered unique_violation s h k allowed = (h, k)
  after_tx-Keeps false answered violation s h k allowed = (h, k)
  after_tx-Keeps false refused c s h k allowed = (h, k)
  after_tx-Keeps false (lost n) c s h k allowed = (h, k)
  after_tx-Keeps true v c s h k allowed = (h, k)

module _ {A : Type 0} {P : Db → Type 0} where
  pub TxKeeps-tx_exec :
      (f : Db → Change A) → ((d : Db) → P d → Allows P (f d)) → TxKeeps P (tx_exec f)
  unfolding tx_exec
  TxKeeps-tx_exec f allowed = record {
    at = λ s h k. after_tx-Keeps P s.aborted _ (f s.tx) (spend s) h k (allowed s.tx k);
  }

module _ {P : Db → Type 0} where
  pub TxKeeps-check : (b : Bool) (r : Response) → TxKeeps P (check b r)
  unfolding check
  TxKeeps-check true r = TxKeeps-give tt
  TxKeeps-check false r = TxKeeps-stop r

module _ (P : Db → Type 0) where
  tx_committed-Keeps :
      (b : Bool) (v : Verdict) (s : State)
      → P s.db
      → P s.tx
      → P (tx_committed b v s).1.db × P (tx_committed b v s).1.tx
  unfolding tx_committed
  tx_committed-Keeps false answered s h k = (k, k)
  tx_committed-Keeps false (lost n) s h k = (k, k)
  tx_committed-Keeps false refused s h k = (h, k)
  tx_committed-Keeps true v s h k = (h, k)

module _ {P : Db → Type 0} where
  pub TxKeeps-commit : TxKeeps P commit
  unfolding commit
  TxKeeps-commit = record { at = λ s h k. tx_committed-Keeps P s.aborted _ (spend s) h k }

module _ {A B : Type 0} {P : Db → Type 0} where
  TxKeeps-continue :
      (o : Outcome A) (f : A → Action B) (s : State)
      → ((a : A) → TxKeeps P (f a))
      → P s.db
      → P s.tx
      → P (continue o f s).1.db × P (continue o f s).1.tx
  unfolding continue
  TxKeeps-continue (next a) f s kf h k = (kf a).at s h k
  TxKeeps-continue (replied r) f s kf h k = (h, k)

  pub TxKeeps-bind :
      (m : Action A) (f : A → Action B)
      → TxKeeps P m
      → ((a : A) → TxKeeps P (f a))
      → TxKeeps P (m >>= f)
  unfolding ◌>>=◌
  TxKeeps-bind m f km kf = record {
    at = λ s h k.
        let (h', k') = km.at s h k in let (o, s') = m s in TxKeeps-continue o f s' kf h' k';
  }

module _ {B : Type 0} {P : Db → Type 0} where
  begun-Keeps :
      (v : Verdict) (s : State) (f : Bool → Action B)
      → TxKeeps P (f true)
      → Keeps P (f false)
      → P s.db
      → P (f (is_answered v) (tx_begun v s)).1.db
  unfolding is_answered tx_begun
  begun-Keeps answered s f kt kf h = (kt.at _ h h).0
  begun-Keeps refused s f kt kf h = kf.at s h
  begun-Keeps (lost n) s f kt kf h = kf.at s h

  -- A transaction begins with the view that the database has.
  pub Keeps-begin :
      (f : Bool → Action B) → TxKeeps P (f true) → Keeps P (f false) → Keeps P (begin >>= f)
  unfolding ◌>>=◌ begin continue
  Keeps-begin f kt kf = record { at = λ s h. begun-Keeps _ (spend s) f kt kf h }

pub ruleset tx_rules = (
  TxKeeps-give, TxKeeps-stop, TxKeeps-some_or, TxKeeps-tx_query_row, TxKeeps-check, TxKeeps-commit,
  TxKeeps-bind,
)
