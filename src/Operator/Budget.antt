-- ===== src/Operator/Budget.antt =====
-- Budgets and API keys of the operator: QueryTodaySpend of operator/internal/budget/bigquery.go and
-- the reconcilers of operator/internal/controller/budgetpolicy_controller.go and
-- operator/internal/controller/apikey_controller.go.
pub mod Laws
mod Tests
use openserve.Prelude.{
  ℕ, ltb, Bytes, codes, bytes_eq, lookup, insert, not, Bool, true, false, ◌&&◌, ◌||◌, List, [], ◌∷◌,
  ◌++◌, Option, none, some, if◌then◌else◌,
}
use openserve.Prelude.Words.{ℤ, pos}

-- The float64 arithmetic that the code uses, and its formatting with four digits.
pub record Floats : Type 1 where
  pub Float : Type 0
  pub zero_float : Float
  pub add : Float → Float → Float
  pub times : Float → Float → Float
  pub over_100 : Float → Float
  pub of_int : ℤ → Float
  pub reaches : Float → Float → Bool
  pub print : Float → Bytes
  -- The constants 0.0000004 and 0.0000012.
  pub input_price : Float
  pub output_price : Float

-- A row of the query's result.
pub record UsageRow : Type 0 where
  pub deployment_id : Bytes
  pub input_tokens : ℤ
  pub output_tokens : ℤ

-- What the iterator gives: a row, its end or an error.
pub data Fetched : Type 0 where
  row : UsageRow → Fetched → Fetched
  end_of_rows broken : Fetched

-- The answer of `q.Read`: its rows, or the text of an error.
pub data Answer : Type 0 where
  rows : Fetched → Answer
  read_error : Bytes → Answer

-- The deployments that the policy's run handles, with the phase that it may set.
pub record Target : Type 0 where
  pub name : Bytes
  pub phase : Bytes
  pub budget_paused_at : Option ℕ

pub data Result : Type 0 where
  done : Result
  requeue_minutes : ℕ → Result
  failed : Result

module _ (F : Floats) where
  pub record Spend : Type 0 where
    pub deployment_id : Bytes
    pub est_usd : F.Float

  spend_of : UsageRow → Spend
  spend_of r = record {
    deployment_id = r.deployment_id;
    est_usd =
        F.add (F.times (F.of_int r.input_tokens) F.input_price)
          (F.times (F.of_int r.output_tokens) F.output_price);
  }

  cons_result : Spend → Option (List Spend) → Option (List Spend)
  cons_result s none = none
  cons_result s (some spends) = some (s ∷ spends)

  read_rows : Fetched → Option (List Spend)
  unfolding spend_of cons_result
  read_rows end_of_rows = some []
  read_rows broken = none
  read_rows (row r rest) = cons_result (spend_of r) (read_rows rest)

  abbrev is_missing : Bytes → Bool
  is_missing message =
      bytes_eq message (codes "googleapi: Error 404: Not found: Dataset")
      || bytes_eq message (codes "googleapi: Error 404: Not found: Table")

  unfoldable pub query_today_spend : Answer → Option (List Spend)
  unfolding read_rows
  query_today_spend (rows fetched) = read_rows fetched
  query_today_spend (read_error message) = if is_missing message then some [] else none

  -- The map of the spends, the last one for each deployment.
  unfoldable pub spend_map : List (Bytes × F.Float) → List Spend → List (Bytes × F.Float)
  spend_map m [] = m
  spend_map m (s ∷ spends) = spend_map (insert s.deployment_id s.est_usd m) spends

  abbrev or_zero : Option F.Float → F.Float
  or_zero none = F.zero_float
  or_zero (some x) = x

  unfoldable pub spend_by : List Spend → Bytes → F.Float
  unfolding spend_map lookup
  spend_by spends name = or_zero (lookup name (spend_map [] spends))

  pub record PolicySpec : Type 0 where
    pub daily_usd_cap : F.Float
    pub alert_threshold_percent : ℤ
    pub pause_on_exceed : Bool

  pub record PolicyStatus : Type 0 where
    pub total_today_usd_spend : Bytes
    pub paused_deployments : List Bytes
    pub affected_deployments : List Bytes
    pub alert_reached : Bool
    pub message : Bytes

  pub data Effect : Type 0 where
    paused : Target → Effect
    status_written : PolicyStatus → Effect

  -- `totalSpend`, `pausedDeployments`, `affectedDeployments` and the effects so far.
  pub record Loop : Type 0 where
    pub total : F.Float
    pub paused_names : List Bytes
    pub affected : List Bytes
    pub effects : List Effect

  -- `writes` says whether the update of a deployment's status succeeds.
  module _ (spec : PolicySpec) (spends : List Spend) (writes : Target → Bool) (now : ℕ) where
    abbrev pub pause : Target → Target
    pause md = record md { phase = codes "BudgetPaused"; budget_paused_at = some now }

    abbrev pub exceeds : Target → Bool
    exceeds md = F.reaches (spend_by spends md.name) spec.daily_usd_cap && spec.pause_on_exceed

    unfoldable pub pause_deployment : Target → Loop → Loop
    pause_deployment md l =
        if writes (pause md)
        then record l {
          paused_names = l.paused_names ++ md.name ∷ [];
          effects = l.effects ++ paused (pause md) ∷ [];
        }
        else l

    unfoldable pub visit : Target → Loop → Loop
    unfolding spend_by pause_deployment
    visit md l =
        let seen = record l {
          total = F.add l.total (spend_by spends md.name);
          affected = l.affected ++ md.name ∷ [];
        } in
        if exceeds md then pause_deployment md seen else seen

    unfoldable pub visit_all : List Target → Loop → Loop
    unfolding visit
    visit_all [] l = l
    visit_all (md ∷ mds) l = visit_all mds (visit md l)

  abbrev pub no_loop : Loop
  no_loop = record { total = F.zero_float; paused_names = []; affected = []; effects = [] }

  abbrev pub status_of : PolicySpec → Loop → PolicyStatus
  status_of spec l = record {
    total_today_usd_spend = b'$' ∷ F.print l.total;
    paused_deployments = l.paused_names;
    affected_deployments = l.affected;
    alert_reached =
        F.reaches l.total
          (F.over_100 (F.times spec.daily_usd_cap (F.of_int spec.alert_threshold_percent)));
    message =
        codes "total spend $"
        ++ (F.print l.total ++ (codes " vs cap $" ++ F.print spec.daily_usd_cap));
  }

  -- What `Get` gives.
  pub data GetReply : Type 0 where
    policy_found : PolicySpec → GetReply
    policy_missing get_failed : GetReply

  -- The deployments of the namespace, unless the list fails; whether the last update succeeds.
  module _ (listed : Option (List Target)) (writes : Target → Bool) (status_writes : Bool)
      (now : ℕ) where
    publish : PolicyStatus → List Effect → Result × List Effect
    publish status effects =
        if status_writes
        then (requeue_minutes 5, effects ++ status_written status ∷ [])
        else (failed, effects)

    with_targets : PolicySpec → List Spend → Option (List Target) → Result × List Effect
    unfolding publish visit_all
    with_targets spec spends none = (failed, [])
    with_targets spec spends (some mds) =
        let l = visit_all spec spends writes now mds no_loop in publish (status_of spec l) l.effects

    with_spends : PolicySpec → Option (List Spend) → Result × List Effect
    unfolding with_targets
    with_spends spec none = (requeue_minutes 5, [])
    with_spends spec (some spends) = with_targets spec spends listed

    unfoldable pub reconcile_policy : GetReply → Answer → Result × List Effect
    unfolding with_spends query_today_spend
    reconcile_policy policy_missing answer = (done, [])
    reconcile_policy get_failed answer = (failed, [])
    reconcile_policy (policy_found spec) answer = with_spends spec (query_today_spend answer)

-- `isExpired`
unfoldable pub is_expired : Option ℕ → ℕ → Bool
is_expired none now = false
is_expired (some t) now = ltb t now

pub record KeyObject : Type 0 where
  pub deleting : Bool
  pub expires_at : Option ℕ
  pub active : Bool

-- What `Get` gives.
pub data KeyReply : Type 0 where
  key_found : KeyObject → KeyReply
  key_missing key_failed : KeyReply

abbrev with_active : KeyObject → ℕ → KeyObject
with_active ak now = record ak { active = not ak.deleting && not (is_expired ak.expires_at now) }

-- `Reconcile` of an APIKey: its result and the object that it writes, if the update succeeds; the
-- condition that it tests before has no effect.
unfoldable pub reconcile_key : KeyReply → Bool → ℕ → Result × Option KeyObject
unfolding is_expired
reconcile_key key_missing writes now = (done, none)
reconcile_key key_failed writes now = (failed, none)
reconcile_key (key_found ak) writes now =
    if writes then (done, some (with_active ak now)) else (failed, none)
