-- ===== src/Operator/Budget/Tests.antt =====
-- A run of the budget controller (operator/internal/controller/budgetpolicy_controller.go) with whole
-- numbers for its floats, and an expiring key.
use openserve.Prelude.{
  ℕ, ◌+◌, ◌*◌, ◌/◌, leb, Bytes, codes, bytes_eq, format_nat, lookup, insert, true, false, List, [],
  ◌∷◌, none, some, ◌≡◌, refl,
}
use openserve.Prelude.Words.{pos, pos_part}
use openserve.Operator.Budget.{
  Floats, Fetched, row, end_of_rows, rows, Target, PolicySpec, paused, status_written,
  requeue_minutes, Spend, query_today_spend, reconcile_policy, policy_found, spend_by, spend_map,
  key_found, done, reconcile_key,
}
use openserve.Operator.Budget.Laws.{reconcile_policy_lem}

-- Amounts in units of 0.0000001 dollars.
abbrev whole : Floats
whole = record {
  Float = ℕ;
  zero_float = 0;
  add = λ x y. x + y;
  times = λ x y. x * y;
  over_100 = λ x. x / 100;
  of_int = λ n. pos_part n;
  reaches = λ x y. leb y x;
  print = λ x. format_nat x;
  input_price = 4;
  output_price = 12;
}

abbrev usage : Fetched
usage =
    row (record { deployment_id = codes "a"; input_tokens = pos 100; output_tokens = pos 50 })
      (row (record { deployment_id = codes "b"; input_tokens = pos 10; output_tokens = pos 5 })
        end_of_rows)

abbrev spends : List (Spend whole)
spends =
    record { deployment_id = codes "a"; est_usd = 1000 }
    ∷ record { deployment_id = codes "b"; est_usd = 100 }
    ∷ []

abbrev running : Bytes → Target
running name = record { name = name; phase = codes "Running"; budget_paused_at = none }

abbrev policy : PolicySpec whole
policy = record { daily_usd_cap = 1000; alert_threshold_percent = pos 80; pause_on_exceed = true }

reconcile_policy_lem_example :
    reconcile_policy whole
      (some (running (codes "a") ∷ running (codes "b") ∷ []))
      (λ md. true)
      true
      7
      (policy_found policy)
      (rows usage)
    ≡ (
      requeue_minutes 5,
      paused (record { name = codes "a"; phase = codes "BudgetPaused"; budget_paused_at = some 7 })
          ∷ status_written (record {
            total_today_usd_spend = codes "$1100";
            paused_deployments = codes "a" ∷ [];
            affected_deployments = codes "a" ∷ codes "b" ∷ [];
            alert_reached = true;
            message = codes "total spend $1100 vs cap $1000";
          })
          ∷ [],
    )
unfolding spend_by spend_map lookup insert bytes_eq format_nat query_today_spend
reconcile_policy_lem_example =
    reconcile_policy_lem whole policy spends (λ md. true) 7
      (running (codes "a") ∷ running (codes "b") ∷ []) true (rows usage) refl

expired_key :
    reconcile_key
      (key_found (record { deleting = false; expires_at = some 5; active = true }))
      true
      6
    ≡ (done, some (record { deleting = false; expires_at = some 5; active = false }))
unfolding reconcile_key
expired_key = refl
