-- ===== src/Operator/Budget/Laws.antt =====
-- What one run of the budget controller pauses and reports:
-- operator/internal/controller/budgetpolicy_controller.go.
use openserve.Prelude.{
  ℕ, Bytes, map, select, Bool, true, false, ◌&&◌, List, [], ◌∷◌, ◌++◌, some, ◌≡◌, refl, sym, ap,
  ◌∙◌, arith, codes, append-nil, append_assoc, if◌then◌else◌,
}
use openserve.Operator.Budget.{
  Floats, Spend, Target, PolicySpec, Effect, paused, status_written, Loop, pause_deployment, visit,
  visit_all, spend_by, no_loop, status_of, Answer, reconcile_policy, policy_found,
  query_today_spend, with_spends, with_targets, publish, requeue_minutes, failed,
}

module _ (F : Floats) (spec : PolicySpec F) (spends : List (Spend F)) (writes : Target → Bool)
    (now : ℕ) where
  -- The deployment as it is written: its phase and the time of the pause are set.
  abbrev pub as_paused : Target → Target
  as_paused md = record md { phase = codes "BudgetPaused"; budget_paused_at = some now }

  -- Its spend has reached the cap, the policy pauses, and the update of its status succeeds.
  abbrev pub is_paused : Target → Bool
  is_paused md =
      F.reaches (spend_by F spends md.name) spec.daily_usd_cap
      && spec.pause_on_exceed
      && writes (as_paused md)

  abbrev pub name_of : Target → Bytes
  name_of md = md.name

  abbrev pub pause_effect : Target → Effect F
  pause_effect md = paused (as_paused md)

  -- The spends added up in the order of the list.
  abbrev pub total_from : F.Float → List Target → F.Float
  total_from x [] = x
  total_from x (md ∷ mds) = total_from (F.add x (spend_by F spends md.name)) mds

  -- What the loop leaves.
  abbrev pub after : List Target → Loop F → Loop F
  after mds l = record {
    total = total_from l.total mds;
    paused_names = l.paused_names ++ map name_of (select is_paused mds);
    affected = l.affected ++ map name_of mds;
    effects = l.effects ++ map pause_effect (select is_paused mds);
  }

  one : Target → Loop F → Loop F
  one md l = record {
    total = F.add l.total (spend_by F spends md.name);
    paused_names = l.paused_names ++ map name_of (select is_paused (md ∷ []));
    affected = l.affected ++ md.name ∷ [];
    effects = l.effects ++ map pause_effect (select is_paused (md ∷ []));
  }

  visit-one : (md : Target) (l : Loop F) → visit F spec spends writes now md l ≡ one md l
  unfolding visit pause_deployment one
  visit-one md l = ground (arith, append-nil l.paused_names, append-nil l.effects)

  after-one :
      (md : Target) (mds : List Target) (l : Loop F) → after mds (one md l) ≡ after (md ∷ mds) l
  unfolding one
  after-one md mds l = ground (
    arith,
    append_assoc l.affected (md.name ∷ []) (map name_of mds),
    append_assoc l.paused_names (map name_of (select is_paused (md ∷ [])))
        (map name_of (select is_paused mds)),
    append_assoc l.effects (map pause_effect (select is_paused (md ∷ [])))
        (map pause_effect (select is_paused mds)),
  )

  visit_all-after :
      (mds : List Target) (l : Loop F) → visit_all F spec spends writes now mds l ≡ after mds l
  unfolding visit_all
  visit_all-after [] l =
      ground (arith, append-nil l.paused_names, append-nil l.effects, append-nil l.affected)
  visit_all-after (md ∷ mds) l =
      visit_all-after mds (visit F spec spends writes now md l)
      ∙ (ap (after mds) (visit-one md l) ∙ after-one md mds l)

  -- A run that finds its policy, the spends and the deployments of the namespace pauses, among all
  -- deployments of the namespace and in their order, exactly those whose spend of today has reached
  -- the daily cap, if the policy pauses, and whose update succeeds: the phase is "BudgetPaused" and
  -- the time is set. It reports the sum of all spends, the names of all deployments, and as paused
  -- just those, and comes back in five minutes; if the report cannot be written, the run fails.
  pub reconcile_policy_lem :
      (mds : List Target) (report_writes : Bool) (answer : Answer)
      → query_today_spend F answer ≡ some spends
      → reconcile_policy F (some mds) writes report_writes now (policy_found spec) answer ≡ (
        (if report_writes then requeue_minutes 5 else failed),
        map pause_effect (select is_paused mds)
            ++ (if report_writes
                then status_written (status_of F spec (after mds (no_loop F))) ∷ []
                else []),
      )
  unfolding reconcile_policy with_spends with_targets publish
  reconcile_policy_lem mds true answer e = rw (e, visit_all-after mds (no_loop F)) refl
  reconcile_policy_lem mds false answer e =
      rw (e, visit_all-after mds (no_loop F))
        (ap (λ (es : List (Effect F)). (failed, es))
          (sym (append-nil (map pause_effect (select is_paused mds)))))
