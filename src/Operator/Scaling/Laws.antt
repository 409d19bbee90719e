-- ===== src/Operator/Scaling/Laws.antt =====
-- Runs of operator/internal/scaling/keda.go one after the other.
use openserve.Prelude.{Bytes, Bool, true, false, List, [], ◌∷◌, ◌≡◌, refl, subst, arith}
use openserve.Operator.Types.{ScaledObjectSpec}
use openserve.Operator.Scaling.{
  ScaledObject, Got, existing, absent, get_error, reconcile_object, desired_object,
}

written_only :
    (x o : ScaledObject) → Path (Bool × List ScaledObject) (true, x ∷ []) (true, o ∷ []) → x ≡ o
written_only x o e = ground arith

-- A second run finds the object as it should be.
abbrev Settled : Bytes → ScaledObjectSpec → ScaledObject → Type 0
Settled owner s o =
    Path (Bool × List ScaledObject) (true, record o { spec = (desired_object owner s).spec } ∷ [])
      (true, o ∷ [])

-- A run that writes an object leaves nothing for the next one to change: that one finds the object
-- and writes it as it is.
pub reconcile_object_again :
    (owner : Bytes) (s : ScaledObjectSpec) (creates updates again : Bool) (got : Got)
    (o : ScaledObject)
    → reconcile_object owner s creates updates got ≡ (true, o ∷ [])
    → reconcile_object owner s again true (existing o) ≡ (true, o ∷ [])
unfolding reconcile_object desired_object
reconcile_object_again owner s true updates again absent o e =
    subst (Settled owner s) (written_only (desired_object owner s) o e) refl
reconcile_object_again owner s false updates again absent o e = ground arith
reconcile_object_again owner s creates updates again get_error o e = ground arith
reconcile_object_again owner s creates true again (existing old) o e =
    subst (Settled owner s) (written_only (record old { spec = (desired_object owner s).spec }) o e)
      refl
reconcile_object_again owner s creates false again (existing old) o e = ground arith
