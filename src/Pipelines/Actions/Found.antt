-- ===== src/Pipelines/Actions/Found.antt =====
-- What an action finds: the resource of the caller's own namespace that the caller may act on.
use stardelt_nova.Prelude.{◌≡◌, refl, String, true, Option, none, some, arith, str_eq, eq_iff}
use stardelt_nova.Prelude.Results.{map_err-eq-ok, ok, >>=-eq-ok, map_err, guard}
use stardelt_nova.Identity.{Identity}
use stardelt_nova.Airflow.{dag_id_for}
use stardelt_nova.Values.{ValueApi}
use stardelt_nova.Pipelines.Resource.{spec_of, may_act}
use stardelt_nova.Pipelines.Answers.{Fail, no_such_pipeline, resource_fail}
use stardelt_nova.Pipelines.Actions.Checks.{
  PipelineResources, need, found, load_allowed, load_actionable,
}

pub need-eq-ok : {A : Type 0} (fail : Fail) (o : Option A) (a : A) → need fail o ≡ ok a → o ≡ some a
need-eq-ok fail none a h = cc
need-eq-ok fail (some b) a h = cc

pub found-eq-ok :
    {A : Type 0} (fail : Fail) (o : Option A) (a : A) → found fail o ≡ ok a → o ≡ some a
found-eq-ok fail none a h = cc
found-eq-ok fail (some b) a h = cc

module _ {V : Type 0} (api : ValueApi V) (who : Identity) (namespace name : String) where
  -- The resource that an action of `who` finds.
  pub record IsFound (own_namespace : String) (resources : PipelineResources V) (resource : V)
      : Type 0 where
    pub own : namespace ≡ own_namespace
    pub stored : resources.get name ≡ ok (some resource)
    pub allowed : may_act api who (spec_of api resource) ≡ true

  -- A resource that is answered was found.
  pub load_actionable-IsFound :
      (own_namespace : String) (resources : PipelineResources V) (target : String × V)
      → load_actionable api who own_namespace resources namespace name ≡ ok target
      → (target.0 ≡ dag_id_for namespace name) × IsFound own_namespace resources (target.1)
  unfolding load_actionable load_allowed
  load_actionable-IsFound own_namespace resources target h =
      let h0 = map_err-eq-ok _ _ h in
      let (_, here, h1) =
        >>=-eq-ok (guard (str_eq namespace own_namespace) no_such_pipeline) _ h0 in
      let (answer, got, h2) = >>=-eq-ok (map_err resource_fail (resources.get name)) _ h1 in
      let (resource, there, h3) = >>=-eq-ok (found no_such_pipeline answer) _ h2 in
      let (_, may, h4) =
        >>=-eq-ok (guard (may_act api who (spec_of api resource)) no_such_pipeline) _ h3 in
      let e : answer ≡ some resource = found-eq-ok no_such_pipeline answer resource there in
      let stored = map_err-eq-ok resource_fail (resources.get name) got in
      let whole : (dag_id_for namespace name, resource) ≡ target = cc in
      rw (← whole) (
        refl,
        record {
          own = (eq_iff namespace own_namespace).0 (ground arith);
          stored = cc;
          allowed = ground arith;
        },
      )

  -- A resource that is found is answered.
  pub load_actionable_found :
      (own_namespace : String) (resources : PipelineResources V) (resource : V)
      → IsFound own_namespace resources resource
      → load_actionable api who own_namespace resources namespace name
        ≡ ok (dag_id_for namespace name, resource)
  unfolding load_actionable load_allowed
  load_actionable_found own_namespace resources resource f =
      let here : str_eq namespace own_namespace ≡ true = (eq_iff namespace own_namespace).1 f.own in
      rw (here, f.stored, f.allowed)
