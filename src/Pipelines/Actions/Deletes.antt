-- ===== src/Pipelines/Actions/Deletes.antt =====
-- When an action deletes a pipeline.
use stardelt_nova.Prelude.{◌≡◌, ◌⊎◌, inl, inr, String, true, some, [], ◌∷◌, ◌++◌, arith}
use stardelt_nova.Prelude.Results.{ok, >>=-eq-ok, guard, Result-cases}
use stardelt_nova.Identity.{Identity}
use stardelt_nova.Values.{ValueApi}
use stardelt_nova.Pipelines.Resource.{nova_managed}
use stardelt_nova.Pipelines.Answers.{refusal, no_cluster, managed_outside}
use stardelt_nova.Pipelines.Actions.{delete_pipeline, delete_pipeline_inner}
use stardelt_nova.Pipelines.Actions.Checks.{
  Services, PipelineResources, need, ready_to_delete, load_actionable,
}
use stardelt_nova.Pipelines.Actions.Handler.{World, delete_resource, send, audited}
use stardelt_nova.Pipelines.Actions.Found.{
  IsFound, need-eq-ok, load_actionable-IsFound, load_actionable_found,
}

module _ {V : Type 0} (api : ValueApi V) (services : Services V) (who : Identity)
    (namespace name : String) where
  -- The pipeline may be deleted: the caller may act on it, and Nova wrote it.
  pub record IsDeletable : Type 0 where
    pub resources : PipelineResources V
    pub resource : V
    pub has_cluster : services.resources ≡ some resources
    pub is_found : IsFound api who namespace name services.own_namespace resources resource
    pub is_nova : nova_managed api resource ≡ true

  ready_to_delete-IsDeletable :
      (resources : PipelineResources V)
      → ready_to_delete api who services namespace name ≡ ok resources
      → IsDeletable
  unfolding ready_to_delete
  ready_to_delete-IsDeletable resources h =
      let (resources, e1, h1) = >>=-eq-ok (need no_cluster services.resources) _ h in
      let (target, e2, h2) =
        >>=-eq-ok (load_actionable api who services.own_namespace resources namespace name) _ h1 in
      let (_, e3, h3) =
        >>=-eq-ok (guard (nova_managed api target.1) (refusal "not-nova" managed_outside)) _ h2 in
      let (id, f) =
        load_actionable-IsFound api who namespace name services.own_namespace resources target e2 in
      record {
        resources = resources;
        resource = target.1;
        has_cluster = need-eq-ok _ _ _ e1;
        is_found = f;
        is_nova = ground arith;
      }

  deletable : (d : IsDeletable) → ready_to_delete api who services namespace name ≡ ok d.resources
  unfolding ready_to_delete
  deletable d = rw (
    d.has_cluster,
    load_actionable_found api who namespace name services.own_namespace d.resources d.resource
        d.is_found,
    d.is_nova,
  )

  -- The delete of this pipeline is sent exactly when the pipeline may be deleted, that is when
  -- the caller may act on it and Nova wrote it; otherwise the calls stay as they were.
  pub delete_pipeline-calls :
      (w : World)
      → (IsDeletable
          × ((delete_pipeline api services who namespace name w).0.calls
              ≡ w.calls ++ delete_resource name ∷ []))
        ⊎ (¬ IsDeletable × ((delete_pipeline api services who namespace name w).0.calls ≡ w.calls))
  unfolding delete_pipeline audited delete_pipeline_inner send
  delete_pipeline-calls w = elim (Result-cases (ready_to_delete api who services namespace name)) [
    | inl (problem, e) ↦ inr (λ d. cc (deletable d), rw e)
    | inr (resources, e) ↦ inl (ready_to_delete-IsDeletable resources e, rw e)
  ]
