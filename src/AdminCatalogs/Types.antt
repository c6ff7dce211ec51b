-- ===== src/AdminCatalogs/Types.antt =====
-- A catalog as an administrator sees it, the change of its access, and the refusals.
use stardelt_nova.Prelude.{String, Bool, Option, List, [], ◌∷◌}
use stardelt_nova.Prelude.Int.{ℤ}
use stardelt_nova.Pipelines.Answers.{Fail}

pub record CatalogGrant : Type 0 where
  pub group : String
  pub verb : String

-- The field `kind` is the source's `type`.
pub record CatalogCondition : Type 0 where
  pub kind : String
  pub status : String
  pub reason : Option String
  pub message : Option String

pub record AdminCatalog : Type 0 where
  pub name : String
  pub layer : Option String
  pub display_name : Option String
  pub description : Option String
  pub owner : Option String
  pub managed_access : Bool
  pub key_prefix : Option String
  pub phase : String
  pub warehouse_id : Option String
  pub generation : Option ℤ
  pub observed_generation : Option ℤ
  pub resource_version : Option String
  pub grants : List CatalogGrant
  pub conditions : List CatalogCondition

pub record CatalogAccessUpdate : Type 0 where
  pub resource_version : String
  pub owner : String
  pub managed_access : Bool
  pub grants : List CatalogGrant

abbrev pub verbs : List String
verbs = "browse" ∷ "select" ∷ "write" ∷ "create" ∷ "manage" ∷ []

abbrev pub bad_request : String → Fail
bad_request message = record { status = 400; message = message }

abbrev pub no_such_catalog : Fail
no_such_catalog = record { status = 404; message = "no such catalog" }

abbrev pub catalog_changed : Fail
catalog_changed = record {
  status = 409;
  message = "this catalog changed since you opened it; reload";
}

abbrev pub too_many_changes : Fail
too_many_changes = record { status = 429; message = "too many catalog changes this hour; wait" }

abbrev pub cluster_unavailable : Fail
cluster_unavailable = record { status = 502; message = "the cluster did not answer" }

abbrev pub cluster_unreachable : Fail
cluster_unreachable = record { status = 503; message = "the cluster is not reachable from Nova" }

abbrev pub group_sentence : String
group_sentence = "a group name is letters, digits, dots, dashes and underscores (up to 64)"
