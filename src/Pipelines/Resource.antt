-- ===== src/Pipelines/Resource.antt =====
-- What backend/src/pipelines.rs reads from the `Pipeline` resource, a `serde_json::Value`. The
-- methods of `Value` are a parameter.
use stardelt_nova.Prelude.{
  String, Bool, true, false, Option, none, some, ◌>>=◌, str_eq, if◌then◌else◌,
}
use stardelt_nova.Map.{contains}
use stardelt_nova.Identity.{Identity}
use stardelt_nova.Values.{ValueApi}

abbrev pub managed_by_label : String
managed_by_label = "app.kubernetes.io/managed-by"

abbrev pub managed_by_nova : String
managed_by_nova = "stardelt-nova"

module _ {V : Type 0} (api : ValueApi V) where
  abbrev or_else : {A : Type 0} → Option A → A → A
  or_else none a = a
  or_else (some b) a = b

  unfoldable pub spec_of : V → V
  spec_of resource = or_else (api.get resource "spec") resource

  abbrev in_groups : Identity → Option String → Bool
  in_groups who none = false
  in_groups who (some g) = contains who.groups g

  unfoldable pub visible : Identity → V → Bool
  visible who spec =
      if who.is_admin then true else in_groups who (do v ← api.get spec "ownerGroup"; api.as_str v)

  unfoldable pub may_act : Identity → V → Bool
  may_act who spec = visible who spec

  abbrev is_nova : Option String → Bool
  is_nova none = false
  is_nova (some label) = str_eq label managed_by_nova

  unfoldable pub nova_managed : V → Bool
  nova_managed resource = is_nova (do
    metadata ← api.get resource "metadata"
    labels ← api.get metadata "labels"
    label ← api.get labels managed_by_label
    api.as_str label)

  unfoldable pub concurrency_of : V → String
  concurrency_of spec = or_else (do v ← api.get spec "concurrency"; api.as_str v) "Forbid"
