-- ===== src/AdminCatalogs/Update/Laws.antt =====
-- What a change of access leaves behind.
use stardelt_nova.Prelude.{
  ℕ, ◌+◌, String, ◌≡◌, refl, Bool, true, false, not, ◌&&◌, Option, none, some, unwrap_or, List, [],
  ◌∷◌, ◌++◌, map, length, str_eq, Bool-cases, inl, inr,
}
use stardelt_nova.Prelude.Results.{Result, ok, err, Result-cases}
use stardelt_nova.Values.{ValueApi}
use stardelt_nova.Identity.{Identity}
use stardelt_nova.Limiter.{Limiter, take_access_change_slot}
use stardelt_nova.Pipelines.Answers.{Fail}
use stardelt_nova.AdminCatalogs.Types.{CatalogGrant, CatalogAccessUpdate}
use stardelt_nova.AdminCatalogs.Validate.{validate_access}
use stardelt_nova.AdminCatalogs.Validate.Laws.{IsAcceptable, validate_access_iff}
use stardelt_nova.AdminCatalogs.Rows.{NumberApi, row_from_object}
use stardelt_nova.AdminCatalogs.Pairs.{
  Pair, pair_of, contains, pairs_of, contains-pairs_of, contains-difference, length-difference,
}
use stardelt_nova.AdminCatalogs.Demo.{
  audit_change, changed_row, Desk, Answer, current_row, demo_update,
}
use stardelt_nova.AdminCatalogs.Update.{
  valid_catalog, patch_fail, CatalogResources, patch_object, change_object, change_access,
  update_access,
}

-- The change may be made: the name and the body are valid and the caller has a slot.
pub record IsPermitted (desk : Desk) (now : ℕ) (name : String) (update : CatalogAccessUpdate)
    (who : Identity) : Type 0 where
  pub name_ok : valid_catalog name ≡ true
  pub acceptable : IsAcceptable update
  pub granted : (take_access_change_slot desk.limiter now who.sub).1 ≡ true

-- What a call makes of the desk: nothing but in the limiter; a patch that the cluster rejects; or a
-- change, in the demo or in the cluster, with one line of the audit about the row it replaces.
pub data IsEffect {V : Type 0} (api : ValueApi V) (numbers : NumberApi V)
    (cluster : Option (CatalogResources V)) (desk : Desk) (now : ℕ) (name : String)
    (update : CatalogAccessUpdate) (who : Identity) : Desk × Answer → Type 0 where
  refused :
      (fail : Fail) (limiter : Limiter)
      → IsEffect api numbers cluster desk now name update who (
        record {
          limiter = limiter;
          demo_catalog = desk.demo_catalog;
          patches = desk.patches;
          audit = desk.audit;
        },
        err fail,
      )
  rejected :
      (resources : CatalogResources V) (code : Option ℕ)
      → cluster ≡ some resources
      → resources.patch name update ≡ err code
      → IsPermitted desk now name update who
      → IsEffect api numbers cluster desk now name update who (
        record {
          limiter = (take_access_change_slot desk.limiter now who.sub).0;
          demo_catalog = desk.demo_catalog;
          patches = desk.patches ++ (name, update) ∷ [];
          audit = desk.audit;
        },
        err (patch_fail code),
      )
  changed_demo :
      cluster ≡ none
      → IsPermitted desk now name update who
      → IsEffect api numbers cluster desk now name update who (
        record {
          limiter = (take_access_change_slot desk.limiter now who.sub).0;
          demo_catalog = some (changed_row (current_row desk) update);
          patches = desk.patches;
          audit =
              desk.audit
              ++ audit_change who name
                  (current_row desk).owner
                  update.owner
                  (current_row desk).grants
                  update.grants
                ∷ [];
        },
        ok (changed_row (current_row desk) update),
      )
  changed_cluster :
      (resources : CatalogResources V) (object after : V)
      → cluster ≡ some resources
      → resources.get_opt name ≡ ok (some object)
      → resources.patch name update ≡ ok after
      → IsPermitted desk now name update who
      → IsEffect api numbers cluster desk now name update who (
        record {
          limiter = (take_access_change_slot desk.limiter now who.sub).0;
          demo_catalog = desk.demo_catalog;
          patches = desk.patches ++ (name, update) ∷ [];
          audit =
              desk.audit
              ++ audit_change who name
                  (row_from_object api numbers object).owner
                  update.owner
                  (row_from_object api numbers object).grants
                  update.grants
                ∷ [];
        },
        ok (row_from_object api numbers after),
      )

module _ (desk : Desk) (now : ℕ) (name : String) (update : CatalogAccessUpdate) (who : Identity)
    (name_ok : valid_catalog name ≡ true) (acceptable : IsAcceptable update) where
  permitted :
      (take_access_change_slot desk.limiter now who.sub).1 ≡ true
      → IsPermitted desk now name update who
  permitted granted = record { name_ok = name_ok; acceptable = acceptable; granted = granted }

  demo_update-IsEffect :
      {V : Type 0} (api : ValueApi V) (numbers : NumberApi V)
      → IsEffect api numbers none desk now name update who (demo_update desk now name update who)
  unfolding demo_update
  demo_update-IsEffect api numbers = elim (Bool-cases (not (str_eq (current_row desk).name name))) [
    | inl other ↦ rw (demo_update, other) (refused _ desk.limiter)
    | inr here ↦
        elim (Bool-cases (
          not
            (str_eq update.resource_version (unwrap_or "1" (current_row desk).resource_version)))) [
              | inl stale ↦ rw (demo_update, here, stale) (refused _ desk.limiter)
              | inr current ↦
                  elim (Bool-cases (take_access_change_slot desk.limiter now who.sub).1) [
                    | inl granted ↦
                        rw (demo_update, here, current, granted)
                          (changed_demo refl (permitted granted))
                    | inr spent ↦ rw (demo_update, here, current, spent) (refused _ _)
                  ]
            ]
  ]

  module _ {V : Type 0} (api : ValueApi V) (numbers : NumberApi V) where
    change_object-IsEffect :
        (resources : CatalogResources V) (got : Result String (Option V))
        → resources.get_opt name ≡ got
        → IsEffect api numbers
            (some resources)
            desk
            now
            name
            update
            who
            (change_object api numbers resources desk now name update who got)
    unfolding change_object patch_object
    change_object-IsEffect resources (err e) read = refused _ desk.limiter
    change_object-IsEffect resources (ok none) read = refused _ desk.limiter
    change_object-IsEffect resources (ok (some object)) read =
        elim (Bool-cases (take_access_change_slot desk.limiter now who.sub).1) [
          | inl granted ↦ elim (Result-cases (resources.patch name update)) [
            | inl (code, failed) ↦
                rw (granted, patch_object, failed)
                  (rejected resources code refl failed (permitted granted))
            | inr (after, patched) ↦
                rw (granted, patch_object, patched)
                  (changed_cluster resources object after refl read patched (permitted granted))
          ]
          | inr spent ↦ rw spent (refused _ _)
        ]

    change_access-IsEffect :
        (cluster : Option (CatalogResources V)) (demo : Bool)
        → IsEffect api numbers cluster desk now name update who
            (change_access api numbers cluster demo desk now name update who)
    unfolding change_access
    change_access-IsEffect none true = demo_update-IsEffect api numbers
    change_access-IsEffect none false = refused _ desk.limiter
    change_access-IsEffect (some resources) demo =
        change_object-IsEffect resources (resources.get_opt name) refl

-- A change of a catalog has one of four effects: a refusal touches nothing but the limiter; a
-- patch that the cluster rejects leaves no audit line; a change in the demo or in the cluster
-- writes exactly one line, from the row that it replaces (in the cluster that of the object that
-- was read before the patch) to the change; and a patch is sent and a row is changed only for a
-- valid name, an acceptable body and a caller who has a slot.
pub update_access-IsEffect :
    {V : Type 0} (api : ValueApi V) (numbers : NumberApi V) (cluster : Option (CatalogResources V))
    (demo : Bool) (desk : Desk) (now : ℕ) (name : String) (update : CatalogAccessUpdate)
    (who : Identity)
    → IsEffect api numbers cluster desk now name update who
        (update_access api numbers cluster demo desk now name update who)
unfolding update_access
update_access-IsEffect api numbers cluster demo desk now name update who =
    elim (Bool-cases (valid_catalog name)) [
      | inr bad ↦ rw (update_access, bad) (refused _ desk.limiter)
      | inl good ↦ elim (Result-cases (validate_access update)) [
        | inl (fail, failed) ↦ rw (update_access, good, failed) (refused fail desk.limiter)
        | inr (done, valid) ↦
            rw (update_access, good, valid)
              (change_access-IsEffect desk now name update who good
                ((validate_access_iff update).0 valid) api numbers cluster demo)
      ]
    ]

-- The line lists as added the pairs that are new, as removed those that are gone, and counts the
-- others.
pub audit_change-pairs :
    (who : Identity) (catalog : String) (owner : Option String) (new : String)
    (before after : List CatalogGrant) (q : Pair)
    → let line = audit_change who catalog owner new before after in
      (contains line.added q
        ≡ (contains (map pair_of after) q && not (contains (map pair_of before) q)))
      × (contains line.removed q
          ≡ (contains (map pair_of before) q && not (contains (map pair_of after) q)))
      × (length line.removed + line.unchanged ≡ length (pairs_of before))
unfolding audit_change
audit_change-pairs who catalog owner new before after q = (
  rw (← contains-pairs_of q after, ← contains-pairs_of q before)
      (contains-difference q (pairs_of after) (pairs_of before)),
  rw (← contains-pairs_of q after, ← contains-pairs_of q before)
      (contains-difference q (pairs_of before) (pairs_of after)),
  length-difference (pairs_of before) (pairs_of after),
)
