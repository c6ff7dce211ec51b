-- ===== src/Connections/Access/Laws.antt =====
-- Exactly what `authorize` permits.
use stardelt_nova.Prelude.{String, ◌≡◌, refl, ◌↔◌, Bool, true, false, Option, none, some, arith}
use stardelt_nova.Prelude.Results.{ok}
use stardelt_nova.Map.{contains}
use stardelt_nova.Identity.{Identity}
use stardelt_nova.Connections.Types.{
  Scope, personal, group, managed, Action, delete, StoreScope, of_person, of_group,
  of_administrators,
}
use stardelt_nova.Connections.Access.{authorize}

-- The permissions of decision D27: everybody has their own prefix, a member has the group's, an
-- administrator may delete there, and only administrators have the managed part.
pub data MayUse (who : Identity) (owner : Option String) (action : Action) (place : StoreScope)
    : Scope → Type 0 where
  own : place ≡ of_person who.sub → MayUse who owner action place personal
  member :
      (g : String)
      → owner ≡ some g
      → contains who.groups g ≡ true
      → place ≡ of_group g
      → MayUse who owner action place group
  incident :
      (g : String)
      → owner ≡ some g
      → who.is_admin ≡ true
      → action ≡ delete
      → place ≡ of_group g
      → MayUse who owner action place group
  administrator :
      who.is_admin ≡ true → place ≡ of_administrators → MayUse who owner action place managed

module _ (who : Identity) (action : Action) (place : StoreScope) where
  sound :
      (scope : Scope) (owner : Option String)
      → authorize who scope owner action ≡ ok place
      → MayUse who owner action place scope
  unfolding authorize
  sound personal owner h = own (ground arith)
  sound group none h = cc
  sound group (some g) h = by_membership (contains who.groups g) refl
    where
      by_membership :
          (b : Bool) → contains who.groups g ≡ b → MayUse who (some g) action place group
      by_membership true e = member g refl e (ground arith)
      by_membership false e = incident g refl (ground arith) (ground arith) (ground arith)
  sound managed owner h = administrator (ground arith) (ground arith)

  complete :
      (scope : Scope) (owner : Option String)
      → MayUse who owner action place scope
      → authorize who scope owner action ≡ ok place
  unfolding authorize
  complete personal owner (own e) = cc
  complete group owner (member g o m e) = rw o (ground arith)
  complete group owner (incident g o a d e) = rw (o, d) (ground arith)
  complete managed owner (administrator a e) = ground arith

-- An action is authorized exactly for the part of the store that decision D27 gives to the
-- caller: never another person's prefix, a group only to its members or to an administrator who
-- deletes, the managed part only to administrators.
pub authorize_iff :
    (who : Identity) (scope : Scope) (owner : Option String) (action : Action) (place : StoreScope)
    → (authorize who scope owner action ≡ ok place) ↔ MayUse who owner action place scope
authorize_iff who scope owner action place =
    (sound who action place scope owner, complete who action place scope owner)
