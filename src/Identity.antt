-- ===== src/Identity.antt =====
-- Who is signed in: `Identity` of backend/src/auth.rs, with the fields that a decision reads.
use stardelt_nova.Prelude.{String, Bool, Option, List}

pub record Identity : Type 0 where
  pub sub : String
  pub display_name : String
  pub email : Option String
  pub name : Option String
  pub groups : List String
  pub roles : List String
  pub groups_overage : Bool
  pub is_admin : Bool
