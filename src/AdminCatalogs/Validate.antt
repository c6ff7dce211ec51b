-- ===== src/AdminCatalogs/Validate.antt =====
-- The rules on the body of a change: `validate_access` of backend/src/admin_catalogs.rs.
pub mod Laws
mod Tests
use stardelt_nova.Prelude.{String, Bool, not, List, [], ◌∷◌, ◌++◌, leb, length}
use stardelt_nova.Prelude.Results.{Result, ok, err, ◌>>=◌, ◌>>◌, guard}
use stardelt_nova.Text.{◌&◌, is_empty}
use stardelt_nova.Map.{contains as has_text}
use stardelt_nova.Names.{group_ok}
use stardelt_nova.Pipelines.Answers.{Fail}
use stardelt_nova.AdminCatalogs.Types.{
  CatalogGrant, CatalogAccessUpdate, verbs, bad_request, group_sentence,
}
use stardelt_nova.AdminCatalogs.Pairs.{Pair, pair_of, contains}

-- `valid_group` of the catalog administration, which is `group_ok` written once more.
abbrev pub valid_group : String → Bool
valid_group group = group_ok group

-- The loop, with the pairs that it has seen.
unfoldable pub check_grants : List Pair → List CatalogGrant → Result Fail (Unit {0})
unfolding contains
check_grants seen [] = ok tt
check_grants seen (grant ∷ grants) = do
  guard (valid_group grant.group) (bad_request group_sentence)
  guard (has_text verbs grant.verb)
      (bad_request ("unknown verb " & grant.verb & "; use browse, select, write, create or manage"))
  guard (not (contains seen (pair_of grant)))
      (bad_request (grant.group & " appears twice with " & grant.verb))
  check_grants (pair_of grant ∷ seen) grants

unfoldable pub validate_access : CatalogAccessUpdate → Result Fail (Unit {0})
unfolding check_grants
validate_access update = do
  guard (not (is_empty update.owner)) (bad_request "the owner is one group name")
  guard (valid_group update.owner) (bad_request group_sentence)
  guard (leb (length update.grants) 50) (bad_request "at most 50 grants")
  check_grants [] update.grants
