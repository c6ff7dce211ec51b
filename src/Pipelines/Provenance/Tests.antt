-- ===== src/Pipelines/Provenance/Tests.antt =====
-- A deploy from a changed working tree.
use stardelt_nova.Prelude.{◌≡◌, refl, ◌↔◌, some}
use stardelt_nova.Prelude.Results.{ok}
use stardelt_nova.Pipelines.Provenance.{Provenance, check_provenance, hex_of, strip_end}
use stardelt_nova.Pipelines.Provenance.Laws.{IsProvenance, check_provenance_iff}

abbrev deploy : Provenance
deploy = record { bundle = "sales"; target = "prod"; revision = some "0123abc-dirty" }

hex : hex_of "0123abc-dirty" ≡ "0123abc"
unfolding hex_of strip_end
hex = refl

check_provenance_iff_example : (check_provenance deploy ≡ ok tt) ↔ IsProvenance deploy
check_provenance_iff_example = check_provenance_iff deploy
