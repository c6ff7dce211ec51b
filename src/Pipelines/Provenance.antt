-- ===== src/Pipelines/Provenance.antt =====
-- What a deploy may stamp on a pipeline: `dashed_name` and `check_provenance` of
-- backend/src/pipelines.rs.
pub mod Revision
pub mod Laws
mod Tests
use stardelt_nova.Prelude.{
  ℕ, code, String, Bool, true, false, not, ◌&&◌, ◌||◌, Option, none, some, leb, ◌==◌, str_eq,
  if◌then◌else◌,
}
use stardelt_nova.Prelude.Results.{Result, ok, err, ◌>>=◌, ◌>>◌, guard}
use stardelt_nova.Text.{is_lower, is_digit, all_chars, head_is, last_is, byte_len}

pub record Provenance : Type 0 where
  pub bundle : String
  pub target : String
  pub revision : Option String

abbrev pub is_dash : ℕ → Bool
is_dash c = c == b'-'

unfoldable pub is_dashed_byte : ℕ → Bool
is_dashed_byte c = is_lower c || is_digit c || c == b'-'

unfoldable pub dashed_name : String → ℕ → ℕ → Bool
unfolding is_dashed_byte
dashed_name text shortest longest =
    (leb shortest (byte_len text) && leb (byte_len text) longest)
    && all_chars is_dashed_byte text
    && not (head_is is_dash text)
    && not (last_is is_dash text)

-- `s.strip_suffix(suffix)`.
unfoldable pub strip_end : String → String → Option String
strip_end suffix String.[] = if str_eq "" suffix then some "" else none
strip_end suffix (String.◌∷◌ c s) =
    let rest = strip_end suffix s in
    if str_eq (String.◌∷◌ c s) suffix
    then some ""
    else elim rest [ none ↦ none | some front ↦ some (String.◌∷◌ c front) ]

unfoldable pub hex_of : String → String
hex_of revision = elim (strip_end "-dirty" revision) [ none ↦ revision | some hex ↦ hex ]

unfoldable pub is_hex_byte : ℕ → Bool
is_hex_byte c = is_digit c || (leb b'a' c && leb c b'f')

unfoldable pub plain_revision : String → Bool
unfolding is_hex_byte
plain_revision revision =
    (leb 7 (byte_len (hex_of revision)) && leb (byte_len (hex_of revision)) 64)
    && all_chars is_hex_byte (hex_of revision)

abbrev pub revision_ok : Option String → Bool
revision_ok none = true
revision_ok (some revision) = plain_revision revision

unfoldable pub check_provenance : Provenance → Result String (Unit {0})
check_provenance p = do
  guard (dashed_name p.bundle 3 40)
      "the bundle name must be 3 to 40 lower-case letters, digits and dashes"
  guard (dashed_name p.target 1 32)
      "the target must be 1 to 32 lower-case letters, digits and dashes"
  guard (revision_ok p.revision)
      "the revision must be 7 to 64 hex digits, with -dirty appended when the working tree had uncommitted changes"
