-- ===== src/Auth/Returns.antt =====
-- What sign-in takes over from a request: `safe_return_to` and `sanitize_code` of
-- backend/src/auth.rs.
pub mod Laws
mod Tests
use stardelt_nova.Prelude.{
  ℕ, zero, suc, code, String, Bool, false, not, ◌&&◌, ◌||◌, Option, none, some, ltb, leb, ◌==◌,
  if◌then◌else◌,
}
use stardelt_nova.Text.{byte_len, is_alnum, has_char}
use stardelt_nova.Text.Prefix.{starts_with}

-- `char::is_control`.
unfoldable pub is_control : ℕ → Bool
is_control c = ltb c 32 || (leb 127 c && leb c 159)

-- `s.chars().any(|c| c.is_control())`.
unfoldable pub has_control : String → Bool
unfolding is_control
has_control String.[] = false
has_control (String.◌∷◌ c s) = is_control (code c) || has_control s

unfoldable pub is_safe : String → Bool
unfolding starts_with has_char has_control byte_len
is_safe p =
    starts_with p "/"
    && not (starts_with p "//")
    && not (has_char 92 p)
    && not (has_control p)
    && leb (byte_len p) 2048
    && not (starts_with p "/api/auth/")

unfoldable pub safe_return_to : Option String → String
unfolding is_safe
safe_return_to none = "/"
safe_return_to (some p) = if is_safe p then p else "/"

-- `take(n)` of the characters that pass.
unfoldable pub take_filtered : ℕ → (ℕ → Bool) → String → String
take_filtered zero p s = ""
take_filtered (suc n) p String.[] = ""
take_filtered (suc n) p (String.◌∷◌ c s) =
    let kept = String.◌∷◌ c (take_filtered n p s) in
    let passed = take_filtered (suc n) p s in if p (code c) then kept else passed

abbrev pub is_code_char : ℕ → Bool
is_code_char c = is_alnum c || c == b'_'

unfoldable pub sanitize_code : String → String
unfolding take_filtered is_alnum
sanitize_code s = take_filtered 64 is_code_char s
