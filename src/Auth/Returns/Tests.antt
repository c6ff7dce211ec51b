-- ===== src/Auth/Returns/Tests.antt =====
-- Places to return to, and an error code.
use stardelt_nova.Prelude.{◌≡◌, refl, ◌≤◌, ◌↔◌, true, some}
use stardelt_nova.Text.{all_chars}
use stardelt_nova.Auth.Returns.{safe_return_to, sanitize_code, is_code_char}
use stardelt_nova.Auth.Returns.Laws.{
  IsLocal, safe_return_to-IsLocal, char_count, sanitize_code_bounds,
}

inside : safe_return_to (some "/query?q=1") ≡ "/query?q=1"
unfolding safe_return_to stardelt_nova.Text.strip_prefix stardelt_nova.Text.byte_len
inside = refl

elsewhere : safe_return_to (some "//evil.example") ≡ "/"
unfolding safe_return_to stardelt_nova.Text.strip_prefix stardelt_nova.Text.byte_len
elsewhere = refl

code_kept : sanitize_code "invalid_<grant>" ≡ "invalid_grant"
unfolding sanitize_code
code_kept = refl

safe_return_to-IsLocal_example :
    IsLocal (safe_return_to (some "//evil.example"))
    × ((safe_return_to (some "/query?q=1") ≡ "/query?q=1") ↔ IsLocal "/query?q=1")
safe_return_to-IsLocal_example = safe_return_to-IsLocal (some "//evil.example") "/query?q=1"

sanitize_code_bounds_example :
    (char_count (sanitize_code "invalid_<grant>") ≤ 64)
    × (all_chars is_code_char (sanitize_code "invalid_<grant>") ≡ true)
    × (sanitize_code (sanitize_code "invalid_<grant>") ≡ sanitize_code "invalid_<grant>")
sanitize_code_bounds_example = sanitize_code_bounds "invalid_<grant>"
