-- ===== src/Names.antt =====
-- The rules for names that the routes check before anything else: connections and their fields
-- (backend/src/connections.rs, backend/src/secret_store.rs), groups (backend/src/admin_catalogs.rs
-- too), pipelines and their parameters (backend/src/pipelines.rs).
use stardelt_nova.Prelude.{ℕ, String, Bool, ◌&&◌, ◌||◌, not, leb, ◌==◌}
use stardelt_nova.Text.{
  byte_len, is_lower, is_digit, is_alpha, is_alnum, all_chars, head_is, last_is, is_empty,
}

abbrev is_dash : ℕ → Bool
is_dash b = b == b'-'

unfoldable pub is_name_byte : ℕ → Bool
unfolding is_lower is_digit
is_name_byte b = is_lower b || is_digit b || is_dash b

unfoldable pub is_group_byte : ℕ → Bool
unfolding is_alnum
is_group_byte b = is_alnum b || b == b'.' || b == b'_' || b == b'-'

unfoldable pub is_sub_byte : ℕ → Bool
unfolding is_alnum
is_sub_byte b = is_alnum b || b == b'_' || b == b'-' || b == b'.' || b == b':' || b == b'@'

unfoldable pub is_key_byte : ℕ → Bool
unfolding is_alnum
is_key_byte b = is_alnum b || b == b'_'

-- `valid_connection_name`.
unfoldable pub valid_connection_name : String → Bool
unfolding is_lower is_name_byte all_chars head_is last_is
valid_connection_name s =
    not (is_empty s)
    && leb (byte_len s) 40
    && head_is is_lower s
    && not (last_is is_dash s)
    && all_chars is_name_byte s

-- `validate_name` of a pipeline: the same rule, written once more.
unfoldable pub valid_pipeline_name : String → Bool
unfolding is_lower is_name_byte all_chars head_is last_is
valid_pipeline_name s =
    not (is_empty s)
    && leb (byte_len s) 40
    && head_is is_lower s
    && not (last_is is_dash s)
    && all_chars is_name_byte s

-- `key_ok`: the name of a secret field.
unfoldable pub key_ok : String → Bool
unfolding is_alpha is_key_byte all_chars head_is
key_ok k = not (is_empty k) && leb (byte_len k) 63 && head_is is_alpha k && all_chars is_key_byte k

-- `setting_name_ok`.
unfoldable pub setting_name_ok : String → Bool
unfolding is_alpha is_alnum all_chars head_is
setting_name_ok k =
    not (is_empty k)
    && leb (byte_len k) 63
    && head_is is_alpha k
    && all_chars (λ b. is_alnum b || b == b'_' || b == b'.' || b == b'-') k

-- `group_ok`.
unfoldable pub group_ok : String → Bool
unfolding is_alnum is_group_byte all_chars head_is
group_ok g =
    not (is_empty g) && leb (byte_len g) 64 && head_is is_alnum g && all_chars is_group_byte g

-- `valid_group` of the secret store: the same rule, written once more.
abbrev pub valid_group : String → Bool
valid_group g = group_ok g

-- `valid_param_name`.
unfoldable pub valid_param_name : String → Bool
unfolding is_lower is_digit all_chars head_is
valid_param_name s =
    not (is_empty s)
    && leb (byte_len s) 32
    && head_is is_lower s
    && all_chars (λ b. is_lower b || is_digit b || b == b'_') s

-- `valid_notebook_param_name`.
unfoldable pub valid_notebook_param_name : String → Bool
unfolding is_alpha is_key_byte all_chars head_is
valid_notebook_param_name s =
    not (is_empty s)
    && leb (byte_len s) 64
    && head_is (λ b. is_alpha b || b == b'_') s
    && all_chars is_key_byte s

-- `valid_sub` of the secret store: no leading dot, at most 128 bytes.
unfoldable pub valid_sub : String → Bool
unfolding is_sub_byte all_chars head_is
valid_sub s =
    not (is_empty s)
    && not (head_is (λ b. b == b'.') s)
    && leb (byte_len s) 128
    && all_chars is_sub_byte s
