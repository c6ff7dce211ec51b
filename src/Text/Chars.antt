-- ===== src/Text/Chars.antt =====
-- Characters by their code points: `u8::is_ascii_lowercase` and its kin, and tests on the
-- characters of a text.
use stardelt_nova.Prelude.{
  ◌+◌, ltb, if◌then◌else◌, List, [], ◌∷◌, ℕ, code, String, Bool, true, false, ◌&&◌, ◌||◌, leb, ◌==◌,
}

unfoldable pub is_lower : ℕ → Bool
is_lower c = leb b'a' c && leb c b'z'

unfoldable pub is_upper : ℕ → Bool
is_upper c = leb b'A' c && leb c b'Z'

unfoldable pub is_digit : ℕ → Bool
is_digit c = leb b'0' c && leb c b'9'

unfoldable pub is_alpha : ℕ → Bool
unfolding is_lower is_upper
is_alpha c = is_lower c || is_upper c

unfoldable pub is_alnum : ℕ → Bool
unfolding is_alpha is_digit
is_alnum c = is_alpha c || is_digit c

-- `str::len`: the number of UTF-8 bytes.
utf8_len : ℕ → ℕ
utf8_len c = if ltb c 128 then 1 else if ltb c 2048 then 2 else if ltb c 65536 then 3 else 4

unfoldable pub byte_len : String → ℕ
unfolding utf8_len
byte_len String.[] = 0
byte_len (String.◌∷◌ c s) = utf8_len (code c) + byte_len s

-- `char::is_whitespace`, all 25 characters of it.
unfoldable pub is_space : ℕ → Bool
is_space c =
    (leb 9 c && leb c 13)
    || c == 32
    || c == 133
    || c == 160
    || c == 5760
    || (leb 8192 c && leb c 8202)
    || c == 8232
    || c == 8233
    || c == 8239
    || c == 8287
    || c == 12288

-- `s.bytes().all(p)`, for a `p` that holds of ASCII bytes only.
unfoldable pub all_chars : (ℕ → Bool) → String → Bool
all_chars p String.[] = true
all_chars p (String.◌∷◌ c s) = p (code c) && all_chars p s

-- `p` holds of the first byte, and there is one.
unfoldable pub head_is : (ℕ → Bool) → String → Bool
head_is p String.[] = false
head_is p (String.◌∷◌ c s) = p (code c)

last_after : (ℕ → Bool) → ℕ → String → Bool
last_after p d String.[] = p d
last_after p d (String.◌∷◌ c s) = last_after p (code c) s

-- `p` holds of the last byte, and there is one.
unfoldable pub last_is : (ℕ → Bool) → String → Bool
unfolding last_after
last_is p String.[] = false
last_is p (String.◌∷◌ c s) = last_after p (code c) s

-- `s.contains(ch)`.
unfoldable pub has_char : ℕ → String → Bool
has_char k String.[] = false
has_char k (String.◌∷◌ c s) = code c == k || has_char k s

abbrev pub is_empty : String → Bool
is_empty String.[] = true
is_empty (String.◌∷◌ c s) = false

-- The juxtaposition that `format!` and `push_str` make.
infixr 65 ◌&◌
abbrev pub ◌&◌ : String → String → String
String.[] & t = t
(String.◌∷◌ c s) & t = String.◌∷◌ c (s & t)

-- `parts.join(sep)`.
unfoldable pub join : List String → String → String
join [] sep = ""
join (p ∷ []) sep = p
join (p ∷ q ∷ ps) sep = p & sep & join (q ∷ ps) sep
