-- ===== src/Text.antt =====
-- What the program uses of Rust's `str`: the ASCII classes, trimming, prefixes and suffixes,
-- splitting and the reading of an unsigned number. A text is a native `String`, walked by its
-- characters; a test on each byte that accepts ASCII bytes only is the test on each character.
mod Chars
mod Split
pub mod Order
pub mod Prefix
pub mod Suffix
pub mod Numbers
pub use Chars.*
unfoldable pub use Chars.{
  is_lower, is_upper, is_digit, is_alpha, is_alnum, is_space, all_chars, head_is, last_is, has_char,
  byte_len, join,
}
unfoldable pub use Split.{
  strip_prefix, strip_suffix, trim_start, trim_end, trim, split_once, split_on, split_space,
  parse_digits, below, parse_unsigned, to_lower, eq_ignore_case,
}
