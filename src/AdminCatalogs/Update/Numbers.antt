-- ===== src/AdminCatalogs/Update/Numbers.antt =====
-- The versions of a row, which count its changes.
use stardelt_nova.Prelude.{
  ℕ, suc, ◌+◌, ◌≤◌, ◌%◌, ◌^◌, code, ◌==◌, ◌<◌, String, ◌≡◌, refl, sym, ap, ◌∙◌, ◌≢◌, Option, none,
  some, unwrap_or, arith, Bool-cases, Option-cases, inl, inr,
}
use stardelt_nova.Text.{parse_digits, below, parse_unsigned}
use stardelt_nova.Text.Numbers.{to_string, parse_unsigned-to_string}
use stardelt_nova.AdminCatalogs.Demo.{next_resource_version}

below-bound : (bits : ℕ) (o : Option ℕ) (n : ℕ) → below bits o ≡ some n → n < 2 ^ bits
unfolding below
below-bound bits none n h = cc
below-bound bits (some m) n h = ground (arith, h)

parse_unsigned-bound :
    (bits : ℕ) (s : String) (n : ℕ) → parse_unsigned bits s ≡ some n → n < 2 ^ bits
unfolding parse_unsigned
parse_unsigned-bound bits String.[] n h = cc
parse_unsigned-bound bits (String.◌∷◌ c String.[]) n h = elim (Bool-cases (code c == b'+')) [
  | inl sign ↦ cc (rw (parse_unsigned, sign) at h)
  | inr digit ↦ below-bound bits _ n (rw (parse_unsigned, digit) at h)
]
parse_unsigned-bound bits (String.◌∷◌ c (String.◌∷◌ d s)) n h = elim (Bool-cases (code c == b'+')) [
  | inl sign ↦ below-bound bits _ n (rw (parse_unsigned, sign) at h)
  | inr digit ↦ below-bound bits _ n (rw (parse_unsigned, digit) at h)
]

two_read : parse_unsigned 64 "2" ≡ some 2
unfolding parse_unsigned parse_digits
two_read = refl

-- The number that a version stands for: one that is no number counts as the one before "2".
abbrev pub base : String → ℕ
base v = unwrap_or 1 (parse_unsigned 64 v)

-- `w` is the version after `j` changes of a row of version `v`.
abbrev pub IsAfter : String → ℕ → String → Type 0
IsAfter v j w = parse_unsigned 64 w ≡ some ((base v + j) % 2 ^ 64)

to_string_read : (n : ℕ) → parse_unsigned 64 (to_string (n % 2 ^ 64)) ≡ some (n % 2 ^ 64)
to_string_read n = parse_unsigned-to_string 64 (n % 2 ^ 64) (omega arith)

pub next-IsAfter_one : (v : String) → IsAfter v 1 (next_resource_version v)
unfolding next_resource_version
next-IsAfter_one v = elim (Option-cases (parse_unsigned 64 v)) [
  | inl unread ↦ rw (next_resource_version, unread) two_read
  | inr (n, read) ↦
      let one : suc n ≡ n + 1 = omega arith in
      rw (next_resource_version, read) (rw one (to_string_read (n + 1)))
]

pub next-IsAfter :
    (v : String) (j : ℕ) (w : String) → IsAfter v j w → IsAfter v (suc j) (next_resource_version w)
unfolding next_resource_version
next-IsAfter v j w h =
    let more : suc ((base v + j) % 2 ^ 64) % 2 ^ 64 ≡ (base v + suc j) % 2 ^ 64 = omega arith in
    rw (next_resource_version, h) (to_string_read (suc ((base v + j) % 2 ^ 64)) ∙ ap some more)

-- Fewer than 2 ^ 64 changes never lead back.
pub IsAfter-ne : (v : String) (j : ℕ) (w : String) → 1 ≤ j → j < 2 ^ 64 → IsAfter v j w → w ≢ v
IsAfter-ne v j w pos few h e = elim (Option-cases (parse_unsigned 64 v)) [
  | inl unread ↦ cc (ap (parse_unsigned 64) e, unread, h)
  | inr (n, read) ↦
      let small = parse_unsigned-bound 64 v n read in
      let again : Path (Option ℕ) (some ((n + j) % 2 ^ 64)) (some n) =
        sym (rw read at h) ∙ ap (parse_unsigned 64) e ∙ read in
      let same : (n + j) % 2 ^ 64 ≡ n = cc in omega (arith, small, pos, few, same)
]
