-- ===== src/Text/Numbers.antt =====
-- The decimal text of an unsigned number, and that reading it gives the number back.
use stardelt_nova.Prelude.{
  ℕ, zero, suc, ◌+◌, ◌*◌, ◌/◌, ◌%◌, ◌^◌, ◌<◌, Char, code, String, ◌≡◌, refl, ap, ◌∙◌, true, some,
  ltb, if◌then◌else◌, arith, Bool-cases, inl, inr,
}
use stardelt_nova.Text.Chars.{is_digit, head_is}
use stardelt_nova.Text.Split.{parse_digits, parse_unsigned, below}

digit : ℕ → Char
digit zero = "0"
digit (suc zero) = "1"
digit (suc (suc zero)) = "2"
digit (suc (suc (suc zero))) = "3"
digit (suc (suc (suc (suc zero)))) = "4"
digit (suc (suc (suc (suc (suc zero))))) = "5"
digit (suc (suc (suc (suc (suc (suc zero)))))) = "6"
digit (suc (suc (suc (suc (suc (suc (suc zero))))))) = "7"
digit (suc (suc (suc (suc (suc (suc (suc (suc zero)))))))) = "8"
digit (suc (suc (suc (suc (suc (suc (suc (suc (suc d))))))))) = "9"

-- The digits of `n` in front of a text; `suc n` rounds are enough.
shown : ℕ → ℕ → String → String
unfolding digit
shown zero n rest = rest
shown (suc rounds) n rest =
    let more = shown rounds (n / 10) (String.◌∷◌ (digit (n % 10)) rest) in
    if ltb n 10 then String.◌∷◌ (digit n) rest else more

-- `n.to_string()`.
unfoldable pub to_string : ℕ → String
unfolding shown
to_string n = shown (suc n) n ""

code-digit : (d : ℕ) → d < 10 → code (digit d) ≡ d + 48
unfolding digit
code-digit zero h = refl
code-digit (suc zero) h = refl
code-digit (suc (suc zero)) h = refl
code-digit (suc (suc (suc zero))) h = refl
code-digit (suc (suc (suc (suc zero)))) h = refl
code-digit (suc (suc (suc (suc (suc zero))))) h = refl
code-digit (suc (suc (suc (suc (suc (suc zero)))))) h = refl
code-digit (suc (suc (suc (suc (suc (suc (suc zero))))))) h = refl
code-digit (suc (suc (suc (suc (suc (suc (suc (suc zero)))))))) h = refl
code-digit (suc (suc (suc (suc (suc (suc (suc (suc (suc zero))))))))) h = refl
code-digit (suc (suc (suc (suc (suc (suc (suc (suc (suc (suc d)))))))))) h =
    absurd (omega (arith, h))

parse-digit :
    (m d : ℕ) (rest : String)
    → d < 10
    → parse_digits m (String.◌∷◌ (digit d) rest) ≡ parse_digits (m * 10 + d) rest
unfolding parse_digits is_digit
parse-digit m d rest h = ground (arith, code-digit d h)

parse-shown :
    (rounds n : ℕ) (rest : String)
    → n < rounds
    → parse_digits 0 (shown rounds n rest) ≡ parse_digits n rest
unfolding shown
parse-shown zero n rest h = absurd (omega (arith, h))
parse-shown (suc rounds) n rest h = elim (Bool-cases (ltb n 10)) [
  | inl small ↦
      rw small (parse-digit 0 n rest (ground arith) ∙ ap (λ m. parse_digits m rest) (omega arith))
  | inr big ↦
      let fits : n / 10 < rounds = ground arith in
      rw big (
        parse-shown rounds (n / 10) _ fits
        ∙ parse-digit (n / 10) (n % 10) rest (omega arith)
        ∙ ap (λ m. parse_digits m rest) (omega arith))
]

-- The first character of a number is no plus sign.
head-shown :
    (rounds n : ℕ) (rest : String) → n < rounds → head_is is_digit (shown rounds n rest) ≡ true
unfolding shown head_is is_digit
head-shown zero n rest h = absurd (omega (arith, h))
head-shown (suc rounds) n rest h = elim (Bool-cases (ltb n 10)) [
  | inl small ↦ rw small (ground (arith, code-digit n (ground arith)))
  | inr big ↦ rw big (head-shown rounds (n / 10) _ (ground arith))
]

parse_unsigned-digits :
    (bits : ℕ) (s : String)
    → head_is is_digit s ≡ true
    → parse_unsigned bits s ≡ below bits (parse_digits 0 s)
unfolding head_is is_digit parse_unsigned
parse_unsigned-digits bits String.[] h = cc
parse_unsigned-digits bits (String.◌∷◌ c String.[]) h = ground arith
parse_unsigned-digits bits (String.◌∷◌ c (String.◌∷◌ d s)) h = ground arith

pub parse_unsigned-to_string :
    (bits n : ℕ) → n < 2 ^ bits → parse_unsigned bits (to_string n) ≡ some n
unfolding to_string below parse_digits
parse_unsigned-to_string bits n h =
    let lt : n < suc n = omega arith in
    parse_unsigned-digits bits (shown (suc n) n "") (head-shown (suc n) n "" lt)
    ∙ ap (below bits) (parse-shown (suc n) n "" lt)
    ∙ ground (arith, h)
