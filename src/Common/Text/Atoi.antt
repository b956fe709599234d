-- ===== src/Common/Text/Atoi.antt =====
-- `atoi` of the C library.
use quick_chat.Prelude.{
  ℕ, suc, ◌^◌, ◌<◌, leb, ◌==◌, true, false, ◌&&◌, ◌||◌, [], ◌∷◌, Option, some, ◌≡◌, refl, ap, ◌∙◌,
  arith, Bytes, ℤ, pos, if◌then◌else◌,
}
use quick_chat.Common.Text.{scan, to_int, to_string, decimal, is_digit}
use quick_chat.Common.Text.RoundTrip.{BeginsWithDigit, digits-begins, scan-digits}

-- After the white space: a sign, and the digits that follow; no digit is 0.
atoi_value : ℕ → Bytes → Option ℤ
unfolding to_int scan
atoi_value c s =
    if c == b'-'
    then to_int true (some (scan s 0))
    else if c == b'+'
    then to_int false (some (scan s 0))
    else to_int false (some (scan (c ∷ s) 0))

-- `atoi`; `none` where no `int` holds the value, which the C standard leaves undefined.
pub atoi : Bytes → Option ℤ
unfolding atoi_value
atoi [] = some (pos 0)
atoi (c ∷ s) =
    let rest = atoi s in if c == b' ' || (leb 9 c && leb c 13) then rest else atoi_value c s

atoi-begins : (s : Bytes) → BeginsWithDigit s → atoi s ≡ to_int false (some (scan s 0))
unfolding BeginsWithDigit atoi atoi_value is_digit
atoi-begins [] h = absurd h
atoi-begins (c ∷ s) h = ground arith

-- A number that a port can have is read back from its decimal print.
pub atoi-decimal : (n : ℕ) → n < 2 ^ 16 → atoi (to_string (pos n)) ≡ some (pos n)
unfolding to_string
atoi-decimal n h =
    let read : scan (decimal n) 0 ≡ n =
      (unfold decimal in scan-digits (suc n) n [] (omega arith)) ∙ (unfold scan in refl) in
    atoi-begins (decimal n) (unfold decimal in digits-begins (suc n) n [] (omega arith))
    ∙ ap (λ m. to_int false (some m)) read
    ∙ (unfold to_int in ground arith)
