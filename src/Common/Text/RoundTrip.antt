-- ===== src/Common/Text/RoundTrip.antt =====
-- `std::stoi` after `std::to_string`.
use quick_chat.Prelude.{
  ℕ, zero, suc, ◌+◌, ◌*◌, ◌/◌, ◌%◌, ◌^◌, ◌<◌, ltb, true, false, [], ◌∷◌, some, ◌≡◌, refl, sym, ap,
  ◌∙◌, inl, inr, arith, Bytes, Lacks, ℤ, pos, negsuc, Bool-cases,
}
use quick_chat.Common.Text.{digits, decimal, to_string, is_digit, scan, magnitude, to_int, stoi}

pub scan-digits : (fuel n : ℕ) (out : Bytes) → n < fuel → scan (digits fuel n out) 0 ≡ scan out n
unfolding digits
scan-digits zero n out h = elim h [ ]
scan-digits (suc fuel) n out h = elim (Bool-cases (ltb n 10)) [
  | inl e ↦ rw e (unfold scan in ground arith)
  | inr e ↦ rw e (
      scan-digits fuel (n / 10) ((b'0' + n % 10) ∷ out) (ground arith)
      ∙ (unfold scan in
          ground (arith, ap (scan out) (let k : n / 10 * 10 + n % 10 ≡ n = omega arith in k))))
]

-- Printed digits begin with a digit.
unfoldable pub BeginsWithDigit : Bytes → Type 0
BeginsWithDigit [] = ⊥
BeginsWithDigit (c ∷ s) = is_digit c ≡ true

pub digits-begins : (fuel n : ℕ) (out : Bytes) → n < fuel → BeginsWithDigit (digits fuel n out)
unfolding digits BeginsWithDigit
digits-begins zero n out h = elim h [ ]
digits-begins (suc fuel) n out h = elim (Bool-cases (ltb n 10)) [
  | inl e ↦ rw e (unfold is_digit in ground arith)
  | inr e ↦ rw e (digits-begins fuel (n / 10) ((b'0' + n % 10) ∷ out) (ground arith))
]

magnitude-begins : (s : Bytes) → BeginsWithDigit s → magnitude s ≡ some (scan s 0)
unfolding BeginsWithDigit magnitude
magnitude-begins [] h = absurd h
magnitude-begins (c ∷ s) h = ground arith

magnitude-decimal : (n : ℕ) → magnitude (decimal n) ≡ some n
unfolding decimal
magnitude-decimal n =
    magnitude-begins _ (digits-begins (suc n) n [] (omega arith))
    ∙ ap some (scan-digits (suc n) n [] (omega arith) ∙ (unfold scan in refl))

stoi-begins : (s : Bytes) → BeginsWithDigit s → stoi s ≡ to_int false (magnitude s)
unfolding BeginsWithDigit stoi is_digit
stoi-begins [] h = absurd h
stoi-begins (c ∷ s) h = ground arith

stoi-minus : (s : Bytes) → stoi (b'-' ∷ s) ≡ to_int true (magnitude s)
unfolding stoi
stoi-minus s = refl

-- The values of a 32-bit `int`.
abbrev pub IsInt : ℤ → Type 0
IsInt (pos n) = n < 2 ^ 31
IsInt (negsuc n) = n < 2 ^ 31

-- Every `int` is read back from its decimal print.
pub stoi-to_string : (z : ℤ) → IsInt z → stoi (to_string z) ≡ some z
unfolding to_string
stoi-to_string (pos n) h =
    stoi-begins (decimal n) (unfold decimal in digits-begins (suc n) n [] (omega arith))
    ∙ ap (to_int false) (magnitude-decimal n)
    ∙ (unfold to_int in ground arith)
stoi-to_string (negsuc n) h =
    stoi-minus (decimal (suc n))
    ∙ ap (to_int true) (magnitude-decimal (suc n))
    ∙ (unfold to_int in ground arith)

-- So different values have different prints.
pub to_string-injective : (a b : ℤ) → IsInt a → IsInt b → to_string a ≡ to_string b → a ≡ b
to_string-injective a b h k e =
    let same : some a ≡ some b = sym (stoi-to_string a h) ∙ ap stoi e ∙ stoi-to_string b k in cc

digits-Lacks : (fuel n : ℕ) (out : Bytes) → Lacks 0 out → Lacks 0 (digits fuel n out)
unfolding digits
digits-Lacks zero n out h = h
digits-Lacks (suc fuel) n out h = elim (Bool-cases (ltb n 10)) [
  | inl e ↦ rw e (omega arith, h)
  | inr e ↦ rw e (digits-Lacks fuel (n / 10) ((b'0' + n % 10) ∷ out) (omega arith, h))
]

-- A print holds no zero byte.
pub to_string-Lacks : (z : ℤ) → Lacks 0 (to_string z)
unfolding to_string decimal
to_string-Lacks (pos n) = digits-Lacks (suc n) n [] tt
to_string-Lacks (negsuc n) = (omega arith, digits-Lacks (suc (suc n)) (suc n) [] tt)
