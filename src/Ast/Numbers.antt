-- ===== src/Ast/Numbers.antt =====
-- Decimal numbers: `std::stoi` on a token of digits, and the token of a number.
use gvn.Prelude.{
  ℕ, zero, suc, ◌+◌, ◌-◌, ◌*◌, ◌/◌, ◌%◌, ◌<◌, ◌≤◌, ◌≡◌, refl, ap, ◌∙◌, true, false, [], ◌∷◌, ◌++◌,
  if◌then◌else◌, leb, ltb, Result, ok, fault, overflow, arith, Bool-cases, inl, inr,
}
use gvn.Prelude.Texts.{Text}

-- The value of the digits, after those read already.
unfoldable pub digits_value : ℕ → Text → ℕ
digits_value v [] = v
digits_value v (c ∷ cs) = digits_value (v * 10 + (c - 48)) cs

abbrev pub int_max : ℕ
int_max = 2147483647

-- `std::stoi` of a token of digits throws where the value is no `int`.
unfoldable pub stoi : Text → Result ℕ
stoi s = let v = digits_value 0 s in if leb v int_max then ok v else fault overflow

-- The decimal digits of a number.
unfoldable pub digits : ℕ → ℕ → Text
digits zero n = []
digits (suc fuel) n = elim (ltb n 10) [
  | true ↦ (48 + n) ∷ []
  | false ↦ digits fuel (n / 10) ++ (48 + n % 10) ∷ []
]

unfoldable pub to_string : ℕ → Text
to_string n = digits (suc n) n

digits_value-append :
    (v : ℕ) (xs : Text) (c : ℕ) → digits_value v (xs ++ c ∷ []) ≡ digits_value v xs * 10 + (c - 48)
unfolding digits_value
digits_value-append v [] c = refl
digits_value-append v (x ∷ xs) c = digits_value-append (v * 10 + (x - 48)) xs c

digits_value-digits : (fuel n : ℕ) → n < fuel → digits_value 0 (digits fuel n) ≡ n
unfolding digits
digits_value-digits zero n lt = elim lt [ ]
digits_value-digits (suc fuel) n lt = elim (Bool-cases (ltb n 10)) [
  | inl e ↦ rw (e, digits) (one n)
  | inr e ↦
      rw (e, digits)
        (digits_value-append 0 (digits fuel (n / 10)) (48 + n % 10)
          ∙ ap (λ v. v * 10 + (48 + n % 10 - 48)) (digits_value-digits fuel (n / 10) (ground arith))
          ∙ omega arith)
]
  where
    one : (k : ℕ) → digits_value 0 ((48 + k) ∷ []) ≡ k
    one k = unfold digits_value in omega arith

pub digits_value-to_string : (n : ℕ) → digits_value 0 (to_string n) ≡ n
unfolding to_string
digits_value-to_string n = digits_value-digits (suc n) n (omega arith)

-- The digits of a number that is an `int` are read as the number.
pub stoi-to_string : (n : ℕ) → n ≤ int_max → stoi (to_string n) ≡ ok n
unfolding stoi to_string
stoi-to_string n fits = let e = digits_value-to_string n in ground (arith, e)
