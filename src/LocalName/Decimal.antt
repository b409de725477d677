-- ===== src/LocalName/Decimal.antt =====
-- `%d` of a number that is not negative.
use bbview.Base.{
  ℕ, zero, suc, ◌+◌, ◌-◌, ◌*◌, ◌/◌, ◌%◌, ◌≤◌, ◌<◌, ◌≡◌, ap, ◌∙◌, sym, inl, inr, List, [], ◌∷◌,
  arith, ◌==◌, if◌then◌else◌, Bool-cases,
}

-- Digits in front of `acc`, the last one first; `n + 1` rounds are enough.
digits_loop : ℕ → ℕ → List ℕ → List ℕ
digits_loop zero n acc = acc
digits_loop (suc fuel) n acc =
    let more = digits_loop fuel (n / 10) ((b'0' + n % 10) ∷ acc) in
    if n / 10 == 0 then (b'0' + n % 10) ∷ acc else more

unfoldable pub decimal : ℕ → List ℕ
unfolding digits_loop
decimal n = digits_loop (n + 1) n []

-- The number that digits stand for behind `acc`.
value : ℕ → List ℕ → ℕ
value acc [] = acc
value acc (c ∷ cs) = value (acc * 10 + (c - b'0')) cs

value-digits_loop :
    (fuel n : ℕ) (acc : List ℕ) → n < fuel → value 0 (digits_loop fuel n acc) ≡ value n acc
unfolding digits_loop value
value-digits_loop zero n acc h = absurd (omega arith)
value-digits_loop (suc fuel) n acc h = elim (Bool-cases (n / 10 == 0)) [
  | inl e ↦ rw e (ap (λ m. value m acc) (ground arith))
  | inr e ↦ rw e (
      value-digits_loop fuel (n / 10) ((b'0' + n % 10) ∷ acc) (ground arith)
      ∙ ap (λ m. value m acc) (omega arith))
]

pub decimal_injective : (m n : ℕ) → decimal m ≡ decimal n → m ≡ n
unfolding decimal value
decimal_injective m n e =
    sym (value-digits_loop (m + 1) m [] (omega arith))
    ∙ ap (value 0) e
    ∙ value-digits_loop (n + 1) n [] (omega arith)

-- Every byte is a digit.
abbrev pub IsDigits : List ℕ → Type 0
IsDigits [] = Unit
IsDigits (c ∷ cs) = (b'0' ≤ c) × (c ≤ b'9') × IsDigits cs

digits_loop-IsDigits :
    (fuel n : ℕ) (acc : List ℕ) → IsDigits acc → IsDigits (digits_loop fuel n acc)
unfolding digits_loop
digits_loop-IsDigits zero n acc h = h
digits_loop-IsDigits (suc fuel) n acc h = elim (Bool-cases (n / 10 == 0)) [
  | inl e ↦ rw e (omega arith, omega arith, h)
  | inr e ↦
      rw e
        (digits_loop-IsDigits fuel (n / 10) ((b'0' + n % 10) ∷ acc) (omega arith, omega arith, h))
]

pub decimal-IsDigits : (n : ℕ) → IsDigits (decimal n)
unfolding decimal
decimal-IsDigits n = digits_loop-IsDigits (n + 1) n [] tt
