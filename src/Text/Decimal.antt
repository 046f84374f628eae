-- ===== src/Text/Decimal.antt =====
-- The numerals of numbers.
use system_core_port_test.Prelude.{
  ℕ, zero, suc, ◌+◌, ◌/◌, ◌%◌, ◌≤◌, ◌<◌, ◌≡◌, inl, inr, refl, true, false, List, [], ◌∷◌, ◌++◌, ltb,
  ltb→le, ltb→lt, arith, length, length-append, Bool-cases,
}
use native.Mathlib.Nat.{pow-suc}
use Prim.Native.Nat.{◌^◌}
use system_core_port_test.Text.{decimal_from, decimal}

-- A numeral of two digits or more.
decimal_from_more :
    (fuel n : ℕ)
    → ltb n 10 ≡ false
    → decimal_from (suc fuel) n ≡ decimal_from fuel (n / 10) ++ (48 + n % 10) ∷ []
unfolding decimal_from
decimal_from_more fuel n e = rw e refl

decimal_from_one : (fuel n : ℕ) → ltb n 10 ≡ true → decimal_from (suc fuel) n ≡ (48 + n) ∷ []
unfolding decimal_from
decimal_from_one fuel n e = rw e refl

decimal_from-length : (fuel k n : ℕ) → n < 10 ^ suc k → length (decimal_from fuel n) ≤ suc k
unfolding decimal_from
decimal_from-length zero k n l = omega arith
decimal_from-length (suc fuel) k n l = elim (Bool-cases (ltb n 10)) [
  | inl e ↦ rw (decimal_from_one fuel n e) (omega arith)
  | inr e ↦
      rw (decimal_from_more fuel n e)
        (digits (λ j m. decimal_from-length fuel j (n / 10) m) k l (ltb→le n 10 e))
]
  where
    digits :
        ((j : ℕ) → n / 10 < 10 ^ suc j → length (decimal_from fuel (n / 10)) ≤ suc j)
        → (j : ℕ) → n < 10 ^ suc j
        → 10 ≤ n
        → length (decimal_from fuel (n / 10) ++ (48 + n % 10) ∷ []) ≤ suc j
    digits rest zero l m = absurd (omega arith)
    digits rest (suc j) l m = omega (
      arith,
      length-append (decimal_from fuel (n / 10)) ((48 + n % 10) ∷ []),
      rest j (omega (arith, pow-suc 10 (suc j))),
    )

pub decimal-length : (k n : ℕ) → n < 10 ^ suc k → length (decimal n) ≤ suc k
unfolding decimal
decimal-length k n l = decimal_from-length (suc n) k n l

-- Induction along the digits of a numeral.
pub decimal_ind {ℓ} :
    (P : ℕ → List ℕ → Type ℓ)
    → ((n : ℕ) → n < 10 → P n ((48 + n) ∷ []))
    → ((n : ℕ) (t : List ℕ) → 10 ≤ n → P (n / 10) t → P n (t ++ (48 + n % 10) ∷ []))
    → (n : ℕ) → P n (decimal n)
unfolding decimal
decimal_ind P one more n = go (suc n) n (omega arith)
  where
    go : (fuel m : ℕ) → m < fuel → P m (decimal_from fuel m)
    go zero m l = absurd (omega arith)
    go (suc fuel) m l = elim (Bool-cases (ltb m 10)) [
      | inl e ↦ rw (decimal_from_one fuel m e) (one m (ltb→lt m 10 e))
      | inr e ↦
          let big = ltb→le m 10 e in
          rw (decimal_from_more fuel m e)
            (more m (decimal_from fuel (m / 10)) big (go fuel (m / 10) (omega arith)))
    ]
