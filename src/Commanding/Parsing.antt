-- ===== src/Commanding/Parsing.antt =====
-- src/system_commanding.rs: `parse_number` against the numerals.
use system_core_port_test.Prelude.{
  ℕ, zero, suc, ◌+◌, ◌*◌, ◌/◌, ◌%◌, ◌≤◌, ◌<◌, ◌≡◌, refl, ap, inl, inr, Bool, true, false, Option,
  none, some, [], ◌∷◌, ◌++◌, ◌==◌, ◌&&◌, ◌||◌, ==_iff, ltb, ltb→le, ltb→lt, le→ltb, Option-cases,
  if◌then◌else◌, ◌>>=◌, arith, is_empty, All, All-append, Bool-cases,
}
use system_core_port_test.Text.{Text, between, decimal}
use system_core_port_test.Text.Decimal.{decimal_ind}
use system_core_port_test.Commanding.Numbers.{
  usize_bound, to_digit, digits_value, from_str_radix, parse_number,
}
use system_core_port_test.Commanding.HexDump.{hex_digit, hex_from, hex}

digits_value-append :
    (radix value : ℕ) (xs ys : Text)
    → digits_value radix value (xs ++ ys)
      ≡ (digits_value radix value xs >>= (λ v. digits_value radix v ys))
unfolding digits_value
digits_value-append radix value [] ys = refl
digits_value-append radix value (x ∷ xs) ys = elim (Option-cases (to_digit radix x)) [
  | inl e ↦ rw e refl
  | inr (d, e) ↦ rw e (elim (Bool-cases (ltb (value * radix + d) usize_bound)) [
    | inl f ↦ rw f (digits_value-append radix (value * radix + d) xs ys)
    | inr f ↦ rw f refl
  ])
]

-- A number of a `usize`, or nothing.
abbrev pub bounded : ℕ → Option ℕ
bounded n = if ltb n usize_bound then some n else none

digits_value-snoc :
    (radix n d c m : ℕ) (t : Text)
    → m ≡ n * radix + d
    → to_digit radix c ≡ some d
    → n ≤ m
    → digits_value radix 0 t ≡ bounded n
    → digits_value radix 0 (t ++ c ∷ []) ≡ bounded m
unfolding digits_value
digits_value-snoc radix n d c m t s q l h =
    rw (digits_value-append radix 0 t (c ∷ []), h)
      (elim (Bool-cases (ltb n usize_bound)) [
        | inl e ↦ rw (e, q, s) refl
        | inr e ↦
            let big = ltb→le n usize_bound e in rw (e, le→ltb m usize_bound (omega arith)) refl
      ])

to_digit-decimal : (d : ℕ) → d < 10 → to_digit 10 (48 + d) ≡ some d
unfolding to_digit
to_digit-decimal d l = ground arith

to_digit-hex : (d : ℕ) → d < 16 → to_digit 16 (hex_digit d) ≡ some d
unfolding to_digit
to_digit-hex d l = ground arith

-- What a numeral is of, and its characters.
abbrev Numeral : ℕ → (ℕ → Bool) → ℕ → Text → Type 0
Numeral radix class n t =
    (digits_value radix 0 t ≡ bounded n) × (is_empty t ≡ false) × All (λ c. class c ≡ true) t

more-Numeral :
    (radix : ℕ) (class : ℕ → Bool) (n d c m : ℕ) (t : Text)
    → m ≡ n * radix + d
    → to_digit radix c ≡ some d
    → n ≤ m
    → class c ≡ true
    → Numeral radix class n t
    → Numeral radix class m (t ++ c ∷ [])
more-Numeral radix class n d c m t s q l k (v, e, h) = (
  digits_value-snoc radix n d c m t s q l v,
  grows t,
  All-append (λ c. class c ≡ true) t (c ∷ []) h (k, tt),
)
  where
    grows : (u : Text) → is_empty (u ++ c ∷ []) ≡ false
    grows [] = refl
    grows (x ∷ u) = refl

one-Numeral :
    (radix : ℕ) (class : ℕ → Bool) (c m : ℕ)
    → to_digit radix c ≡ some m
    → class c ≡ true
    → Numeral radix class m (c ∷ [])
unfolding digits_value
one-Numeral radix class c m q k =
    (digits_value-snoc radix 0 m c m [] (omega arith) q (omega arith) refl, refl, (k, tt))

decimal-Numeral : (n : ℕ) → Numeral 10 (between 48 57) n (decimal n)
decimal-Numeral =
    decimal_ind (Numeral 10 (between 48 57))
      (λ n l. one-Numeral 10 (between 48 57) (48 + n) n (to_digit-decimal n l) (ground arith))
      (λ n t l h.
        more-Numeral 10 (between 48 57) (n / 10) (n % 10) (48 + n % 10) n t (omega arith)
          (to_digit-decimal (n % 10) (omega arith)) (omega arith) (ground arith) h)

abbrev is_hex_digit : ℕ → Bool
is_hex_digit c = between 48 57 c || between 97 102 c

hex_from-Numeral : (fuel n : ℕ) → n < fuel → Numeral 16 is_hex_digit n (hex_from fuel n)
unfolding hex_from
hex_from-Numeral zero n l = absurd (omega arith)
hex_from-Numeral (suc fuel) n l = elim (Bool-cases (ltb n 16)) [
  | inl e ↦
      let small = ltb→lt n 16 e in
      rw e (one-Numeral 16 is_hex_digit (hex_digit n) n (to_digit-hex n small) (ground arith))
  | inr e ↦
      let big = ltb→le n 16 e in
      rw e (
        more-Numeral 16 is_hex_digit (n / 16) (n % 16) (hex_digit (n % 16)) n
          (hex_from fuel (n / 16)) (omega arith) (to_digit-hex (n % 16) (omega arith)) (omega arith)
          (ground arith) (hex_from-Numeral fuel (n / 16) (omega arith)))
]

from_str_radix-Numeral :
    (radix n : ℕ) (class : ℕ → Bool) (t : Text)
    → class 43 ≡ false
    → Numeral radix class n t
    → from_str_radix radix t ≡ bounded n
unfolding from_str_radix
from_str_radix-Numeral radix n class [] k (v, e, h) = cc
from_str_radix-Numeral radix n class (c ∷ cs) k (v, e, h) = elim (Bool-cases (c == 43)) [
  | inl f ↦ absurd (cc (h.0, k, ap class ((==_iff c 43).0 f)))
  | inr f ↦ rw f v
]

-- Of the numeral of a number, decimal or hexadecimal behind "0x" or "0X", `parse_number` makes that
-- number if it is less than 2 ^ 64, so that it is a `usize`, and nothing if it is not.
pub parse_number-numeral :
    (n : ℕ)
    → let expected = if ltb n usize_bound then some n else none in
      (parse_number (decimal n) ≡ expected)
      × (parse_number (48 ∷ 120 ∷ hex n) ≡ expected)
      × (parse_number (48 ∷ 88 ∷ hex n) ≡ expected)
unfolding hex parse_number
parse_number-numeral n = (
  decimals (decimal n) (decimal-Numeral n),
  from_str_radix-Numeral 16 n is_hex_digit (hex n) refl (hex_from-Numeral (suc n) n (omega arith)),
  from_str_radix-Numeral 16 n is_hex_digit (hex n) refl (hex_from-Numeral (suc n) n (omega arith)),
)
  where
    decimals : (t : Text) → Numeral 10 (between 48 57) n t → parse_number t ≡ bounded n
    decimals [] h = from_str_radix-Numeral 10 n (between 48 57) [] refl h
    decimals (c ∷ []) h = from_str_radix-Numeral 10 n (between 48 57) (c ∷ []) refl h
    decimals (c ∷ d ∷ ds) h =
        let (v, e, (x, (y, z))) = h in
        let plain : (c == 48 && (d == 120 || d == 88)) ≡ false = ground arith in
        rw plain (from_str_radix-Numeral 10 n (between 48 57) (c ∷ d ∷ ds) refl h)
