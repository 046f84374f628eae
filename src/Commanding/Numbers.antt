-- ===== src/Commanding/Numbers.antt =====
-- src/system_commanding.rs: `parse_number`, with what it uses of Rust's number parsing. A `usize` has 64
-- bits.
use system_core_port_test.Prelude.{
  ℕ, ◌+◌, ◌-◌, ◌*◌, Option, none, some, [], ◌∷◌, ◌==◌, ◌&&◌, ◌||◌, ltb, if◌then◌else◌, ◌>>=◌,
  is_empty,
}
use system_core_port_test.Text.{Text, between}

-- 2 ^ 64
abbrev pub usize_bound : ℕ
usize_bound = 18_446_744_073_709_551_616

-- `char::to_digit`, for the radices 10 and 16.
unfoldable pub to_digit : ℕ → ℕ → Option ℕ
to_digit radix c =
    if between 48 57 c
    then some (c - 48)
    else if radix == 16 && between 97 102 c
    then some (c - 87)
    else if radix == 16 && between 65 70 c
    then some (c - 55)
    else none

-- An overflow is an error.
unfoldable pub digits_value : ℕ → ℕ → Text → Option ℕ
digits_value radix value [] = some value
digits_value radix value (c ∷ cs) = to_digit radix c >>= (λ d.
    let next = value * radix + d in
    let rest = digits_value radix next cs in if ltb next usize_bound then rest else none)

-- `usize::from_str_radix`, and with radix 10 `str::parse`: one leading "+" is allowed.
unfoldable pub from_str_radix : ℕ → Text → Option ℕ
from_str_radix radix [] = none
from_str_radix radix (c ∷ cs) =
    if c == 43
    then (if is_empty cs then none else digits_value radix 0 cs)
    else digits_value radix 0 (c ∷ cs)

unfoldable pub parse_number : Text → Option ℕ
parse_number (c ∷ d ∷ ds) =
    if c == 48 && (d == 120 || d == 88)
    then from_str_radix 16 ds
    else from_str_radix 10 (c ∷ d ∷ ds)
parse_number other = from_str_radix 10 other
