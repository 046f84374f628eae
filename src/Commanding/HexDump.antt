-- ===== src/Commanding/HexDump.antt =====
-- src/system_commanding.rs: `hex_dump_bytes` and the command over it. The memory of the program is the
-- argument `memory`: the bytes from an address on.
pub mod Reading
pub mod RoundTrip
use system_core_port_test.Prelude.{
  ℕ, zero, suc, ◌+◌, ◌-◌, ◌*◌, ◌/◌, ◌%◌, Option, none, some, List, [], ◌∷◌, ◌++◌, ◌==◌, ltb, max,
  map, if◌then◌else◌, ◌>>=◌, is_empty, length, take, drop,
}
use system_core_port_test.Text.{Text, Bytes, between, trim_end, split_whitespace}
use system_core_port_test.Commanding.Numbers.{parse_number}

abbrev pub hex_digit : ℕ → ℕ
hex_digit d = if ltb d 10 then 48 + d else 87 + d

-- `{:0width$x}`
unfoldable pub hex_padded : ℕ → ℕ → Text
hex_padded zero n = []
hex_padded (suc width) n = hex_padded width (n / 16) ++ hex_digit (n % 16) ∷ []

-- `{:x}`
unfoldable pub hex_from : ℕ → ℕ → Text
hex_from zero n = []
hex_from (suc fuel) n =
    let front = hex_from fuel (n / 16) in
    if ltb n 16 then hex_digit n ∷ [] else front ++ hex_digit (n % 16) ∷ []

unfoldable pub hex : ℕ → Text
hex n = hex_from (suc n) n

-- `{address_abs:08x}`
unfoldable pub hex_offset : ℕ → Text
hex_offset n = if ltb n 4_294_967_296 then hex_padded 8 n else hex n

-- `slice::chunks`
unfoldable chunks_from {ℓ} : {A : Type ℓ} → ℕ → ℕ → List A → List (List A)
chunks_from zero size xs = []
chunks_from (suc fuel) size xs =
    let rest = chunks_from fuel size (drop size xs) in
    if is_empty xs then [] else take size xs ∷ rest

unfoldable pub chunks {ℓ} : {A : Type ℓ} → ℕ → List A → List (List A)
unfolding chunks_from
chunks size xs = chunks_from (length xs) size xs

abbrev pub gap : ℕ → Text
gap idx = if idx % 8 == 0 then 32 ∷ [] else []

-- The columns from `idx` on, of which `left` are left.
unfoldable pub cells : ℕ → ℕ → Bytes → Text
cells zero idx bytes = []
cells (suc left) idx [] = gap idx ++ (32 ∷ 32 ∷ 32 ∷ cells left (idx + 1) [])
cells (suc left) idx (byte ∷ bytes) =
    gap idx ++ (32 ∷ (hex_padded 2 byte ++ cells left (idx + 1) bytes))

abbrev pub printed : ℕ → ℕ
printed byte = if between 32 126 byte then byte else 46

unfoldable pub dump_line : ℕ → ℕ → Bytes → Text
dump_line columns offset chunk =
    hex_offset offset
    ++ (cells columns 0 chunk ++ ((32 ∷ 32 ∷ 124 ∷ []) ++ (map printed chunk ++ 124 ∷ 10 ∷ [])))

unfoldable pub dump_lines : ℕ → ℕ → List Bytes → Text
dump_lines columns offset [] = []
dump_lines columns offset (chunk ∷ rest) =
    dump_line columns offset chunk ++ dump_lines columns (offset + length chunk) rest

-- "Data"
abbrev pub name_or_data : Option Text → Text
name_or_data none = 68 ∷ 97 ∷ 116 ∷ 97 ∷ []
name_or_data (some name) = name

unfoldable pub hex_dump_bytes : ℕ → Bytes → Option Text → ℕ → Text
hex_dump_bytes ptr bytes name column_width =
    let columns = max column_width 1 in
    trim_end (
      (48 ∷ 120 ∷ hex ptr)
      ++ ((32 ∷ 32 ∷ name_or_data name) ++ (10 ∷ dump_lines columns 0 (chunks columns bytes))))

-- "Specify address"
abbrev pub specify_address : Text
specify_address =
    83 ∷ 112 ∷ 101 ∷ 99 ∷ 105 ∷ 102 ∷ 121 ∷ 32 ∷ 97 ∷ 100 ∷ 100 ∷ 114 ∷ 101 ∷ 115 ∷ 115 ∷ []

-- "Length must be greater than zero"
abbrev pub zero_length : Text
zero_length =
    76 ∷ 101 ∷ 110 ∷ 103 ∷ 116 ∷ 104 ∷ 32 ∷ 109 ∷ 117 ∷ 115 ∷ 116 ∷ 32 ∷ 98 ∷ 101 ∷ 32 ∷ 103 ∷ 114
    ∷ 101 ∷ 97 ∷ 116 ∷ 101 ∷ 114 ∷ 32 ∷ 116 ∷ 104 ∷ 97 ∷ 110 ∷ 32 ∷ 122 ∷ 101 ∷ 114 ∷ 111 ∷ []

abbrev pub first_number : List Text → Option ℕ
first_number [] = none
first_number (part ∷ parts) = parse_number part

abbrev pub number_or : ℕ → Option ℕ → ℕ
number_or fallback none = fallback
number_or fallback (some n) = n

abbrev pub dump_at : (ℕ → ℕ → Bytes) → ℕ → ℕ → Text
dump_at memory address len =
    if len == 0 then zero_length else hex_dump_bytes address (memory address len) none 8

abbrev pub address_dump : (ℕ → ℕ → Bytes) → Option ℕ → ℕ → Text
address_dump memory none len = specify_address
address_dump memory (some address) len = dump_at memory address len

unfoldable pub hex_dump_command : (ℕ → ℕ → Bytes) → Text → Text
hex_dump_command memory args =
    let parts = split_whitespace args in
    address_dump memory (first_number parts) (number_or 16 (first_number (drop 1 parts)))
