-- ===== src/Text.antt =====
-- What the program uses of Rust's `str`, `String` and `char`: UTF-8, white space, trimming, splitting
-- at white space, padding and numbers. A `String` is the list of its code points.
pub mod Decimal
pub mod Lines
use system_core_port_test.Prelude.{
  ℕ, zero, suc, ◌+◌, ◌-◌, ◌*◌, ◌/◌, ◌%◌, ◌<◌, ◌≡◌, refl, Bool, not, ◌&&◌, ◌||◌, List, [], ◌∷◌, ◌++◌,
  ◌==◌, ltb, leb, if◌then◌else◌, arith, All, is_empty, length,
}

abbrev pub Text : Type 0
Text = List ℕ

abbrev pub Bytes : Type 0
Bytes = List ℕ

abbrev pub between : ℕ → ℕ → ℕ → Bool
between lo hi c = leb lo c && leb c hi

-- `char::is_whitespace`
unfoldable pub is_whitespace : ℕ → Bool
is_whitespace c =
    between 9 13 c
    || c == 32
    || c == 0x85
    || c == 0xa0
    || c == 0x1680
    || between 0x2000 0x200a c
    || c == 0x2028
    || c == 0x2029
    || c == 0x202f
    || c == 0x205f
    || c == 0x3000

-- `u8::is_ascii_alphanumeric`
unfoldable pub is_ascii_alphanumeric : ℕ → Bool
is_ascii_alphanumeric b = between 48 57 b || between 65 90 b || between 97 122 b

unfoldable pub trim_start : Text → Text
trim_start [] = []
trim_start (c ∷ cs) = if is_whitespace c then trim_start cs else c ∷ cs

unfoldable pub trim_end : Text → Text
trim_end [] = []
trim_end (c ∷ cs) =
    let rest = trim_end cs in if is_empty rest && is_whitespace c then [] else c ∷ rest

unfoldable pub trim : Text → Text
unfolding trim_start trim_end
trim t = trim_end (trim_start t)

-- `splitn(2, char::is_whitespace)`: the part before the first white space, and the part after it.
unfoldable pub split_first : Text → Text × Text
split_first [] = ([], [])
split_first (c ∷ cs) =
    let (before, after) = split_first cs in
    if is_whitespace c then ([], cs) else (c ∷ before, after)

split_words : Text → Text → List Text
split_words word [] = if is_empty word then [] else word ∷ []
split_words word (c ∷ cs) =
    let more = split_words (if is_whitespace c then [] else word ++ c ∷ []) cs in
    if is_whitespace c && not (is_empty word) then word ∷ more else more

-- `split_whitespace`
unfoldable pub split_whitespace : Text → List Text
unfolding split_words
split_whitespace t = split_words [] t

unfoldable pub encode_char : ℕ → Bytes
encode_char c =
    if ltb c 0x80
    then c ∷ []
    else if ltb c 0x800
    then (0xc0 + c / 64) ∷ (0x80 + c % 64) ∷ []
    else if ltb c 0x1_0000
    then (0xe0 + c / 4096) ∷ (0x80 + c / 64 % 64) ∷ (0x80 + c % 64) ∷ []
    else (0xf0 + c / 262144) ∷ (0x80 + c / 4096 % 64) ∷ (0x80 + c / 64 % 64) ∷ (0x80 + c % 64) ∷ []

-- `into_bytes`, `as_bytes`
unfoldable pub encode : Text → Bytes
unfolding encode_char
encode [] = []
encode (c ∷ cs) = encode_char c ++ encode cs

-- The state of a UTF-8 decoder: between characters, or with so many bytes missing, the next of
-- which has to lie in a range.
pub data Decoder : Type 0 where
  ready : Decoder
  want : (missing lo hi code : ℕ) → Decoder

abbrev pub replacement : ℕ
replacement = 0xfffd

abbrev first_byte : ℕ → Text × Decoder
first_byte b =
    if ltb b 0x80
    then (b ∷ [], ready)
    else if between 0xc2 0xdf b
    then ([], want 0 0x80 0xbf (b - 0xc0))
    else if b == 0xe0
    then ([], want 1 0xa0 0xbf 0)
    else if b == 0xed
    then ([], want 1 0x80 0x9f 0xd)
    else if between 0xe1 0xef b
    then ([], want 1 0x80 0xbf (b - 0xe0))
    else if b == 0xf0
    then ([], want 2 0x90 0xbf 0)
    else if between 0xf1 0xf3 b
    then ([], want 2 0x80 0xbf (b - 0xf0))
    else if b == 0xf4
    then ([], want 2 0x80 0x8f 4)
    else (replacement ∷ [], ready)

abbrev continued : ℕ → ℕ → Text × Decoder
continued zero code = (code ∷ [], ready)
continued (suc missing) code = ([], want missing 0x80 0xbf code)

decode_step : Decoder → ℕ → Text × Decoder
decode_step ready b = first_byte b
decode_step (want missing lo hi code) b =
    if between lo hi b
    then continued missing (code * 64 + (b - 0x80))
    else (replacement ∷ (first_byte b).0, (first_byte b).1)

decode_from : Decoder → Bytes → Text
decode_from ready [] = []
decode_from (want missing lo hi code) [] = replacement ∷ []
decode_from d (b ∷ bs) = (decode_step d b).0 ++ decode_from (decode_step d b).1 bs

-- `String::from_utf8_lossy`
unfoldable pub from_utf8_lossy : Bytes → Text
unfolding decode_from decode_step
from_utf8_lossy bs = decode_from ready bs

abbrev pub IsAscii : List ℕ → Type 0
IsAscii = All (λ b. b < 128)

-- ASCII is its own encoding, both ways.
pub from_utf8_lossy-ascii : (bs : Bytes) → IsAscii bs → from_utf8_lossy bs ≡ bs
unfolding from_utf8_lossy
from_utf8_lossy-ascii bs h = go bs h
  where
    go : (cs : Bytes) → IsAscii cs → decode_from ready cs ≡ cs
    go [] h = refl
    go (c ∷ cs) h = ground (arith, go cs h.1)

pub encode-ascii : (t : Text) → IsAscii t → encode t ≡ t
unfolding encode
encode-ascii [] h = refl
encode-ascii (c ∷ cs) h = ground (arith, encode-ascii cs h.1)

-- `{:<width$}`
abbrev pub spaces : ℕ → Text
spaces zero = []
spaces (suc n) = 32 ∷ spaces n

unfoldable pub pad_right : ℕ → Text → Text
pad_right width t = t ++ spaces (width - length t)

-- `{:>width$}`
unfoldable pub pad_left : ℕ → Text → Text
pad_left width t = spaces (width - length t) ++ t

-- `{}` of a `usize`
unfoldable decimal_from : ℕ → ℕ → Text
decimal_from zero n = []
decimal_from (suc fuel) n =
    let front = decimal_from fuel (n / 10) in
    if ltb n 10 then (48 + n) ∷ [] else front ++ (48 + n % 10) ∷ []

unfoldable pub decimal : ℕ → Text
unfolding decimal_from
decimal n = decimal_from (suc n) n
