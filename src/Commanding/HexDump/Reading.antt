-- ===== src/Commanding/HexDump/Reading.antt =====
-- src/system_commanding.rs: a reader of hex dumps, and the lines that it reads.
use system_core_port_test.Prelude.{
  ℕ, zero, suc, ◌+◌, ◌-◌, ◌*◌, ◌/◌, ◌%◌, ◌≤◌, ◌<◌, ◌≡◌, refl, sym, ap, ◌∙◌, inl, inr, false, List,
  [], ◌∷◌, ◌++◌, ◌==◌, ltb, map, if◌then◌else◌, if_no, arith, length, drop, length-append, All,
  All-append, Bool-cases, lt→ltb, append_assoc,
}
use system_core_port_test.Text.{Text, Bytes, is_whitespace}
use system_core_port_test.Text.Lines.{lines, Line}
use system_core_port_test.Commanding.HexDump.{
  hex_digit, hex_padded, hex_from, hex_offset, gap, cells, printed, dump_line,
}

abbrev pub hex_value : ℕ → ℕ
hex_value c = if ltb c 58 then c - 48 else c - 87

-- The two characters of a column, unless the column is empty.
abbrev pub read_cell : (ℕ → Text → Bytes) → ℕ → Text → Bytes
read_cell further idx (s ∷ a ∷ b ∷ rest) =
    if a == 32 then [] else (hex_value a * 16 + hex_value b) ∷ further (idx + 1) rest
read_cell further idx other = []

-- The bytes of the columns from `idx` on.
unfoldable pub read_cells : ℕ → ℕ → Text → Bytes
read_cells zero idx t = []
read_cells (suc left) idx t = read_cell (read_cells left) idx (drop (length (gap idx)) t)

-- The bytes of the lines, each behind its offset of eight digits.
unfoldable pub read_lines : ℕ → List Text → Bytes
read_lines columns [] = []
read_lines columns (l ∷ ls) = read_cells columns 0 (drop 8 l) ++ read_lines columns ls

-- The bytes of a dump, behind its title.
unfoldable pub read_dump : ℕ → Text → Bytes
read_dump columns t = read_lines columns (drop 1 (lines t))

drop-front : (xs ys : Text) → drop (length xs) (xs ++ ys) ≡ ys
drop-front [] ys = refl
drop-front (x ∷ xs) ys = drop-front xs ys

hex_value-hex_digit : (d : ℕ) → d < 16 → hex_value (hex_digit d) ≡ d
hex_value-hex_digit d l = ground arith

hex_digit_visible : (d : ℕ) → d < 16 → (hex_digit d == 32) ≡ false
hex_digit_visible d l = ground arith

read_cells-cells :
    (left idx : ℕ) (bytes rest : Bytes)
    → length bytes ≤ left
    → All (λ b. b < 256) bytes
    → read_cells left idx (cells left idx bytes ++ rest) ≡ bytes
unfolding read_cells cells hex_padded
read_cells-cells zero idx [] rest l h = refl
read_cells-cells zero idx (b ∷ bs) rest l h = absurd (omega arith)
read_cells-cells (suc left) idx [] rest l h =
    rw
      (
        append_assoc (gap idx) (32 ∷ 32 ∷ 32 ∷ cells left (idx + 1) []) rest,
        drop-front (gap idx) ((32 ∷ 32 ∷ 32 ∷ cells left (idx + 1) []) ++ rest),
      )
      refl
read_cells-cells (suc left) idx (b ∷ bs) rest l h =
    let more = hex_padded 2 b ++ cells left (idx + 1) bs in
    let ih = read_cells-cells left (idx + 1) bs rest (omega arith) h.1 in
    let high = hex_value-hex_digit (b / 16 % 16) (omega arith) in
    let low = hex_value-hex_digit (b % 16) (omega arith) in
    let seen = hex_digit_visible (b / 16 % 16) (omega arith) in
    let num : hex_value (hex_digit (b / 16 % 16)) * 16 + hex_value (hex_digit (b % 16)) ≡ b =
      rw (high, low) (omega arith) in
    rw (append_assoc (gap idx) (32 ∷ more) rest, drop-front (gap idx) ((32 ∷ more) ++ rest))
      (if_no [] seen (
        ap (λ v. v ∷ read_cells left (idx + 1) (cells left (idx + 1) bs ++ rest)) num
        ∙ ap (λ r. b ∷ r) ih))

hex_padded-length : (width n : ℕ) → length (hex_padded width n) ≡ width
unfolding hex_padded
hex_padded-length zero n = refl
hex_padded-length (suc width) n = omega (
  arith,
  hex_padded-length width (n / 16),
  length-append (hex_padded width (n / 16)) (hex_digit (n % 16) ∷ []),
)

abbrev pub NoBreak : Text → Type 0
NoBreak = All (λ c. (c == 10) ≡ false)

NoBreak-append : (xs ys : Text) → NoBreak xs → NoBreak ys → NoBreak (xs ++ ys)
NoBreak-append = All-append (λ c. (c == 10) ≡ false)

hex_digit-NoBreak : (d : ℕ) → NoBreak (hex_digit d ∷ [])
hex_digit-NoBreak d = (ground arith, tt)

hex_padded-NoBreak : (width n : ℕ) → NoBreak (hex_padded width n)
unfolding hex_padded
hex_padded-NoBreak zero n = tt
hex_padded-NoBreak (suc width) n =
    NoBreak-append (hex_padded width (n / 16)) (hex_digit (n % 16) ∷ [])
      (hex_padded-NoBreak width (n / 16)) (hex_digit-NoBreak (n % 16))

pub hex_from-NoBreak : (fuel n : ℕ) → NoBreak (hex_from fuel n)
unfolding hex_from
hex_from-NoBreak zero n = tt
hex_from-NoBreak (suc fuel) n = elim (Bool-cases (ltb n 16)) [
  | inl e ↦ rw e (hex_digit-NoBreak n)
  | inr e ↦ rw e (
      NoBreak-append (hex_from fuel (n / 16)) (hex_digit (n % 16) ∷ [])
        (hex_from-NoBreak fuel (n / 16)) (hex_digit-NoBreak (n % 16)))
]

gap-NoBreak : (idx : ℕ) → NoBreak (gap idx)
gap-NoBreak idx = elim (Bool-cases (idx % 8 == 0)) [ inl e ↦ rw e (refl, tt) | inr e ↦ rw e tt ]

cells-NoBreak : (left idx : ℕ) (bytes : Bytes) → NoBreak (cells left idx bytes)
unfolding cells
cells-NoBreak zero idx bytes = tt
cells-NoBreak (suc left) idx [] =
    NoBreak-append (gap idx) (32 ∷ 32 ∷ 32 ∷ cells left (idx + 1) []) (gap-NoBreak idx)
      (refl, (refl, (refl, cells-NoBreak left (idx + 1) [])))
cells-NoBreak (suc left) idx (b ∷ bs) =
    NoBreak-append (gap idx) (32 ∷ (hex_padded 2 b ++ cells left (idx + 1) bs)) (gap-NoBreak idx) (
      refl,
      NoBreak-append (hex_padded 2 b) (cells left (idx + 1) bs) (hex_padded-NoBreak 2 b)
          (cells-NoBreak left (idx + 1) bs),
    )

printed-NoBreak : (bytes : Bytes) → NoBreak (map printed bytes)
printed-NoBreak [] = tt
printed-NoBreak (b ∷ bs) = (ground arith, printed-NoBreak bs)

-- A line without its "\n".
abbrev pub line_text : ℕ → ℕ → Bytes → Text
line_text columns offset chunk =
    hex_padded 8 offset
    ++ (cells columns 0 chunk ++ ((32 ∷ 32 ∷ 124 ∷ []) ++ (map printed chunk ++ 124 ∷ [])))

pub dump_line-text :
    (columns offset : ℕ) (chunk : Bytes)
    → offset < 4_294_967_296
    → dump_line columns offset chunk ≡ line_text columns offset chunk ++ 10 ∷ []
unfolding dump_line hex_offset
dump_line-text columns offset chunk l = rw (lt→ltb offset 4_294_967_296 l) (simp append_assoc refl)

pub line_text-Line : (columns offset : ℕ) (chunk : Bytes) → Line (line_text columns offset chunk)
unfolding is_whitespace
line_text-Line columns offset chunk =
    let front =
      hex_padded 8 offset
      ++ (cells columns 0 chunk ++ ((32 ∷ 32 ∷ 124 ∷ []) ++ map printed chunk)) in
    record {
      front = front;
      last = 124;
      is_front = simp append_assoc refl;
      visible = refl;
      one_line = NoBreak-append (hex_padded 8 offset) _ (hex_padded-NoBreak 8 offset) (
          NoBreak-append (cells columns 0 chunk) _ (cells-NoBreak columns 0 chunk) (
            refl,
            (
              refl,
              (
                refl,
                NoBreak-append (map printed chunk) (124 ∷ []) (printed-NoBreak chunk) (refl, tt),
              ),
            ),
          ));
    }

pub read_line_text :
    (columns offset : ℕ) (chunk : Bytes)
    → length chunk ≤ columns
    → All (λ b. b < 256) chunk
    → read_cells columns 0 (drop 8 (line_text columns offset chunk)) ≡ chunk
read_line_text columns offset chunk l h =
    let rest = cells columns 0 chunk ++ ((32 ∷ 32 ∷ 124 ∷ []) ++ (map printed chunk ++ 124 ∷ [])) in
    let behind : drop 8 (hex_padded 8 offset ++ rest) ≡ rest =
      ap (λ n. drop n (hex_padded 8 offset ++ rest)) (sym (hex_padded-length 8 offset))
      ∙ drop-front (hex_padded 8 offset) rest in
    ap (read_cells columns 0) behind ∙ read_cells-cells columns 0 chunk _ l h
