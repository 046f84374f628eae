-- ===== src/Commanding/HexDump/RoundTrip.antt =====
-- src/system_commanding.rs: a hex dump is read back.
use system_core_port_test.Prelude.{
  ℕ, zero, suc, ◌+◌, ◌≤◌, ◌<◌, ◌≡◌, refl, sym, ap, ◌∙◌, false, none, List, [], ◌∷◌, ◌++◌, ◌==◌, max,
  arith, length, drop, length-append, length-take, length-drop, take-append-drop, All, All-append,
  All-take, All-drop, append_assoc,
}
use system_core_port_test.Text.{Text, Bytes, trim_end, is_whitespace}
use system_core_port_test.Text.Lines.{lines, unlines, Line, lines-trim_end}
use system_core_port_test.Commanding.HexDump.{
  hex, chunks_from, chunks, dump_lines, hex_dump_bytes, name_or_data,
}
use system_core_port_test.Commanding.HexDump.Reading.{
  read_lines, read_dump, line_text, dump_line-text, line_text-Line, read_line_text,
  hex_from-NoBreak,
}

abbrev AreBytes : Bytes → Type 0
AreBytes = All (λ b. b < 256)

-- The lines of a dump.
abbrev line_texts : ℕ → ℕ → List Bytes → List Text
line_texts columns offset [] = []
line_texts columns offset (chunk ∷ rest) =
    line_text columns offset chunk ∷ line_texts columns (offset + length chunk) rest

abbrev joined : List Bytes → Bytes
joined [] = []
joined (chunk ∷ rest) = chunk ++ joined rest

abbrev Chunk : ℕ → Bytes → Type 0
Chunk size chunk = (length chunk ≤ size) × AreBytes chunk

chunks_from-joined :
    (fuel size : ℕ) (bytes : Bytes)
    → 0 < size
    → length bytes ≤ fuel
    → AreBytes bytes
    → (joined (chunks_from fuel size bytes) ≡ bytes)
      × All (Chunk size) (chunks_from fuel size bytes)
unfolding chunks_from
chunks_from-joined zero size [] p l h = (refl, tt)
chunks_from-joined zero size (b ∷ bs) p l h = absurd (omega arith)
chunks_from-joined (suc fuel) size [] p l h = (refl, tt)
chunks_from-joined (suc fuel) size (b ∷ bs) p l h =
    let (j, c) =
      chunks_from-joined fuel size (drop size (b ∷ bs)) p (omega (arith, length-drop size (b ∷ bs)))
        (All-drop (λ x. x < 256) size (b ∷ bs) h) in
    (
      rw j (take-append-drop size (b ∷ bs)),
      ((omega (arith, length-take size (b ∷ bs)), All-take (λ x. x < 256) size (b ∷ bs) h), c),
    )

-- What the lines are, and what is read from them.
dump_lines-texts :
    (columns offset : ℕ) (cs : List Bytes)
    → offset + length (joined cs) < 4_294_967_296
    → All (Chunk columns) cs
    → (dump_lines columns offset cs ≡ unlines (line_texts columns offset cs))
      × (read_lines columns (line_texts columns offset cs) ≡ joined cs)
      × All Line (line_texts columns offset cs)
unfolding dump_lines unlines read_lines
dump_lines-texts columns offset [] l h = (refl, refl, tt)
dump_lines-texts columns offset (c ∷ cs) l h =
    let total = length-append c (joined cs) in
    let (d, r, k) = dump_lines-texts columns (offset + length c) cs (omega arith) h.1 in
    (
      rw (dump_line-text columns offset c (omega arith), d)
          (append_assoc (line_text columns offset c) (10 ∷ []) _),
      rw (read_line_text columns offset c h.0.0 h.0.1, r) refl,
      (line_text-Line columns offset c, k),
    )

abbrev title : ℕ → Text
title ptr = (48 ∷ 120 ∷ hex ptr) ++ (32 ∷ 32 ∷ name_or_data none)

title-Line : (ptr : ℕ) → Line (title ptr)
unfolding hex is_whitespace
title-Line ptr = record {
  front = (48 ∷ 120 ∷ hex ptr) ++ (32 ∷ 32 ∷ 68 ∷ 97 ∷ 116 ∷ []);
  last = 97;
  is_front = simp append_assoc refl;
  visible = refl;
  one_line = (
    refl,
    (
      refl,
      All-append (λ c. (c == 10) ≡ false) (hex ptr) (32 ∷ 32 ∷ name_or_data none)
          (hex_from-NoBreak (suc ptr) ptr) (refl, (refl, (refl, (refl, (refl, (refl, tt)))))),
    ),
  );
}

-- Reading the two hexadecimal digits in each column of each line of a dump, behind the offset, gives the
-- bytes that were dumped, all of them and in their order, whatever the width of the columns, 0 counting
-- as 1, also for no bytes at all. The dump has the default title, and fewer than 2 ^ 32 bytes, so that
-- the offset has eight digits.
pub hex_dump_bytes-reads :
    (ptr : ℕ) (bytes : Bytes) (column_width : ℕ)
    → All (λ b. b < 256) bytes
    → length bytes < 4_294_967_296
    → read_dump (max column_width 1) (hex_dump_bytes ptr bytes none column_width) ≡ bytes
unfolding hex_dump_bytes read_dump chunks unlines
hex_dump_bytes-reads ptr bytes column_width h l =
    let columns = max column_width 1 in
    let cs = chunks_from (length bytes) columns bytes in
    let (j, c) = chunks_from-joined (length bytes) columns bytes (omega arith) (omega arith) h in
    let (d, r, k) = dump_lines-texts columns 0 cs (rw j (omega arith)) c in
    let (t, e) = lines-trim_end (title ptr) (line_texts columns 0 cs) (title-Line ptr, k) in
    let shape : (48 ∷ 120 ∷ hex ptr)
          ++ ((32 ∷ 32 ∷ name_or_data none) ++ (10 ∷ dump_lines columns 0 cs))
        ≡ unlines (title ptr ∷ line_texts columns 0 cs) =
      ap (λ x. (48 ∷ 120 ∷ hex ptr) ++ ((32 ∷ 32 ∷ name_or_data none) ++ (10 ∷ x))) d
      ∙ sym (append_assoc (48 ∷ 120 ∷ hex ptr) (32 ∷ 32 ∷ name_or_data none) _) in
    ap (λ x. read_lines columns (drop 1 (lines (trim_end x)))) shape
    ∙ ap (λ x. read_lines columns (drop 1 x)) t
    ∙ r
    ∙ j
