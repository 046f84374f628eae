-- ===== src/Commanding/Session.antt =====
-- src/system_commanding.rs: the state of a session and the operations on its line. An index out of
-- range and a cut inside a character are panics in Rust; here such an operation gives `none`.
use system_core_port_test.Prelude.{
  ℕ, zero, suc, ◌+◌, ◌-◌, Bool, true, false, not, ◌&&◌, Option, none, some, List, [], ◌∷◌, ◌++◌,
  ◌==◌, ltb, leb, if◌then◌else◌, is_empty, length, take, drop, get_elem?, ◌>>=◌, min,
}
use system_core_port_test.Text.{
  Text, Bytes, encode, from_utf8_lossy, is_ascii_alphanumeric, between, pad_right, decimal,
}
use system_core_port_test.Commanding.Registry.{eq_text}
use system_core_port_test.Commanding.Keys.{ParserState, main}

abbrev pub history_max : ℕ
history_max = 5

pub record SystemCommanding : Type 0 where
  pub line : Bytes
  pub cursor : ℕ
  pub history : List Text
  pub history_view : Option ℕ
  pub last_command : Option Text
  pub mode_auto : Bool
  pub tab_last : Bool
  pub parser_state : ParserState
  pub started : Bool
  pub term_changed : Bool

pub record SessionOutput : Type 0 where
  pub chunks : List Bytes
  pub disconnect : Bool

abbrev pub session_new : SystemCommanding
session_new = record {
  line = [];
  cursor = 0;
  history = [];
  history_view = none;
  last_command = none;
  mode_auto = false;
  tab_last = false;
  parser_state = main;
  started = false;
  term_changed = false;
}

abbrev pub output_new : SessionOutput
output_new = record { chunks = []; disconnect = false }

abbrev pub push_chunk : Bytes → SessionOutput → SessionOutput
push_chunk chunk out = record out { chunks = out.chunks ++ chunk ∷ [] }

-- `Vec::insert`, `Vec::remove` and a slice `[..n]`.
abbrev pub insert_at {ℓ} : {A : Type ℓ} → ℕ → A → List A → Option (List A)
insert_at i x xs = if leb i (length xs) then some (take i xs ++ x ∷ drop i xs) else none

abbrev pub remove_at {ℓ} : {A : Type ℓ} → ℕ → List A → Option (List A)
remove_at i xs = if ltb i (length xs) then some (take i xs ++ drop (suc i) xs) else none

abbrev pub slice_to {ℓ} : {A : Type ℓ} → ℕ → List A → Option (List A)
slice_to i xs = if leb i (length xs) then some (take i xs) else none

-- "\rcore@app:~# "
abbrev pub prompt_prefix : Bytes
prompt_prefix = 13 ∷ 99 ∷ 111 ∷ 114 ∷ 101 ∷ 64 ∷ 97 ∷ 112 ∷ 112 ∷ 58 ∷ 126 ∷ 35 ∷ 32 ∷ []

unfoldable pub prompt_bytes : SystemCommanding → Bytes
prompt_bytes s =
    let tail = length s.line - s.cursor in
    encode (
      prompt_prefix
      ++ (from_utf8_lossy s.line
          ++ ((0x1b ∷ 91 ∷ 75 ∷ [])
              ++ (if ltb 0 tail then (0x1b ∷ 91 ∷ []) ++ (decimal tail ++ 68 ∷ []) else []))))

-- The last entry is not entered twice, and the oldest one makes room.
abbrev pub is_last : Text → List Text → Bool
is_last line [] = false
is_last line (x ∷ []) = eq_text x line
is_last line (x ∷ y ∷ ys) = is_last line (y ∷ ys)

unfoldable pub history_insert : Text → List Text → List Text
history_insert line history =
    let pushed = history ++ line ∷ [] in
    if is_last line history
    then history
    else if ltb history_max (length pushed)
    then drop 1 pushed
    else pushed

abbrev load_entry : SystemCommanding → Option Text → Option SystemCommanding
load_entry s none = none
load_entry s (some t) =
    some (record s { line = encode t; cursor = length (encode t); tab_last = false })

load_view : SystemCommanding → Option ℕ → Option SystemCommanding
load_view s none = some (record s { tab_last = false })
load_view s (some index) = load_entry s (get_elem? s.history index)

unfoldable pub load_history_view : SystemCommanding → Option SystemCommanding
unfolding load_view
load_history_view s = load_view s s.history_view

abbrev pub view_up : List Text → Option ℕ → ℕ
view_up history none = length history - 1
view_up history (some index) = index - 1

-- Each returns whether the line has to be drawn again.
unfoldable pub history_up : SystemCommanding → Option (SystemCommanding × Bool)
history_up s =
    if is_empty s.history
    then some (s, false)
    else load_history_view (record s { history_view = some (view_up s.history s.history_view) })
      >>= (λ t. some (t, true))

unfoldable pub history_down_from : SystemCommanding → Option ℕ → Option (SystemCommanding × Bool)
history_down_from s none = some (s, false)
history_down_from s (some index) =
    if leb (length s.history) (index + 1)
    then some (record s { history_view = none; line = []; cursor = 0 }, true)
    else load_history_view (record s { history_view = some (index + 1) }) >>= (λ t. some (t, true))

unfoldable pub history_down : SystemCommanding → Option (SystemCommanding × Bool)
unfolding history_down_from
history_down s = history_down_from s s.history_view

-- `while cursor > 0 && test(line[cursor - 1]) { cursor -= 1 }`
unfoldable pub back_while : (ℕ → Bool) → Bytes → ℕ → Option ℕ
back_while test line zero = some zero
back_while test line (suc k) = elim (get_elem? line k) [
  | none ↦ none
  | some b ↦ elim (test b) [ true ↦ back_while test line k | false ↦ some (suc k) ]
]

-- `while cursor < line.len() && test(line[cursor]) { cursor += 1 }`, over the rest of the line.
unfoldable pub forward_while : (ℕ → Bool) → Bytes → ℕ → ℕ
forward_while test [] cursor = cursor
forward_while test (b ∷ bs) cursor =
    let further = forward_while test bs (cursor + 1) in if test b then further else cursor

abbrev pub is_space : ℕ → Bool
is_space b = b == 32

unfoldable pub jump_left : SystemCommanding → Option (SystemCommanding × Bool)
jump_left s =
    let jump = back_while is_space s.line s.cursor >>= (λ k.
      back_while is_ascii_alphanumeric s.line k
      >>= (λ cursor. some (record s { cursor = cursor }, not (cursor == s.cursor)))) in
    if s.cursor == 0 then some (s, false) else jump

unfoldable pub jump_right : SystemCommanding → SystemCommanding × Bool
jump_right s =
    let word = forward_while is_ascii_alphanumeric (drop s.cursor s.line) s.cursor in
    let cursor = forward_while is_space (drop word s.line) word in
    if leb (length s.line) s.cursor
    then (s, false)
    else (record s { cursor = cursor }, not (cursor == s.cursor))

-- The bytes that two encodings have in common.
unfoldable pub common_len : Bytes → Bytes → ℕ
common_len [] ys = 0
common_len (x ∷ xs) [] = 0
common_len (x ∷ xs) (y ∷ ys) = let rest = common_len xs ys in if x == y then suc rest else 0

-- A cut of a `str` at a byte must not fall on a continuation byte.
abbrev pub is_boundary : Bytes → Bool
is_boundary [] = true
is_boundary (b ∷ bs) = not (between 0x80 0xbf b)

-- `&candidate[..n]`
unfoldable pub cut_to : ℕ → Bytes → Option Bytes
cut_to n bs = if leb n (length bs) && is_boundary (drop n bs) then some (take n bs) else none

-- `common.truncate(n)`, which does nothing past the end.
unfoldable pub truncate : ℕ → Bytes → Option Bytes
truncate n bs =
    if leb n (length bs)
    then (if is_boundary (drop n bs) then some (take n bs) else none)
    else some bs

unfoldable pub common_prefix : Bytes → List Text → Option Bytes
common_prefix common [] = some common
common_prefix common (c ∷ cs) =
    truncate (common_len common (encode c)) common >>= (λ shorter. common_prefix shorter cs)

-- The listing of the candidates: two columns of 22 characters, of each candidate 20 bytes at most.
unfoldable pub list_candidates : ℕ → List Text → Option Bytes
list_candidates col [] = some (if col == 0 then [] else 13 ∷ 10 ∷ [])
list_candidates col (c ∷ cs) =
    let bytes = encode c in
    cut_to (min (length bytes) 20) bytes >>= (λ shown.
      let cell = encode (pad_right 22 (from_utf8_lossy shown)) in
      let full = leb 2 (col + 1) in
      list_candidates (if full then 0 else col + 1) cs
      >>= (λ rest. some (cell ++ ((if full then 13 ∷ 10 ∷ [] else []) ++ rest))))
