-- ===== src/Commanding/Ingest.antt =====
-- src/system_commanding.rs: `on_connect`, `ingest` and what it calls. `none` is a panic.
use system_core_port_test.Prelude.{
  ℕ, ◌+◌, ◌-◌, Bool, true, false, ◌||◌, Option, none, some, List, [], ◌∷◌, ◌++◌, ◌==◌, ltb,
  if◌then◌else◌, is_empty, length, any, ◌>>=◌,
}
use system_core_port_test.Text.{Text, Bytes, trim, encode, from_utf8_lossy}
use system_core_port_test.Commanding.Registry.{CommandRegistry, eq_text, candidates}
use system_core_port_test.Commanding.Registry
use system_core_port_test.Commanding.Keys.{
  ParsedKey, char, enter, tab, backspace, delete, left, right, up, down, home, end, ctrl_c, ctrl_d,
  ParserState, feed_byte,
}
use system_core_port_test.Commanding.Keys
use system_core_port_test.Commanding.Session.{
  SystemCommanding, SessionOutput, output_new, push_chunk, insert_at, remove_at, slice_to,
  prompt_bytes, history_insert, history_up, history_down, jump_left, jump_right, common_prefix,
  list_candidates,
}

-- Every line end becomes "\r\n"; a "\r" on its own stays.
unfoldable pub normalize_lf_to_crlf : Text → Text
normalize_lf_to_crlf [] = []
normalize_lf_to_crlf (c ∷ []) = if c == 10 then 13 ∷ 10 ∷ [] else c ∷ []
normalize_lf_to_crlf (c ∷ d ∷ cs) =
    let after_two = normalize_lf_to_crlf cs in
    let after_one = normalize_lf_to_crlf (d ∷ cs) in
    if c == 13
    then (if d == 10 then 13 ∷ 10 ∷ after_two else 13 ∷ after_one)
    else if c == 10
    then 13 ∷ 10 ∷ after_one
    else c ∷ after_one

unfoldable pub mode_auto_set : SystemCommanding → SystemCommanding
mode_auto_set s = record s { mode_auto = true }

-- The terminal's set-up and the welcome message of `on_connect`.
abbrev pub terminal_init : Bytes
terminal_init =
    0xff ∷ 0xfb ∷ 0x01 ∷ 0xff ∷ 0xfb ∷ 0x03 ∷ 0xff ∷ 0xfc ∷ 0x22 ∷ 0x1b ∷ 91 ∷ 63 ∷ 50 ∷ 53 ∷ 108
    ∷ 0x1b ∷ 91 ∷ 63 ∷ 49 ∷ 48 ∷ 52 ∷ 57 ∷ 104 ∷ 0x1b ∷ 93 ∷ 50 ∷ 59 ∷ 83 ∷ 121 ∷ 115 ∷ 116 ∷ 101
    ∷ 109 ∷ 67 ∷ 111 ∷ 109 ∷ 109 ∷ 97 ∷ 110 ∷ 100 ∷ 105 ∷ 110 ∷ 103 ∷ 40 ∷ 41 ∷ 0x07 ∷ 0x1b ∷ 91
    ∷ 50 ∷ 74 ∷ 0x1b ∷ 91 ∷ 72 ∷ []

-- `WELCOME_MSG`
abbrev pub welcome_msg : Bytes
welcome_msg =
    13 ∷ 10 ∷ 60 ∷ 117 ∷ 110 ∷ 107 ∷ 110 ∷ 111 ∷ 119 ∷ 110 ∷ 32 ∷ 112 ∷ 97 ∷ 99 ∷ 107 ∷ 97 ∷ 103
    ∷ 101 ∷ 62 ∷ 13 ∷ 10 ∷ 83 ∷ 121 ∷ 115 ∷ 116 ∷ 101 ∷ 109 ∷ 32 ∷ 84 ∷ 101 ∷ 114 ∷ 109 ∷ 105 ∷ 110
    ∷ 97 ∷ 108 ∷ 13 ∷ 10 ∷ 13 ∷ 10 ∷ 116 ∷ 121 ∷ 112 ∷ 101 ∷ 32 ∷ 39 ∷ 104 ∷ 101 ∷ 108 ∷ 112 ∷ 39
    ∷ 32 ∷ 111 ∷ 114 ∷ 32 ∷ 106 ∷ 117 ∷ 115 ∷ 116 ∷ 32 ∷ 39 ∷ 104 ∷ 39 ∷ 32 ∷ 102 ∷ 111 ∷ 114 ∷ 32
    ∷ 97 ∷ 32 ∷ 108 ∷ 105 ∷ 115 ∷ 116 ∷ 32 ∷ 111 ∷ 102 ∷ 32 ∷ 97 ∷ 118 ∷ 97 ∷ 105 ∷ 108 ∷ 97 ∷ 98
    ∷ 108 ∷ 101 ∷ 32 ∷ 99 ∷ 111 ∷ 109 ∷ 109 ∷ 97 ∷ 110 ∷ 100 ∷ 115 ∷ 13 ∷ 10 ∷ 13 ∷ 10 ∷ []

-- The text of the welcome is an argument: it is data that nothing depends on.
unfoldable pub on_connect : Bytes → SystemCommanding → SystemCommanding × List Bytes
on_connect welcome s =
    let s1 = record s { started = true } in
    let s2 = record s1 { term_changed = true } in
    if s.started
    then (s, [])
    else if s.mode_auto
    then (s1, [])
    else (s2, terminal_init ∷ welcome ∷ prompt_bytes s2 ∷ [])

unfoldable pub disconnect_bytes : SystemCommanding → Bytes
disconnect_bytes s =
    if s.mode_auto
    then []
    else (13 ∷ 10 ∷ [])
      ++ (if s.term_changed
          then 0x1b ∷ 91 ∷ 63 ∷ 50 ∷ 53 ∷ 104 ∷ 0x1b ∷ 91 ∷ 63 ∷ 49 ∷ 48 ∷ 52 ∷ 57 ∷ 108 ∷ []
          else [])

-- A session with its output so far.
abbrev pub Run : Type 0
Run = SystemCommanding × SessionOutput

-- `output.chunks.push(self.prompt_bytes())`
abbrev pub redraw : SystemCommanding → SessionOutput → Run
redraw s out = (s, push_chunk (prompt_bytes s) out)

-- The cursor and the line of an edit that took place.
abbrev pub edited : Bytes → ℕ → SystemCommanding → SystemCommanding
edited line cursor s = record s { line = line; cursor = cursor; tab_last = false }

abbrev pub remembered : Text → SystemCommanding → SystemCommanding
remembered line s =
    if is_empty line
    then s
    else record s { last_command = some line; history = history_insert line s.history }

abbrev pub respond : Text → SessionOutput → SessionOutput
respond response out =
    if is_empty response
    then out
    else push_chunk (encode (normalize_lf_to_crlf response ++ 13 ∷ 10 ∷ [])) out

abbrev pub shown : SessionOutput → SystemCommanding × Bool → Run
shown out (s, changed) = if changed then redraw s out else (s, out)

-- A jump forgets the last tab only if it moved.
abbrev pub jumped : SessionOutput → SystemCommanding × Bool → Run
jumped out (s, changed) = if changed then redraw (record s { tab_last = false }) out else (s, out)

abbrev pub edit_line : SystemCommanding → SessionOutput → ℕ → Option Bytes → Option Run
edit_line s out cursor lines = lines >>= (λ line. some (redraw (edited line cursor s) out))

abbrev pub is_break : ParsedKey → Bool
is_break ctrl_c = true
is_break ctrl_d = true
is_break _ = false

-- `candidates.len() == 1 && prefix == candidates[0]`
abbrev pub is_only : Text → List Text → Bool
is_only prefix (c ∷ []) = eq_text prefix c
is_only prefix _ = false

module _ {H : Type 0} (call : H → Text → CommandRegistry H → Text)
    (registry : CommandRegistry H) where
  unfoldable pub execute_line : SystemCommanding → SessionOutput → Run
  execute_line s out =
      let out1 = push_chunk (13 ∷ 10 ∷ []) out in
      let line = trim (from_utf8_lossy s.line) in
      let out2 =
        if is_empty line then out1 else respond (Registry.execute_line call registry line) out1 in
      let s1 = remembered line s in
      redraw (record s1 { line = []; cursor = 0; history_view = none; tab_last = false }) out2

  unfoldable pub complete : SystemCommanding → SessionOutput → Text → List Text → Bytes → Run
  complete s out prefix cands common =
      let s1 = record s { line = common; cursor = length common; tab_last = true } in
      let spaced = s.line ++ 32 ∷ [] in
      let s2 = record s { line = spaced; cursor = length spaced; tab_last = true } in
      if ltb (length (encode prefix)) (length common)
      then (s1, push_chunk (prompt_bytes s1) out)
      else if is_only prefix cands
      then (s2, push_chunk (prompt_bytes s2) out)
      else (record s { tab_last = true }, out)

  unfoldable pub tab_candidates : SystemCommanding → SessionOutput → Text → List Text → Option Run
  unfolding complete
  tab_candidates s out prefix [] = some (record s { tab_last = false }, out)
  tab_candidates s out prefix (c ∷ cs) =
      if s.tab_last
      then (list_candidates 0 (c ∷ cs)
          >>= (λ listing. some (redraw s (push_chunk ((13 ∷ 10 ∷ []) ++ listing) out))))
      else (common_prefix (encode c) cs
          >>= (λ common. some (complete s out prefix (c ∷ cs) common)))

  unfoldable pub tab_process : SystemCommanding → SessionOutput → Option Run
  unfolding tab_candidates
  tab_process s out =
      let work = slice_to s.cursor s.line >>= (λ front.
        if any (λ b. b == 32) front
        then some (s, out)
        else (let prefix = from_utf8_lossy front in
            tab_candidates s out prefix (candidates registry prefix))) in
      if s.cursor == 0 then some (s, out) else work

  -- One key of the interactive mode.
  unfoldable pub key_step : ParsedKey → SystemCommanding → SessionOutput → Option Run
  key_step ctrl_c s out = some (s, record out { disconnect = true })
  key_step ctrl_d s out = some (s, record out { disconnect = true })
  key_step enter s out = some (execute_line s out)
  key_step tab s out = tab_process s out
  key_step backspace s out =
      if ltb 0 s.cursor
      then edit_line s out (s.cursor - 1) (remove_at (s.cursor - 1) s.line)
      else some (s, out)
  key_step delete s out =
      if ltb s.cursor (length s.line)
      then edit_line s out s.cursor (remove_at s.cursor s.line)
      else some (s, out)
  key_step left s out =
      some (if ltb 0 s.cursor then redraw (edited s.line (s.cursor - 1) s) out else (s, out))
  key_step right s out = some (
      if ltb s.cursor (length s.line)
      then redraw (edited s.line (s.cursor + 1) s) out
      else (s, out))
  key_step home s out = some (if s.cursor == 0 then (s, out) else redraw (edited s.line 0 s) out)
  key_step end s out =
      some (
        if s.cursor == length s.line
        then (s, out)
        else redraw (edited s.line (length s.line) s) out)
  key_step up s out = history_up s >>= (λ r. some (shown out r))
  key_step down s out = history_down s >>= (λ r. some (shown out r))
  key_step Keys.jump_left s out = jump_left s >>= (λ r. some (jumped out r))
  key_step Keys.jump_right s out = some (jumped out (jump_right s))
  key_step (char ch) s out = edit_line s out (s.cursor + 1) (insert_at s.cursor ch s.line)

  -- The loop over the bytes of the interactive mode.
  unfoldable pub ingest_interactive : Bytes → SystemCommanding → SessionOutput → Option Run
  ingest_interactive [] s out = some (s, out)
  ingest_interactive (b ∷ bs) s out =
      let (state, key) = feed_byte s.parser_state b in
      let s1 = record s { parser_state = state } in
      elim key [
        | none ↦ ingest_interactive bs s1 out
        | some k ↦
            let next = key_step k s1 out >>= (λ r. ingest_interactive bs r.0 r.1) in
            if is_break k then key_step k s1 out else next
      ]

  abbrev run_auto : SystemCommanding → SessionOutput → Run
  run_auto s out =
      let line = trim (from_utf8_lossy s.line) in
      let last = if is_empty line then s.last_command else some line in
      (
        record s { last_command = last; line = [] },
        record (push_chunk (encode (Registry.execute_line call registry line)) out) {
          disconnect = true;
        },
      )

  -- The loop of the automatic mode: one line, then the end.
  unfoldable pub ingest_auto : Bytes → SystemCommanding → SessionOutput → Run
  ingest_auto [] s out = (s, out)
  ingest_auto (b ∷ bs) s out =
      let further = ingest_auto bs (record s { line = s.line ++ b ∷ [] }) out in
      if b == 13 || b == 10 || b == 0
      then run_auto s out
      else if b == 3 || b == 4
      then (record s { line = [] }, record out { disconnect = true })
      else further

  unfoldable pub ingest : Bytes → SystemCommanding → Option Run
  ingest bytes s =
      if s.mode_auto
      then some (ingest_auto bytes s output_new)
      else ingest_interactive bytes s output_new
