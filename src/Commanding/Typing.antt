-- ===== src/Commanding/Typing.antt =====
-- src/system_commanding.rs: what a terminal sends, and what the session makes of it.
use system_core_port_test.Prelude.{
  ℕ, ◌+◌, ◌≡◌, refl, ap, ◌∙◌, true, some, [], ◌∷◌, ◌++◌, length, ◌>>=◌, arith, All,
}
use system_core_port_test.Text.{Text, Bytes, between}
use system_core_port_test.Commanding.Registry.{CommandRegistry}
use system_core_port_test.Commanding.Keys.{
  ParsedKey, char, enter, tab, backspace, delete, left, right, up, down, home, end, jump_left,
  jump_right, main, feed_byte,
}
use system_core_port_test.Commanding.Session.{SystemCommanding, SessionOutput}
use system_core_port_test.Commanding.Ingest.{Run, redraw, edited, key_step, ingest_interactive}
use system_core_port_test.Commanding.Editing.{Zipper, Shows, plug, onto, insert_at-plug}

abbrev pub IsPrintable : ℕ → Type 0
IsPrintable b = between 0x20 0x7e b ≡ true

-- All the ways in which the parser takes a key that is no character and does not end the session. With
-- "\x1b[4", "\x1b[7" and "\x1b[8" the key is complete at the digit: a "~" behind it is a character.
pub data Sends : ParsedKey → Bytes → Type 0 where
  cursor_up : Sends up (0x1b ∷ 91 ∷ 65 ∷ [])
  cursor_down : Sends down (0x1b ∷ 91 ∷ 66 ∷ [])
  cursor_right : Sends right (0x1b ∷ 91 ∷ 67 ∷ [])
  cursor_left : Sends left (0x1b ∷ 91 ∷ 68 ∷ [])
  home_1 : Sends home (0x1b ∷ 91 ∷ 49 ∷ 126 ∷ [])
  home_7 : Sends home (0x1b ∷ 91 ∷ 55 ∷ [])
  home_h : Sends home (0x1b ∷ 91 ∷ 72 ∷ [])
  end_4 : Sends end (0x1b ∷ 91 ∷ 52 ∷ [])
  end_8 : Sends end (0x1b ∷ 91 ∷ 56 ∷ [])
  end_f : Sends end (0x1b ∷ 91 ∷ 70 ∷ [])
  delete_3 : Sends delete (0x1b ∷ 91 ∷ 51 ∷ 126 ∷ [])
  control_right : Sends jump_right (0x1b ∷ 91 ∷ 49 ∷ 59 ∷ 53 ∷ 67 ∷ [])
  control_left : Sends jump_left (0x1b ∷ 91 ∷ 49 ∷ 59 ∷ 53 ∷ 68 ∷ [])
  carriage_return : Sends enter (13 ∷ [])
  line_feed : Sends enter (10 ∷ [])
  tabulator : Sends tab (9 ∷ [])
  rubout : Sends backspace (127 ∷ [])
  control_h : Sends backspace (8 ∷ [])

module _ {H : Type 0} (call : H → Text → CommandRegistry H → Text)
    (registry : CommandRegistry H) where
  -- At the parser's main state.
  abbrev at_main : SystemCommanding → SystemCommanding
  at_main s = record s { parser_state = main }

  sequence-at_main :
      (k : ParsedKey) (bytes bs : Bytes) (s : SystemCommanding) (out : SessionOutput)
      → Sends k bytes
      → ingest_interactive call registry (bytes ++ bs) (at_main s) out ≡ (
          key_step call registry k (at_main s) out
          >>= (λ r. ingest_interactive call registry bs r.0 r.1))
  unfolding ingest_interactive feed_byte
  sequence-at_main k bytes bs s out cursor_up = refl
  sequence-at_main k bytes bs s out cursor_down = refl
  sequence-at_main k bytes bs s out cursor_right = refl
  sequence-at_main k bytes bs s out cursor_left = refl
  sequence-at_main k bytes bs s out home_1 = refl
  sequence-at_main k bytes bs s out home_7 = refl
  sequence-at_main k bytes bs s out home_h = refl
  sequence-at_main k bytes bs s out end_4 = refl
  sequence-at_main k bytes bs s out end_8 = refl
  sequence-at_main k bytes bs s out end_f = refl
  sequence-at_main k bytes bs s out delete_3 = refl
  sequence-at_main k bytes bs s out control_right = refl
  sequence-at_main k bytes bs s out control_left = refl
  sequence-at_main k bytes bs s out carriage_return = refl
  sequence-at_main k bytes bs s out line_feed = refl
  sequence-at_main k bytes bs s out tabulator = refl
  sequence-at_main k bytes bs s out rubout = refl
  sequence-at_main k bytes bs s out control_h = refl

  -- Between keys, each sequence of bytes by which the parser knows a key that is no character, and that
  -- does not end the session, has this key's effect, once, and the session goes on with the bytes behind
  -- it. The sequences for home and end that close with "~" after 4, 7 or 8 are none of these: there the
  -- "~" is one of the bytes behind.
  pub ingest-sequence :
      (k : ParsedKey) (bytes bs : Bytes) (s : SystemCommanding) (out : SessionOutput)
      → s.parser_state ≡ main
      → Sends k bytes
      → ingest_interactive call registry (bytes ++ bs) s out
        ≡ (key_step call registry k s out >>= (λ r. ingest_interactive call registry bs r.0 r.1))
  ingest-sequence k bytes bs s out m e = rw (same) (sequence-at_main k bytes bs s out e)
    where
      same : s ≡ at_main s
      same = λ i. record s { parser_state = m i }

  feed_byte-printable : (b : ℕ) → IsPrintable b → feed_byte main b ≡ (main, some (char b))
  unfolding feed_byte
  feed_byte-printable b h = ground arith

  char-at_main :
      (b : ℕ) (bs l r : Bytes) (s : SystemCommanding) (out : SessionOutput)
      → IsPrintable b
      → let t = record s { line = plug l r; cursor = length l; parser_state = main } in
        let (u, o) = redraw (edited (plug l (b ∷ r)) (length l + 1) t) out in
        ingest_interactive call registry (b ∷ bs) t out ≡ ingest_interactive call registry bs u o
  unfolding ingest_interactive key_step
  char-at_main b bs l r s out h =
      rw (feed_byte-printable b h, ingest_interactive)
        (rw (insert_at-plug b l r) (rw (feed_byte-printable b h) refl))

  -- Printable text that arrives between keys stands left of the cursor afterwards, in its order; what
  -- stood left and right of the cursor is kept, and the parser is between keys again.
  pub ingest-printable :
      (bs : Bytes) (z : Zipper) (s : SystemCommanding) (out : SessionOutput)
      → All IsPrintable bs
      → s.parser_state ≡ main
      → Shows z s
      → (r : Run) × (ingest_interactive call registry bs s out ≡ some r)
        × Shows (record { front = onto z.front bs; back = z.back }) r.0
        × (r.0.parser_state ≡ main)
  unfolding ingest_interactive
  ingest-printable [] z s out h m w = ((s, out), refl, w, m)
  ingest-printable (b ∷ bs) z s out h m w =
      let t = record s {
        line = plug z.front z.back;
        cursor = length z.front;
        parser_state = main;
      } in
      let same : s ≡ t =
        λ i. record s { line = w.line_is i; cursor = w.cursor_is i; parser_state = m i } in
      let u = edited (plug z.front (b ∷ z.back)) (length z.front + 1) t in
      let o = (redraw u out).1 in
      let (r, e, v, n) =
        ingest-printable bs (record { front = b ∷ z.front; back = z.back }) u o h.1 refl
          (record { line_is = refl; cursor_is = omega arith }) in
      (
        r,
        ap (λ x. ingest_interactive call registry (b ∷ bs) x out) same
            ∙ char-at_main b bs z.front z.back s out h.0
            ∙ e,
        v,
        n,
      )
