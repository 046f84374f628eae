-- ===== src/Commanding/Total.antt =====
-- src/system_commanding.rs: `ingest` on a well-formed session, over all keys and bytes.
use system_core_port_test.Prelude.{
  ℕ, suc, ◌+◌, ◌-◌, ◌≤◌, ◌<◌, ◌≡◌, refl, inl, inr, Bool, true, false, Option, none, some, [], ◌∷◌,
  ◌++◌, ◌==◌, ltb, if◌then◌else◌, length, take, drop, ◌>>=◌, arith, Bool-cases,
}
use system_core_port_test.Text.{Text, Bytes}
use system_core_port_test.Commanding.Registry.{CommandRegistry}
use system_core_port_test.Commanding.Keys.{
  ParsedKey, char, enter, tab, backspace, delete, left, right, up, down, home, end, ctrl_c, ctrl_d,
  ParserState, feed_byte,
}
use system_core_port_test.Commanding.Keys
use system_core_port_test.Commanding.Session.{
  SystemCommanding, SessionOutput, output_new, insert_at, remove_at, history_up, history_down,
  jump_left, jump_right,
}
use system_core_port_test.Commanding.Ingest.{
  Run, redraw, edited, edit_line, shown, jumped, key_step, is_break, ingest_interactive, ingest,
}
use system_core_port_test.Commanding.Safe.{
  Wf, Gives, length-insert, length-remove, history_up-Gives, history_down-Gives, jump_left-Gives,
  jump_right-Wf,
}
use system_core_port_test.Commanding.Complete.{
  AsciiIds, GivesRun, forget-Wf, execute_line-Wf, tab_process-Gives,
}

module _ {H : Type 0} (call : H → Text → CommandRegistry H → Text) (registry : CommandRegistry H)
    (ascii : AsciiIds registry) where
  edited-Wf :
      (s : SystemCommanding) (line : Bytes) (cursor : ℕ)
      → cursor ≤ length line
      → Wf s
      → Wf (edited line cursor s)
  edited-Wf s line cursor h w = record {
    cursor_in = h;
    view_in = w.view_in;
    history_bounded = w.history_bounded;
  }

  edit_line-Gives :
      (s : SystemCommanding) (out : SessionOutput) (cursor : ℕ) (lines : Option Bytes)
      (line : Bytes)
      → lines ≡ some line
      → cursor ≤ length line
      → Wf s
      → GivesRun (edit_line s out cursor lines)
  edit_line-Gives s out cursor lines line e h w =
      (redraw (edited line cursor s) out, rw e refl, edited-Wf s line cursor h w)

  shown-Gives :
      (s : SystemCommanding) (out : SessionOutput) (o : Option (SystemCommanding × Bool))
      → Gives o
      → GivesRun (o >>= (λ r. some (shown out r)))
  shown-Gives s out o ((t, true), e, w) = (redraw t out, rw e refl, w)
  shown-Gives s out o ((t, false), e, w) = ((t, out), rw e refl, w)

  jumped-Wf : (out : SessionOutput) (r : SystemCommanding × Bool) → Wf r.0 → Wf (jumped out r).0
  jumped-Wf out (t, true) w = forget-Wf t false w
  jumped-Wf out (t, false) w = w

  jumped-Gives :
      (out : SessionOutput) (o : Option (SystemCommanding × Bool))
      → Gives o
      → GivesRun (o >>= (λ r. some (jumped out r)))
  jumped-Gives out o (r, e, w) = (jumped out r, rw e refl, jumped-Wf out r w)

  key_step-Gives :
      (k : ParsedKey) (s : SystemCommanding) (out : SessionOutput)
      → Wf s
      → GivesRun (key_step call registry k s out)
  unfolding key_step
  key_step-Gives ctrl_c s out w = (_, refl, w)
  key_step-Gives ctrl_d s out w = (_, refl, w)
  key_step-Gives enter s out w = (_, refl, execute_line-Wf call registry ascii s out w)
  key_step-Gives tab s out w = tab_process-Gives call registry ascii s out w
  key_step-Gives backspace s out w = elim (Bool-cases (ltb 0 s.cursor)) [
    | inl e ↦
        let c = s.cursor - 1 in
        let h : c < length s.line = ground (arith, w.cursor_in) in
        let line = take c s.line ++ drop (suc c) s.line in
        simp e (
          edit_line-Gives s out c (remove_at c s.line) line (ground arith)
            (omega (arith, length-remove c s.line h)) w)
    | inr e ↦ ((s, out), simp e refl, w)
  ]
  key_step-Gives delete s out w = elim (Bool-cases (ltb s.cursor (length s.line))) [
    | inl e ↦
        let c = s.cursor in
        let h : c < length s.line = ground arith in
        let line = take c s.line ++ drop (suc c) s.line in
        (
          redraw (edited line c s) out,
          simp e refl,
          edited-Wf s line c (omega (arith, length-remove c s.line h)) w,
        )
    | inr e ↦ ((s, out), simp e refl, w)
  ]
  key_step-Gives left s out w = elim (Bool-cases (ltb 0 s.cursor)) [
    | inl e ↦ (_, refl, simp e (edited-Wf s s.line (s.cursor - 1) (omega (arith, w.cursor_in)) w))
    | inr e ↦ (_, refl, simp e w)
  ]
  key_step-Gives right s out w = elim (Bool-cases (ltb s.cursor (length s.line))) [
    | inl e ↦ (_, refl, simp e (edited-Wf s s.line (s.cursor + 1) (ground arith) w))
    | inr e ↦ (_, refl, simp e w)
  ]
  key_step-Gives home s out w = elim (Bool-cases (s.cursor == 0)) [
    | inl e ↦ (_, refl, simp e w)
    | inr e ↦ (_, refl, simp e (edited-Wf s s.line 0 (omega arith) w))
  ]
  key_step-Gives end s out w = elim (Bool-cases (s.cursor == length s.line)) [
    | inl e ↦ (_, refl, simp e w)
    | inr e ↦ (_, refl, simp e (edited-Wf s s.line (length s.line) (omega arith) w))
  ]
  key_step-Gives up s out w = shown-Gives s out (history_up s) (history_up-Gives s w)
  key_step-Gives down s out w = shown-Gives s out (history_down s) (history_down-Gives s w)
  key_step-Gives Keys.jump_left s out w = jumped-Gives out (jump_left s) (jump_left-Gives s w)
  key_step-Gives Keys.jump_right s out w =
      (_, refl, jumped-Wf out (jump_right s) (jump_right-Wf s w))
  key_step-Gives (char ch) s out w =
      edit_line-Gives s out (s.cursor + 1) (insert_at s.cursor ch s.line)
        (take s.cursor s.line ++ ch ∷ drop s.cursor s.line) (ground (arith, w.cursor_in))
        (omega (arith, length-insert s.cursor ch s.line w.cursor_in, w.cursor_in)) w

  -- The loop over the bytes returns, whatever the bytes are.
  ingest_interactive-Gives :
      (bs : Bytes) (s : SystemCommanding) (out : SessionOutput)
      → Wf s
      → GivesRun (ingest_interactive call registry bs s out)
  unfolding ingest_interactive
  ingest_interactive-Gives [] s out w = ((s, out), refl, w)
  ingest_interactive-Gives (b ∷ bs) s out w =
      go (feed_byte s.parser_state b).1 (λ t o v. ingest_interactive-Gives bs t o v)
    where
      s1 : SystemCommanding
      s1 = record s { parser_state = (feed_byte s.parser_state b).0 }

      w1 : Wf s1
      w1 = record {
        cursor_in = w.cursor_in;
        view_in = w.view_in;
        history_bounded = w.history_bounded;
      }

      go :
          (key : Option ParsedKey)
          → ((t : SystemCommanding) (o : SessionOutput)
              → Wf t
              → GivesRun (ingest_interactive call registry bs t o))
          → GivesRun (elim key [
            | none ↦ ingest_interactive call registry bs s1 out
            | some k ↦
                let next =
                  key_step call registry k s1 out
                  >>= (λ r. ingest_interactive call registry bs r.0 r.1) in
                if is_break k then key_step call registry k s1 out else next
          ])
      go none rest = rest s1 out w1
      go (some k) rest =
          let (r, e, v) = key_step-Gives k s1 out w1 in
          let (q, f, u) = rest r.0 r.1 v in
          elim (Bool-cases (is_break k)) [ inl t ↦ (r, rw t e, v) | inr t ↦ (q, rw t (rw e f), u) ]

  -- Whatever bytes arrive at a well-formed session, and whatever the handlers answer, `ingest` does
  -- not panic and leaves a well-formed session: the cursor within the line, the history view within
  -- the history, at most five entries in the history. The session is interactive, and the ids of the
  -- registered commands are ASCII.
  pub ingest_total :
      (bytes : Bytes) (s : SystemCommanding)
      → s.mode_auto ≡ false
      → Wf s
      → (r : Run) × (ingest call registry bytes s ≡ some r) × Wf r.0
  unfolding ingest
  ingest_total bytes s m w = simp m (ingest_interactive-Gives bytes s output_new w)
