-- ===== src/Commanding/Complete.antt =====
-- src/system_commanding.rs: completion and the execution of a line on a well-formed session, where the
-- ids of the commands are ASCII.
use system_core_port_test.Prelude.{
  ℕ, ◌+◌, ◌≤◌, ◌<◌, ◌≡◌, refl, inl, inr, Bool, true, false, Option, some, List, [], ◌∷◌, ◌++◌, ◌==◌,
  ltb, leb, if◌then◌else◌, is_empty, length, take, drop, any, min, arith, All, All-drop, All-take,
  Bool-cases, le→leb,
}
use system_core_port_test.Text.{Text, Bytes, trim, encode, from_utf8_lossy, IsAscii, encode-ascii}
use system_core_port_test.Commanding.Registry.{CommandRegistry, starts_with, candidates}
use system_core_port_test.Commanding.Session.{
  SystemCommanding, SessionOutput, push_chunk, common_prefix, list_candidates, common_len, truncate,
  cut_to, is_boundary,
}
use system_core_port_test.Commanding.Ingest.{
  Run, redraw, execute_line, complete, is_only, tab_candidates, tab_process,
}
use system_core_port_test.Commanding.Safe.{Wf, history_insert_bounded}

-- The ids of all commands are ASCII.
abbrev pub AsciiIds : {H : Type 0} → CommandRegistry H → Type 0
AsciiIds = All (λ c. IsAscii c.id)

pub candidates-IsAscii :
    {H : Type 0} (cs : CommandRegistry H) (prefix : Text)
    → AsciiIds cs
    → All IsAscii (candidates cs prefix)
unfolding candidates
candidates-IsAscii [] prefix h = tt
candidates-IsAscii (c ∷ cs) prefix h = elim (Bool-cases (starts_with c.id prefix)) [
  | inl e ↦ rw e (h.0, candidates-IsAscii cs prefix h.1)
  | inr e ↦ rw e (candidates-IsAscii cs prefix h.1)
]

pub is_boundary-ascii : (bs : Bytes) → IsAscii bs → is_boundary bs ≡ true
is_boundary-ascii [] h = refl
is_boundary-ascii (b ∷ bs) h = ground arith

pub truncate-IsAscii :
    (n : ℕ) (bs : Bytes) → IsAscii bs → (r : Bytes) × (truncate n bs ≡ some r) × IsAscii r
unfolding truncate
truncate-IsAscii n bs h = elim (Bool-cases (leb n (length bs))) [
  | inl e ↦ (
    take n bs,
    rw (e, is_boundary-ascii (drop n bs) (All-drop (λ b. b < 128) n bs h)) refl,
    All-take (λ b. b < 128) n bs h,
  )
  | inr e ↦ (bs, rw e refl, h)
]

pub common_prefix-ascii :
    (common : Bytes) (cs : List Text)
    → IsAscii common
    → All IsAscii cs
    → (r : Bytes) × (common_prefix common cs ≡ some r)
unfolding common_prefix
common_prefix-ascii common [] h k = (common, refl)
common_prefix-ascii common (c ∷ cs) h k =
    let (r, e, a) = truncate-IsAscii (common_len common (encode c)) common h in
    rw (e, common_prefix) (common_prefix-ascii r cs a k.1)

pub cut_to-ascii :
    (n : ℕ) (bs : Bytes) → IsAscii bs → n ≤ length bs → cut_to n bs ≡ some (take n bs)
unfolding cut_to
cut_to-ascii n bs h l =
    rw (le→leb n (length bs) l, is_boundary-ascii (drop n bs) (All-drop (λ b. b < 128) n bs h)) refl

pub list_candidates-ascii :
    (col : ℕ) (cs : List Text) → All IsAscii cs → (r : Bytes) × (list_candidates col cs ≡ some r)
unfolding list_candidates
list_candidates-ascii col [] h = (_, refl)
list_candidates-ascii col (c ∷ cs) h =
    let bytes = encode c in
    let (r, e) = list_candidates-ascii (if leb 2 (col + 1) then 0 else col + 1) cs h.1 in
    rw
      (
        cut_to-ascii (min (length bytes) 20) bytes (rw (encode-ascii c h.0) h.0) (omega arith),
        list_candidates,
      )
      (rw e (_, refl))

-- The step returns, and leaves a well-formed session.
abbrev pub GivesRun : Option Run → Type 0
GivesRun o = (r : Run) × (o ≡ some r) × Wf r.0

pub forget-Wf : (s : SystemCommanding) (b : Bool) → Wf s → Wf (record s { tab_last = b })
forget-Wf s b w = record {
  cursor_in = w.cursor_in;
  view_in = w.view_in;
  history_bounded = w.history_bounded;
}

module _ {H : Type 0} (call : H → Text → CommandRegistry H → Text) (registry : CommandRegistry H)
    (ascii : AsciiIds registry) where
  pub execute_line-Wf :
      (s : SystemCommanding) (out : SessionOutput) → Wf s → Wf (execute_line call registry s out).0
  unfolding execute_line
  execute_line-Wf s out w = record {
    cursor_in = omega arith;
    view_in = λ i e. cc;
    history_bounded = elim (Bool-cases (is_empty (trim (from_utf8_lossy s.line)))) [
      | inl e ↦ rw e w.history_bounded
      | inr e ↦
          rw e (history_insert_bounded (trim (from_utf8_lossy s.line)) s.history w.history_bounded)
    ];
  }

  pub complete-Wf :
      (s : SystemCommanding) (out : SessionOutput) (prefix : Text) (cs : List Text) (common : Bytes)
      → Wf s
      → Wf (complete call registry s out prefix cs common).0
  unfolding complete
  complete-Wf s out prefix cs common w =
      elim (Bool-cases (ltb (length (encode prefix)) (length common))) [
        | inl e ↦ rw e (record {
          cursor_in = omega arith;
          view_in = w.view_in;
          history_bounded = w.history_bounded;
        })
        | inr e ↦ elim (Bool-cases (is_only prefix cs)) [
          | inl f ↦
              rw (e, f)
                (record {
                  cursor_in = omega arith;
                  view_in = w.view_in;
                  history_bounded = w.history_bounded;
                })
          | inr f ↦ rw (e, f) (forget-Wf s true w)
        ]
      ]

  pub tab_candidates-Gives :
      (s : SystemCommanding) (out : SessionOutput) (prefix : Text) (cs : List Text)
      → All IsAscii cs
      → Wf s
      → GivesRun (tab_candidates call registry s out prefix cs)
  unfolding tab_candidates
  tab_candidates-Gives s out prefix [] h w =
      ((record s { tab_last = false }, out), refl, forget-Wf s false w)
  tab_candidates-Gives s out prefix (c ∷ cs) h w = elim (Bool-cases s.tab_last) [
    | inl e ↦
        let (r, q) = list_candidates-ascii 0 (c ∷ cs) h in
        let o = push_chunk ((13 ∷ 10 ∷ []) ++ r) out in (redraw s o, simp e (rw q refl), w)
    | inr e ↦
        let (r, q) = common_prefix-ascii (encode c) cs (rw (encode-ascii c h.0) h.0) h.1 in
        (
          complete call registry s out prefix (c ∷ cs) r,
          simp e (rw q refl),
          complete-Wf s out prefix (c ∷ cs) r w,
        )
  ]

  pub tab_process-Gives :
      (s : SystemCommanding) (out : SessionOutput)
      → Wf s
      → GivesRun (tab_process call registry s out)
  unfolding tab_process
  tab_process-Gives s out w = elim (Bool-cases (s.cursor == 0)) [
    | inl e ↦ ((s, out), simp e refl, w)
    | inr e ↦
        let front = take s.cursor s.line in
        let prefix = from_utf8_lossy front in
        let l : leb s.cursor (length s.line) ≡ true = le→leb _ _ w.cursor_in in
        elim (Bool-cases (any (λ b. b == 32) front)) [
          | inl f ↦ ((s, out), simp (e, l) (rw f refl), w)
          | inr f ↦
              let (r, q, v) =
                tab_candidates-Gives s out prefix (candidates registry prefix)
                  (candidates-IsAscii registry prefix ascii) w in
              (r, simp (e, l) (rw f q), v)
        ]
  ]
