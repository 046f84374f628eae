-- ===== src/Commanding/Safe.antt =====
-- src/system_commanding.rs: the well-formed sessions, and the operations on the history
-- and the cursor.
use system_core_port_test.Prelude.{
  ℕ, zero, suc, ◌+◌, ◌≤◌, ◌<◌, ◌≡◌, refl, inl, inr, Bool, true, false, not, Option, none, some,
  List, [], ◌∷◌, ◌++◌, ◌==◌, leb, is_empty, length, take, drop, get_elem?, ◌>>=◌, arith,
  length-append, length-take, length-drop, Bool-cases, leb→lt, eq_of_some,
}
use system_core_port_test.Text.{Text, Bytes, encode, is_ascii_alphanumeric}
use system_core_port_test.Commanding.Session.{
  SystemCommanding, session_new, history_max, history_insert, history_up, history_down,
  history_down_from, view_up, load_history_view, jump_left, jump_right, back_while, forward_while,
  is_space,
}

pub record Wf (s : SystemCommanding) : Type 0 where
  pub cursor_in : s.cursor ≤ length s.line
  pub view_in : (i : ℕ) → s.history_view ≡ some i → i < length s.history
  pub history_bounded : length s.history ≤ history_max

pub session_new-Wf : Wf session_new
session_new-Wf = record {
  cursor_in = omega arith;
  view_in = λ i e. cc;
  history_bounded = omega arith;
}

module _ {ℓ} {A : Type ℓ} where
  pub length-insert :
      (i : ℕ) (x : A) (xs : List A)
      → i ≤ length xs
      → length (take i xs ++ x ∷ drop i xs) ≡ suc (length xs)
  length-insert i x xs h =
      omega (arith, length-append (take i xs) (x ∷ drop i xs), length-take i xs, length-drop i xs)

  pub length-remove :
      (i : ℕ) (xs : List A)
      → i < length xs
      → suc (length (take i xs ++ drop (suc i) xs)) ≡ length xs
  length-remove i xs h =
      omega (
        arith,
        length-append (take i xs) (drop (suc i) xs),
        length-take i xs,
        length-drop (suc i) xs,
      )

  get_elem?-total : (xs : List A) (i : ℕ) → i < length xs → (x : A) × (get_elem? xs i ≡ some x)
  get_elem?-total [] i h = absurd (omega arith)
  get_elem?-total (x ∷ xs) zero h = (x, refl)
  get_elem?-total (x ∷ xs) (suc i) h = get_elem?-total xs i (omega arith)

back_while_total :
    (test : ℕ → Bool) (line : Bytes) (k : ℕ)
    → k ≤ length line
    → (j : ℕ) × (back_while test line k ≡ some j) × (j ≤ k)
unfolding back_while
back_while_total test line zero h = (0, refl, omega arith)
back_while_total test line (suc k) h =
    let (b, e) = get_elem?-total line k h in
    elim (Bool-cases (test b)) [
      | inl t ↦
          let (j, q, l) = back_while_total test line k (omega arith) in
          (j, rw (e, back_while) (rw t q), omega arith)
      | inr t ↦ (suc k, rw (e, back_while) (rw t refl), omega arith)
    ]

pub forward_while_bounds :
    (test : ℕ → Bool) (bs : Bytes) (cursor : ℕ)
    → (cursor ≤ forward_while test bs cursor) × (forward_while test bs cursor ≤ cursor + length bs)
unfolding forward_while
forward_while_bounds test [] cursor = (omega arith, omega arith)
forward_while_bounds test (b ∷ bs) cursor =
    ground (arith, forward_while_bounds test bs (cursor + 1))

pub history_insert_bounded :
    (line : Text) (history : List Text)
    → length history ≤ history_max
    → length (history_insert line history) ≤ history_max
unfolding history_insert
history_insert_bounded line history h =
    ground (arith, length-append history (line ∷ []), length-drop 1 (history ++ line ∷ []))

-- The operation returns, and leaves a well-formed session.
abbrev pub Gives : Option (SystemCommanding × Bool) → Type 0
Gives o = (r : SystemCommanding × Bool) × (o ≡ some r) × Wf r.0

load_history_view-Gives :
    (s : SystemCommanding) (k : ℕ)
    → k < length s.history
    → length s.history ≤ history_max
    → Gives (load_history_view (record s { history_view = some k }) >>= (λ t. some (t, true)))
unfolding load_history_view
load_history_view-Gives s k h b =
    let (x, e) = get_elem?-total s.history k h in
    let bytes = encode x in
    (
      (
        record s { history_view = some k; line = bytes; cursor = length bytes; tab_last = false },
        true,
      ),
      rw e refl,
      record {
        cursor_in = omega arith;
        view_in = λ i q. omega (arith, eq_of_some q);
        history_bounded = b;
      },
    )

up_in :
    (history : List Text) (view : Option ℕ)
    → is_empty history ≡ false
    → ((i : ℕ) → view ≡ some i → i < length history)
    → view_up history view < length history
up_in [] view e h = cc
up_in (x ∷ xs) none e h = omega arith
up_in (x ∷ xs) (some i) e h = omega (arith, h i refl)

pub history_up-Gives : (s : SystemCommanding) → Wf s → Gives (history_up s)
unfolding history_up
history_up-Gives s w = elim (Bool-cases (is_empty s.history)) [
  | inl e ↦ ((s, false), rw e refl, w)
  | inr e ↦ rw e (
      load_history_view-Gives s (view_up s.history s.history_view)
        (up_in s.history s.history_view e w.view_in) w.history_bounded)
]

history_down_from-Gives :
    (s : SystemCommanding) (view : Option ℕ) → Wf s → Gives (history_down_from s view)
unfolding history_down_from
history_down_from-Gives s none w = ((s, false), refl, w)
history_down_from-Gives s (some index) w = elim (Bool-cases (leb (length s.history) (index + 1))) [
  | inl e ↦ (
    (record s { history_view = none; line = []; cursor = 0 }, true),
    rw e refl,
    record { cursor_in = omega arith; view_in = λ i q. cc; history_bounded = w.history_bounded },
  )
  | inr e ↦ rw e (
      load_history_view-Gives s (index + 1) (leb→lt (length s.history) (index + 1) e)
        w.history_bounded)
]

pub history_down-Gives : (s : SystemCommanding) → Wf s → Gives (history_down s)
unfolding history_down
history_down-Gives s w = history_down_from-Gives s s.history_view w

move_cursor-Wf :
    (s : SystemCommanding) (k : ℕ) → k ≤ length s.line → Wf s → Wf (record s { cursor = k })
move_cursor-Wf s k h w = record {
  cursor_in = h;
  view_in = w.view_in;
  history_bounded = w.history_bounded;
}

pub jump_left-Gives : (s : SystemCommanding) → Wf s → Gives (jump_left s)
unfolding jump_left
jump_left-Gives s w = elim (Bool-cases (s.cursor == 0)) [
  | inl e ↦ ((s, false), rw e refl, w)
  | inr e ↦
      let (j, q, l) = back_while_total is_space s.line s.cursor w.cursor_in in
      let (i, p, m) =
        back_while_total is_ascii_alphanumeric s.line j (omega (arith, w.cursor_in)) in
      (
        (record s { cursor = i }, not (i == s.cursor)),
        rw e (rw q (rw p refl)),
        move_cursor-Wf s i (omega (arith, w.cursor_in)) w,
      )
]

pub jump_right-Wf : (s : SystemCommanding) → Wf s → Wf (jump_right s).0
unfolding jump_right
jump_right-Wf s w =
    let word = forward_while is_ascii_alphanumeric (drop s.cursor s.line) s.cursor in
    let cursor = forward_while is_space (drop word s.line) word in
    let b1 = forward_while_bounds is_ascii_alphanumeric (drop s.cursor s.line) s.cursor in
    let b2 = forward_while_bounds is_space (drop word s.line) word in
    elim (Bool-cases (leb (length s.line) s.cursor)) [
      | inl e ↦ rw e w
      | inr e ↦ rw e (
          move_cursor-Wf s cursor
            (omega
              (arith, b1, b2, length-drop s.cursor s.line, length-drop word s.line, w.cursor_in))
            w)
    ]
