-- ===== src/Processing/Drawing.antt =====
-- src/processing.rs: what `process_tree_string` draws, against a description without loop and
-- accumulator.
use system_core_port_test.Prelude.{
  ℕ, zero, suc, ◌+◌, ◌<◌, ◌≡◌, refl, sym, ap, ◌∙◌, inl, inr, Bool, true, false, not, Option, some,
  List, [], ◌∷◌, ◌++◌, leb, if◌then◌else◌, if_no, arith, All, length, take, retain, All-map,
  Bool-cases, le→leb, lt→leb, append_assoc, append-nil,
}
use system_core_port_test.Text.{Text}
use system_core_port_test.Processing.{ProcessRenderOptions, World}
use system_core_port_test.Processing.Tick.{Behavior}
use system_core_port_test.Processing.Hierarchy.{Ranked}
use system_core_port_test.Processing.Render.{
  heading, details, is_hidden, more_line, render_children, render_into, process_tree_string,
}

module _ {B : Type 0} (w : World B) where
  abbrev pub visible : List ℕ → List ℕ
  visible = retain (λ c. not (is_hidden w c))

  -- The mark that the list of children goes on, from eleven on.
  abbrev pub more : ℕ → ℕ → Text
  more n count = if leb 11 count then more_line w n else []

module _ {B : Type 0} (env : Behavior B) (name : ℕ → Text) (locked : ℕ → Bool)
    (options : ProcessRenderOptions) (w : World B) where
  -- What a process that is not hidden shows of itself.
  abbrev pub own_lines : ℕ → Text
  own_lines n = heading options (name n) (w.runtime n) ++ details env name locked options w n

  -- A text draws a list of processes: each with its own lines, then its first eleven visible children,
  -- then the mark.
  pub data Draws : List ℕ → Text → Type 0 where
    nobody : Draws [] []
    process :
        (n : ℕ) {ns : List ℕ} {body rest : Text}
        → Draws (take 11 (visible w (w.runtime n).children)) body
        → Draws ns rest
        → Draws (n ∷ ns) (
            (own_lines n ++ (body ++ more w n (length (visible w (w.runtime n).children)))) ++ rest)

  -- `tc` is the text of `c`, in front of whatever follows.
  abbrev Front : ℕ → Text → Type 0
  Front c tc = (ns : List ℕ) (rest : Text) → Draws ns rest → Draws (c ∷ ns) (tc ++ rest)

  -- What one call does with the text so far.
  abbrev Appends : Option Text → Text → ℕ → Type 0
  Appends o out c =
      (is_hidden w c ≡ true → o ≡ some out)
      × (is_hidden w c ≡ false → (tc : Text) × (o ≡ some (out ++ tc)) × Front c tc)

  abbrev Loops : ℕ → ℕ → ℕ → List ℕ → Option Text → Text → Type 0
  Loops n drawn left cs o out =
      (t : Text) × (o ≡ some (out ++ (t ++ more w n (drawn + length (visible w cs)))))
      × Draws (take left (visible w cs)) t

  -- A visible child, where it is not the eleventh.
  child_drawn :
      (draw : ℕ → Text → Option Text) (n drawn c : ℕ) (cs : List ℕ) (out tc t : Text)
      → is_hidden w c ≡ false
      → draw c out ≡ some (out ++ tc)
      → leb 11 (drawn + 1) ≡ false
      → render_children env name locked options w draw n (drawn + 1) cs (out ++ tc)
        ≡ some ((out ++ tc) ++ (t ++ more w n (drawn + 1 + length (visible w cs))))
      → render_children env name locked options w draw n drawn (c ∷ cs) out
        ≡ some (out ++ ((tc ++ t) ++ more w n (drawn + length (visible w (c ∷ cs)))))
  unfolding render_children
  child_drawn draw n drawn c cs out tc t vis q few p =
      let count : drawn + length (visible w (c ∷ cs)) ≡ drawn + 1 + length (visible w cs) =
        rw vis (omega arith) in
      rw count (rw (q, vis, few) (p ∙ simp append_assoc refl))

  child-Loops :
      (draw : ℕ → Text → Option Text) (n drawn k c : ℕ) (cs : List ℕ) (out tc : Text)
      → drawn + suc k ≡ 11
      → is_hidden w c ≡ false
      → draw c out ≡ some (out ++ tc)
      → Front c tc
      → ((k' : ℕ)
          → drawn + 1 + suc k' ≡ 11
          → Loops n
              (drawn + 1)
              (suc k')
              cs
              (render_children env name locked options w draw n (drawn + 1) cs (out ++ tc))
              (out ++ tc))
      → Loops n drawn
          (suc k)
          (c ∷ cs)
          (render_children env name locked options w draw n drawn (c ∷ cs) out)
          out
  unfolding render_children
  child-Loops draw n drawn zero c cs out tc e vis q front rest =
      let many : leb 11 (drawn + 1) ≡ true = le→leb 11 (drawn + 1) (omega arith) in
      let all : leb 11 (drawn + suc (length (visible w cs))) ≡ true = le→leb _ _ (omega arith) in
      (
        tc ++ [],
        rw (q, vis, many, all) (simp (append_assoc, append-nil) refl),
        rw vis (front [] [] nobody),
      )
  child-Loops draw n drawn (suc k) c cs out tc e vis q front rest =
      let few : leb 11 (drawn + 1) ≡ false = lt→leb 11 (drawn + 1) (omega arith) in
      let (t, p, d) = rest k (omega arith) in
      (
        tc ++ t,
        child_drawn draw n drawn c cs out tc t vis q few p,
        rw vis (front (take (suc k) (visible w cs)) t d),
      )

  render_children-Loops :
      (draw : ℕ → Text → Option Text) (n drawn k : ℕ) (cs : List ℕ) (out : Text)
      → drawn + suc k ≡ 11
      → All (λ c. (o : Text) → Appends (draw c o) o c) cs
      → Loops n drawn (suc k) cs (render_children env name locked options w draw n drawn cs out) out
  unfolding render_children
  render_children-Loops draw n drawn k [] out e h =
      ([], rw (lt→leb 11 (drawn + 0) (omega arith)) (ap some (sym (append-nil out))), nobody)
  render_children-Loops draw n drawn k (c ∷ cs) out e h = elim (Bool-cases (is_hidden w c)) [
    | inl hid ↦
        let q : draw c out ≡ some out = (h.0 out).0 hid in
        let few : leb 11 drawn ≡ false = lt→leb 11 drawn (omega arith) in
        let (t, p, d) = render_children-Loops draw n drawn k cs out e h.1 in
        (t, rw (q, hid, few) p, rw hid d)
    | inr vis ↦
        let (tc, q, front) = (h.0 out).1 vis in
        child-Loops draw n drawn k c cs out tc e vis q front
          (λ k' f. render_children-Loops draw n (drawn + 1) k' cs (out ++ tc) f h.1)
  ]

  render_into-Appends :
      (depth : ℕ → ℕ)
      → Ranked depth w
      → (fuel n : ℕ) → depth n < fuel
      → (out : Text) → Appends (render_into env name locked options w fuel n out) out n
  unfolding render_into
  render_into-Appends depth ranked zero n d out = absurd (omega arith)
  render_into-Appends depth ranked (suc fuel) n d out = (
    (λ hid. rw hid refl),
    λ vis.
        let o : Text = out ++ own_lines n in
        let (t, p, body) =
          render_children-Loops (render_into env name locked options w fuel) n 0 10
            (w.runtime n).children o refl
            (All-map (λ c h. render_into-Appends depth ranked fuel c (omega arith))
              (w.runtime n).children (ranked n)) in
        (
          own_lines n ++ (t ++ more w n (length (visible w (w.runtime n).children))),
          if_no (some out) vis p
              ∙ ap some (append_assoc out (own_lines n) _)
              ∙ ap (λ m. some (out ++ (own_lines n ++ (t ++ more w n m)))) (omega arith),
          λ ns rest h. process n body h,
        ),
  )

-- Where every child has a smaller depth than its parent and the fuel exceeds the depth of the process,
-- `process_tree_string` returns a text. It is empty for a hidden process. For one that is not hidden it
-- is the process' own lines, then, by the same rule, its first eleven visible children in their order,
-- then the line ".." if it has eleven visible children or more; hidden children and what is below them
-- leave no trace.
pub process_tree_string-Draws :
    {B : Type 0} (env : Behavior B) (name : ℕ → Text) (locked : ℕ → Bool)
    (options : ProcessRenderOptions) (w : World B) (depth : ℕ → ℕ) (fuel n : ℕ)
    → Ranked depth w
    → depth n < fuel
    → (t : Text) × (process_tree_string env name locked options w fuel n ≡ some t)
      × Draws env name locked options w (visible w (n ∷ [])) t
unfolding process_tree_string
process_tree_string-Draws env name locked options w depth fuel n ranked d =
    let (hid, vis) = render_into-Appends env name locked options w depth ranked fuel n d [] in
    elim (Bool-cases (is_hidden w n)) [
      | inl e ↦ ([], hid e, rw e nobody)
      | inr e ↦
          let (t, p, front) = vis e in
          (t ++ [], rw p (simp append-nil refl), rw e (front [] [] nobody))
    ]
