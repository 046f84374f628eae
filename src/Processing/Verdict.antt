-- ===== src/Processing/Verdict.antt =====
-- src/processing.rs: what the loops over the tree return, and the registered destructors.
use mathlib.Core.List.{reverse, reverse-cons}
use system_core_port_test.Prelude.{
  Distinct, ℕ, zero, suc, ◌≡◌, ◌≢◌, ◌⊎◌, inl, inr, refl, sym, ap, subst, ◌∙◌, Bool, true, false,
  Option, none, some, List, [], ◌∷◌, ◌++◌, ◌==◌, if◌then◌else◌, max, arith, >>=-eq-some, eq_of_some,
  contains, any, retain, not, ◌||◌, Bool-cases, ==_iff,
}
use system_core_port_test.Prelude.{append_assoc, append-nil, map}
use system_core_port_test.Processing.{
  Success, pending, positive, negative, is_pending, finished, RuntimeState, World, progresses,
}
use system_core_port_test.Processing.Tick.{Behavior, ticks, drive_for}
use system_core_port_test.Processing.Machine.{Reach, here, Reach-trans}
use system_core_port_test.Processing.Refines.{ticks-Reach}
use system_core_port_test.Processing.Lifecycle.{Inv}
use system_core_port_test.Processing.Progress.{AllInv, Reach-Inv}
use system_core_port_test.Processing.Drive.{
  children_loop, children_success, drive_until_finished, register_global_destructor, register_all,
  application_close,
}

-- The verdict over a list of results, in any order but for the first failure.
abbrev pub first_negative : List Success → Option ℕ
first_negative [] = none
first_negative (negative code ∷ ss) = some code
first_negative (pending ∷ ss) = first_negative ss
first_negative (positive ∷ ss) = first_negative ss

abbrev pub verdict : List Success → Success
verdict ss = elim (first_negative ss) [
  | some code ↦ negative code
  | none ↦ if any is_pending ss then pending else positive
]

module _ {B : Type 0} where
  abbrev pub used_results : World B → List ℕ → List Success
  used_results w cs = map (λ c. (w.runtime c).success) (retain (λ c. not (w.runtime c).unused) cs)

  children_loop-verdict :
      (b : Bool) (cs : List ℕ) (w : World B)
      → children_loop b cs w ≡ elim (first_negative (used_results w cs)) [
        | some code ↦ negative code
        | none ↦
            if b then pending else if any is_pending (used_results w cs) then pending else positive
      ]
  unfolding children_loop
  children_loop-verdict b [] w = ground arith
  children_loop-verdict b (c ∷ cs) w =
      ground (arith, children_loop-verdict b cs w, children_loop-verdict true cs w)

  -- `children_success` is the failure of the first failed child that is in use, else pending if one
  -- in use is pending, else positive; children that are unused do not count.
  pub children_success-verdict :
      (self : ℕ) (w : World B)
      → children_success self w ≡ verdict (used_results w (w.runtime self).children)
  unfolding children_success
  children_success-verdict self w = children_loop-verdict false (w.runtime self).children w

module _ {B : Type 0} (env : Behavior B) (fuel : ℕ) (others : ℕ → World B → World B)
    (root burst : ℕ) (fair : (k : ℕ) (w : World B) → Reach w (others k w)) where
  drive_until_finished-Reach :
      (rounds : ℕ) (w v : World B) (s : Success)
      → drive_until_finished env fuel others root burst rounds w ≡ some (v, s)
      → Reach w v × (progresses (v.runtime root) ≡ false) × (s ≡ (v.runtime root).success)
  unfolding drive_until_finished drive_for
  drive_until_finished-Reach zero w v s e = cc
  drive_until_finished-Reach (suc rounds) w v s e =
      elim (Bool-cases (progresses (w.runtime root))) [
        | inl t ↦
            let k = λ (u : World B).
              drive_until_finished env fuel others root burst rounds (others rounds u) in
            let (u, e1, e2) =
              >>=-eq-some (ticks env fuel root (max (max burst 1) 1) w) k (rw t at e) in
            let (r, p, q) = drive_until_finished-Reach rounds (others rounds u) v s e2 in
            (Reach-trans (ticks-Reach env fuel root _ w u e1) (Reach-trans (fair rounds u) r), p, q)
        | inr t ↦
            let p : (w, (w.runtime root).success) ≡ (v, s) = eq_of_some (rw t at e) in
            let q : w ≡ v = ap (λ x. x.0) p in
            let r : (w.runtime root).success ≡ s = ap (λ x. x.1) p in
            (
              subst (Reach w) q here,
              subst (λ u. progresses (u.runtime root) ≡ false) q t,
              sym r ∙ ap (λ u. (u.runtime root).success) q,
            )
      ]

  at_rest_parts :
      (r : RuntimeState) → progresses r ≡ false → (r.state ≡ finished) × (r.children ≡ [])
  at_rest_parts r h = ground arith

  -- Where `drive_until_finished` returns, the processes satisfied the lifecycle invariant before, and
  -- the other threads go by the machine too, the root is finished and childless, the result is the
  -- root's verdict, and a verdict that is still pending means that the root was canceled.
  pub drive_until_finished-verdict :
      (rounds : ℕ) (w v : World B) (s : Success)
      → AllInv w
      → drive_until_finished env fuel others root burst rounds w ≡ some (v, s)
      → ((v.runtime root).state ≡ finished)
        × ((v.runtime root).children ≡ [])
        × (s ≡ (v.runtime root).success)
        × ((s ≢ pending) ⊎ ((v.runtime root).canceled ≡ true))
  drive_until_finished-verdict rounds w v s h e =
      let (r, p, q) = drive_until_finished-Reach rounds w v s e in
      let i : Inv (v.runtime root) = Reach-Inv r h root in
      let (f, c) = at_rest_parts (v.runtime root) p in
      (f, c, q, rw q (i.late_verdict (rw f (omega arith))))

register-Distinct : (f : ℕ) (ds : List ℕ) → Distinct ds → Distinct (register_global_destructor f ds)
unfolding register_global_destructor
register-Distinct f ds h = elim (Bool-cases (contains f ds)) [
  | inl e ↦ rw e h
  | inr e ↦ rw e (e, h)
]

register_all-Distinct : (fs ds : List ℕ) → Distinct ds → Distinct (register_all fs ds)
unfolding register_all
register_all-Distinct [] ds h = h
register_all-Distinct (f ∷ fs) ds h = register_all-Distinct fs _ (register-Distinct f ds h)

register-contains :
    (c f : ℕ) (ds : List ℕ)
    → contains c (register_global_destructor f ds) ≡ (f == c || contains c ds)
unfolding register_global_destructor
register-contains c f ds = elim (Bool-cases (contains f ds)) [
  | inl e ↦ elim (Bool-cases (f == c)) [
    | inl k ↦ rw (e, k) (rw ((==_iff f c).0 k) at e)
    | inr k ↦ rw (e, k)
  ]
  | inr e ↦ rw e
]

register_all-contains :
    (c : ℕ) (fs ds : List ℕ) → contains c (register_all fs ds) ≡ (contains c fs || contains c ds)
unfolding register_all
register_all-contains c [] ds = refl
register_all-contains c (f ∷ fs) ds =
    ground (
      arith,
      register_all-contains c fs (register_global_destructor f ds),
      register-contains c f ds,
    )

-- Closing the application after any registrations runs each registered destructor, none twice, and
-- leaves none registered.
pub close_once :
    (fs : List ℕ)
    → let (run, left) = application_close (register_all fs []) in
      Distinct run × ((c : ℕ) → contains c run ≡ contains c fs) × (left ≡ [])
unfolding application_close
close_once fs = (
  register_all-Distinct fs [] tt,
  λ c. register_all-contains c fs [] ∙ or_false (contains c fs),
  refl,
)
  where
    or_false : (b : Bool) → (b || false) ≡ b
    or_false true = refl
    or_false false = refl

register_all-reverse :
    (fs ds : List ℕ)
    → Distinct fs
    → ((c : ℕ) → contains c fs ≡ true → contains c ds ≡ false)
    → register_all fs ds ≡ reverse fs ++ ds
unfolding register_all register_global_destructor
register_all-reverse [] ds h k = refl
register_all-reverse (f ∷ fs) ds h k = rw (k f (ground arith)) (
    register_all-reverse fs (f ∷ ds) h.1 (λ c e. apart c e)
    ∙ sym (append_assoc (reverse fs) (f ∷ []) ds)
    ∙ ap (λ l. l ++ ds) (sym (reverse-cons f fs)))
  where
    apart : (c : ℕ) → contains c fs ≡ true → contains c (f ∷ ds) ≡ false
    apart c e = elim (Bool-cases (f == c)) [
      | inl t ↦ cc (h.0, e, (==_iff f c).0 t)
      | inr t ↦ rw t (k c (ground arith))
    ]

-- Destructors that are registered once each run in the reverse order.
pub close_reverse :
    (fs : List ℕ) → Distinct fs → (application_close (register_all fs [])).0 ≡ reverse fs
unfolding application_close
close_reverse fs h = register_all-reverse fs [] h (λ c e. refl) ∙ append-nil (reverse fs)
