-- ===== src/Processing/Progress.antt =====
-- src/processing.rs: the lifecycle over whole runs, and over ticks.
use system_core_port_test.Prelude.{
  ℕ, ◌≡◌, ◌⊎◌, inl, inr, sym, ap, subst, true, false, List, [], ◌∷◌, ◌++◌, arith, contains, retain,
  not, ◌==◌, some, Bool-cases, ==_iff,
}
use system_core_port_test.Processing.{finished, RuntimeState, World, update, can_be_removed}
use system_core_port_test.Processing.Calls.{with_child}
use system_core_port_test.Processing.Tick.{Behavior, tree_tick}
use system_core_port_test.Processing.Machine.{
  Move-children, Step, move, attach, detach, behave, Reach, here, next, Reach-invariant,
}
use system_core_port_test.Processing.Refines.{tree_tick-Reach}
use system_core_port_test.Processing.Lifecycle.{
  Inv, Move-Inv, with_child-Inv, without_child-Inv, Ahead, Ahead-refl, Ahead-trans, Move-Ahead,
  with_child-Ahead, without_child-Ahead, finished_of_rank, rank,
}

abbrev pub AllInv : {B : Type 0} → World B → Type 0
AllInv w = (n : ℕ) → Inv (w.runtime n)

pub Reach-Inv : {B : Type 0} {w v : World B} → Reach w v → AllInv w → AllInv v
Reach-Inv r h = Reach-invariant Inv Move-Inv with_child-Inv without_child-Inv r h

-- A relation of a node to what it becomes, from one updated node to all.
Rel-update :
    (R : RuntimeState → RuntimeState → Type 0) (f : ℕ → RuntimeState) (n : ℕ) (r : RuntimeState)
    → ((m : ℕ) → R (f m) (f m))
    → R (f n) r
    → (m : ℕ) → R (f m) (update f n r m)
Rel-update R f n r same h m = elim (Bool-cases (m == n)) [
  | inl e ↦ rw e (subst (λ k. R (f k) r) (sym ((==_iff m n).0 e)) h)
  | inr e ↦ rw e (same m)
]

Step-Ahead :
    {B : Type 0} {w v : World B} → Step w v → AllInv w → (n : ℕ) → Ahead (w.runtime n) (v.runtime n)
Step-Ahead {w} (move n {r} mv) h =
    Rel-update Ahead w.runtime n r (λ m. Ahead-refl _) (Move-Ahead (w.runtime n) r mv (h n))
Step-Ahead {w} (attach n c a) h =
    Rel-update Ahead w.runtime n _ (λ m. Ahead-refl _) (with_child-Ahead (w.runtime n) c a)
Step-Ahead {w} (detach n c a) h =
    Rel-update Ahead w.runtime n _ (λ m. Ahead-refl _) (without_child-Ahead (w.runtime n) c)
Step-Ahead (behave n b) h = λ m. Ahead-refl _

pub Reach-Ahead :
    {B : Type 0} {w v : World B}
    → Reach w v
    → AllInv w
    → (n : ℕ) → Ahead (w.runtime n) (v.runtime n)
Reach-Ahead here h n = Ahead-refl _
Reach-Ahead (next r s) h n = Ahead-trans _ _ _ (Reach-Ahead r h n) (Step-Ahead s (Reach-Inv r h) n)

-- A process that nobody uses and that has run to its end, its own children gone.
pub record Settled (r : RuntimeState) : Type 0 where
  pub is_done : r.state ≡ finished
  pub childless : r.children ≡ []
  pub is_unused : r.unused ≡ true

Settled-Ahead : (r s : RuntimeState) → Ahead r s → Settled r → Settled s
Settled-Ahead r s a h = record {
  is_done = finished_of_rank s.state (omega (arith, a.rank_le, ap rank h.is_done));
  childless = a.settled_kept h.is_done h.childless;
  is_unused = a.unused_kept h.is_unused;
}

contains-append : (c : ℕ) (xs ys : List ℕ) → contains c xs ≡ true → contains c (xs ++ ys) ≡ true
contains-append c [] ys h = cc
contains-append c (x ∷ xs) ys h = ground (arith, contains-append c xs ys)

pub contains-retain :
    (c d : ℕ) (xs : List ℕ)
    → (c == d) ≡ false
    → contains c xs ≡ true
    → contains c (retain (λ n. not (n == d)) xs) ≡ true
contains-retain c d [] e h = cc
contains-retain c d (x ∷ xs) e h = ground (arith, contains-retain c d xs e)

pub with_child-contains :
    (r : RuntimeState) (c d : ℕ)
    → contains c r.children ≡ true
    → contains c (with_child d r).children ≡ true
with_child-contains r c d h = ground (arith, contains-append c r.children (d ∷ []) h)

-- Still among the children of `n`, or settled.
abbrev pub Stays : {B : Type 0} → World B → ℕ → ℕ → Type 0
Stays w n c = (contains c (w.runtime n).children ≡ true) ⊎ Settled (w.runtime c)

detached : (r : RuntimeState) → Inv r → can_be_removed r ≡ true → Settled r
detached r h e = record {
  is_done = (h.undriven_settled (ground arith)).0;
  childless = (h.undriven_settled (ground arith)).1;
  is_unused = ground arith;
}

Step-Stays :
    {B : Type 0} {w v : World B} (c : ℕ)
    → Step w v
    → AllInv w
    → (n : ℕ) → contains c (w.runtime n).children ≡ true
    → Stays v n c
Step-Stays {w} c (move n {r} mv) h = λ m k. inl (
    Rel-update (λ a b. contains c a.children ≡ true → contains c b.children ≡ true) w.runtime n r
      (λ _ x. x) (λ x. rw (Move-children mv) x) m k)
Step-Stays {w} c (attach n d a) h = λ m k. inl (
    Rel-update (λ a b. contains c a.children ≡ true → contains c b.children ≡ true) w.runtime n _
      (λ _ x. x) (λ x. with_child-contains (w.runtime n) c d x) m k)
Step-Stays {w} c (detach n d a) h = λ m k. elim (Bool-cases (c == d)) [
  | inl e ↦ inr (
      Settled-Ahead (w.runtime c) _ (Step-Ahead {w = w} (detach n d a) h c) (
        subst (λ x. Settled (w.runtime x)) (sym ((==_iff c d).0 e))
          (detached (w.runtime d) (h d) a)))
  | inr e ↦ inl (
      Rel-update (λ a b. contains c a.children ≡ true → contains c b.children ≡ true) w.runtime n _
        (λ _ x. x) (λ x. contains-retain c d (w.runtime n).children e x) m k)
]
Step-Stays c (behave n b) h = λ m k. inl k

pub Reach-Stays :
    {B : Type 0} {w v : World B} (n c : ℕ)
    → Reach w v
    → AllInv w
    → contains c (w.runtime n).children ≡ true
    → Stays v n c
Reach-Stays n c here h k = inl k
Reach-Stays n c (next r s) h k = elim (Reach-Stays n c r h k) [
  | inl x ↦ Step-Stays c s (Reach-Inv r h) n x
  | inr x ↦ inr (Settled-Ahead _ _ (Step-Ahead s (Reach-Inv r h) c) x)
]

module _ {B : Type 0} (env : Behavior B) (fuel self : ℕ) (w v : World B)
    (ticked : tree_tick env fuel self w ≡ some v) (inv : AllInv w) where
  -- A tick of any node of a tree whose processes satisfy the lifecycle invariant leaves a tree whose
  -- processes satisfy it: a process marked as undriven is finished and childless, the verdict is
  -- pending until the shutdown begins, afterwards the verdict stands or the process was canceled,
  -- and whoever passed the shutdown ran it or was canceled before its initialization was done.
  pub tree_tick-Inv : (n : ℕ) → Inv (v.runtime n)
  tree_tick-Inv = Reach-Inv (tree_tick-Reach env fuel self w v ticked) inv

  -- A tick of a tree whose processes satisfy the lifecycle invariant takes no process back: its place
  -- in the life never falls, a verdict that stands is never changed, and what was canceled, unused,
  -- initialized, processed or shut down stays so.
  pub tree_tick-Ahead : (n : ℕ) → Ahead (w.runtime n) (v.runtime n)
  tree_tick-Ahead = Reach-Ahead (tree_tick-Reach env fuel self w v ticked) inv

  -- In a tree whose processes satisfy the lifecycle invariant, a child is still attached to its parent
  -- after a tick, or it is unused, finished and childless.
  pub tree_tick-Stays :
      (n c : ℕ)
      → contains c (w.runtime n).children ≡ true
      → (contains c (v.runtime n).children ≡ true) ⊎ Settled (v.runtime c)
  tree_tick-Stays n c k = Reach-Stays n c (tree_tick-Reach env fuel self w v ticked) inv k
