-- ===== src/Processing/External.antt =====
-- src/processing.rs: the marks of a child under an external driver, and its place under its parent,
-- through the calls of a hook and the steps of a node.
use system_core_port_test.Prelude.{
  ℕ, ◌≡◌, refl, sym, subst, Bool, true, false, not, ◌&&◌, Option, none, some, List, [], ◌∷◌, ◌==◌,
  if◌then◌else◌, inl, inr, contains, All, Bool-cases, ==_iff, ◌>>=◌,
}
use system_core_port_test.Processing.{
  DriverMode, Success, AbstractState, existent, initializing, processing, down_shutting,
  children_unused_set, finished_prepare, finished, RuntimeState, World, update, is_internal,
  render_options_default,
}
use system_core_port_test.Processing.Calls.{
  modify, started_as, with_child, with_worker, start_child, unused_set, mark_canceled,
  mark_when_finished_unused, proc_tree_display_set,
}
use system_core_port_test.Processing.Tick.{
  Call, start, cancel, repel, when_finished_repel, own_unused_set, own_display_set,
  handle_unused_set, handle_display_set, Reply, Behavior, set_state, cached, after_existent,
  after_initialize, after_process, after_shutdown, after_finished_prepare, apply_call, apply_calls,
  run_hook, hook_step, unuse_all, step_in,
}
use system_core_port_test.Processing.Hierarchy.{with_worker-children}
use system_core_port_test.Processing.Soft.{
  External, Spares, Sparing, Soft, started_as-Soft, with_child-Soft, with_worker-External,
  after_existent-Soft, after_initialize-Soft, after_process-Soft, after_shutdown-Soft,
  after_finished_prepare-Soft, internal_elsewhere,
}

module _ {B : Type 0} (n c : ℕ) where
  -- `c` is an externally driven child of `n`.
  abbrev pub Holds : World B → Type 0
  Holds w = External (w.runtime c) × (contains c (w.runtime n).children ≡ true)

  -- Whatever the step returns, `c` is still such a child.
  abbrev pub Keeps : Option (World B) → Type 0
  Keeps none = Unit {0}
  Keeps (some v) = Holds v

  pub >>=-Keeps :
      (m : Option (World B)) (f : World B → Option (World B))
      → Keeps m
      → ((v : World B) → Holds v → Keeps (f v))
      → Keeps (m >>= f)
  >>=-Keeps none f h k = tt
  >>=-Keeps (some v) f h k = k v h

  pub either-Keeps :
      (b : Bool) (x y : Option (World B)) → Keeps x → Keeps y → Keeps (if b then x else y)
  either-Keeps true x y g h = g
  either-Keeps false x y g h = h

  -- A change of one node that keeps the child's marks, if it is the child, and its place, if it is
  -- the parent.
  pub modify-Holds :
      (f : RuntimeState → RuntimeState) (m : ℕ) (w : World B)
      → (m ≡ c → External (w.runtime m) → External (f (w.runtime m)))
      → (contains c (w.runtime m).children ≡ true → contains c (f (w.runtime m)).children ≡ true)
      → Holds w
      → Holds (modify f m w)
  unfolding modify
  modify-Holds f m w e k h = (
    elim (Bool-cases (c == m)) [
      | inl t ↦
          let q : m ≡ c = sym ((==_iff c m).0 t) in
          rw t (e q (subst (λ x. External (w.runtime x)) (sym q) h.0))
      | inr t ↦ rw t h.0
    ],
    elim (Bool-cases (n == m)) [
      | inl t ↦
          rw t (k (subst (λ x. contains c (w.runtime x).children ≡ true) ((==_iff n m).0 t) h.1))
      | inr t ↦ rw t h.1
    ],
  )

  pub Soft-Holds :
      (f : RuntimeState → RuntimeState) (m : ℕ) (w : World B)
      → Soft c (w.runtime m) (f (w.runtime m))
      → Holds w
      → Holds (modify f m w)
  Soft-Holds f m w s h = modify-Holds f m w (λ _. s.0) s.1 h

  pub start_child-Keeps :
      (b : Bool) (self child : ℕ) (driver : DriverMode) (w : World B)
      → (child == c && is_internal driver) ≡ false
      → Holds w
      → Keeps (start_child b self child driver w)
  unfolding start_child
  start_child-Keeps b self child driver w e h =
      let s = started_as (w.runtime self) driver in
      let w1 = modify s child w in
      let w2 = modify (with_child child) self w1 in
      let h1 : Holds w1 =
        Soft-Holds s child w (started_as-Soft c (w.runtime self) (w.runtime child) driver) h in
      let h2 : Holds w2 =
        Soft-Holds (with_child child) self w1 (with_child-Soft c child (w1.runtime self)) h1 in
      either-Keeps (not (w.runtime child).started && child == self) _ _ tt (
        modify-Holds (with_worker driver b) child w2
          (λ q.
            with_worker-External driver b (w2.runtime child)
              (internal_elsewhere c child driver e q))
          (λ k. rw (with_worker-children driver b (w2.runtime child)) k) h2)

  pub >>=-none :
      {A : Type 0} (m : Option (World B)) (f : World B → Option A)
      → Keeps m
      → ((v : World B) → Holds v → f v ≡ none)
      → (m >>= f) ≡ none
  >>=-none none f h k = refl
  >>=-none (some v) f h k = k v h

module _ {B : Type 0} (env : Behavior B) (n c : ℕ) (sparing : Sparing env c) where
  pub apply_call-Keeps :
      (self : ℕ) (call : Call) (w : World B)
      → Spares c call
      → Holds n c w
      → Keeps n c (apply_call env self call w)
  unfolding apply_call
  apply_call-Keeps self (start child driver) w e h =
      start_child-Keeps n c (env.spawns w child) self child driver w e h
  apply_call-Keeps self (cancel child) w e h =
      Soft-Holds n c mark_canceled child w (λ x. x, λ x. x) h
  apply_call-Keeps self (repel child) w e h =
      Soft-Holds n c unused_set child _ (λ x. x, λ x. x)
        (Soft-Holds n c mark_canceled child w (λ x. x, λ x. x) h)
  apply_call-Keeps self (when_finished_repel child) w e h =
      Soft-Holds n c mark_when_finished_unused child w (λ x. x, λ x. x) h
  apply_call-Keeps self own_unused_set w e h = Soft-Holds n c unused_set self w (λ x. x, λ x. x) h
  apply_call-Keeps self (own_display_set display) w e h =
      Soft-Holds n c (proc_tree_display_set display) self w (λ x. x, λ x. x) h
  apply_call-Keeps self (handle_unused_set m) w e h =
      Soft-Holds n c unused_set m w (λ x. x, λ x. x) h
  apply_call-Keeps self (handle_display_set m display) w e h =
      Soft-Holds n c (proc_tree_display_set display) m w (λ x. x, λ x. x) h

  pub apply_calls-Keeps :
      (self : ℕ) (calls : List Call) (w : World B)
      → All (Spares c) calls
      → Holds n c w
      → Keeps n c (apply_calls env self calls w)
  unfolding apply_calls
  apply_calls-Keeps self [] w e h = h
  apply_calls-Keeps self (call ∷ calls) w e h =
      >>=-Keeps n c (apply_call env self call w) (apply_calls env self calls)
        (apply_call-Keeps self call w e.0 h) (λ v k. apply_calls-Keeps self calls v e.1 k)

  pub hook_step-Keeps :
      (self : ℕ) (reply : Reply B) (after : Success → RuntimeState → RuntimeState) (w : World B)
      → ((r : RuntimeState) → Soft c r (after reply.result r))
      → All (Spares c) reply.calls
      → Holds n c w
      → Keeps n c (hook_step env self reply after w)
  unfolding hook_step run_hook
  hook_step-Keeps self reply after w soft e h =
      >>=-Keeps n c (run_hook env self reply w) _
        (>>=-Keeps n c (apply_calls env self reply.calls w) _
          (apply_calls-Keeps self reply.calls w e h)
          (λ v k.
            Soft-Holds n c (cached env render_options_default reply.behavior) self
              (record v { behavior = update v.behavior self reply.behavior }) (λ x. x, λ x. x) k))
        (λ v k. Soft-Holds n c (after reply.result) self v (soft (v.runtime self)) k)

  pub unuse_all-Holds : (cs : List ℕ) (w : World B) → Holds n c w → Holds n c (unuse_all env cs w)
  unfolding unuse_all
  unuse_all-Holds [] w h = h
  unuse_all-Holds (d ∷ cs) w h =
      unuse_all-Holds cs (modify unused_set d w) (Soft-Holds n c unused_set d w (λ x. x, λ x. x) h)

  pub step_in-Keeps :
      (s : AbstractState) (self : ℕ) (w : World B) → Holds n c w → Keeps n c (step_in env s self w)
  unfolding step_in
  step_in-Keeps existent self w h =
      Soft-Holds n c after_existent self w (after_existent-Soft c (w.runtime self)) h
  step_in-Keeps initializing self w h =
      either-Keeps n c (w.runtime self).canceled _ _
        (Soft-Holds n c (set_state down_shutting) self w (λ x. x, λ x. x) h)
        (hook_step-Keeps self (env.initialize self w) after_initialize w
          (after_initialize-Soft c (env.initialize self w).result) (sparing.of_initialize self w) h)
  step_in-Keeps processing self w h =
      either-Keeps n c (w.runtime self).canceled _ _
        (Soft-Holds n c (set_state down_shutting) self w (λ x. x, λ x. x) h)
        (hook_step-Keeps self (env.process self w) after_process w
          (after_process-Soft c (env.process self w).result) (sparing.of_process self w) h)
  step_in-Keeps down_shutting self w h =
      hook_step-Keeps self (env.shutdown self w) after_shutdown w
        (after_shutdown-Soft c (env.shutdown self w).result) (sparing.of_shutdown self w) h
  step_in-Keeps children_unused_set self w h =
      Soft-Holds n c (set_state finished_prepare) self _ (λ x. x, λ x. x)
        (unuse_all-Holds (w.runtime self).children w h)
  step_in-Keeps finished_prepare self w h =
      Soft-Holds n c after_finished_prepare self w (after_finished_prepare-Soft c (w.runtime self))
        h
  step_in-Keeps finished self w h = h
