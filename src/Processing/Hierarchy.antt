-- ===== src/Processing/Hierarchy.antt =====
-- src/processing.rs: processes in a hierarchy, where everybody starts only processes of a smaller
-- depth, under the calls of a hook.
use system_core_port_test.Prelude.{
  ℕ, ◌<◌, ◌≡◌, refl, sym, ap, subst, Bool, false, Option, some, List, [], ◌∷◌, ◌==◌, inl, inr,
  arith, contains, All, All-append, Bool-cases, ==_iff, ◌>>=◌,
}
use system_core_port_test.Processing.{
  render_options_default, DriverMode, Success, RuntimeState, World, update,
}
use system_core_port_test.Processing.Calls.{
  modify, started_as, with_child, with_worker, start_blocks, start_child, unused_set, mark_canceled,
  mark_when_finished_unused, proc_tree_display_set,
}
use system_core_port_test.Processing.Tick.{
  Call, start, cancel, repel, when_finished_repel, own_unused_set, own_display_set,
  handle_unused_set, handle_display_set, Reply, Behavior, cached, apply_call, apply_calls, run_hook,
  hook_step, unuse_all,
}

-- What a call may start.
abbrev pub Below : (ℕ → ℕ) → ℕ → Call → Type 0
Below depth self (start child driver) = depth child < depth self
Below depth self _ = Unit

pub record Hierarchical {B : Type 0} (env : Behavior B) (depth : ℕ → ℕ) : Type 0 where
  pub of_initialize : (n : ℕ) (w : World B) → All (Below depth n) (env.initialize n w).calls
  pub of_process : (n : ℕ) (w : World B) → All (Below depth n) (env.process n w).calls
  pub of_shutdown : (n : ℕ) (w : World B) → All (Below depth n) (env.shutdown n w).calls

pub with_child-All :
    (depth : ℕ → ℕ) (self child : ℕ) (r : RuntimeState)
    → depth child < depth self
    → All (λ c. depth c < depth self) r.children
    → All (λ c. depth c < depth self) (with_child child r).children
with_child-All depth self child r d h = elim (Bool-cases (contains child r.children)) [
  | inl e ↦ simp e h
  | inr e ↦ simp e (All-append (λ c. depth c < depth self) r.children (child ∷ []) h (d, tt))
]

pub started_as-children :
    (p r : RuntimeState) (driver : DriverMode) → (started_as p driver r).children ≡ r.children
started_as-children p r driver = ground arith

pub with_worker-children :
    (driver : DriverMode) (b : Bool) (r : RuntimeState)
    → (with_worker driver b r).children ≡ r.children
with_worker-children driver b r = ground arith

module _ {B : Type 0} (depth : ℕ → ℕ) where
  abbrev pub Ranked : World B → Type 0
  Ranked w = (n : ℕ) → All (λ c. depth c < depth n) (w.runtime n).children

  -- The step returns, and leaves a hierarchy.
  abbrev pub Gives : Option (World B) → Type 0
  Gives o = (v : World B) × (o ≡ some v) × Ranked v

  pub >>=-Gives :
      (m : Option (World B)) (f : World B → Option (World B))
      → Gives m
      → ((v : World B) → Ranked v → Gives (f v))
      → Gives (m >>= f)
  >>=-Gives m f (v, e, r) k = rw e (k v r)

  pub modify-Ranked :
      (f : RuntimeState → RuntimeState) (n : ℕ) (w : World B)
      → All (λ c. depth c < depth n) (f (w.runtime n)).children
      → Ranked w
      → Ranked (modify f n w)
  unfolding modify
  modify-Ranked f n w h r = λ m. elim (Bool-cases (m == n)) [
    | inl e ↦ rw e (
        subst (λ k. All (λ c. depth c < depth k) (f (w.runtime n)).children)
          (sym ((==_iff m n).0 e)) h)
    | inr e ↦ rw e (r m)
  ]

  pub some-Gives :
      (f : RuntimeState → RuntimeState) (n : ℕ) (w : World B)
      → (f (w.runtime n)).children ≡ (w.runtime n).children
      → Ranked w
      → Gives (some (modify f n w))
  some-Gives f n w e r = (modify f n w, refl, modify-Ranked f n w (rw e (r n)) r)

  pub start_child-Gives :
      (b : Bool) (self child : ℕ) (driver : DriverMode) (w : World B)
      → depth child < depth self
      → Ranked w
      → Gives (start_child b self child driver w)
  unfolding start_child
  start_child-Gives b self child driver w d r =
      let s = started_as (w.runtime self) driver in
      let w1 = modify s child w in
      let w2 = modify (with_child child) self w1 in
      let r1 : Ranked w1 =
        modify-Ranked s child w
          (rw (started_as-children (w.runtime self) (w.runtime child) driver) (r child)) r in
      let r2 : Ranked w2 =
        modify-Ranked (with_child child) self w1
          (with_child-All depth self child (w1.runtime self) d (r1 self)) r1 in
      let r3 : Ranked (start_blocks b self child driver w) =
        modify-Ranked (with_worker driver b) child w2
          (rw (with_worker-children driver b (w2.runtime child)) (r2 child)) r2 in
      let other : (child == self) ≡ false = differ in
      (start_blocks b self child driver w, ground arith, r3)
    where
      differ : (child == self) ≡ false
      differ = elim (Bool-cases (child == self)) [
        | inl e ↦ absurd (omega (arith, ap depth ((==_iff child self).0 e)))
        | inr e ↦ e
      ]

module _ {B : Type 0} (env : Behavior B) (depth : ℕ → ℕ) (hier : Hierarchical env depth) where
  pub apply_call-Gives :
      (self : ℕ) (c : Call) (w : World B)
      → Below depth self c
      → Ranked depth w
      → Gives depth (apply_call env self c w)
  unfolding apply_call
  apply_call-Gives self (start child driver) w b r =
      start_child-Gives depth (env.spawns w child) self child driver w b r
  apply_call-Gives self (cancel child) w b r = some-Gives depth mark_canceled child w refl r
  apply_call-Gives self (repel child) w b r =
      some-Gives depth unused_set child (modify mark_canceled child w) refl
        (modify-Ranked depth mark_canceled child w (r child) r)
  apply_call-Gives self (when_finished_repel child) w b r =
      some-Gives depth mark_when_finished_unused child w refl r
  apply_call-Gives self own_unused_set w b r = some-Gives depth unused_set self w refl r
  apply_call-Gives self (own_display_set display) w b r =
      some-Gives depth (proc_tree_display_set display) self w refl r
  apply_call-Gives self (handle_unused_set n) w b r = some-Gives depth unused_set n w refl r
  apply_call-Gives self (handle_display_set n display) w b r =
      some-Gives depth (proc_tree_display_set display) n w refl r

  pub apply_calls-Gives :
      (self : ℕ) (cs : List Call) (w : World B)
      → All (Below depth self) cs
      → Ranked depth w
      → Gives depth (apply_calls env self cs w)
  unfolding apply_calls
  apply_calls-Gives self [] w b r = (w, refl, r)
  apply_calls-Gives self (c ∷ cs) w b r =
      >>=-Gives depth (apply_call env self c w) (apply_calls env self cs)
        (apply_call-Gives self c w b.0 r) (λ v q. apply_calls-Gives self cs v b.1 q)

  pub hook_step-Gives :
      (self : ℕ) (reply : Reply B) (after : Success → RuntimeState → RuntimeState) (w : World B)
      → ((r : RuntimeState) → (after reply.result r).children ≡ r.children)
      → All (Below depth self) reply.calls
      → Ranked depth w
      → Gives depth (hook_step env self reply after w)
  unfolding hook_step run_hook
  hook_step-Gives self reply after w same b r =
      >>=-Gives depth (run_hook env self reply w) _
        (>>=-Gives depth (apply_calls env self reply.calls w) _
          (apply_calls-Gives self reply.calls w b r)
          (λ v q.
            some-Gives depth (cached env render_options_default reply.behavior) self
              (record v { behavior = update v.behavior self reply.behavior }) refl q))
        (λ v q. some-Gives depth (after reply.result) self v (same (v.runtime self)) q)

  pub unuse_all-Ranked :
      (cs : List ℕ) (w : World B) → Ranked depth w → Ranked depth (unuse_all env cs w)
  unfolding unuse_all
  unuse_all-Ranked [] w r = r
  unuse_all-Ranked (c ∷ cs) w r =
      unuse_all-Ranked cs (modify unused_set c w) (modify-Ranked depth unused_set c w (r c) r)
