-- ===== src/Processing/Refines.antt =====
-- src/processing.rs: the calls of the scheduler as runs of the machine.
use system_core_port_test.Prelude.{
  ℕ, zero, suc, ◌≡◌, ◌⊎◌, inl, inr, refl, ◌∙◌, subst, true, not, ◌&&◌, Option, some, List, [], ◌∷◌,
  Bool-cases, >>=-eq-some, eq_of_some, max, arith,
}
use system_core_port_test.Processing.{
  Success, AbstractState, existent, initializing, processing, down_shutting, children_unused_set,
  finished_prepare, finished, RuntimeState, World, is_parent, progresses, can_be_removed,
}
use system_core_port_test.Processing.Calls.{modify}
use system_core_port_test.Processing.Calls.{unused_set, without_child, join_worker, mark_undriven}
use system_core_port_test.Processing.Tick.{
  Reply, Behavior, set_state, after_existent, after_initialize, after_process, after_shutdown,
  after_finished_prepare, run_hook, hook_step, unuse_all, step_in, own_step, settle, parental_drive,
  sweep, drive_children, tree_tick, ticks, internal_drive_round,
}
use system_core_port_test.Processing.Machine.{
  Move, joined, unused, abort_initialize, abort_process, released, undriven, is_active, detach,
  Reach, here, next, Reach-trans,
}
use system_core_port_test.Processing.Quiet.{
  Quiet, Quiet-trans, modify-Quiet, modify-Reach, run_hook-Quiet, after_existent-Move,
  after_initialize-Move, after_process-Move, after_shutdown-Move, after_finished_prepare-Move,
}

module _ {B : Type 0} (env : Behavior B) where
  -- The continuation of a hook is a move from the state in which the hook was called.
  hook_step-Reach :
      (self : ℕ) (reply : Reply B) (after : Success → RuntimeState → RuntimeState) (w : World B)
      {v : World B}
      → is_active (w.runtime self).state ≡ true
      → ((r : RuntimeState) → r.state ≡ (w.runtime self).state → Move r (after reply.result r))
      → hook_step env self reply after w ≡ some v
      → Reach w v
  unfolding hook_step
  hook_step-Reach self reply after w h m e =
      let (u, e1, e2) = >>=-eq-some (run_hook env self reply w) _ e in
      let q : Quiet w u = run_hook-Quiet env self reply w h e1 in
      subst (Reach w) (eq_of_some e2)
        (Reach-trans q.0 (modify-Reach _ self u (m (u.runtime self) (q.1 self))))

  unuse_all-Reach : (cs : List ℕ) (w : World B) → Quiet w (unuse_all env cs w)
  unfolding unuse_all
  unuse_all-Reach [] w = (here, λ n. refl)
  unuse_all-Reach (c ∷ cs) w =
      Quiet-trans (modify-Quiet unused_set c w unused refl)
        (unuse_all-Reach cs (modify unused_set c w))

  abort-Reach :
      (self : ℕ) (w : World B) (s : AbstractState)
      → (s ≡ initializing) ⊎ (s ≡ processing)
      → (w.runtime self).state ≡ s
      → (w.runtime self).canceled ≡ true
      → Reach w (modify (set_state down_shutting) self w)
  abort-Reach self w s (inl e) h c =
      modify-Reach (set_state down_shutting) self w (abort_initialize (h ∙ e) c)
  abort-Reach self w s (inr e) h c =
      modify-Reach (set_state down_shutting) self w (abort_process (h ∙ e) c)

  -- One turn of the `match` in `tree_tick`, in the state that the node is in.
  step_in-Reach :
      (s : AbstractState) (self : ℕ) (w : World B) {v : World B}
      → (w.runtime self).state ≡ s
      → step_in env s self w ≡ some v
      → Reach w v
  unfolding step_in
  step_in-Reach existent self w h e =
      subst (Reach w) (eq_of_some e) (modify-Reach after_existent self w (after_existent-Move _ h))
  step_in-Reach initializing self w h e = elim (Bool-cases (w.runtime self).canceled) [
    | inl c ↦ subst (Reach w) (ground arith) (abort-Reach self w initializing (inl refl) h c)
    | inr c ↦
        hook_step-Reach self (env.initialize self w) after_initialize w (rw h)
          (λ r k. after_initialize-Move (env.initialize self w).result r (k ∙ h)) (rw c at e)
  ]
  step_in-Reach processing self w h e = elim (Bool-cases (w.runtime self).canceled) [
    | inl c ↦ subst (Reach w) (ground arith) (abort-Reach self w processing (inr refl) h c)
    | inr c ↦
        hook_step-Reach self (env.process self w) after_process w (rw h)
          (λ r k. after_process-Move (env.process self w).result r (k ∙ h)) (rw c at e)
  ]
  step_in-Reach down_shutting self w h e =
      hook_step-Reach self (env.shutdown self w) after_shutdown w (rw h)
        (λ r k. after_shutdown-Move (env.shutdown self w).result r (k ∙ h)) e
  step_in-Reach children_unused_set self w h e =
      let cs = (w.runtime self).children in
      let q : Quiet w (unuse_all env cs w) = unuse_all-Reach cs w in
      subst (Reach w) (eq_of_some e) (
        Reach-trans q.0 (
          modify-Reach (set_state finished_prepare) self (unuse_all env cs w)
            (released (q.1 self ∙ h))))
  step_in-Reach finished_prepare self w h e =
      subst (Reach w) (eq_of_some e)
        (modify-Reach after_finished_prepare self w (after_finished_prepare-Move _ h))
  step_in-Reach finished self w h e = subst (Reach w) (eq_of_some e) here

  own_step-Reach : (self : ℕ) (w : World B) {v : World B} → own_step env self w ≡ some v → Reach w v
  unfolding own_step
  own_step-Reach self w e = step_in-Reach (w.runtime self).state self w refl e

  settle-Reach : (child : ℕ) (w : World B) → Reach w (settle env child w)
  unfolding settle
  settle-Reach child w = elim (Bool-cases (progresses (w.runtime child))) [
    | inl e ↦ rw e here
    | inr e ↦ rw e (modify-Reach mark_undriven child w (undriven e))
  ]

  detach-Reach :
      (self child : ℕ) (w : World B)
      → can_be_removed (w.runtime child) ≡ true
      → Reach w (modify (without_child child) self w)
  unfolding modify
  detach-Reach self child w e = next here (detach self child e)

  sweep-Reach : (self child : ℕ) (w : World B) → Reach w (sweep env self child w)
  unfolding sweep
  sweep-Reach self child w = elim (Bool-cases (can_be_removed (w.runtime child))) [
    | inl e ↦ rw e (
        Reach-trans (detach-Reach self child w e)
          (modify-Reach join_worker child (modify (without_child child) self w) joined))
    | inr e ↦ rw e here
  ]

  -- What a recursive call has to deliver.
  abbrev Sound : (ℕ → World B → Option (World B)) → Type 0
  Sound tick = (n : ℕ) (w v : World B) → tick n w ≡ some v → Reach w v

  parental_drive-Reach :
      (tick : ℕ → World B → Option (World B))
      → Sound tick
      → (child : ℕ) (w : World B) {v : World B} → parental_drive env tick child w ≡ some v
      → Reach w v
  unfolding parental_drive
  parental_drive-Reach tick sound child w e =
      elim (Bool-cases
        (is_parent (w.runtime child).driver_mode && not (w.runtime child).undriven)) [
          | inl t ↦
              let (u, e1, e2) = >>=-eq-some (tick child w) _ (rw t at e) in
              subst (Reach w) (eq_of_some e2)
                (Reach-trans (sound child w u e1) (settle-Reach child u))
          | inr t ↦ subst (Reach w) (eq_of_some (rw t at e)) here
        ]

  drive_children-Reach :
      (tick : ℕ → World B → Option (World B))
      → Sound tick
      → (self : ℕ) (cs : List ℕ) (w : World B) {v : World B}
      → drive_children env tick self cs w ≡ some v
      → Reach w v
  unfolding drive_children
  drive_children-Reach tick sound self [] w e = subst (Reach w) (eq_of_some e) here
  drive_children-Reach tick sound self (c ∷ cs) w e =
      let (u, e1, e2) = >>=-eq-some (parental_drive env tick c w) _ e in
      Reach-trans (parental_drive-Reach tick sound c w e1) (
        Reach-trans (sweep-Reach self c u)
          (drive_children-Reach tick sound self cs (sweep env self c u) e2))

  -- Whatever a tick does to the tree is a sequence of the machine's steps: each changes one runtime
  -- by one allowed move, attaches a child to a node whose hook may run, detaches a child that is
  -- undriven and unused, or replaces a behaviour.
  pub tree_tick-Reach :
      (fuel self : ℕ) (w v : World B) → tree_tick env fuel self w ≡ some v → Reach w v
  unfolding tree_tick
  tree_tick-Reach zero self w v e = cc
  tree_tick-Reach (suc fuel) self w v e =
      let cs = (w.runtime self).children in
      let (u, e1, e2) = >>=-eq-some (drive_children env (tree_tick env fuel) self cs w) _ e in
      Reach-trans (drive_children-Reach (tree_tick env fuel) (tree_tick-Reach fuel) self cs w e1)
        (own_step-Reach self u e2)

  pub ticks-Reach : (fuel self n : ℕ) (w v : World B) → ticks env fuel self n w ≡ some v → Reach w v
  unfolding ticks
  ticks-Reach fuel self zero w v e = subst (Reach w) (eq_of_some e) here
  ticks-Reach fuel self (suc n) w v e =
      let (u, e1, e2) = >>=-eq-some (tree_tick env fuel self w) _ e in
      Reach-trans (tree_tick-Reach fuel self w u e1) (ticks-Reach fuel self n u v e2)

  pub internal_drive_round-Reach :
      (fuel child burst : ℕ) (w v : World B)
      → internal_drive_round env fuel child burst w ≡ some v
      → Reach w v
  unfolding internal_drive_round
  internal_drive_round-Reach fuel child burst w v e =
      let (u, e1, e2) = >>=-eq-some (ticks env fuel child (max burst 1) w) _ e in
      subst (Reach w) (eq_of_some e2)
        (Reach-trans (ticks-Reach fuel child (max burst 1) w u e1) (settle-Reach child u))
