-- ===== src/Processing/Quitting.antt =====
-- src/processing.rs: a canceled process over several ticks.
use system_core_port_test.Prelude.{
  ℕ, suc, ◌≡◌, ◌≢◌, refl, ap, ◌∙◌, true, false, Option, some, [], arith,
}
use system_core_port_test.Processing.{
  Success, pending, positive, negative, AbstractState, existent, initializing, processing,
  down_shutting, children_unused_set, finished_prepare, finished, RuntimeState, World, update,
  progresses, render_options_default,
}
use system_core_port_test.Processing.Calls.{modify}
use system_core_port_test.Processing.Tick.{
  Behavior, set_state, cached, after_existent, after_shutdown, after_finished_prepare, apply_calls,
  run_hook, hook_step, unuse_all, step_in, own_step, drive_children, tree_tick, ticks,
}

-- The way out, one tick after the other.
abbrev pub quit_next : AbstractState → AbstractState
quit_next existent = finished_prepare
quit_next initializing = down_shutting
quit_next processing = down_shutting
quit_next down_shutting = children_unused_set
quit_next children_unused_set = finished_prepare
quit_next finished_prepare = finished
quit_next finished = finished

-- Canceled, and nobody below it.
pub record Quits (r : RuntimeState) : Type 0 where
  pub is_canceled : r.canceled ≡ true
  pub no_children : r.children ≡ []

pub quit_finishes : (s : AbstractState) → quit_next (quit_next (quit_next (quit_next s))) ≡ finished
quit_finishes existent = refl
quit_finishes _ = refl

after_shutdown-state :
    (s : Success) (r : RuntimeState)
    → s ≢ pending
    → (after_shutdown s r).state ≡ children_unused_set
after_shutdown-state pending r h = absurd (h refl)
after_shutdown-state positive r h = refl
after_shutdown-state (negative code) r h = refl

after_shutdown-Quits : (s : Success) (r : RuntimeState) → Quits r → Quits (after_shutdown s r)
after_shutdown-Quits s r q = ground arith

at_rest : (r : RuntimeState) → Quits r → r.state ≡ finished → progresses r ≡ false
at_rest r q h = rw (h, q.no_children)

module _ {B : Type 0} where
  runtime-modify :
      (f : RuntimeState → RuntimeState) (n : ℕ) (w : World B)
      → (modify f n w).runtime n ≡ f (w.runtime n)
  unfolding modify
  runtime-modify f n w = ground arith

  -- The step returns with the node canceled, childless and in the state `s`.
  abbrev Leads : ℕ → AbstractState → Option (World B) → Type 0
  Leads n s o = (v : World B) × (o ≡ some v) × Quits (v.runtime n) × ((v.runtime n).state ≡ s)

  modify-Leads :
      (f : RuntimeState → RuntimeState) (n : ℕ) (w : World B) (s : AbstractState)
      → Quits (f (w.runtime n))
      → (f (w.runtime n)).state ≡ s
      → Leads n s (some (modify f n w))
  modify-Leads f n w s q e =
      (modify f n w, refl, rw (runtime-modify f n w) q, rw (runtime-modify f n w) e)

module _ {B : Type 0} (env : Behavior B) (n : ℕ)
    (prompt : (w : World B) → (env.shutdown n w).result ≢ pending)
    (silent : (w : World B) → (env.shutdown n w).calls ≡ []) where
  shutdown-Leads :
      (w : World B)
      → Quits (w.runtime n)
      → Leads n children_unused_set (hook_step env n (env.shutdown n w) after_shutdown w)
  unfolding hook_step run_hook apply_calls
  shutdown-Leads w q =
      let reply = env.shutdown n w in
      let u : World B = record w { behavior = update w.behavior n reply.behavior } in
      let c = cached env render_options_default reply.behavior in
      rw (silent w) (
        modify-Leads (after_shutdown reply.result) n (modify c n u) children_unused_set
          (after_shutdown-Quits reply.result _ (
            rw (runtime-modify c n u)
              (record { is_canceled = q.is_canceled; no_children = q.no_children })))
          (after_shutdown-state reply.result _ (prompt w)))

  step_in-Leads :
      (s : AbstractState) (w : World B)
      → (w.runtime n).state ≡ s
      → Quits (w.runtime n)
      → Leads n (quit_next s) (step_in env s n w)
  unfolding step_in unuse_all
  step_in-Leads existent w h q =
      modify-Leads after_existent n w finished_prepare (ground arith) (ground arith)
  step_in-Leads initializing w h q =
      rw (q.is_canceled)
        (modify-Leads (set_state down_shutting) n w down_shutting (ground arith) refl)
  step_in-Leads processing w h q =
      rw (q.is_canceled)
        (modify-Leads (set_state down_shutting) n w down_shutting (ground arith) refl)
  step_in-Leads down_shutting w h q = shutdown-Leads w q
  step_in-Leads children_unused_set w h q =
      rw (q.no_children, unuse_all)
        (modify-Leads (set_state finished_prepare) n w finished_prepare (ground arith) refl)
  step_in-Leads finished_prepare w h q =
      modify-Leads after_finished_prepare n w finished (ground arith) (ground arith)
  step_in-Leads finished w h q = (w, refl, q, h)

  tick-Leads :
      (fuel : ℕ) (w : World B)
      → Quits (w.runtime n)
      → Leads n (quit_next (w.runtime n).state) (tree_tick env (suc fuel) n w)
  unfolding tree_tick drive_children own_step
  tick-Leads fuel w q =
      rw (q.no_children, drive_children) (step_in-Leads (w.runtime n).state w refl q)

  ticks-Leads :
      (fuel k : ℕ) (w : World B) (s : AbstractState)
      → Leads n s (tree_tick env (suc fuel) n w)
      → ((v : World B)
          → Quits (v.runtime n)
          → (v.runtime n).state ≡ s
          → (u : World B) × (ticks env (suc fuel) n k v ≡ some u)
            × (progresses (u.runtime n) ≡ false))
      → (u : World B) × (ticks env (suc fuel) n (suc k) w ≡ some u)
        × (progresses (u.runtime n) ≡ false)
  unfolding ticks
  ticks-Leads fuel k w s (v, e, q, h) more = rw e (more v q h)

  -- A canceled process without children, whose shutdown hook neither stays pending nor makes calls,
  -- returns from four ticks with nothing left to do, whatever state it was in.
  pub canceled_finishes :
      (fuel : ℕ) (w : World B)
      → (w.runtime n).canceled ≡ true
      → (w.runtime n).children ≡ []
      → (v : World B) × (ticks env (suc fuel) n 4 w ≡ some v) × (progresses (v.runtime n) ≡ false)
  unfolding ticks
  canceled_finishes fuel w c l =
      ticks-Leads fuel 3 w _ (tick-Leads fuel w (record { is_canceled = c; no_children = l }))
        λ v1 q1 h1. ticks-Leads fuel 2 v1 _ (tick-Leads fuel v1 q1) λ v2 q2 h2.
          ticks-Leads fuel 1 v2 _ (tick-Leads fuel v2 q2) λ v3 q3 h3.
            ticks-Leads fuel 0 v3 _ (tick-Leads fuel v3 q3) λ v4 q4 h4. (
              v4,
              refl,
              at_rest (v4.runtime n) q4 (
                  h4
                  ∙ ap quit_next (h3 ∙ ap quit_next (h2 ∙ ap quit_next h1))
                  ∙ quit_finishes (w.runtime n).state),
            )
