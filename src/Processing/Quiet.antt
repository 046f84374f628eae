-- ===== src/Processing/Quiet.antt =====
-- src/processing.rs: the calls of a handle or a context as runs of the machine that change no state of
-- the lifecycle (`Quiet`), and the continuations of the hooks as moves.
use system_core_port_test.Prelude.{
  ℕ, ◌≡◌, inl, inr, refl, ap, ◌∙◌, subst, Bool, true, false, not, ◌&&◌, some, List, [], ◌∷◌,
  if◌then◌else◌, Bool-cases, >>=-eq-some, eq_of_some, arith,
}
use system_core_port_test.Processing.{
  DriverMode, Success, pending, positive, negative, existent, initializing, processing,
  down_shutting, finished_prepare, finished, RuntimeState, World, is_internal,
}
use system_core_port_test.Processing.Calls.{
  modify, started_as, with_child, with_worker, start_blocks, start_child, saturating_suc,
  child_level_driver,
}
use system_core_port_test.Processing.Calls.{
  unused_set, mark_canceled, mark_when_finished_unused, proc_tree_display_set,
}
use system_core_port_test.Processing.Tick.{
  Call, start, cancel, repel, when_finished_repel, own_unused_set, own_display_set,
  handle_unused_set, handle_display_set, Reply, Behavior, set_state, after_existent,
  after_initialize, after_process, after_shutdown, after_finished_prepare, apply_call, apply_calls,
  run_hook,
}
use system_core_port_test.Processing.Machine.{
  Move, stay, started, spawned, not_spawned, canceled, unused, forgotten, displayed, cached, boot,
  skip, initialized, failed, processed, shut, done, done_unused, is_active, move, attach, behave,
  Reach, here, next, Reach-trans,
}

pub started_as-Move : (p r : RuntimeState) (driver : DriverMode) → Move r (started_as p driver r)
started_as-Move p r driver = elim (Bool-cases r.started) [
  | inl e ↦ simp e stay
  | inr e ↦
      simp e
        (started e (saturating_suc p.level_tree) (child_level_driver driver p.level_driver) driver)
]

pub with_worker-Move :
    (driver : DriverMode) (b : Bool) (r : RuntimeState) → Move r (with_worker driver b r)
with_worker-Move driver b r = elim (Bool-cases (is_internal driver && not r.worker)) [
  | inl e ↦ elim b as (λ c. Move r (with_worker driver c r)) [
    | true ↦ rw e (spawned (ground arith))
    | false ↦ rw e not_spawned
  ]
  | inr e ↦ rw e stay
]

pub after_existent-Move : (r : RuntimeState) → r.state ≡ existent → Move r (after_existent r)
after_existent-Move r h = go r.canceled refl
  where
    go :
        (b : Bool)
        → r.canceled ≡ b
        → Move r (if b then set_state finished_prepare r else set_state initializing r)
    go true e = skip h e
    go false e = boot h e

pub after_initialize-Move :
    (s : Success) (r : RuntimeState) → r.state ≡ initializing → Move r (after_initialize s r)
after_initialize-Move pending r h = stay
after_initialize-Move positive r h = initialized h
after_initialize-Move (negative code) r h = failed h code

pub after_process-Move :
    (s : Success) (r : RuntimeState) → r.state ≡ processing → Move r (after_process s r)
after_process-Move pending r h = stay
after_process-Move positive r h = processed h positive (λ e. cc)
after_process-Move (negative code) r h = processed h (negative code) (λ e. cc)

pub after_shutdown-Move :
    (s : Success) (r : RuntimeState) → r.state ≡ down_shutting → Move r (after_shutdown s r)
after_shutdown-Move pending r h = stay
after_shutdown-Move positive r h = shut h
after_shutdown-Move (negative code) r h = shut h

pub after_finished_prepare-Move :
    (r : RuntimeState) → r.state ≡ finished_prepare → Move r (after_finished_prepare r)
after_finished_prepare-Move r h = go r.when_finished_unused refl
  where
    go :
        (b : Bool)
        → r.when_finished_unused ≡ b
        → Move r (set_state finished (if b then unused_set r else r))
    go true e = done_unused h e
    go false e = done h e

started_as-state :
    (p r : RuntimeState) (driver : DriverMode) → (started_as p driver r).state ≡ r.state
started_as-state p r driver = ground arith

with_worker-state :
    (driver : DriverMode) (b : Bool) (r : RuntimeState) → (with_worker driver b r).state ≡ r.state
with_worker-state driver b r = ground arith

module _ {B : Type 0} where
  -- The states of the nodes, which no call on a handle touches.
  abbrev pub SameStates : World B → World B → Type 0
  SameStates w v = (n : ℕ) → (v.runtime n).state ≡ (w.runtime n).state

  -- A run of the machine that leaves every node in its state.
  abbrev pub Quiet : World B → World B → Type 0
  Quiet w v = Reach w v × SameStates w v

  modify-SameStates :
      (f : RuntimeState → RuntimeState) (n : ℕ) (w : World B)
      → (f (w.runtime n)).state ≡ (w.runtime n).state
      → SameStates w (modify f n w)
  unfolding modify
  modify-SameStates f n w h m = ground arith

  pub Quiet-trans : {w u v : World B} → Quiet w u → Quiet u v → Quiet w v
  Quiet-trans (r, p) (s, q) = (Reach-trans r s, λ n. q n ∙ p n)

  pub modify-Reach :
      (f : RuntimeState → RuntimeState) (n : ℕ) (w : World B)
      → Move (w.runtime n) (f (w.runtime n))
      → Reach w (modify f n w)
  unfolding modify
  modify-Reach f n w m = next here (move n m)

  pub modify-Quiet :
      (f : RuntimeState → RuntimeState) (n : ℕ) (w : World B)
      → Move (w.runtime n) (f (w.runtime n))
      → (f (w.runtime n)).state ≡ (w.runtime n).state
      → Quiet w (modify f n w)
  modify-Quiet f n w m h = (modify-Reach f n w m, modify-SameStates f n w h)

  pub attach-Quiet :
      (self child : ℕ) (w : World B)
      → is_active (w.runtime self).state ≡ true
      → Quiet w (modify (with_child child) self w)
  attach-Quiet self child w h = (
    unfold modify in next here (attach self child h),
    modify-SameStates (with_child child) self w (ground arith),
  )

  pub start_blocks-Quiet :
      (b : Bool) (self child : ℕ) (driver : DriverMode) (w : World B)
      → is_active (w.runtime self).state ≡ true
      → Quiet w (start_blocks b self child driver w)
  start_blocks-Quiet b self child driver w h =
      let s = started_as (w.runtime self) driver in
      let w1 = modify s child w in
      let w2 = modify (with_child child) self w1 in
      let q1 : Quiet w w1 =
        modify-Quiet s child w (started_as-Move (w.runtime self) (w.runtime child) driver)
          (started_as-state (w.runtime self) (w.runtime child) driver) in
      let q2 : Quiet w1 w2 = attach-Quiet self child w1 (ap is_active (q1.1 self) ∙ h) in
      Quiet-trans q1 (
        Quiet-trans q2 (
          modify-Quiet (with_worker driver b) child w2
            (with_worker-Move driver b (w2.runtime child))
            (with_worker-state driver b (w2.runtime child))))

  pub start_child-Quiet :
      (b : Bool) (self child : ℕ) (driver : DriverMode) (w : World B) {v : World B}
      → is_active (w.runtime self).state ≡ true
      → start_child b self child driver w ≡ some v
      → Quiet w v
  unfolding start_child
  start_child-Quiet b self child driver w h e =
      subst (Quiet w) (ground arith) (start_blocks-Quiet b self child driver w h)

module _ {B : Type 0} (env : Behavior B) where
  pub apply_call-Quiet :
      (self : ℕ) (c : Call) (w : World B) {v : World B}
      → is_active (w.runtime self).state ≡ true
      → apply_call env self c w ≡ some v
      → Quiet w v
  unfolding apply_call
  apply_call-Quiet self (start child driver) w h e = start_child-Quiet _ self child driver w h e
  apply_call-Quiet self (cancel child) w h e =
      subst (Quiet w) (eq_of_some e) (modify-Quiet mark_canceled child w canceled refl)
  apply_call-Quiet self (repel child) w h e = subst (Quiet w) (eq_of_some e) (
      Quiet-trans (modify-Quiet mark_canceled child w canceled refl)
        (modify-Quiet unused_set child _ unused refl))
  apply_call-Quiet self (when_finished_repel child) w h e =
      subst (Quiet w) (eq_of_some e) (modify-Quiet mark_when_finished_unused child w forgotten refl)
  apply_call-Quiet self own_unused_set w h e =
      subst (Quiet w) (eq_of_some e) (modify-Quiet unused_set self w unused refl)
  apply_call-Quiet self (own_display_set display) w h e =
      subst (Quiet w) (eq_of_some e)
        (modify-Quiet (proc_tree_display_set display) self w (displayed display) refl)
  apply_call-Quiet self (handle_unused_set n) w h e =
      subst (Quiet w) (eq_of_some e) (modify-Quiet unused_set n w unused refl)
  apply_call-Quiet self (handle_display_set n display) w h e =
      subst (Quiet w) (eq_of_some e)
        (modify-Quiet (proc_tree_display_set display) n w (displayed display) refl)

  pub apply_calls-Quiet :
      (self : ℕ) (cs : List Call) (w : World B) {v : World B}
      → is_active (w.runtime self).state ≡ true
      → apply_calls env self cs w ≡ some v
      → Quiet w v
  unfolding apply_calls
  apply_calls-Quiet self [] w h e = subst (Quiet w) (eq_of_some e) (here, λ n. refl)
  apply_calls-Quiet self (c ∷ cs) w h e =
      let (u, e1, e2) = >>=-eq-some (apply_call env self c w) (apply_calls env self cs) e in
      let q : Quiet w u = apply_call-Quiet self c w h e1 in
      Quiet-trans q (apply_calls-Quiet self cs u (ap is_active (q.1 self) ∙ h) e2)

  pub run_hook-Quiet :
      (self : ℕ) (reply : Reply B) (w : World B) {v : World B}
      → is_active (w.runtime self).state ≡ true
      → run_hook env self reply w ≡ some v
      → Quiet w v
  unfolding run_hook
  run_hook-Quiet self reply w h e =
      let (u, e1, e2) = >>=-eq-some (apply_calls env self reply.calls w) _ e in
      let q : Quiet w u = apply_calls-Quiet self reply.calls w h e1 in
      subst (Quiet w) (eq_of_some e2) (
        Quiet-trans q (
          Quiet-trans (next here (behave self reply.behavior), λ n. refl)
            (modify-Quiet _ self _ (cached _ _) refl)))
