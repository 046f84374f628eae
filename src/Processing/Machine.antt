-- ===== src/Processing/Machine.antt =====
-- src/processing.rs: the scheduler as a relation, without the recursion: what one lock of one runtime
-- may do to a node, and what a tree may go through by such moves. `Reach` is the contract of
-- `tree_tick`.
use system_core_port_test.Prelude.{ℕ, ◌≡◌, refl, ◌≢◌, Bool, true, false, List, ◌==◌, if◌then◌else◌}
use system_core_port_test.Text.{Text}
use system_core_port_test.Processing.{
  DriverMode, parent, Success, pending, negative, AbstractState, existent, initializing, processing,
  down_shutting, children_unused_set, finished_prepare, finished, RuntimeState, World, update,
  set_runtime, can_be_removed, progresses,
}
use system_core_port_test.Processing.Calls.{
  with_child, without_child, unused_set, mark_canceled, mark_when_finished_unused,
  proc_tree_display_set, mark_undriven, join_worker,
}
use system_core_port_test.Processing.Tick.{set_state}

-- The states in which a hook may run.
abbrev pub is_active : AbstractState → Bool
is_active initializing = true
is_active processing = true
is_active down_shutting = true
is_active _ = false

-- What one node's runtime may do, its list of children aside.
pub data Move (r : RuntimeState) : RuntimeState → Type 0 where
  stay : Move r r
  started :
      r.started ≡ false
      → (tree driver : ℕ) (mode : DriverMode)
      → Move r (record r {
        level_tree = tree;
        driver_mode = mode;
        level_driver = driver;
        started = true;
        undriven = false;
      })
  spawned : r.worker ≡ false → Move r (record r { worker = true })
  not_spawned : Move r (record r { driver_mode = parent })
  joined : Move r (join_worker r)
  canceled : Move r (mark_canceled r)
  unused : Move r (unused_set r)
  forgotten : Move r (mark_when_finished_unused r)
  displayed : (display : Bool) → Move r (proc_tree_display_set display r)
  cached :
      (info extra : List Text) → Move r (record r { info_cache = info; extra_tree_cache = extra })
  boot : r.state ≡ existent → r.canceled ≡ false → Move r (set_state initializing r)
  skip : r.state ≡ existent → r.canceled ≡ true → Move r (set_state finished_prepare r)
  abort_initialize : r.state ≡ initializing → r.canceled ≡ true → Move r (set_state down_shutting r)
  abort_process : r.state ≡ processing → r.canceled ≡ true → Move r (set_state down_shutting r)
  initialized : r.state ≡ initializing → Move r (record r { init_done = true; state = processing })
  failed :
      r.state ≡ initializing
      → (code : ℕ) → Move r (record r { success = negative code; state = down_shutting })
  processed :
      r.state ≡ processing
      → (s : Success) → s ≢ pending
      → Move r (record r { success = s; process_done = true; state = down_shutting })
  shut :
      r.state ≡ down_shutting
      → Move r (record r { shutdown_done = true; state = children_unused_set })
  released : r.state ≡ children_unused_set → Move r (set_state finished_prepare r)
  done : r.state ≡ finished_prepare → r.when_finished_unused ≡ false → Move r (set_state finished r)
  done_unused :
      r.state ≡ finished_prepare
      → r.when_finished_unused ≡ true
      → Move r (set_state finished (unused_set r))
  undriven : progresses r ≡ false → Move r (mark_undriven r)

pub Move-children : {r s : RuntimeState} → Move r s → s.children ≡ r.children
Move-children stay = refl
Move-children _ = refl

-- A child is attached while a hook runs, and detached when nobody drives it and nobody uses it.
pub data Step {B : Type 0} (w : World B) : World B → Type 0 where
  move : (n : ℕ) {r : RuntimeState} → Move (w.runtime n) r → Step w (set_runtime w n r)
  attach :
      (n c : ℕ)
      → is_active (w.runtime n).state ≡ true
      → Step w (set_runtime w n (with_child c (w.runtime n)))
  detach :
      (n c : ℕ)
      → can_be_removed (w.runtime c) ≡ true
      → Step w (set_runtime w n (without_child c (w.runtime n)))
  behave : (n : ℕ) (b : B) → Step w (record w { behavior = update w.behavior n b })

pub data Reach {B : Type 0} (w : World B) : World B → Type 0 where
  here : Reach w w
  next : {u v : World B} → Reach w u → Step u v → Reach w v

pub Reach-trans : {B : Type 0} {w u v : World B} → Reach w u → Reach u v → Reach w v
Reach-trans r here = r
Reach-trans r (next q s) = next (Reach-trans r q) s

-- A property of every node survives the update of one node that has it.
pub All-update {ℓ} :
    (P : RuntimeState → Type ℓ) (f : ℕ → RuntimeState) (n : ℕ) (r : RuntimeState)
    → P r
    → ((m : ℕ) → P (f m))
    → (m : ℕ) → P (update f n r m)
All-update P f n r h all m = elim (m == n) as (λ b. P (if b then r else f m)) [
  | true ↦ h
  | false ↦ all m
]

-- An invariant of one node that every move keeps, and that attaching and detaching keep, holds of
-- every node after any number of steps.
module _ {B : Type 0} (P : RuntimeState → Type 0)
    (keep : (r s : RuntimeState) → Move r s → P r → P s)
    (keep_attach : (r : RuntimeState) (c : ℕ) → is_active r.state ≡ true → P r → P (with_child c r))
    (keep_detach : (r : RuntimeState) (c : ℕ) → P r → P (without_child c r)) where
  pub Step-invariant :
      {w v : World B} → Step w v → ((m : ℕ) → P (w.runtime m)) → (m : ℕ) → P (v.runtime m)
  Step-invariant {w} (move n {r} mv) h =
      All-update P w.runtime n r (keep (w.runtime n) r mv (h n)) h
  Step-invariant {w} (attach n c a) h =
      All-update P w.runtime n (with_child c (w.runtime n)) (keep_attach (w.runtime n) c a (h n)) h
  Step-invariant {w} (detach n c a) h =
      All-update P w.runtime n (without_child c (w.runtime n)) (keep_detach (w.runtime n) c (h n)) h
  Step-invariant (behave n b) h = h

  pub Reach-invariant :
      {w v : World B} → Reach w v → ((m : ℕ) → P (w.runtime m)) → (m : ℕ) → P (v.runtime m)
  Reach-invariant here h = h
  Reach-invariant (next r s) h = Step-invariant s (Reach-invariant r h)
