-- ===== src/Processing.antt =====
-- src/processing.rs: the data of the scheduler. A node is an `Arc<ProcessNode>`; here it is a
-- number, its address, and a `World` holds what lies behind the two locks of every node. An address
-- that no `ProcessHandle::new` has returned yet holds `RuntimeState::new()`.
pub mod Calls
pub mod Tick
pub mod Machine
pub mod Quiet
pub mod Refines
pub mod Lifecycle
pub mod Progress
pub mod Hierarchy
pub mod Total
pub mod Quitting
pub mod Drive
pub mod Verdict
pub mod Soft
pub mod External
pub mod Blocks
pub mod Returning
pub mod Render
pub mod Drawing
mod Tests
use system_core_port_test.Text.{Text}
use system_core_port_test.Prelude.{
  ℕ, ◌+◌, ◌≡◌, ◌⊎◌, inl, inr, refl, Bool, true, false, not, ◌&&◌, ◌||◌, List, [], ◌==◌,
  if◌then◌else◌, is_empty, arith,
}

pub data DriverMode : Type 0 where
  parent new_internal_driver external_driver : DriverMode

-- `Negative(i16)`: the code is carried along and never computed with, so that its bit pattern
-- serves as the number.
pub data Success : Type 0 where
  pending positive : Success
  negative : ℕ → Success

abbrev pub is_pending : Success → Bool
is_pending pending = true
is_pending positive = false
is_pending (negative code) = false

pub data AbstractState : Type 0 where
  existent initializing processing down_shutting children_unused_set finished_prepare finished :
      AbstractState

pub record ProcessRenderOptions : Type 0 where
  pub detailed : Bool
  pub colored : Bool

abbrev pub render_options_default : ProcessRenderOptions
render_options_default = record { detailed = true; colored = false }

-- The join handle of `worker` carries no data that the program reads: `true` is `Some(handle)`.
pub record RuntimeState : Type 0 where
  pub children : List ℕ
  pub success : Success
  pub state : AbstractState
  pub level_tree : ℕ
  pub level_driver : ℕ
  pub driver_mode : DriverMode
  pub started : Bool
  pub canceled : Bool
  pub unused : Bool
  pub when_finished_unused : Bool
  pub init_done : Bool
  pub process_done : Bool
  pub shutdown_done : Bool
  pub undriven : Bool
  pub tree_hidden : Bool
  pub info_cache : List Text
  pub extra_tree_cache : List Text
  pub worker : Bool

abbrev pub runtime_new : RuntimeState
runtime_new = record {
  children = [];
  success = pending;
  state = existent;
  level_tree = 0;
  level_driver = 0;
  driver_mode = external_driver;
  started = false;
  canceled = false;
  unused = false;
  when_finished_unused = false;
  init_done = false;
  process_done = false;
  shutdown_done = false;
  undriven = false;
  tree_hidden = false;
  info_cache = [];
  extra_tree_cache = [];
  worker = false;
}

-- `B` is the state of the boxed behaviours.
pub record World (B : Type 0) : Type 0 where
  pub runtime : ℕ → RuntimeState
  pub behavior : ℕ → B

abbrev pub update {ℓ} : {A : Type ℓ} → (ℕ → A) → ℕ → A → ℕ → A
update f n a m = if m == n then a else f m

abbrev pub set_runtime : {B : Type 0} → World B → ℕ → RuntimeState → World B
set_runtime w n r = record w { runtime = update w.runtime n r }

abbrev pub is_finished : AbstractState → Bool
is_finished finished = true
is_finished _ = false

abbrev pub is_parent : DriverMode → Bool
is_parent parent = true
is_parent _ = false

abbrev pub is_internal : DriverMode → Bool
is_internal new_internal_driver = true
is_internal _ = false

-- `progress`: some state is still ahead, or a child is still attached.
abbrev pub progresses : RuntimeState → Bool
progresses r = not (is_finished r.state) || not (is_empty r.children)

-- `can_be_removed`
abbrev pub can_be_removed : RuntimeState → Bool
can_be_removed r = r.undriven && r.unused

pub State-cases : (s : AbstractState) → (s ≡ finished) ⊎ (is_finished s ≡ false)
State-cases finished = inl refl
State-cases existent = inr refl
State-cases initializing = inr refl
State-cases processing = inr refl
State-cases down_shutting = inr refl
State-cases children_unused_set = inr refl
State-cases finished_prepare = inr refl
