-- ===== src/Processing/Tick.antt =====
-- src/processing.rs: `tree_tick` and the drivers. The behaviours are other people's code, so they
-- are a parameter: each hook sees the world and answers with its new state, the calls that it made
-- on handles and on its context, in order, and its result. What a hook logs is left out.
use system_core_port_test.Text.{Text}
use system_core_port_test.Prelude.{
  ℕ, zero, suc, Bool, true, not, ◌&&◌, Option, none, some, List, [], ◌∷◌, if◌then◌else◌, max, ◌>>=◌,
}
use system_core_port_test.Processing.{
  DriverMode, Success, pending, positive, negative, is_pending, AbstractState, existent,
  initializing, processing, down_shutting, children_unused_set, finished_prepare, finished,
  ProcessRenderOptions, render_options_default, RuntimeState, World, update, is_parent, progresses,
  can_be_removed,
}
use system_core_port_test.Processing.Calls.{
  modify, start_child, mark_canceled, unused_set, mark_when_finished_unused, proc_tree_display_set,
  mark_undriven, without_child, join_worker,
}

-- The calls of `ProcessContext`, and two of a `ProcessHandle` that a behaviour may hold.
pub data Call : Type 0 where
  start : ℕ → DriverMode → Call
  cancel repel when_finished_repel : ℕ → Call
  own_unused_set : Call
  own_display_set : Bool → Call
  handle_unused_set : ℕ → Call
  handle_display_set : ℕ → Bool → Call

pub record Reply (B : Type 0) : Type 0 where
  pub behavior : B
  pub calls : List Call
  pub result : Success

-- `ProcessBehavior`, and whether the operating system gives a thread when one is asked for.
pub record Behavior (B : Type 0) : Type 0 where
  pub initialize : ℕ → World B → Reply B
  pub process : ℕ → World B → Reply B
  pub shutdown : ℕ → World B → Reply B
  pub process_info : B → List Text
  pub extra_lines : B → ProcessRenderOptions → List Text
  pub spawns : World B → ℕ → Bool

abbrev pub set_state : AbstractState → RuntimeState → RuntimeState
set_state s r = record r { state = s }

abbrev pub after_existent : RuntimeState → RuntimeState
after_existent r = if r.canceled then set_state finished_prepare r else set_state initializing r

abbrev pub after_initialize : Success → RuntimeState → RuntimeState
after_initialize pending r = r
after_initialize positive r = record r { init_done = true; state = processing }
after_initialize (negative code) r = record r { success = negative code; state = down_shutting }

abbrev pub after_process : Success → RuntimeState → RuntimeState
after_process s r =
    if is_pending s then r else record r { success = s; process_done = true; state = down_shutting }

abbrev pub after_shutdown : Success → RuntimeState → RuntimeState
after_shutdown s r =
    if is_pending s then r else record r { shutdown_done = true; state = children_unused_set }

abbrev pub after_finished_prepare : RuntimeState → RuntimeState
after_finished_prepare r = set_state finished (if r.when_finished_unused then unused_set r else r)

module _ {B : Type 0} (env : Behavior B) where
  unfoldable pub apply_call : ℕ → Call → World B → Option (World B)
  apply_call self (start child driver) w = start_child (env.spawns w child) self child driver w
  apply_call self (cancel child) w = some (modify mark_canceled child w)
  apply_call self (repel child) w = some (modify unused_set child (modify mark_canceled child w))
  apply_call self (when_finished_repel child) w = some (modify mark_when_finished_unused child w)
  apply_call self own_unused_set w = some (modify unused_set self w)
  apply_call self (own_display_set display) w = some (modify (proc_tree_display_set display) self w)
  apply_call self (handle_unused_set n) w = some (modify unused_set n w)
  apply_call self (handle_display_set n display) w =
      some (modify (proc_tree_display_set display) n w)

  unfoldable pub apply_calls : ℕ → List Call → World B → Option (World B)
  apply_calls self [] w = some w
  apply_calls self (c ∷ cs) w = apply_call self c w >>= apply_calls self cs

  abbrev pub cached : ProcessRenderOptions → B → RuntimeState → RuntimeState
  cached options b r = record r {
    info_cache = env.process_info b;
    extra_tree_cache = env.extra_lines b options;
  }

  -- The calls of a hook, its new state, and `refresh_render_cache_with_options`.
  unfoldable pub run_hook : ℕ → Reply B → World B → Option (World B)
  run_hook self reply w = do
    v ← apply_calls self reply.calls w
    some (
        modify (cached render_options_default reply.behavior) self
          (record v { behavior = update v.behavior self reply.behavior }))

  -- A hook, and what `tree_tick` does with its result.
  unfoldable pub hook_step :
      ℕ → Reply B → (Success → RuntimeState → RuntimeState) → World B → Option (World B)
  hook_step self reply after w = do
    v ← run_hook self reply w
    some (modify (after reply.result) self v)

  unfoldable pub unuse_all : List ℕ → World B → World B
  unuse_all [] w = w
  unuse_all (c ∷ cs) w = unuse_all cs (modify unused_set c w)

  -- The `match` of `tree_tick`.
  unfoldable pub step_in : AbstractState → ℕ → World B → Option (World B)
  step_in existent self w = some (modify after_existent self w)
  step_in initializing self w =
      if (w.runtime self).canceled
      then some (modify (set_state down_shutting) self w)
      else hook_step self (env.initialize self w) after_initialize w
  step_in processing self w =
      if (w.runtime self).canceled
      then some (modify (set_state down_shutting) self w)
      else hook_step self (env.process self w) after_process w
  step_in down_shutting self w = hook_step self (env.shutdown self w) after_shutdown w
  step_in children_unused_set self w =
      some (modify (set_state finished_prepare) self (unuse_all (w.runtime self).children w))
  step_in finished_prepare self w = some (modify after_finished_prepare self w)
  step_in finished self w = some w

  unfoldable pub own_step : ℕ → World B → Option (World B)
  own_step self w = step_in (w.runtime self).state self w

  unfoldable pub settle : ℕ → World B → World B
  settle child w = if progresses (w.runtime child) then w else modify mark_undriven child w

  unfoldable pub parental_drive : (ℕ → World B → Option (World B)) → ℕ → World B → Option (World B)
  parental_drive tick child w =
      if is_parent (w.runtime child).driver_mode && not (w.runtime child).undriven
      then (tick child w >>= λ v. some (settle child v))
      else some w

  unfoldable pub sweep : ℕ → ℕ → World B → World B
  sweep self child w =
      if can_be_removed (w.runtime child)
      then modify join_worker child (modify (without_child child) self w)
      else w

  -- The loop over the snapshot of the children.
  unfoldable pub drive_children :
      (ℕ → World B → Option (World B)) → ℕ → List ℕ → World B → Option (World B)
  drive_children tick self [] w = some w
  drive_children tick self (c ∷ cs) w =
      parental_drive tick c w >>= λ v. drive_children tick self cs (sweep self c v)

  -- The fuel bounds the depth of the recursion; `none` also stands for a call that does not return.
  unfoldable pub tree_tick : ℕ → ℕ → World B → Option (World B)
  tree_tick zero self w = none
  tree_tick (suc fuel) self w =
      drive_children (tree_tick fuel) self (w.runtime self).children w >>= own_step self

  unfoldable pub ticks : ℕ → ℕ → ℕ → World B → Option (World B)
  ticks fuel self zero w = some w
  ticks fuel self (suc n) w = tree_tick fuel self w >>= ticks fuel self n

  unfoldable pub drive_for : ℕ → ℕ → ℕ → World B → Option (World B)
  drive_for fuel self burst w = ticks fuel self (max burst 1) w

  -- One round of `internal_drive_loop`: the burst, and the mark when nothing is left to do.
  unfoldable pub internal_drive_round : ℕ → ℕ → ℕ → World B → Option (World B)
  internal_drive_round fuel child burst w =
      ticks fuel child (max burst 1) w >>= λ v. some (settle child v)
