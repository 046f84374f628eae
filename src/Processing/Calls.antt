-- ===== src/Processing/Calls.antt =====
-- src/processing.rs: what a handle and a `ProcessContext` let a behaviour do to the tree.
use system_core_port_test.Prelude.{
  ℕ, ◌+◌, Bool, true, false, not, ◌&&◌, Option, none, some, [], ◌∷◌, ◌++◌, ◌==◌, min, if◌then◌else◌,
  contains, retain,
}
use system_core_port_test.Processing.{
  DriverMode, parent, new_internal_driver, external_driver, RuntimeState, World, set_runtime,
  is_internal,
}

-- `u8::saturating_add(1)`
abbrev pub saturating_suc : ℕ → ℕ
saturating_suc n = min 255 (n + 1)

abbrev pub child_level_driver : DriverMode → ℕ → ℕ
child_level_driver parent l = l
child_level_driver new_internal_driver l = saturating_suc l
child_level_driver external_driver l = saturating_suc l

-- The first block of `start_child`.
abbrev pub started_as : RuntimeState → DriverMode → RuntimeState → RuntimeState
started_as p driver r = if r.started then r else record r {
  level_tree = saturating_suc p.level_tree;
  driver_mode = driver;
  level_driver = child_level_driver driver p.level_driver;
  started = true;
  undriven = false;
}

-- The second block: the list holds no handle twice.
abbrev pub with_child : ℕ → RuntimeState → RuntimeState
with_child child p =
    if contains child p.children then p else record p { children = p.children ++ child ∷ [] }

-- The third block; `spawned` is whether the operating system gave a thread.
abbrev pub with_worker : DriverMode → Bool → RuntimeState → RuntimeState
with_worker driver spawned r =
    if is_internal driver && not r.worker
    then (if spawned then record r { worker = true } else record r { driver_mode = parent })
    else r

abbrev pub mark_canceled : RuntimeState → RuntimeState
mark_canceled r = record r { canceled = true }

abbrev pub unused_set : RuntimeState → RuntimeState
unused_set r = record r { canceled = true; unused = true }

abbrev pub mark_when_finished_unused : RuntimeState → RuntimeState
mark_when_finished_unused r = record r { when_finished_unused = true }

abbrev pub proc_tree_display_set : Bool → RuntimeState → RuntimeState
proc_tree_display_set display r = record r { tree_hidden = not display }

abbrev pub mark_undriven : RuntimeState → RuntimeState
mark_undriven r = record r { undriven = true }

-- `remove_child`, on the parent's runtime.
abbrev pub without_child : ℕ → RuntimeState → RuntimeState
without_child child p = record p { children = retain (λ n. not (n == child)) p.children }

-- `join_worker`: the handle is taken. Only a node that its worker has left is joined.
abbrev pub join_worker : RuntimeState → RuntimeState
join_worker r = record r { worker = false }

module _ {B : Type 0} where
  unfoldable pub modify : (RuntimeState → RuntimeState) → ℕ → World B → World B
  modify f n w = set_runtime w n (f (w.runtime n))

  abbrev pub start_blocks : Bool → ℕ → ℕ → DriverMode → World B → World B
  start_blocks spawned self child driver w =
      modify (with_worker driver spawned) child
        (modify (with_child child) self (modify (started_as (w.runtime self) driver) child w))

  -- `none`: the call does not return. A process that was not started yet and starts itself locks
  -- its own runtime a second time.
  unfoldable pub start_child : Bool → ℕ → ℕ → DriverMode → World B → Option (World B)
  start_child spawned self child driver w =
      if not (w.runtime child).started && child == self
      then none
      else some (start_blocks spawned self child driver w)
