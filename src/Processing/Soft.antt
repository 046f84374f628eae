-- ===== src/Processing/Soft.antt =====
-- src/processing.rs: what the steps of a node keep of the marks of an external driver, and of the
-- list of children.
use system_core_port_test.Prelude.{
  ℕ, ◌≡◌, Bool, true, false, ◌&&◌, ◌==◌, if◌then◌else◌, arith, contains, All,
}
use system_core_port_test.Processing.{
  DriverMode, external_driver, Success, pending, positive, negative, initializing, finished_prepare,
  finished, RuntimeState, World, is_internal,
}
use system_core_port_test.Processing.Calls.{started_as, with_child, with_worker, unused_set}
use system_core_port_test.Processing.Tick.{
  Call, start, Behavior, set_state, after_existent, after_initialize, after_process, after_shutdown,
  after_finished_prepare,
}
use system_core_port_test.Processing.Progress.{with_child-contains}
use system_core_port_test.Processing.Hierarchy.{started_as-children}

-- Started under an external driver, and not marked.
abbrev pub External : RuntimeState → Type 0
External r = (r.started ≡ true) × (r.driver_mode ≡ external_driver) × (r.undriven ≡ false)

-- The call does not ask for a thread for `c`.
abbrev pub Spares : ℕ → Call → Type 0
Spares c (start child driver) = (child == c && is_internal driver) ≡ false
Spares c _ = Unit

pub record Sparing {B : Type 0} (env : Behavior B) (c : ℕ) : Type 0 where
  pub of_initialize : (n : ℕ) (w : World B) → All (Spares c) (env.initialize n w).calls
  pub of_process : (n : ℕ) (w : World B) → All (Spares c) (env.process n w).calls
  pub of_shutdown : (n : ℕ) (w : World B) → All (Spares c) (env.shutdown n w).calls

-- What every later state of `r` keeps, as far as the child `c` is concerned.
abbrev pub Soft : ℕ → RuntimeState → RuntimeState → Type 0
Soft c r s =
    (External r → External s) × (contains c r.children ≡ true → contains c s.children ≡ true)

pub started_as-Soft :
    (c : ℕ) (p r : RuntimeState) (driver : DriverMode) → Soft c r (started_as p driver r)
started_as-Soft c p r driver = (started, λ k. rw (started_as-children p r driver) k)
  where
    started : External r → External (started_as p driver r)
    started h = ground arith

pub with_child-Soft : (c child : ℕ) (r : RuntimeState) → Soft c r (with_child child r)
with_child-Soft c child r = (attached, λ k. with_child-contains r c child k)
  where
    attached : External r → External (with_child child r)
    attached h = ground arith

pub with_worker-External :
    (driver : DriverMode) (b : Bool) (r : RuntimeState)
    → is_internal driver ≡ false
    → External r
    → External (with_worker driver b r)
with_worker-External driver b r e h = ground arith

pub after_existent-Soft : (c : ℕ) (r : RuntimeState) → Soft c r (after_existent r)
after_existent-Soft c r = go r.canceled
  where
    go :
        (b : Bool) → Soft c r (if b then set_state finished_prepare r else set_state initializing r)
    go true = (λ x. x, λ x. x)
    go false = (λ x. x, λ x. x)

pub after_initialize-Soft :
    (c : ℕ) (s : Success) (r : RuntimeState) → Soft c r (after_initialize s r)
after_initialize-Soft c pending r = (λ x. x, λ x. x)
after_initialize-Soft c positive r = (λ x. x, λ x. x)
after_initialize-Soft c (negative code) r = (λ x. x, λ x. x)

pub after_process-Soft : (c : ℕ) (s : Success) (r : RuntimeState) → Soft c r (after_process s r)
after_process-Soft c pending r = (λ x. x, λ x. x)
after_process-Soft c positive r = (λ x. x, λ x. x)
after_process-Soft c (negative code) r = (λ x. x, λ x. x)

pub after_shutdown-Soft : (c : ℕ) (s : Success) (r : RuntimeState) → Soft c r (after_shutdown s r)
after_shutdown-Soft c pending r = (λ x. x, λ x. x)
after_shutdown-Soft c positive r = (λ x. x, λ x. x)
after_shutdown-Soft c (negative code) r = (λ x. x, λ x. x)

pub after_finished_prepare-Soft : (c : ℕ) (r : RuntimeState) → Soft c r (after_finished_prepare r)
after_finished_prepare-Soft c r = go r.when_finished_unused
  where
    go : (b : Bool) → Soft c r (set_state finished (if b then unused_set r else r))
    go true = (λ x. x, λ x. x)
    go false = (λ x. x, λ x. x)

pub internal_elsewhere :
    (c child : ℕ) (driver : DriverMode)
    → (child == c && is_internal driver) ≡ false
    → child ≡ c
    → is_internal driver ≡ false
internal_elsewhere c child driver e q = ground arith
