-- ===== src/Processing/Drive.antt =====
-- src/processing.rs: the drivers' configuration, the loops over ticks, the destructors, and what a
-- context reads of the children.
use system_core_port_test.Prelude.{
  ℕ, zero, suc, Bool, true, false, Option, none, some, List, [], ◌∷◌, if◌then◌else◌, ltb, max,
  ◌>>=◌, contains,
}
use system_core_port_test.Processing.{Success, pending, positive, negative, World, progresses}
use system_core_port_test.Processing.Calls.{modify, mark_undriven}
use system_core_port_test.Processing.Tick.{Behavior, ticks, drive_for}

-- The sleep is in microseconds.
pub record InternalDriveConfig : Type 0 where
  pub sleep : ℕ
  pub burst : ℕ

abbrev pub internal_drive_config_default : InternalDriveConfig
internal_drive_config_default = record { sleep = 2000; burst = 13 }

unfoldable pub sleep_internal_drive_set : ℕ → InternalDriveConfig → InternalDriveConfig
sleep_internal_drive_set delay c = record c { sleep = delay }

unfoldable pub num_burst_internal_drive_set : ℕ → InternalDriveConfig → InternalDriveConfig
num_burst_internal_drive_set burst c = if ltb 0 burst then record c { burst = burst } else c

-- A destructor is a function pointer: a number. The newest stands first.
unfoldable pub register_global_destructor : ℕ → List ℕ → List ℕ
register_global_destructor destructor ds = if contains destructor ds then ds else destructor ∷ ds

-- `application_close`: the destructors that run, in order, and what stays registered.
unfoldable pub application_close : List ℕ → List ℕ × List ℕ
application_close ds = (ds, [])

unfoldable pub register_all : List ℕ → List ℕ → List ℕ
register_all [] ds = ds
register_all (f ∷ fs) ds = register_all fs (register_global_destructor f ds)

module _ {B : Type 0} where
  -- The loop of `children_success`.
  unfoldable pub children_loop : Bool → List ℕ → World B → Success
  children_loop one_pending [] w = if one_pending then pending else positive
  children_loop one_pending (c ∷ cs) w =
      let skip = children_loop one_pending cs w in
      let seen = children_loop true cs w in
      if (w.runtime c).unused then skip else elim (w.runtime c).success [
        | negative code ↦ negative code
        | pending ↦ seen
        | positive ↦ skip
      ]

  unfoldable pub children_success : ℕ → World B → Success
  children_success self w = children_loop false (w.runtime self).children w

module _ {B : Type 0} (env : Behavior B) where
  -- `drive_until_finished`; `others` is what the other threads do while this one sleeps after its
  -- `k`-th round from the end. `none`: the fuel for the rounds ran out, or a tick did not return.
  unfoldable pub drive_until_finished :
      ℕ → (ℕ → World B → World B) → ℕ → ℕ → ℕ → World B → Option (World B × Success)
  drive_until_finished fuel others root burst zero w = none
  drive_until_finished fuel others root burst (suc rounds) w =
      let again =
        drive_for env fuel root (max burst 1) w
        >>= (λ v. drive_until_finished fuel others root burst rounds (others rounds v)) in
      if progresses (w.runtime root) then again else some (w, (w.runtime root).success)

  -- `internal_drive_loop`; the configuration is read anew in each round.
  unfoldable pub internal_drive_loop :
      ℕ → (ℕ → InternalDriveConfig) → (ℕ → World B → World B) → ℕ → ℕ → World B → Option (World B)
  internal_drive_loop fuel config others child zero w = none
  internal_drive_loop fuel config others child (suc rounds) w =
      ticks env fuel child (max (config rounds).burst 1) w >>= (λ v.
        let again = internal_drive_loop fuel config others child rounds (others rounds v) in
        if progresses (v.runtime child) then again else some (modify mark_undriven child v))
