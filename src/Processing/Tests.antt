-- ===== src/Processing/Tests.antt =====
-- A parent, process 0, starts a child, process 1, which answers pending once (the `OneShot` of
-- src/processing.rs); the parent ends with the child's success.
use mathlib.Core.List.{reverse}
use system_core_port_test.Prelude.{
  Distinct, ℕ, zero, suc, ◌≡◌, ◌≢◌, ◌⊎◌, refl, true, false, Option, none, some, List, [], ◌∷◌, ◌==◌,
  if◌then◌else◌, arith, contains, All,
}
use system_core_port_test.Processing.{
  DriverMode, parent, external_driver, Success, pending, positive, finished, processing,
  runtime_new, RuntimeState, World, progresses, render_options_default,
}
use system_core_port_test.Processing.Calls.{start_child, modify}
use system_core_port_test.Processing.Tick.{
  drive_children, parental_drive, settle, sweep, own_step, step_in, hook_step, run_hook,
  apply_calls, apply_call, unuse_all, drive_for, start, Reply, Behavior, tree_tick, ticks,
}
use system_core_port_test.Processing.Machine.{Reach, here}
use system_core_port_test.Processing.Refines.{tree_tick-Reach, ticks-Reach}
use system_core_port_test.Processing.Lifecycle.{Inv, Ahead, runtime_new-Inv}
use system_core_port_test.Processing.Progress.{
  AllInv, Settled, Reach-Inv, tree_tick-Inv, tree_tick-Ahead, tree_tick-Stays,
}
use system_core_port_test.Processing.Hierarchy.{Hierarchical, Below, Ranked}
use system_core_port_test.Processing.Total.{ticks_total}
use system_core_port_test.Processing.Returning.{canceled_returns}
use system_core_port_test.Processing.Quitting.{canceled_finishes}
use system_core_port_test.Processing.Drive.{
  drive_until_finished, children_success, application_close, register_all,
}
use system_core_port_test.Processing.Verdict.{
  verdict, used_results, children_success-verdict, drive_until_finished-verdict, close_once,
  close_reverse,
}
use system_core_port_test.Processing.Soft.{Sparing, Spares}
use system_core_port_test.Processing.External.{Holds}
use system_core_port_test.Processing.Blocks.{Act, drives, acts, external_child_blocks}
use system_core_port_test.Text.{Text}
use system_core_port_test.Processing.Render.{process_tree_string}
use system_core_port_test.Processing.Drawing.{Draws, process_tree_string-Draws}

abbrev quiet_reply : ℕ → Success → Reply ℕ
quiet_reply b s = record { behavior = b; calls = []; result = s }

abbrev demo_initialize : DriverMode → ℕ → World ℕ → Reply ℕ
demo_initialize mode zero w = record { behavior = 0; calls = start 1 mode ∷ []; result = positive }
demo_initialize mode (suc n) w = quiet_reply 0 positive

abbrev demo_process : ℕ → World ℕ → Reply ℕ
demo_process zero w = quiet_reply 0 (w.runtime 1).success
demo_process (suc n) w =
    if w.behavior (suc n) == 0 then quiet_reply 1 pending else quiet_reply 1 positive

abbrev demo : DriverMode → Behavior ℕ
demo mode = record {
  initialize = demo_initialize mode;
  process = demo_process;
  shutdown = λ n w. quiet_reply (w.behavior n) positive;
  process_info = λ b. [];
  extra_lines = λ b options. [];
  spawns = λ w n. true;
}

abbrev fresh : World ℕ
fresh = record { runtime = λ n. runtime_new; behavior = λ n. 0 }

abbrev result_or {ℓ} : {A : Type ℓ} → Option A → A → A
result_or none d = d
result_or (some a) d = a

abbrev after_ticks : DriverMode → ℕ → World ℕ
after_ticks mode k = result_or (ticks (demo mode) 3 0 k fresh) fresh

demo_finishes :
    let w = after_ticks parent 20 in
    (progresses (w.runtime 0) ≡ false)
    × ((w.runtime 0).success ≡ positive)
    × ((w.runtime 1).state ≡ finished)
unfolding ticks tree_tick drive_children parental_drive settle sweep own_step step_in hook_step
    run_hook apply_calls apply_call start_child modify unuse_all
demo_finishes = (refl, refl, refl)

-- Between the third and the fourth tick the child is there and both run.
abbrev third : World ℕ
third = after_ticks parent 3

third_runs : ticks (demo parent) 3 0 3 fresh ≡ some third
unfolding ticks tree_tick drive_children parental_drive settle sweep own_step step_in hook_step
    run_hook apply_calls apply_call start_child modify unuse_all
third_runs = refl

third-AllInv : AllInv third
third-AllInv =
    Reach-Inv (ticks-Reach (demo parent) 3 0 3 fresh third third_runs) (λ n. runtime_new-Inv)

abbrev fourth : World ℕ
fourth = result_or (tree_tick (demo parent) 3 0 third) third

fourth_runs : tree_tick (demo parent) 3 0 third ≡ some fourth
unfolding ticks tree_tick drive_children parental_drive settle sweep own_step step_in hook_step
    run_hook apply_calls apply_call start_child modify unuse_all
fourth_runs = refl

third_child : contains 1 (third.runtime 0).children ≡ true
unfolding ticks tree_tick drive_children parental_drive settle sweep own_step step_in hook_step
    run_hook apply_calls apply_call start_child modify unuse_all
third_child = refl

tree_tick-Reach_example : Reach third fourth
tree_tick-Reach_example = tree_tick-Reach (demo parent) 3 0 third fourth fourth_runs

tree_tick-Inv_example : Inv (fourth.runtime 1)
tree_tick-Inv_example = tree_tick-Inv (demo parent) 3 0 third fourth fourth_runs third-AllInv 1

tree_tick-Ahead_example : Ahead (third.runtime 1) (fourth.runtime 1)
tree_tick-Ahead_example = tree_tick-Ahead (demo parent) 3 0 third fourth fourth_runs third-AllInv 1

tree_tick-Stays_example :
    (contains 1 (fourth.runtime 0).children ≡ true) ⊎ Settled (fourth.runtime 1)
tree_tick-Stays_example =
    tree_tick-Stays (demo parent) 3 0 third fourth fourth_runs third-AllInv 0 1 third_child

abbrev demo_depth : ℕ → ℕ
demo_depth zero = 1
demo_depth (suc n) = 0

demo_initialize-Below :
    (mode : DriverMode) (n : ℕ) (w : World ℕ)
    → All (Below demo_depth n) (demo_initialize mode n w).calls
demo_initialize-Below mode zero w = (omega arith, tt)
demo_initialize-Below mode (suc n) w = tt

demo_process-Below : (n : ℕ) (w : World ℕ) → All (Below demo_depth n) (demo_process n w).calls
demo_process-Below zero w = tt
demo_process-Below (suc n) w = ground arith

demo-Hierarchical : (mode : DriverMode) → Hierarchical (demo mode) demo_depth
demo-Hierarchical mode = record {
  of_initialize = demo_initialize-Below mode;
  of_process = demo_process-Below;
  of_shutdown = λ n w. tt;
}

ticks_total_example :
    (v : World ℕ) × (ticks (demo parent) 2 0 30 fresh ≡ some v) × Ranked demo_depth v
ticks_total_example =
    ticks_total (demo parent) demo_depth (demo-Hierarchical parent) 2 0 30 fresh (omega arith)
      (λ n. tt)

-- A canceled child in the middle of its work.
abbrev canceled_child : World ℕ
canceled_child = record {
  runtime = λ n. record runtime_new { state = processing; init_done = true; canceled = true };
  behavior = λ n. 0;
}

canceled_finishes_example :
    (v : World ℕ) × (ticks (demo parent) 1 1 4 canceled_child ≡ some v)
    × (progresses (v.runtime 1) ≡ false)
canceled_finishes_example =
    canceled_finishes (demo parent) 1 (λ w e. cc) (λ w. refl) 0 canceled_child refl refl

children_success-verdict_example :
    children_success 0 third ≡ verdict (used_results third (third.runtime 0).children)
children_success-verdict_example = children_success-verdict 0 third

canceled_child-Inv : Inv (canceled_child.runtime 1)
canceled_child-Inv = ground arith

abbrev alone : ℕ → World ℕ → World ℕ
alone k w = w

abbrev finish : World ℕ × Success
finish =
    result_or (drive_until_finished (demo parent) 1 alone 1 4 2 canceled_child)
      (canceled_child, pending)

finish_runs : drive_until_finished (demo parent) 1 alone 1 4 2 canceled_child ≡ some finish
unfolding drive_until_finished drive_for ticks tree_tick drive_children parental_drive settle sweep
    own_step step_in hook_step run_hook apply_calls apply_call start_child modify unuse_all
finish_runs = refl

drive_until_finished-verdict_example :
    ((finish.0.runtime 1).state ≡ finished)
    × ((finish.0.runtime 1).children ≡ [])
    × (finish.1 ≡ (finish.0.runtime 1).success)
    × ((finish.1 ≢ pending) ⊎ ((finish.0.runtime 1).canceled ≡ true))
drive_until_finished-verdict_example =
    drive_until_finished-verdict (demo parent) 1 alone 1 4 (λ k w. here) 2 canceled_child finish.0
      finish.1 (λ n. canceled_child-Inv) finish_runs

close_once_example :
    let (run, left) = application_close (register_all (7 ∷ 8 ∷ 7 ∷ []) []) in
    Distinct run × ((c : ℕ) → contains c run ≡ contains c (7 ∷ 8 ∷ 7 ∷ [])) × (left ≡ [])
close_once_example = close_once (7 ∷ 8 ∷ 7 ∷ [])

close_reverse_example : (application_close (register_all (7 ∷ 8 ∷ []) [])).0 ≡ reverse (7 ∷ 8 ∷ [])
close_reverse_example = close_reverse (7 ∷ 8 ∷ []) (refl, (refl, tt))

-- The same parent with its child under an external driver.
abbrev waiting : World ℕ
waiting = after_ticks external_driver 3

demo_initialize-Spares :
    (n : ℕ) (w : World ℕ) → All (Spares 1) (demo_initialize external_driver n w).calls
demo_initialize-Spares zero w = (refl, tt)
demo_initialize-Spares (suc n) w = tt

demo_process-Spares : (n : ℕ) (w : World ℕ) → All (Spares 1) (demo_process n w).calls
demo_process-Spares zero w = tt
demo_process-Spares (suc n) w = ground arith

demo-Sparing : Sparing (demo external_driver) 1
demo-Sparing = record {
  of_initialize = demo_initialize-Spares;
  of_process = demo_process-Spares;
  of_shutdown = λ n w. tt;
}

waiting-Holds : Holds 0 1 waiting
unfolding ticks tree_tick drive_children parental_drive settle sweep own_step step_in hook_step
    run_hook apply_calls apply_call start_child modify unuse_all
waiting-Holds = ((refl, refl, refl), refl)

-- The external driver: it ticks the child after each round.
abbrev driver_of_1 : ℕ → List Act
driver_of_1 k = drives 1 4 ∷ []

external_child_blocks_example :
    drive_until_finished
      (demo external_driver)
      3
      (λ k. acts (demo external_driver) 3 (driver_of_1 k))
      0
      4
      1000
      waiting
    ≡ none
external_child_blocks_example =
    external_child_blocks (demo external_driver) 0 1 demo-Sparing 3 4 1000 driver_of_1 waiting
      (λ k. (tt, tt)) waiting-Holds

canceled_returns_example :
    (r : World ℕ × Success) × (drive_until_finished (demo parent) 1 alone 1 4 2 canceled_child
      ≡ some r)
    × (progresses (r.0.runtime 1) ≡ false)
    × (r.1 ≡ (r.0.runtime 1).success)
canceled_returns_example =
    canceled_returns (demo parent) 1 (λ w e. cc) (λ w. refl) 0 0 canceled_child refl refl

-- Process 0 with twelve children, the third of them hidden.
abbrev crowd_runtime : ℕ → RuntimeState
crowd_runtime zero = record runtime_new {
  children = 1 ∷ 2 ∷ 3 ∷ 4 ∷ 5 ∷ 6 ∷ 7 ∷ 8 ∷ 9 ∷ 10 ∷ 11 ∷ 12 ∷ [];
}
crowd_runtime (suc n) = record runtime_new { tree_hidden = n == 2 }

abbrev crowd : World ℕ
crowd = record { runtime = crowd_runtime; behavior = λ n. 0 }

crowd-Ranked : Ranked demo_depth crowd
crowd-Ranked zero = omega arith
crowd-Ranked (suc n) = tt

process_tree_string-Draws_example :
    (t : Text) × (process_tree_string
        (demo parent)
        (λ n. 65 ∷ [])
        (λ n. false)
        render_options_default
        crowd
        2
        0
      ≡ some t)
    × Draws (demo parent) (λ n. 65 ∷ []) (λ n. false) render_options_default crowd (0 ∷ []) t
process_tree_string-Draws_example =
    process_tree_string-Draws (demo parent) (λ n. 65 ∷ []) (λ n. false) render_options_default crowd
      demo_depth 2 0 crowd-Ranked (omega arith)
