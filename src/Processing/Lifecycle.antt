-- ===== src/Processing/Lifecycle.antt =====
-- src/processing.rs: the invariant of one process, `Inv`, and its order in time, `Ahead`, under each
-- move of the machine.
use system_core_port_test.Prelude.{ℕ, ap, ◌≤◌, ◌≡◌, ◌≢◌, ◌⊎◌, true, false, [], arith}
use system_core_port_test.Processing.{
  pending, AbstractState, existent, initializing, processing, down_shutting, children_unused_set,
  finished_prepare, finished, RuntimeState, runtime_new,
}
use system_core_port_test.Processing.Calls.{with_child, without_child}
use system_core_port_test.Processing.Machine.{
  Move, stay, started, spawned, not_spawned, joined, canceled, unused, forgotten, displayed, cached,
  boot, skip, abort_initialize, abort_process, initialized, failed, processed, shut, released, done,
  done_unused, undriven, is_active,
}

-- How far along its life a process is.
abbrev pub rank : AbstractState → ℕ
rank existent = 0
rank initializing = 1
rank processing = 2
rank down_shutting = 3
rank children_unused_set = 4
rank finished_prepare = 5
rank finished = 6

pub record Inv (r : RuntimeState) : Type 0 where
  pub undriven_settled : r.undriven ≡ true → (r.state ≡ finished) × (r.children ≡ [])
  pub early_pending : rank r.state ≤ 2 → r.success ≡ pending
  pub late_verdict : 3 ≤ rank r.state → (r.success ≢ pending) ⊎ (r.canceled ≡ true)
  pub init_late : r.init_done ≡ true → 2 ≤ rank r.state
  pub process_late :
      r.process_done ≡ true → (3 ≤ rank r.state) × (r.init_done ≡ true) × (r.success ≢ pending)
  pub processing_init : r.state ≡ processing → r.init_done ≡ true
  pub shutdown_late : r.shutdown_done ≡ true → 4 ≤ rank r.state
  pub late_shutdown :
      4 ≤ rank r.state
      → (r.shutdown_done ≡ true)
        ⊎ ((r.init_done ≡ false) × (r.canceled ≡ true) × (5 ≤ rank r.state))
  pub unused_canceled : r.unused ≡ true → r.canceled ≡ true

pub runtime_new-Inv : Inv runtime_new
runtime_new-Inv = ground arith

pub Move-Inv : (r s : RuntimeState) → Move r s → Inv r → Inv s
Move-Inv r s stay h = h
Move-Inv r s (started e t d m) h = ground arith
Move-Inv r s (spawned e) h = ground arith
Move-Inv r s not_spawned h = ground arith
Move-Inv r s joined h = ground arith
Move-Inv r s canceled h = ground arith
Move-Inv r s unused h = ground arith
Move-Inv r s forgotten h = ground arith
Move-Inv r s (displayed display) h = ground arith
Move-Inv r s (cached info extra) h = ground arith
Move-Inv r s (boot e c) h = ground arith
Move-Inv r s (skip e c) h = ground arith
Move-Inv r s (abort_initialize e c) h = ground arith
Move-Inv r s (abort_process e c) h = ground arith
Move-Inv r s (initialized e) h = ground arith
Move-Inv r s (failed e code) h = ground arith
Move-Inv r s (processed e x n) h = ground arith
Move-Inv r s (shut e) h = ground arith
Move-Inv r s (released e) h = ground arith
Move-Inv r s (done e f) h = ground arith
Move-Inv r s (done_unused e f) h = ground arith
Move-Inv r s (undriven e) h = ground arith

pub with_child-Inv :
    (r : RuntimeState) (c : ℕ) → is_active r.state ≡ true → Inv r → Inv (with_child c r)
with_child-Inv r c a h = ground arith

pub without_child-Inv : (r : RuntimeState) (c : ℕ) → Inv r → Inv (without_child c r)
without_child-Inv r c h = ground arith

-- What never goes back: the place in the life, a verdict, a cancellation, the marks of what was
-- done, and the emptiness of a finished process.
pub record Ahead (r s : RuntimeState) : Type 0 where
  pub rank_le : rank r.state ≤ rank s.state
  pub success_kept : r.success ≢ pending → s.success ≡ r.success
  pub canceled_kept : r.canceled ≡ true → s.canceled ≡ true
  pub unused_kept : r.unused ≡ true → s.unused ≡ true
  pub init_kept : r.init_done ≡ true → s.init_done ≡ true
  pub process_kept : r.process_done ≡ true → s.process_done ≡ true
  pub shutdown_kept : r.shutdown_done ≡ true → s.shutdown_done ≡ true
  pub settled_kept : r.state ≡ finished → r.children ≡ [] → s.children ≡ []

pub Ahead-refl : (r : RuntimeState) → Ahead r r
Ahead-refl r = ground arith

pub finished_of_rank : (s : AbstractState) → 6 ≤ rank s → s ≡ finished
finished_of_rank s h = ground arith

pub Ahead-trans : (r s t : RuntimeState) → Ahead r s → Ahead s t → Ahead r t
Ahead-trans r s t h k = record {
  rank_le = omega (arith, h.rank_le, k.rank_le);
  success_kept = λ p. ground (arith, h.success_kept p, k.success_kept);
  canceled_kept = λ p. k.canceled_kept (h.canceled_kept p);
  unused_kept = λ p. k.unused_kept (h.unused_kept p);
  init_kept = λ p. k.init_kept (h.init_kept p);
  process_kept = λ p. k.process_kept (h.process_kept p);
  shutdown_kept = λ p. k.shutdown_kept (h.shutdown_kept p);
  settled_kept = λ p q.
      k.settled_kept (finished_of_rank s.state (omega (arith, h.rank_le, ap rank p)))
        (h.settled_kept p q);
}

pub Move-Ahead : (r s : RuntimeState) → Move r s → Inv r → Ahead r s
Move-Ahead r s stay h = Ahead-refl r
Move-Ahead r s (started e t d m) h = ground arith
Move-Ahead r s (spawned e) h = ground arith
Move-Ahead r s not_spawned h = ground arith
Move-Ahead r s joined h = ground arith
Move-Ahead r s canceled h = ground arith
Move-Ahead r s unused h = ground arith
Move-Ahead r s forgotten h = ground arith
Move-Ahead r s (displayed display) h = ground arith
Move-Ahead r s (cached info extra) h = ground arith
Move-Ahead r s (boot e c) h = ground arith
Move-Ahead r s (skip e c) h = ground arith
Move-Ahead r s (abort_initialize e c) h = ground arith
Move-Ahead r s (abort_process e c) h = ground arith
Move-Ahead r s (initialized e) h = ground arith
Move-Ahead r s (failed e code) h = ground (arith, h.early_pending)
Move-Ahead r s (processed e x n) h = ground (arith, h.early_pending)
Move-Ahead r s (shut e) h = ground arith
Move-Ahead r s (released e) h = ground arith
Move-Ahead r s (done e f) h = ground arith
Move-Ahead r s (done_unused e f) h = ground arith
Move-Ahead r s (undriven e) h = ground arith

pub with_child-Ahead :
    (r : RuntimeState) (c : ℕ) → is_active r.state ≡ true → Ahead r (with_child c r)
with_child-Ahead r c a = ground arith

pub without_child-Ahead : (r : RuntimeState) (c : ℕ) → Ahead r (without_child c r)
without_child-Ahead r c = ground arith
