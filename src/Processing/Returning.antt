-- ===== src/Processing/Returning.antt =====
-- src/processing.rs: `drive_until_finished` at a canceled process.
use system_core_port_test.Prelude.{
  ℕ, suc, ◌≡◌, ◌≢◌, inl, inr, refl, true, false, some, [], Bool-cases,
}
use system_core_port_test.Processing.{pending, Success, World, progresses}
use system_core_port_test.Processing.Tick.{Behavior, drive_for}
use system_core_port_test.Processing.Quitting.{canceled_finishes}
use system_core_port_test.Processing.Drive.{drive_until_finished}

-- `drive_until_finished` with bursts of four returns at a canceled process without children, whose
-- shutdown hook neither stays pending nor makes calls, and with which no other thread meddles: two looks
-- at its progress are enough, it has nothing left to do then, and its verdict is the result.
pub canceled_returns :
    {B : Type 0} (env : Behavior B) (n : ℕ)
    → ((w : World B) → (env.shutdown n w).result ≢ pending)
    → ((w : World B) → (env.shutdown n w).calls ≡ [])
    → (fuel rounds : ℕ) (w : World B) → (w.runtime n).canceled ≡ true
    → (w.runtime n).children ≡ []
    → (r : World B × Success) × (drive_until_finished env
          (suc fuel)
          (λ k v. v)
          n
          4
          (suc (suc rounds))
          w
        ≡ some r)
      × (progresses (r.0.runtime n) ≡ false)
      × (r.1 ≡ (r.0.runtime n).success)
unfolding drive_until_finished drive_for
canceled_returns env n prompt silent fuel rounds w c l =
    elim (Bool-cases (progresses (w.runtime n))) [
      | inl e ↦
          let (v, q, p) = canceled_finishes env n prompt silent fuel w c l in
          ((v, (v.runtime n).success), rw e (rw q (rw p refl)), p, refl)
      | inr e ↦ ((w, (w.runtime n).success), rw e refl, e, refl)
    ]
