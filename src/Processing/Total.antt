-- ===== src/Processing/Total.antt =====
-- src/processing.rs: how much fuel `tree_tick` needs where the processes stand in a hierarchy.
use system_core_port_test.Prelude.{
  ℕ, zero, suc, ◌<◌, ◌≡◌, refl, Bool, true, false, not, ◌&&◌, Option, some, List, [], ◌∷◌, ◌==◌,
  if◌then◌else◌, inl, inr, arith, All, All-map, All-retain, Bool-cases,
}
use system_core_port_test.Processing.{
  AbstractState, existent, initializing, processing, down_shutting, children_unused_set,
  finished_prepare, finished, World, is_parent, progresses, can_be_removed,
}
use system_core_port_test.Processing.Calls.{modify, mark_undriven, without_child, join_worker}
use system_core_port_test.Processing.Tick.{
  Behavior, set_state, after_existent, after_initialize, after_process, after_shutdown,
  after_finished_prepare, unuse_all, step_in, own_step, settle, parental_drive, sweep,
  drive_children, tree_tick, ticks,
}
use system_core_port_test.Processing.Hierarchy.{
  Hierarchical, Ranked, Gives, >>=-Gives, modify-Ranked, some-Gives, hook_step-Gives,
  unuse_all-Ranked,
}

module _ {B : Type 0} (env : Behavior B) (depth : ℕ → ℕ) (hier : Hierarchical env depth) where
  either-Gives :
      (b : Bool) (x y : Option (World B))
      → Gives depth x
      → Gives depth y
      → Gives depth (if b then x else y)
  either-Gives true x y g h = g
  either-Gives false x y g h = h

  step_in-Gives :
      (s : AbstractState) (self : ℕ) (w : World B)
      → Ranked depth w
      → Gives depth (step_in env s self w)
  unfolding step_in
  step_in-Gives existent self w r = some-Gives depth after_existent self w (ground arith) r
  step_in-Gives initializing self w r =
      either-Gives (w.runtime self).canceled _ _
        (some-Gives depth (set_state down_shutting) self w refl r)
        (hook_step-Gives env depth hier self (env.initialize self w) after_initialize w
          (λ q. ground arith) (hier.of_initialize self w) r)
  step_in-Gives processing self w r =
      either-Gives (w.runtime self).canceled _ _
        (some-Gives depth (set_state down_shutting) self w refl r)
        (hook_step-Gives env depth hier self (env.process self w) after_process w
          (λ q. ground arith) (hier.of_process self w) r)
  step_in-Gives down_shutting self w r =
      hook_step-Gives env depth hier self (env.shutdown self w) after_shutdown w (λ q. ground arith)
        (hier.of_shutdown self w) r
  step_in-Gives children_unused_set self w r =
      let u = unuse_all env (w.runtime self).children w in
      some-Gives depth (set_state finished_prepare) self u refl
        (unuse_all-Ranked env depth hier (w.runtime self).children w r)
  step_in-Gives finished_prepare self w r =
      some-Gives depth after_finished_prepare self w (ground arith) r
  step_in-Gives finished self w r = (w, refl, r)

  settle-Ranked : (child : ℕ) (w : World B) → Ranked depth w → Ranked depth (settle env child w)
  unfolding settle
  settle-Ranked child w r = elim (Bool-cases (progresses (w.runtime child))) [
    | inl e ↦ rw e r
    | inr e ↦ rw e (modify-Ranked depth mark_undriven child w (r child) r)
  ]

  sweep-Ranked :
      (self child : ℕ) (w : World B) → Ranked depth w → Ranked depth (sweep env self child w)
  unfolding sweep
  sweep-Ranked self child w r = elim (Bool-cases (can_be_removed (w.runtime child))) [
    | inl e ↦
        let f = without_child child in
        let q : Ranked depth (modify f self w) =
          modify-Ranked depth f self w
            (All-retain (λ c. depth c < depth self) (λ n. not (n == child))
              (w.runtime self).children (r self))
            r in
        rw e (modify-Ranked depth join_worker child (modify f self w) (q child) q)
    | inr e ↦ rw e r
  ]

  -- The recursive call serves every node below the bound.
  abbrev Serves : ℕ → (ℕ → World B → Option (World B)) → Type 0
  Serves bound tick =
      (n : ℕ) (w : World B) → depth n < bound → Ranked depth w → Gives depth (tick n w)

  parental_drive-Gives :
      (bound : ℕ) (tick : ℕ → World B → Option (World B))
      → Serves bound tick
      → (child : ℕ) (w : World B) → depth child < bound
      → Ranked depth w
      → Gives depth (parental_drive env tick child w)
  unfolding parental_drive
  parental_drive-Gives bound tick serves child w d r =
      either-Gives (is_parent (w.runtime child).driver_mode && not (w.runtime child).undriven) _ _
        (>>=-Gives depth (tick child w) _ (serves child w d r)
          (λ v q. (settle env child v, refl, settle-Ranked child v q)))
        (w, refl, r)

  drive_children-Gives :
      (bound : ℕ) (tick : ℕ → World B → Option (World B))
      → Serves bound tick
      → (self : ℕ) (cs : List ℕ) (w : World B) → All (λ c. depth c < bound) cs
      → Ranked depth w
      → Gives depth (drive_children env tick self cs w)
  unfolding drive_children
  drive_children-Gives bound tick serves self [] w d r = (w, refl, r)
  drive_children-Gives bound tick serves self (c ∷ cs) w d r =
      >>=-Gives depth (parental_drive env tick c w) _
        (parental_drive-Gives bound tick serves c w d.0 r)
        (λ v q.
          drive_children-Gives bound tick serves self cs (sweep env self c v) d.1
            (sweep-Ranked self c v q))

  tree_tick-Gives :
      (fuel self : ℕ) (w : World B)
      → depth self < fuel
      → Ranked depth w
      → Gives depth (tree_tick env fuel self w)
  unfolding tree_tick own_step
  tree_tick-Gives zero self w d r = absurd (omega arith)
  tree_tick-Gives (suc fuel) self w d r =
      >>=-Gives depth (drive_children env (tree_tick env fuel) self (w.runtime self).children w) _
        (drive_children-Gives fuel (tree_tick env fuel) (tree_tick-Gives fuel) self
          (w.runtime self).children w
          (All-map (λ c (h : depth c < depth self). omega arith) (w.runtime self).children (r self))
          r)
        (λ v q. step_in-Gives (v.runtime self).state self v q)

  -- Every tick returns, and so does every burst: in a hierarchy a node of depth `d` needs fuel
  -- `d + 1`, and what it leaves is a hierarchy again.
  pub ticks_total :
      (fuel self n : ℕ) (w : World B)
      → depth self < fuel
      → Ranked depth w
      → (v : World B) × (ticks env fuel self n w ≡ some v) × Ranked depth v
  unfolding ticks
  ticks_total fuel self zero w d r = (w, refl, r)
  ticks_total fuel self (suc n) w d r =
      >>=-Gives depth (tree_tick env fuel self w) (ticks env fuel self n)
        (tree_tick-Gives fuel self w d r) (λ v q. ticks_total fuel self n v d q)
