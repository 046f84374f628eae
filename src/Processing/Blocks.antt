-- ===== src/Processing/Blocks.antt =====
-- src/processing.rs: a child under an external driver, and the driver of its parent.
use system_core_port_test.Prelude.{
  ℕ, zero, suc, ◌≡◌, refl, sym, subst, Bool, true, false, not, ◌&&◌, Option, none, some, List, [],
  ◌∷◌, ◌==◌, inl, inr, arith, contains, max, All, Bool-cases, ==_iff,
}
use system_core_port_test.Processing.{RuntimeState, World, is_parent, progresses, can_be_removed}
use system_core_port_test.Processing.Calls.{modify, mark_undriven, without_child, join_worker}
use system_core_port_test.Processing.Tick.{
  Call, Behavior, apply_call, own_step, settle, parental_drive, sweep, drive_children, tree_tick,
  ticks, drive_for,
}
use system_core_port_test.Processing.Progress.{contains-retain}
use system_core_port_test.Processing.Drive.{drive_until_finished}
use system_core_port_test.Processing.Soft.{External, Spares, Sparing}
use system_core_port_test.Processing.External.{
  Holds, Keeps, >>=-Keeps, modify-Holds, Soft-Holds, >>=-none, step_in-Keeps, apply_call-Keeps,
}

-- What another thread does: it ticks a process so many times, or makes a call as the hook of a process.
pub data Act : Type 0 where
  drives : ℕ → ℕ → Act
  calls : ℕ → Call → Act

abbrev pub SparesAct : ℕ → Act → Type 0
SparesAct c (drives m k) = Unit
SparesAct c (calls m call) = Spares c call

-- A round that does not return is no change that the others see at its end.
abbrev or_stays : {B : Type 0} → Option (World B) → World B → World B
or_stays none w = w
or_stays (some v) w = v

abbrev act : {B : Type 0} → Behavior B → ℕ → Act → World B → World B
act env fuel (drives m k) w = or_stays (ticks env fuel m k w) w
act env fuel (calls m call) w = or_stays (apply_call env m call w) w

abbrev pub acts : {B : Type 0} → Behavior B → ℕ → List Act → World B → World B
acts env fuel [] w = w
acts env fuel (a ∷ as') w = acts env fuel as' (act env fuel a w)

module _ {B : Type 0} (env : Behavior B) (n c : ℕ) (sparing : Sparing env c) where
  -- The parent neither drives the child nor removes it.
  elsewhere :
      (test : RuntimeState → Bool) (d : ℕ) (w : World B)
      → ((r : RuntimeState) → External r → test r ≡ false)
      → Holds n c w
      → test (w.runtime d) ≡ true
      → (c == d) ≡ false
  elsewhere test d w never h t = elim (Bool-cases (c == d)) [
    | inl q ↦
        let e : test (w.runtime c) ≡ true =
          subst (λ x. test (w.runtime x) ≡ true) (sym ((==_iff c d).0 q)) t in
        cc (e, never (w.runtime c) h.0)
    | inr q ↦ q
  ]

  settle-Holds : (d : ℕ) (w : World B) → (c == d) ≡ false → Holds n c w → Holds n c (settle env d w)
  unfolding settle
  settle-Holds d w e h = elim (Bool-cases (progresses (w.runtime d))) [
    | inl t ↦ rw t h
    | inr t ↦
        rw t (modify-Holds n c mark_undriven d w (λ q. cc (e, (==_iff c d).1 (sym q))) (λ x. x) h)
  ]

  sweep-Holds : (self d : ℕ) (w : World B) → Holds n c w → Holds n c (sweep env self d w)
  unfolding sweep
  sweep-Holds self d w h = elim (Bool-cases (can_be_removed (w.runtime d))) [
    | inl t ↦
        let e : (c == d) ≡ false = elsewhere can_be_removed d w (λ r x. rw x.2) h t in
        rw t (
          Soft-Holds n c join_worker d (modify (without_child d) self w) (λ x. x, λ x. x)
            (Soft-Holds n c (without_child d) self w
              (λ x. x, λ x. contains-retain c d (w.runtime self).children e x) h))
    | inr t ↦ rw t h
  ]

  abbrev Careful : (ℕ → World B → Option (World B)) → Type 0
  Careful tick = (m : ℕ) (w : World B) → Holds n c w → Keeps n c (tick m w)

  parental_drive-Keeps :
      (tick : ℕ → World B → Option (World B))
      → Careful tick
      → (d : ℕ) (w : World B) → Holds n c w
      → Keeps n c (parental_drive env tick d w)
  unfolding parental_drive
  parental_drive-Keeps tick careful d w h =
      let test = λ (r : RuntimeState). is_parent r.driver_mode && not r.undriven in
      elim (Bool-cases (test (w.runtime d))) [
        | inl t ↦
            let e : (c == d) ≡ false = elsewhere test d w (λ r x. rw (x.1)) h t in
            rw t (>>=-Keeps n c (tick d w) _ (careful d w h) (λ v k. settle-Holds d v e k))
        | inr t ↦ rw t h
      ]

  drive_children-Keeps :
      (tick : ℕ → World B → Option (World B))
      → Careful tick
      → (self : ℕ) (cs : List ℕ) (w : World B) → Holds n c w
      → Keeps n c (drive_children env tick self cs w)
  unfolding drive_children
  drive_children-Keeps tick careful self [] w h = h
  drive_children-Keeps tick careful self (d ∷ cs) w h =
      >>=-Keeps n c (parental_drive env tick d w) _ (parental_drive-Keeps tick careful d w h)
        (λ v k. drive_children-Keeps tick careful self cs _ (sweep-Holds self d v k))

  tree_tick-Keeps :
      (fuel self : ℕ) (w : World B) → Holds n c w → Keeps n c (tree_tick env fuel self w)
  unfolding tree_tick own_step
  tree_tick-Keeps zero self w h = tt
  tree_tick-Keeps (suc fuel) self w h =
      >>=-Keeps n c (drive_children env (tree_tick env fuel) self (w.runtime self).children w) _
        (drive_children-Keeps (tree_tick env fuel) (tree_tick-Keeps fuel) self _ w h)
        (λ v k. step_in-Keeps env n c sparing (v.runtime self).state self v k)

  ticks-Keeps : (fuel self k : ℕ) (w : World B) → Holds n c w → Keeps n c (ticks env fuel self k w)
  unfolding ticks
  ticks-Keeps fuel self zero w h = h
  ticks-Keeps fuel self (suc k) w h =
      >>=-Keeps n c (tree_tick env fuel self w) _ (tree_tick-Keeps fuel self w h)
        (λ v q. ticks-Keeps fuel self k v q)

  busy : (r : RuntimeState) → contains c r.children ≡ true → progresses r ≡ true
  busy r h = ground arith

  or_stays-Holds :
      (o : Option (World B)) (w : World B) → Holds n c w → Keeps n c o → Holds n c (or_stays o w)
  or_stays-Holds none w h k = h
  or_stays-Holds (some v) w h k = k

  -- Any round of another thread keeps the child, whether it returns or not.
  act-Holds :
      (fuel : ℕ) (a : Act) (w : World B)
      → SparesAct c a
      → Holds n c w
      → Holds n c (act env fuel a w)
  act-Holds fuel (drives m k) w s h =
      or_stays-Holds (ticks env fuel m k w) w h (ticks-Keeps fuel m k w h)
  act-Holds fuel (calls m call) w s h =
      or_stays-Holds (apply_call env m call w) w h (apply_call-Keeps env n c sparing m call w s h)

  acts-Holds :
      (fuel : ℕ) (as' : List Act) (w : World B)
      → All (SparesAct c) as'
      → Holds n c w
      → Holds n c (acts env fuel as' w)
  acts-Holds fuel [] w s h = h
  acts-Holds fuel (a ∷ as') w s h =
      acts-Holds fuel as' (act env fuel a w) s.1 (act-Holds fuel a w s.0 h)

  -- With a child under an external driver, for which nobody asks a thread, `drive_until_finished` at its
  -- parent does not return: not after any number of rounds, whatever the child does, and however often
  -- other threads tick any processes, the child among them, or make calls for them while it sleeps.
  pub external_child_blocks :
      (fuel burst rounds : ℕ) (meanwhile : ℕ → List Act) (w : World B)
      → ((k : ℕ) → All (SparesAct c) (meanwhile k))
      → Holds n c w
      → drive_until_finished env fuel (λ k. acts env fuel (meanwhile k)) n burst rounds w ≡ none
  unfolding drive_until_finished drive_for
  external_child_blocks fuel burst zero meanwhile w s h = refl
  external_child_blocks fuel burst (suc rounds) meanwhile w s h = rw (busy (w.runtime n) h.1) (
      >>=-none n c (ticks env fuel n (max (max burst 1) 1) w) _
        (ticks-Keeps fuel n (max (max burst 1) 1) w h)
        (λ v k.
          external_child_blocks fuel burst rounds meanwhile (acts env fuel (meanwhile rounds) v) s
            (acts-Holds fuel (meanwhile rounds) v (s rounds) k)))
