-- ===== src/Pipe/Broadcast.antt =====
-- src/pipe.rs: what `to_push_try` delivers.
use system_core_port_test.Prelude.{
  ℕ, zero, suc, ◌≤◌, ◌<◌, ◌≡◌, ◌⊎◌, inl, inr, refl, ap, ◌∙◌, Bool, true, false, ◌||◌, Option, some,
  List, [], ltb, is_empty, length, drop, any, contains, arith, Distinct, List-cases, Bool-cases,
  max, length-drop,
}
use system_core_port_test.Pipe.{Store, modify, children_of, entries_of}
use system_core_port_test.Pipe.Push.{
  pop_front, broadcast, full_at, live_children, push_loop, to_push_try, blocking_of, nothing_left,
}
use system_core_port_test.Pipe.Changes.{drop_entries, entries_of-map}
use system_core_port_test.Pipe.Delivered.{Delivered, Delivered-none, Delivered-next, Delivered-one}

module _ {ℓ} {A : Type ℓ} where
  -- Why the loop of a blocking pipe ends: nothing is left, nobody is left, or a living child is full.
  abbrev pub Stops : ℕ → List ℕ → Store A → Type ℓ
  Stops self children t =
      (entries_of (t self) ≡ [])
      ⊎ ((is_empty (live_children t children) ≡ true)
          ⊎ (any (full_at t) (live_children t children) ≡ true))

  pub record Outcome (self : ℕ) (children : List ℕ) (s : Store A) (pushed : Bool)
      (r : Store A × Bool) : Type ℓ where
    pub count : ℕ
    pub delivered : Delivered self children count s r.0
    pub count_le : count ≤ length (entries_of (s self))
    pub reports : r.1 ≡ (pushed || ltb 0 count)
    pub stops : Stops self children r.0

  abbrev Yields : ℕ → List ℕ → Store A → Bool → Option (Store A × Bool) → Type ℓ
  Yields self children s pushed o =
      (r : Store A × Bool) × (o ≡ some r) × Outcome self children s pushed r

  stopped :
      (self : ℕ) (children : List ℕ) (s : Store A) (pushed : Bool)
      → Stops self children s
      → Outcome self children s pushed (s, pushed)
  stopped self children s pushed h = record {
    count = 0;
    delivered = Delivered-none self children s;
    count_le = omega arith;
    reports = ground arith;
    stops = h;
  }

  left_entries :
      (self : ℕ) (children : List ℕ) (s u : Store A)
      → Delivered self children 1 s u
      → suc (length (entries_of (u self))) ≤ max 1 (length (entries_of (s self)))
  left_entries self children s u d =
      let q =
        ap entries_of d.self_is
        ∙ entries_of-map (drop_entries 1) (drop 1) (λ s. refl) refl (s self) in
      rw q (omega (arith, length-drop 1 (entries_of (s self))))

  continued :
      (self : ℕ) (children : List ℕ) (s u : Store A) (pushed : Bool) (r : Store A × Bool)
      → 0 < length (entries_of (s self))
      → Delivered self children 1 s u
      → Outcome self children u true r
      → Outcome self children s pushed r
  continued self children s u pushed r h d o = record {
    count = suc o.count;
    delivered = Delivered-next self children o.count s u r.0 d o.delivered;
    count_le = omega (arith, o.count_le, left_entries self children s u d);
    reports = o.reports ∙ ground arith;
    stops = o.stops;
  }

  push_loop-Yields :
      (self : ℕ) (children : List ℕ)
      → Distinct children
      → contains self children ≡ false
      → (fuel : ℕ) (s : Store A) (pushed : Bool) → length (entries_of (s self)) < fuel
      → Yields self children s pushed (push_loop fuel self children true s pushed)
  unfolding push_loop
  push_loop-Yields self children d n zero s pushed l = absurd (omega arith)
  push_loop-Yields self children d n (suc fuel) s pushed l =
      elim (List-cases (entries_of (s self))) [
        | inl h ↦ ((s, pushed), rw (h, push_loop) refl, stopped self children s pushed (inl h))
        | inr (e, es, h) ↦
            let live = live_children s children in
            elim (Bool-cases (is_empty live)) [
              | inl a ↦ (
                (s, pushed),
                rw (h, push_loop) (rw a refl),
                stopped self children s pushed (inr (inl a)),
              )
              | inr a ↦ elim (Bool-cases (any (full_at s) live)) [
                | inl b ↦ (
                  (s, pushed),
                  rw (h, push_loop) (rw (a, b) refl),
                  stopped self children s pushed (inr (inr b)),
                )
                | inr b ↦
                    let u = broadcast e live (modify self pop_front s) in
                    let one = Delivered-one self children s e es d n h b in
                    let some_left : 0 < length (entries_of (s self)) = rw h (omega arith) in
                    let (r, q, o) =
                      push_loop-Yields self children d n fuel u true
                        (omega (arith, left_entries self children s u one)) in
                    (
                      r,
                      rw (h, push_loop) (rw (a, b) q),
                      continued self children s u pushed r some_left one o,
                    )
              ]
            ]
      ]

  -- A blocking pipe with distinct children, itself not among them, that still has something to give:
  -- with fuel for its entries, `to_push_try` returns; for some `k`, its first `k` entries have left it
  -- and stand, in their order, at the end of every child that is alive, and no other pipe changed; it
  -- says whether `k` is positive; and it stopped because no entry was left, or no child is alive, or a
  -- living child is full.
  pub to_push_try-delivers :
      (fuel self : ℕ) (s : Store A)
      → Distinct (children_of (s self))
      → contains self (children_of (s self)) ≡ false
      → blocking_of (s self) ≡ true
      → nothing_left (s self) ≡ false
      → length (entries_of (s self)) < fuel
      → (r : Store A × Bool) × (to_push_try fuel self s ≡ some r)
        × Outcome self (children_of (s self)) s false r
  unfolding to_push_try
  to_push_try-delivers fuel self s d n b w l =
      let (r, e, o) = push_loop-Yields self (children_of (s self)) d n fuel s false l in
      (r, rw (b, e, w) refl, o)
