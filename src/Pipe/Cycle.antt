-- ===== src/Pipe/Cycle.antt =====
-- src/pipe.rs: a pipe that is its own child.
use system_core_port_test.Prelude.{
  ℕ, zero, suc, ◌<◌, ◌≡◌, inl, inr, refl, ap, ◌∙◌, Bool, true, false, none, some, [], ◌∷◌, length,
  drop, arith, lt→leb, lt→ltb, length-append, length-drop, List-cases,
}
use system_core_port_test.Pipe.{PipeEntry, PipeState, Store, modify, map_state, entries_of}
use system_core_port_test.Pipe.Push.{
  pop_front, push_if_room, broadcast, push_loop, to_push_try, full_at, full_of,
}
use system_core_port_test.Pipe.Changes.{modify-same}

module _ {ℓ} {A : Type ℓ} where
  abbrev turned : PipeEntry A → PipeState A → PipeState A
  turned e p = push_if_room e (pop_front p)

  turned-length :
      (e : PipeEntry A) (p : PipeState A)
      → 0 < length p.entries
      → length p.entries < p.size_max
      → (length (turned e p).entries ≡ length p.entries) × ((turned e p).size_max ≡ p.size_max)
  turned-length e p h k =
      rw (lt→ltb (length (drop 1 p.entries)) p.size_max (omega (arith, length-drop 1 p.entries)))
        (omega (arith, length-append (drop 1 p.entries) (e ∷ []), length-drop 1 p.entries), refl)

  turned-at :
      (e : PipeEntry A) (self : ℕ) (s : Store A) (p : PipeState A)
      → s self ≡ some p
      → broadcast e (self ∷ []) (modify self pop_front s) self ≡ some (turned e p)
  unfolding broadcast
  turned-at e self s p h =
      modify-same self (push_if_room e) (modify self pop_front s)
      ∙ ap (map_state (push_if_room e)) (modify-same self pop_front s ∙ ap (map_state pop_front) h)

  self_push_diverges :
      (fuel self : ℕ) (blocking : Bool) (s : Store A) (pushed : Bool) (p : PipeState A)
      → s self ≡ some p
      → 0 < length p.entries
      → length p.entries < p.size_max
      → push_loop fuel self (self ∷ []) blocking s pushed ≡ none
  unfolding push_loop
  self_push_diverges zero self blocking s pushed p h n r = refl
  self_push_diverges (suc fuel) self blocking s pushed p h n r = elim (List-cases p.entries) [
    | inl q ↦ absurd (omega (arith, ap length q))
    | inr (e, es, q) ↦
        let first : entries_of (s self) ≡ e ∷ es = ap entries_of h ∙ q in
        let room : full_at s self ≡ false = ap full_of h ∙ lt→leb p.size_max (length p.entries) r in
        let (a, b) = turned-length e p n r in
        rw (first, push_loop)
          (rw h (
            rw room (
              self_push_diverges fuel self blocking
                (broadcast e (self ∷ []) (modify self pop_front s)) true (turned e p)
                (turned-at e self s p h) (omega (arith, a)) (omega (arith, a, b)))))
  ]

  -- `to_push_try` on a pipe that is its only child, with an entry and with room, never leaves its loop,
  -- blocking or not: no fuel is enough.
  pub to_push_try_diverges :
      (fuel self : ℕ) (s : Store A) (p : PipeState A)
      → s self ≡ some p
      → p.children ≡ self ∷ []
      → 0 < length p.entries
      → length p.entries < p.size_max
      → to_push_try fuel self s ≡ none
  unfolding to_push_try
  to_push_try_diverges fuel self s p h c n r =
      rw (h, c) (rw (self_push_diverges fuel self p.data_blocking s false p h n r) refl)
