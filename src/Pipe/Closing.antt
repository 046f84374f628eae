-- ===== src/Pipe/Closing.antt =====
-- src/pipe.rs: how `to_push_try` passes the end of the data on.
use system_core_port_test.Prelude.{
  ℕ, suc, ◌≡◌, inl, inr, refl, ◌∙◌, Bool, true, false, ◌&&◌, Option, none, some, List, [], ◌∷◌,
  ◌==◌, if◌then◌else◌, is_empty, contains, arith, retain-contains, Bool-cases, ==_iff, subst,
}
use system_core_port_test.Pipe.{
  PipeEntry, PipeState, Store, is_alive, modify, map_state, children_of, entries_of,
  source_done_set,
}
use system_core_port_test.Pipe.Push.{live_children, push_loop, to_push_try, nothing_left, close_all}
use system_core_port_test.Pipe.Changes.{modify-same}

module _ {ℓ} {A : Type ℓ} where
  closed_twice :
      (o : Option (PipeState A))
      → map_state source_done_set (map_state source_done_set o) ≡ map_state source_done_set o
  closed_twice none = refl
  closed_twice (some s) = refl

  closed_if_alive :
      (o : Option (PipeState A)) (b : Bool)
      → (if is_alive o && b then map_state source_done_set o else o)
        ≡ (if b then map_state source_done_set o else o)
  closed_if_alive none b = ground arith
  closed_if_alive (some s) b = refl

  is_empty-eq : (xs : List (PipeEntry A)) → is_empty xs ≡ true → xs ≡ []
  is_empty-eq [] h = refl
  is_empty-eq (x ∷ xs) h = cc

  nothing_left-entries : (o : Option (PipeState A)) → nothing_left o ≡ true → entries_of o ≡ []
  nothing_left-entries none w = refl
  nothing_left-entries (some s) w = is_empty-eq s.entries (ground arith)

  close_all-at :
      (cs : List ℕ) (s : Store A) (p : ℕ)
      → close_all cs s p ≡ (if contains p cs then map_state source_done_set (s p) else s p)
  unfolding close_all
  close_all-at [] s p = refl
  close_all-at (c ∷ cs) s p =
      close_all-at cs (modify c source_done_set s) p ∙ elim (Bool-cases (c == p)) [
        | inl t ↦
            let m : modify c source_done_set s p ≡ map_state source_done_set (s p) =
              subst (λ p. modify c source_done_set s p ≡ map_state source_done_set (s p))
                ((==_iff c p).0 t) (modify-same c source_done_set s) in
            elim (Bool-cases (contains p cs)) [
              | inl k ↦ rw (k, t, m) (closed_twice (s p))
              | inr k ↦ rw (k, t, m) refl
            ]
        | inr t ↦ let q : (p == c) ≡ false = ground arith in rw (q, t) refl
      ]

  -- A pipe that is empty and whose source is done when `to_push_try` starts gives nothing, and closes
  -- every child that is alive, and no other pipe.
  pub to_push_try-closes :
      (fuel self : ℕ) (s : Store A)
      → nothing_left (s self) ≡ true
      → (t : Store A) × (to_push_try (suc fuel) self s ≡ some (t, false))
        × ((p : ℕ)
            → t p ≡ (
                if contains p (children_of (s self)) then map_state source_done_set (s p) else s p))
  unfolding to_push_try push_loop
  to_push_try-closes fuel self s w =
      let children = children_of (s self) in
      let live = live_children s children in
      (
        close_all live s,
        rw (nothing_left-entries (s self) w, push_loop, w) refl,
        λ p.
            close_all-at live s p
            ∙ rw (retain-contains (λ c. is_alive (s c)) p children)
                (closed_if_alive (s p) (contains p children)),
      )
