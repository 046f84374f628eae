-- ===== src/Pipe/Delivered.antt =====
-- src/pipe.rs: entries that went from a pipe to its children, and one round of the loop of
-- `to_push_try`.
use system_core_port_test.Prelude.{
  ℕ, suc, ◌≡◌, inl, inr, refl, sym, ap, ◌∙◌, true, false, ◌&&◌, Option, none, some, List, [], ◌∷◌,
  ◌++◌, ◌==◌, if◌then◌else◌, length, take, drop, any, contains, arith, Distinct, retain-contains,
  retain-Distinct, Bool-cases, ==_iff, leb→lt, lt→ltb,
}
use system_core_port_test.Pipe.{
  PipeEntry, PipeState, Store, is_alive, modify, map_state, entries_of,
}
use system_core_port_test.Pipe.Push.{
  pop_front, push_if_room, broadcast, full_at, live_children, full_of,
}
use system_core_port_test.Pipe.Changes.{
  modify-same, modify-other, broadcast-at, drop_entries, append_entries, entries_of-map, take-suc,
  map_state-drop, map_state-append, map_state-nothing, map_state-all,
}

module _ {ℓ} {A : Type ℓ} where
  -- `k` entries went from the pipe to every child that is alive.
  pub record Delivered (self : ℕ) (children : List ℕ) (k : ℕ) (s t : Store A) : Type ℓ where
    pub self_is : t self ≡ map_state (drop_entries k) (s self)
    pub child_is :
        (p : ℕ)
        → contains p children ≡ true
        → t p ≡ map_state (append_entries (take k (entries_of (s self)))) (s p)
    pub other_is : (p : ℕ) → contains p children ≡ false → (p == self) ≡ false → t p ≡ s p

  pub none_full :
      (s : Store A) (cs : List ℕ) (p : ℕ)
      → any (full_at s) cs ≡ false
      → contains p cs ≡ true
      → full_at s p ≡ false
  none_full s [] p h k = cc
  none_full s (c ∷ cs) p h k = elim (Bool-cases (c == p)) [
    | inl e ↦ let q : full_at s c ≡ full_at s p = ap (full_at s) ((==_iff c p).0 e) in ground arith
    | inr e ↦ ground (arith, none_full s cs p)
  ]

  pub Delivered-none : (self : ℕ) (children : List ℕ) (s : Store A) → Delivered self children 0 s s
  Delivered-none self children s = record {
    self_is = map_state-all (s self);
    child_is = λ p h. map_state-nothing (s p);
    other_is = λ p h k. refl;
  }

  pub Delivered-next :
      (self : ℕ) (children : List ℕ) (k : ℕ) (s u t : Store A)
      → Delivered self children 1 s u
      → Delivered self children k u t
      → Delivered self children (suc k) s t
  Delivered-next self children k s u t d e = record {
    self_is = e.self_is ∙ ap (map_state (drop_entries k)) d.self_is ∙ map_state-drop k (s self);
    child_is = λ p h.
        e.child_is p h
        ∙ ap (map_state (append_entries (take k (entries_of (u self))))) (d.child_is p h)
        ∙ map_state-append (take 1 (entries_of (s self))) (take k (entries_of (u self))) (s p)
        ∙ ap (λ es. map_state (append_entries es) (s p))
            (ap (λ o. take 1 (entries_of (s self)) ++ take k (entries_of o)) d.self_is
              ∙ ap (λ es. take 1 (entries_of (s self)) ++ take k es)
                  (entries_of-map (drop_entries 1) (drop 1) (λ s. refl) refl (s self))
              ∙ take-suc k (entries_of (s self)));
    other_is = λ p h n. e.other_is p h n ∙ d.other_is p h n;
  }

  pub pushed_to :
      (e : PipeEntry A) (o : Option (PipeState A))
      → full_of o ≡ false
      → map_state (push_if_room e) o ≡ map_state (append_entries (e ∷ [])) o
  pushed_to e none f = refl
  pushed_to e (some s) f =
      rw (lt→ltb (length s.entries) s.size_max (leb→lt s.size_max (length s.entries) f))

  -- One round of the loop, where no living child is full.
  module _ (self : ℕ) (children : List ℕ) (s : Store A) (e : PipeEntry A) (es : List (PipeEntry A))
      (d : Distinct children) (n : contains self children ≡ false)
      (h : entries_of (s self) ≡ e ∷ es)
      (f : any (full_at s) (live_children s children) ≡ false) where
    abbrev live : List ℕ
    live = live_children s children

    live-contains : (p : ℕ) → contains p live ≡ (is_alive (s p) && contains p children)
    live-contains p = retain-contains (λ c. is_alive (s c)) p children

    round-at :
        (p : ℕ)
        → broadcast e live (modify self pop_front s) p ≡ (
            if contains p live
            then map_state (push_if_room e) (modify self pop_front s p)
            else modify self pop_front s p)
    round-at p =
        broadcast-at e live (modify self pop_front s) p
          (retain-Distinct (λ c. is_alive (s c)) children d)

    not_self : (p : ℕ) → contains p children ≡ true → (p == self) ≡ false
    not_self p k = elim (Bool-cases (p == self)) [
      | inl t ↦ cc (n, k, (==_iff p self).0 t)
      | inr t ↦ t
    ]

    child_gets :
        (p : ℕ) (o : Option (PipeState A))
        → s p ≡ o
        → contains p children ≡ true
        → broadcast e live (modify self pop_front s) p ≡ map_state (append_entries (e ∷ [])) (s p)
    child_gets p none q k =
        let m : contains p live ≡ false =
          live-contains p ∙ ap (λ o. is_alive o && contains p children) q in
        round-at p
        ∙ rw m (
            modify-other self p pop_front s (not_self p k)
            ∙ q
            ∙ sym (ap (map_state (append_entries (e ∷ []))) q))
    child_gets p (some c) q k =
        let m : contains p live ≡ true =
          live-contains p ∙ ap (λ o. is_alive o && contains p children) q ∙ k in
        round-at p
        ∙ rw m (
            ap (map_state (push_if_room e)) (modify-other self p pop_front s (not_self p k))
            ∙ pushed_to e (s p) (none_full s live p f m))

    pub Delivered-one : Delivered self children 1 s (broadcast e live (modify self pop_front s))
    Delivered-one = record {
      self_is =
          let q : contains self live ≡ false = ground (arith, live-contains self) in
          round-at self ∙ rw q (modify-same self pop_front s);
      child_is = λ p k. rw h (child_gets p (s p) refl k);
      other_is = λ p k m.
          let q : contains p live ≡ false = ground (arith, live-contains p) in
          round-at p ∙ rw q (modify-other self p pop_front s m);
    }
