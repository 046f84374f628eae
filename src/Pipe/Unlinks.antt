-- ===== src/Pipe/Unlinks.antt =====
-- src/pipe.rs: the links under `disconnect` and `parent_disconnect`.
use system_core_port_test.Prelude.{
  ℕ, ◌≤◌, ◌≡◌, inl, inr, refl, sym, ap, ◌∙◌, Bool, true, false, not, ◌&&◌, Option, none, some, List,
  [], ◌∷◌, ◌==◌, if◌then◌else◌, length, retain, contains, arith, retain-contains, retain-Distinct,
  Bool-cases, ==_iff, subst,
}
use system_core_port_test.Pipe.{
  PipeState, Store, is_alive, modify, map_state, parents_of, children_of, disconnect,
  parent_disconnect, leave_parents, other_children, clear_parents,
}
use system_core_port_test.Pipe.Changes.{modify-same}
use system_core_port_test.Pipe.Links.{Links, modify-untouched, modify-touched, alive-map}

module _ {ℓ} {A : Type ℓ} where
  children-cleared :
      (o : Option (PipeState A)) → children_of (map_state clear_parents o) ≡ children_of o
  children-cleared none = refl
  children-cleared (some p) = refl

  parents-cleared : (o : Option (PipeState A)) → parents_of (map_state clear_parents o) ≡ []
  parents-cleared none = refl
  parents-cleared (some p) = refl

  -- The children that `other_children` keeps.
  abbrev stays : Store A → ℕ → ℕ → Bool
  stays s child k = is_alive (s k) && not (k == child)

  parents-others :
      (s : Store A) (child : ℕ) (o : Option (PipeState A))
      → parents_of (map_state (other_children s child) o) ≡ parents_of o
  parents-others s child none = refl
  parents-others s child (some p) = refl

  children-others :
      (s : Store A) (child : ℕ) (o : Option (PipeState A))
      → children_of (map_state (other_children s child) o) ≡ retain (stays s child) (children_of o)
  children-others s child none = refl
  children-others s child (some p) = refl

  module _ (self child : ℕ) (s : Store A) (links : Links s)
      (owned : parents_of (s child) ≡ self ∷ []) where
    abbrev first : Store A
    first = modify self (other_children s child) s

    abbrev parted : Store A
    parted = modify child clear_parents first

    parted-parents : (q : ℕ) → parents_of (parted q) ≡ (if q == child then [] else parents_of (s q))
    parted-parents q =
        modify-touched parents_of child clear_parents first q
        ∙ rw
            (
              parents-cleared (first child),
              modify-untouched parents_of self (other_children s child) (parents-others s child) s
                  q,
            )
            refl

    parted-children :
        (q : ℕ)
        → children_of (parted q)
          ≡ (if q == self then retain (stays s child) (children_of (s self)) else children_of (s q))
    parted-children q =
        modify-untouched children_of child clear_parents children-cleared first q
        ∙ modify-touched children_of self (other_children s child) s q
        ∙ rw (children-others s child (s self)) refl

    parted-alive : (q : ℕ) → is_alive (parted q) ≡ is_alive (s q)
    parted-alive q =
        modify-untouched is_alive child clear_parents (alive-map clear_parents) first q
        ∙ modify-untouched is_alive self (other_children s child)
            (alive-map (other_children s child)) s q

    parted-back :
        (p c : ℕ)
        → contains c
            (if p == self then retain (stays s child) (children_of (s self)) else children_of (s p))
          ≡ true
        → is_alive (s c) ≡ true
        → parents_of (parted c) ≡ p ∷ []
    parted-back p c h a = parted-parents c ∙ elim (Bool-cases (p == self)) [
      | inl k ↦
          let m : (stays s child c && contains c (children_of (s self))) ≡ true =
            sym (retain-contains (stays s child) c (children_of (s self))) ∙ (rw k at h) in
          let e : (c == child) ≡ false = ground arith in
          let n : contains c (children_of (s self)) ≡ true = ground arith in
          rw e (links.back self c n a ∙ ap (λ m. m ∷ []) (sym ((==_iff p self).0 k)))
      | inr k ↦
          let b = links.back p c (rw k at h) a in
          elim (Bool-cases (c == child)) [
            | inl e ↦
                let r : p ≡ self =
                  cc (b, owned, ap (λ m. parents_of (s m)) ((==_iff c child).0 e)) in
                cc (k, (==_iff p self).1 r)
            | inr e ↦ rw e b
          ]
    ]

    parted-Links : Links parted
    parted-Links = record {
      back = λ p c h a.
          parted-back p c (ap (contains c) (sym (parted-children p)) ∙ h)
            (sym (parted-alive c) ∙ a);
      one = λ c. elim (Bool-cases (c == child)) [
        | inl e ↦ rw (parted-parents c, e) (omega arith)
        | inr e ↦ rw (parted-parents c, e) (links.one c)
      ];
      distinct = λ p. elim (Bool-cases (p == self)) [
        | inl e ↦
            rw (parted-children p, e)
              (retain-Distinct (stays s child) (children_of (s self)) (links.distinct self))
        | inr e ↦ rw (parted-children p, e) (links.distinct p)
      ];
    }

  -- `disconnect` keeps the links in order where the pipe is the child's parent.
  pub disconnect-Links :
      (self child : ℕ) (s : Store A)
      → parents_of (s child) ≡ self ∷ []
      → Links s
      → Links (disconnect self child s)
  unfolding disconnect
  disconnect-Links self child s o h = parted-Links self child s h o

  same-Links :
      (s t : Store A)
      → ((q : ℕ) → parents_of (t q) ≡ parents_of (s q))
      → ((q : ℕ) → children_of (t q) ≡ children_of (s q))
      → ((q : ℕ) → is_alive (t q) ≡ is_alive (s q))
      → Links s
      → Links t
  same-Links s t p c a h = record {
    back = λ n m k l. p m ∙ h.back n m (ap (contains m) (sym (c n)) ∙ k) (sym (a m) ∙ l);
    one = λ m. rw (p m) (h.one m);
    distinct = λ n. rw (c n) (h.distinct n);
  }

  orphan-Links :
      (self : ℕ) (s : Store A)
      → parents_of (s self) ≡ []
      → Links s
      → Links (modify self clear_parents s)
  orphan-Links self s e h =
      same-Links s (modify self clear_parents s) cleared
        (modify-untouched children_of self clear_parents children-cleared s)
        (modify-untouched is_alive self clear_parents (alive-map clear_parents) s) h
    where
      cleared : (q : ℕ) → parents_of (modify self clear_parents s q) ≡ parents_of (s q)
      cleared q = modify-touched parents_of self clear_parents s q ∙ elim (Bool-cases (q == self)) [
        | inl k ↦
            rw (k, parents-cleared (s self))
              (sym e ∙ ap (λ m. parents_of (s m)) (sym ((==_iff q self).0 k)))
        | inr k ↦ rw k refl
      ]

  -- `parent_disconnect` keeps the links in order, and leaves the pipe without a parent.
  pub parent_disconnect-Links :
      (self : ℕ) (s : Store A)
      → Links s
      → Links (parent_disconnect self s) × (parents_of (parent_disconnect self s self) ≡ [])
  unfolding parent_disconnect leave_parents
  parent_disconnect-Links self s h = (kept (parents_of (s self)) refl, alone)
    where
      kept : (ps : List ℕ) → parents_of (s self) ≡ ps → Links (parent_disconnect self s)
      kept [] e = rw (e, leave_parents) (orphan-Links self s e h)
      kept (p ∷ []) e = rw (e, leave_parents) (parted-Links p self s h e)
      kept (p ∷ q ∷ ps) e = absurd (omega (arith, subst (λ l. length l ≤ 1) e (h.one self)))

      alone : parents_of (parent_disconnect self s self) ≡ []
      alone =
          ap parents_of
            (modify-same self clear_parents (leave_parents self (parents_of (s self)) s))
          ∙ parents-cleared (leave_parents self (parents_of (s self)) s self)
