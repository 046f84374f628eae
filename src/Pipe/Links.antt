-- ===== src/Pipe/Links.antt =====
-- src/pipe.rs: the links between parents and children, under `connect`, `disconnect` and
-- `parent_disconnect`.
use system_core_port_test.Prelude.{
  ℕ, ◌≤◌, ◌≡◌, inl, inr, refl, sym, ap, ◌∙◌, true, false, Option, none, some, [], ◌∷◌, ◌++◌, ◌==◌,
  if◌then◌else◌, length, contains, arith, Distinct, contains-append, append-Distinct, List-cases,
  Bool-cases, ==_iff,
}
use system_core_port_test.Pipe.{
  PipeState, Store, is_alive, modify, map_state, parents_of, children_of, connect,
}

module _ {ℓ} {A : Type ℓ} where
  -- A pipe has one parent at most; a child that is alive knows its parent; nobody is a child twice.
  pub record Links (s : Store A) : Type ℓ where
    pub back :
        (p c : ℕ)
        → contains c (children_of (s p)) ≡ true
        → is_alive (s c) ≡ true
        → parents_of (s c) ≡ p ∷ []
    pub one : (c : ℕ) → length (parents_of (s c)) ≤ 1
    pub distinct : (p : ℕ) → Distinct (children_of (s p))

  -- What a change does not touch is the same in every pipe.
  pub modify-untouched {κ} :
      {X : Type κ} (look : Option (PipeState A) → X) (n : ℕ) (f : PipeState A → PipeState A)
      → ((o : Option (PipeState A)) → look (map_state f o) ≡ look o)
      → (s : Store A) (q : ℕ) → look (modify n f s q) ≡ look (s q)
  modify-untouched look n f same s q = elim (Bool-cases (q == n)) [
    | inl e ↦ rw e (same (s q))
    | inr e ↦ rw e refl
  ]

  pub modify-touched {κ} :
      {X : Type κ} (look : Option (PipeState A) → X) (n : ℕ) (f : PipeState A → PipeState A)
      (s : Store A) (q : ℕ)
      → look (modify n f s q) ≡ (if q == n then look (map_state f (s n)) else look (s q))
  modify-touched look n f s q = elim (Bool-cases (q == n)) [
    | inl e ↦ rw e (ap (λ m. look (map_state f (s m))) ((==_iff q n).0 e))
    | inr e ↦ rw e refl
  ]

  abbrev enter_child : ℕ → PipeState A → PipeState A
  enter_child child p = record p { children = p.children ++ child ∷ [] }

  abbrev enter_parent : ℕ → PipeState A → PipeState A
  enter_parent self c = record c { parents = c.parents ++ self ∷ [] }

  children-entered :
      (child : ℕ) (o : Option (PipeState A))
      → is_alive o ≡ true
      → children_of (map_state (enter_child child) o) ≡ children_of o ++ child ∷ []
  children-entered child none h = cc
  children-entered child (some p) h = refl

  parents-entered :
      (self : ℕ) (o : Option (PipeState A))
      → is_alive o ≡ true
      → parents_of o ≡ []
      → parents_of (map_state (enter_parent self) o) ≡ self ∷ []
  parents-entered self none h e = cc
  parents-entered self (some p) h e = rw e refl

  pub alive-map :
      (f : PipeState A → PipeState A) (o : Option (PipeState A))
      → is_alive (map_state f o) ≡ is_alive o
  alive-map f none = refl
  alive-map f (some p) = refl

  children-parented :
      (self : ℕ) (o : Option (PipeState A))
      → children_of (map_state (enter_parent self) o) ≡ children_of o
  children-parented self none = refl
  children-parented self (some p) = refl

  parents-childed :
      (child : ℕ) (o : Option (PipeState A))
      → parents_of (map_state (enter_child child) o) ≡ parents_of o
  parents-childed child none = refl
  parents-childed child (some p) = refl

  module _ (self child : ℕ) (s : Store A) (self_alive : is_alive (s self) ≡ true)
      (child_alive : is_alive (s child) ≡ true) (links : Links s)
      (free : parents_of (s child) ≡ []) where
    abbrev first : Store A
    first = modify child (enter_parent self) s

    abbrev joined : Store A
    joined = modify self (enter_child child) first

    joined-parents :
        (q : ℕ) → parents_of (joined q) ≡ (if q == child then self ∷ [] else parents_of (s q))
    joined-parents q =
        modify-untouched parents_of self (enter_child child) (parents-childed child) first q
        ∙ modify-touched parents_of child (enter_parent self) s q
        ∙ rw (parents-entered self (s child) child_alive free) refl

    joined-children :
        (q : ℕ)
        → children_of (joined q)
          ≡ (if q == self then children_of (s self) ++ child ∷ [] else children_of (s q))
    joined-children q =
        let same =
          modify-untouched children_of child (enter_parent self) (children-parented self) s in
        let alive : is_alive (first self) ≡ true =
          modify-untouched is_alive child (enter_parent self) (alive-map (enter_parent self)) s self
          ∙ self_alive in
        modify-touched children_of self (enter_child child) first q
        ∙ rw (children-entered child (first self) alive, same self, same q) refl

    joined-alive : (q : ℕ) → is_alive (joined q) ≡ is_alive (s q)
    joined-alive q =
        modify-untouched is_alive self (enter_child child) (alive-map (enter_child child)) first q
        ∙ modify-untouched is_alive child (enter_parent self) (alive-map (enter_parent self)) s q

    no_child : (p : ℕ) → contains child (children_of (s p)) ≡ false
    no_child p = elim (Bool-cases (contains child (children_of (s p)))) [
      | inl e ↦ cc (links.back p child e child_alive, free)
      | inr e ↦ e
    ]

    joined-back :
        (p c : ℕ)
        → contains c (if p == self then children_of (s self) ++ child ∷ [] else children_of (s p))
          ≡ true
        → is_alive (s c) ≡ true
        → parents_of (joined c) ≡ p ∷ []
    joined-back p c h a = joined-parents c ∙ elim (Bool-cases (c == child)) [
      | inl e ↦ elim (Bool-cases (p == self)) [
        | inl k ↦ rw e (ap (λ m. m ∷ []) (sym ((==_iff p self).0 k)))
        | inr k ↦
            let m : contains c (children_of (s p)) ≡ true = rw k at h in
            cc (m, no_child p, (==_iff c child).0 e)
      ]
      | inr e ↦ elim (Bool-cases (p == self)) [
        | inl k ↦
            let m : contains c (children_of (s self) ++ child ∷ []) ≡ true = rw k at h in
            let n : contains c (children_of (s self)) ≡ true =
              ground (arith, contains-append c (children_of (s self)) (child ∷ [])) in
            rw e (links.back self c n a ∙ ap (λ m. m ∷ []) (sym ((==_iff p self).0 k)))
        | inr k ↦ rw e (links.back p c (rw k at h) a)
      ]
    ]

    joined-Links : Links joined
    joined-Links = record {
      back = λ p c h a.
          joined-back p c (ap (contains c) (sym (joined-children p)) ∙ h)
            (sym (joined-alive c) ∙ a);
      one = λ c. elim (Bool-cases (c == child)) [
        | inl e ↦ rw (joined-parents c, e) (omega arith)
        | inr e ↦ rw (joined-parents c, e) (links.one c)
      ];
      distinct = λ p. elim (Bool-cases (p == self)) [
        | inl e ↦
            rw (joined-children p, e)
              (append-Distinct child (children_of (s self)) (no_child self) (links.distinct self))
        | inr e ↦ rw (joined-children p, e) (links.distinct p)
      ];
    }

  -- `connect` keeps the links in order: each pipe has one parent at most, a child that is alive has
  -- the pipe for its parent that it is a child of, and nobody is a child twice.
  pub connect-Links :
      (self child : ℕ) (s : Store A)
      → is_alive (s self) ≡ true
      → is_alive (s child) ≡ true
      → Links s
      → Links (connect self child s)
  unfolding connect
  connect-Links self child s a b h = elim (List-cases (parents_of (s child))) [
    | inl e ↦ rw e (joined-Links self child s a b h e)
    | inr (p, ps, e) ↦ rw e h
  ]
