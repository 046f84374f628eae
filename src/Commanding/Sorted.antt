-- ===== src/Commanding/Sorted.antt =====
-- src/system_commanding.rs: the order of a registry.
use Prim.Native.Nat.{Ordering}
use system_core_port_test.Prelude.{
  ◌≡◌, ◌⊎◌, inl, inr, refl, sym, ap, ◌∙◌, subst, true, false, [], ◌∷◌, ◌++◌, All, Bool-cases,
  append_assoc, append-nil,
}
use system_core_port_test.Commanding.Registry.{
  SystemCommand, CommandRegistry, is_lt, insert_sorted, sort_onto, sort_commands, id_taken,
  shortcut_taken, register,
}
use system_core_port_test.Commanding.Registered.{All-insert, sort_onto-append}
use system_core_port_test.Commanding.Ordered.{
  flip, Chain, by_all, command_sort-lex, by_all-flip, by_all-Chain,
}

not_lt-Chain :
    (x y z : Ordering)
    → Chain x y z
    → is_lt (flip x) ≡ false
    → is_lt (flip y) ≡ false
    → is_lt (flip z) ≡ false
not_lt-Chain Ordering.lt Ordering.lt z h p q = rw h refl
not_lt-Chain Ordering.lt Ordering.eq z h p q = rw h refl
not_lt-Chain Ordering.lt Ordering.gt z h p q = cc
not_lt-Chain Ordering.eq Ordering.lt z h p q = rw h refl
not_lt-Chain Ordering.eq Ordering.eq z h p q = rw h refl
not_lt-Chain Ordering.eq Ordering.gt z h p q = cc
not_lt-Chain Ordering.gt y z h p q = cc

lt-Chain :
    (x y z : Ordering) → Chain x y z → is_lt x ≡ true → is_lt (flip y) ≡ false → is_lt z ≡ true
lt-Chain Ordering.lt Ordering.lt z h p q = rw h refl
lt-Chain Ordering.lt Ordering.eq z h p q = rw h refl
lt-Chain Ordering.lt Ordering.gt z h p q = cc
lt-Chain Ordering.eq y z h p q = cc
lt-Chain Ordering.gt y z h p q = cc

lt-flip : (x : Ordering) → is_lt x ≡ true → is_lt (flip x) ≡ false
lt-flip Ordering.lt h = refl
lt-flip Ordering.eq h = cc
lt-flip Ordering.gt h = cc

module _ {H : Type 0} where
  -- `c` does not come after `d`.
  abbrev pub NotAfter : SystemCommand H → SystemCommand H → Type 0
  NotAfter c d = is_lt (by_all d c) ≡ false

  abbrev pub Before : SystemCommand H → SystemCommand H → Type 0
  Before c d = is_lt (by_all c d) ≡ true

  abbrev pub Sorted : CommandRegistry H → Type 0
  Sorted [] = Unit {0}
  Sorted (c ∷ cs) = All (NotAfter c) cs × Sorted cs

  NotAfter-trans : (c d e : SystemCommand H) → NotAfter c d → NotAfter d e → NotAfter c e
  NotAfter-trans c d e p q =
      ap is_lt (by_all-flip c e)
      ∙ not_lt-Chain (by_all c d) (by_all d e) (by_all c e) (by_all-Chain c d e)
          (ap is_lt (sym (by_all-flip c d)) ∙ p) (ap is_lt (sym (by_all-flip d e)) ∙ q)

  Before-trans : (c d e : SystemCommand H) → Before c d → NotAfter d e → Before c e
  Before-trans c d e p q =
      lt-Chain (by_all c d) (by_all d e) (by_all c e) (by_all-Chain c d e) p
        (ap is_lt (sym (by_all-flip d e)) ∙ q)

  Before-NotAfter : (c d : SystemCommand H) → Before c d → NotAfter c d
  Before-NotAfter c d p = ap is_lt (by_all-flip c d) ∙ lt-flip (by_all c d) p

  All-Before :
      (c d : SystemCommand H) (ds : CommandRegistry H)
      → Before c d
      → All (NotAfter d) ds
      → All (Before c) ds
  All-Before c d [] p h = tt
  All-Before c d (e ∷ ds) p h = (Before-trans c d e p h.0, All-Before c d ds p h.1)

  Before-All :
      (c : SystemCommand H) (ds : CommandRegistry H) → All (Before c) ds → All (NotAfter c) ds
  Before-All c [] h = tt
  Before-All c (d ∷ ds) h = (Before-NotAfter c d h.0, Before-All c ds h.1)

  -- Where an insertion puts a command: behind those that are equal to it.
  pub record Placed (c : SystemCommand H) (ds es : CommandRegistry H) : Type 0 where
    pub front : CommandRegistry H
    pub back : CommandRegistry H
    pub split : ds ≡ front ++ back
    pub placed : es ≡ front ++ c ∷ back
    pub front_lem : All (λ d. NotAfter d c) front
    pub back_lem : All (Before c) back

  insert-Placed :
      (c : SystemCommand H) (ds : CommandRegistry H) → Sorted ds → Placed c ds (insert_sorted c ds)
  unfolding insert_sorted
  insert-Placed c [] s = record {
    front = [];
    back = [];
    split = refl;
    placed = refl;
    front_lem = tt;
    back_lem = tt;
  }
  insert-Placed c (d ∷ ds) s = elim (Bool-cases (is_lt (by_all c d))) [
    | inl e ↦
        rw (command_sort-lex c d, e)
          (record {
            front = [];
            back = d ∷ ds;
            split = refl;
            placed = refl;
            front_lem = tt;
            back_lem = (e, All-Before c d ds e s.0);
          })
    | inr e ↦
        let p = insert-Placed c ds s.1 in
        rw (command_sort-lex c d, e)
          (record {
            front = d ∷ p.front;
            back = p.back;
            split = ap (λ l. d ∷ l) p.split;
            placed = ap (λ l. d ∷ l) p.placed;
            front_lem = (e, p.front_lem);
            back_lem = p.back_lem;
          })
  ]

  insert-Sorted :
      (c : SystemCommand H) (ds : CommandRegistry H) → Sorted ds → Sorted (insert_sorted c ds)
  unfolding insert_sorted
  insert-Sorted c [] s = (tt, tt)
  insert-Sorted c (d ∷ ds) s = elim (Bool-cases (is_lt (by_all c d))) [
    | inl e ↦ rw (command_sort-lex c d, e) (Before-All c (d ∷ ds) (e, All-Before c d ds e s.0), s)
    | inr e ↦
        rw (command_sort-lex c d, e) (All-insert (NotAfter d) c ds e s.0, insert-Sorted c ds s.1)
  ]

  -- A command that comes before none of the others is put at the end.
  insert_last :
      (c : SystemCommand H) (ds : CommandRegistry H)
      → All (λ d. NotAfter d c) ds
      → insert_sorted c ds ≡ ds ++ c ∷ []
  unfolding insert_sorted
  insert_last c [] h = refl
  insert_last c (d ∷ ds) h = rw (command_sort-lex c d, h.0) (ap (λ l. d ∷ l) (insert_last c ds h.1))

  ends_front :
      (c : SystemCommand H) (done cs : CommandRegistry H)
      → Sorted (done ++ c ∷ cs)
      → All (λ d. NotAfter d c) done
  ends_front c [] cs s = tt
  ends_front c (d ∷ done) cs s = (one done s.0, ends_front c done cs s.1)
    where
      one : (xs : CommandRegistry H) → All (NotAfter d) (xs ++ c ∷ cs) → NotAfter d c
      one [] h = h.0
      one (x ∷ xs) h = one xs h.1

  sort_onto-Sorted :
      (done cs : CommandRegistry H) → Sorted (done ++ cs) → sort_onto done cs ≡ done ++ cs
  unfolding sort_onto
  sort_onto-Sorted done [] s = sym (append-nil done)
  sort_onto-Sorted done (c ∷ cs) s =
      let e = insert_last c done (ends_front c done cs s) in
      let a = append_assoc done (c ∷ []) cs in
      ap (λ l. sort_onto l cs) e ∙ sort_onto-Sorted (done ++ c ∷ []) cs (subst Sorted (sym a) s) ∙ a

  -- Sorted is: the internal class first, then by group, in a group those with a shortcut first, then by
  -- id. `register` on a sorted registry either refuses and leaves it as it is, or puts the command at the one
  -- place where it belongs, behind those that compare equal to it, and leaves the order of the others
  -- alone; so the registry stays sorted.
  pub register-Sorted :
      (command : SystemCommand H) (cs : CommandRegistry H)
      → Sorted cs
      → Sorted (register command cs).0
        × ((((register command cs).1 ≡ false) × ((register command cs).0 ≡ cs))
            ⊎ (((register command cs).1 ≡ true) × Placed command cs (register command cs).0))
  unfolding register sort_commands
  register-Sorted command cs s = elim (Bool-cases (id_taken command cs)) [
    | inl e ↦ rw e (s, inl (refl, refl))
    | inr e ↦ elim (Bool-cases (shortcut_taken command cs)) [
      | inl k ↦ rw (e, k) (s, inl (refl, refl))
      | inr k ↦
          rw (e, k, sort_onto-append [] cs command, sort_onto-Sorted [] cs s)
            (insert-Sorted command cs s, inr (refl, insert-Placed command cs s))
    ]
  ]
