-- ===== src/Commanding/Registered.antt =====
-- src/system_commanding.rs: what `register` keeps and adds.
use system_core_port_test.Prelude.{
  ◌≡◌, inl, inr, refl, ap, Bool, true, false, not, ◌&&◌, some, List, [], ◌∷◌, ◌++◌, is_empty, any,
  arith, All, Bool-cases, ==_iff,
}
use system_core_port_test.Text.{Text}
use system_core_port_test.Commanding.Registry.{
  SystemCommand, CommandRegistry, eq_text, is_lt, command_sort, insert_sorted, sort_onto,
  sort_commands, id_taken, shortcut_taken, register, answers_to, find_command,
}

eq_text-sym : (a b : Text) → eq_text a b ≡ eq_text b a
unfolding eq_text
eq_text-sym [] [] = refl
eq_text-sym [] (b ∷ bs) = refl
eq_text-sym (a ∷ as') [] = refl
eq_text-sym (a ∷ as') (b ∷ bs) = ground (arith, eq_text-sym as' bs)

pub eq_text_refl : (a : Text) → eq_text a a ≡ true
unfolding eq_text
eq_text_refl [] = refl
eq_text_refl (a ∷ as') = ground (arith, eq_text_refl as')

pub eq_text-eq : (a b : Text) → eq_text a b ≡ true → a ≡ b
unfolding eq_text
eq_text-eq [] [] h = refl
eq_text-eq [] (b ∷ bs) h = cc
eq_text-eq (a ∷ as') [] h = cc
eq_text-eq (a ∷ as') (b ∷ bs) h =
    cc ((==_iff a b).0 (ground arith), eq_text-eq as' bs (ground arith))

names-sym :
    (a b : Text)
    → (eq_text a b && not (is_empty b)) ≡ false
    → (eq_text b a && not (is_empty a)) ≡ false
names-sym a b h = elim (Bool-cases (eq_text a b)) [
  | inl e ↦
      let r : is_empty a ≡ is_empty b = ap is_empty (eq_text-eq a b e) in
      ground (arith, eq_text-sym a b)
  | inr e ↦ ground (arith, eq_text-sym a b)
]

any-none {ℓ} :
    {A : Type ℓ} (p : A → Bool) (xs : List A) → any p xs ≡ false → All (λ x. p x ≡ false) xs
any-none p [] h = tt
any-none p (x ∷ xs) h = (ground arith, any-none p xs (ground arith))

module _ {H : Type 0} where
  -- Neither the ids nor the shortcuts of the two are the same, unless they are empty.
  pub record Apart (c d : SystemCommand H) : Type 0 where
    pub ids : (eq_text c.id d.id && not (is_empty d.id)) ≡ false
    pub shortcuts : (eq_text c.shortcut d.shortcut && not (is_empty d.shortcut)) ≡ false

  abbrev pub Unique : CommandRegistry H → Type 0
  Unique [] = Unit {0}
  Unique (c ∷ cs) = All (Apart c) cs × Unique cs

  Apart-sym : (c d : SystemCommand H) → Apart c d → Apart d c
  Apart-sym c d h = record {
    ids = names-sym c.id d.id h.ids;
    shortcuts = names-sym c.shortcut d.shortcut h.shortcuts;
  }

  pub All-insert :
      (P : SystemCommand H → Type 0) (c : SystemCommand H) (ds : List (SystemCommand H))
      → P c
      → All P ds
      → All P (insert_sorted c ds)
  unfolding insert_sorted
  All-insert P c [] p h = (p, tt)
  All-insert P c (d ∷ ds) p h = elim (Bool-cases (is_lt (command_sort c d))) [
    | inl e ↦ rw e (p, h)
    | inr e ↦ rw e (h.0, All-insert P c ds p h.1)
  ]

  insert-Unique :
      (c : SystemCommand H) (ds : List (SystemCommand H))
      → All (Apart c) ds
      → Unique ds
      → Unique (insert_sorted c ds)
  unfolding insert_sorted
  insert-Unique c [] a u = (tt, tt)
  insert-Unique c (d ∷ ds) a u = elim (Bool-cases (is_lt (command_sort c d))) [
    | inl e ↦ rw e (a, u)
    | inr e ↦ rw e (All-insert (Apart d) c ds (Apart-sym c d a.0) u.0, insert-Unique c ds a.1 u.1)
  ]

  pub All-sort_onto :
      (P : SystemCommand H → Type 0) (done cs : List (SystemCommand H))
      → All P done
      → All P cs
      → All P (sort_onto done cs)
  unfolding sort_onto
  All-sort_onto P done [] h k = h
  All-sort_onto P done (c ∷ cs) h k =
      All-sort_onto P (insert_sorted c done) cs (All-insert P c done k.0 h) k.1

  spread :
      (c : SystemCommand H) (done cs : List (SystemCommand H))
      → All (Apart c) cs
      → All (λ d. All (Apart d) done) cs
      → All (λ d. All (Apart d) (insert_sorted c done)) cs
  spread c done [] h k = tt
  spread c done (d ∷ cs) h k =
      (All-insert (Apart d) c done (Apart-sym c d h.0) k.0, spread c done cs h.1 k.1)

  sort_onto-Unique :
      (done cs : List (SystemCommand H))
      → Unique done
      → Unique cs
      → All (λ d. All (Apart d) done) cs
      → Unique (sort_onto done cs)
  unfolding sort_onto
  sort_onto-Unique done [] u v a = u
  sort_onto-Unique done (c ∷ cs) u v a =
      sort_onto-Unique (insert_sorted c done) cs (insert-Unique c done a.0 u) v.1
        (spread c done cs v.0 a.1)

  pub sort_onto-append :
      (done cs : List (SystemCommand H)) (c : SystemCommand H)
      → sort_onto done (cs ++ c ∷ []) ≡ insert_sorted c (sort_onto done cs)
  unfolding sort_onto
  sort_onto-append done [] c = refl
  sort_onto-append done (d ∷ cs) c = sort_onto-append (insert_sorted d done) cs c

  All-unrelated : (cs : List (SystemCommand H)) → All (λ d. All (Apart d) []) cs
  All-unrelated [] = tt
  All-unrelated (c ∷ cs) = (tt, All-unrelated cs)

  free_names :
      (command : SystemCommand H) (cs : CommandRegistry H)
      → id_taken command cs ≡ false
      → shortcut_taken command cs ≡ false
      → All (Apart command) cs
  free_names command [] i s = tt
  free_names command (c ∷ cs) i s = (
    Apart-sym c command (record { ids = ground arith; shortcuts = ground arith }),
    free_names command cs (ground arith) (ground arith),
  )

  -- A registry in which no two commands share an id or a shortcut, the empty ones aside, is one after
  -- `register` too, whether it takes the command or refuses it.
  pub register-Unique :
      (command : SystemCommand H) (cs : CommandRegistry H)
      → Unique cs
      → Unique (register command cs).0
  unfolding register sort_commands
  register-Unique command cs u = elim (Bool-cases (id_taken command cs)) [
    | inl e ↦ rw e u
    | inr e ↦ elim (Bool-cases (shortcut_taken command cs)) [
      | inl k ↦ rw (e, k) u
      | inr k ↦
          rw (e, k, sort_onto-append [] cs command)
            (insert-Unique command (sort_onto [] cs)
              (All-sort_onto (Apart command) [] cs tt (free_names command cs e k))
              (sort_onto-Unique [] cs tt u (All-unrelated cs)))
    ]
  ]

  find-insert :
      (id : Text) (c : SystemCommand H) (ds : List (SystemCommand H))
      → answers_to id c ≡ true
      → All (λ d. answers_to id d ≡ false) ds
      → find_command id (insert_sorted c ds) ≡ some c
  unfolding insert_sorted find_command
  find-insert id c [] a h = rw a refl
  find-insert id c (d ∷ ds) a h = elim (Bool-cases (is_lt (command_sort c d))) [
    | inl e ↦ rw (e, find_command) (rw a refl)
    | inr e ↦ rw (e, find_command) (rw h.0 (find-insert id c ds a h.1))
  ]

  none_answer :
      (command : SystemCommand H) (cs : CommandRegistry H)
      → is_empty command.id ≡ false
      → id_taken command cs ≡ false
      → any (λ e. not (is_empty e.shortcut) && eq_text e.shortcut command.id) cs ≡ false
      → All (λ d. answers_to command.id d ≡ false) cs
  none_answer command [] n i s = tt
  none_answer command (c ∷ cs) n i s =
      (ground arith, none_answer command cs n (ground arith) (ground arith))

  -- A command that `register` took is found by its id, if the id is not empty and no command that was
  -- there has it for its shortcut.
  pub register-find_command :
      (command : SystemCommand H) (cs : CommandRegistry H)
      → is_empty command.id ≡ false
      → any (λ e. not (is_empty e.shortcut) && eq_text e.shortcut command.id) cs ≡ false
      → (register command cs).1 ≡ true
      → find_command command.id (register command cs).0 ≡ some command
  unfolding register sort_commands
  register-find_command command cs n s r = elim (Bool-cases (id_taken command cs)) [
    | inl e ↦ absurd (cc (rw e at r))
    | inr e ↦ elim (Bool-cases (shortcut_taken command cs)) [
      | inl k ↦ absurd (cc (rw (e, k) at r))
      | inr k ↦
          rw (e, k, sort_onto-append [] cs command)
            (find-insert command.id command (sort_onto [] cs) (rw (eq_text_refl command.id) refl) (
              All-sort_onto (λ d. answers_to command.id d ≡ false) [] cs tt
                (none_answer command cs n e s)))
    ]
  ]
