-- ===== src/Commanding/Builtins/Names.antt =====
-- src/system_commanding.rs: a name to which one command answers.
use system_core_port_test.Prelude.{
  ◌≡◌, ◌⊎◌, inl, inr, refl, ap, Bool, true, false, not, ◌&&◌, ◌||◌, some, List, [], ◌∷◌, if_yes,
  if_no, is_empty, any, arith, All, Bool-cases,
}
use system_core_port_test.Text.{Text}
use system_core_port_test.Commanding.Registry.{
  SystemCommand, CommandRegistry, eq_text, insert_sorted, sort_onto, sort_commands, id_taken,
  shortcut_taken, register, answers_to, find_command,
}
use system_core_port_test.Commanding.Registered.{
  eq_text-eq, eq_text_refl, All-insert, All-sort_onto, sort_onto-append,
}

module _ {H : Type 0} where
  any-insert :
      (p : SystemCommand H → Bool) (c : SystemCommand H) (ds : List (SystemCommand H))
      → any p (insert_sorted c ds) ≡ (p c || any p ds)
  unfolding insert_sorted
  any-insert p c [] = refl
  any-insert p c (d ∷ ds) = ground (arith, any-insert p c ds)

  any-sort_onto :
      (p : SystemCommand H → Bool) (done cs : List (SystemCommand H))
      → any p (sort_onto done cs) ≡ (any p done || any p cs)
  unfolding sort_onto
  any-sort_onto p done [] = ground arith
  any-sort_onto p done (c ∷ cs) =
      ground (arith, any-sort_onto p (insert_sorted c done) cs, any-insert p c done)

  -- Some command answers to the name, and it is this one.
  abbrev pub Only : Text → SystemCommand H → CommandRegistry H → Type 0
  Only name c cs =
      All (λ d. (answers_to name d ≡ false) ⊎ (d ≡ c)) cs × (any (answers_to name) cs ≡ true)

  Only-any :
      (name : Text) (c : SystemCommand H) (p : SystemCommand H → Bool) (cs : CommandRegistry H)
      → p c ≡ true
      → Only name c cs
      → any p cs ≡ true
  Only-any name c p [] t (h, e) = cc
  Only-any name c p (d ∷ cs) t ((inl f, h), e) =
      ground (arith, Only-any name c p cs t (h, ground arith))
  Only-any name c p (d ∷ cs) t ((inr f, h), e) = rw (f, t) refl

  pub Only-find_command :
      (name : Text) (c : SystemCommand H) (cs : CommandRegistry H)
      → Only name c cs
      → find_command name cs ≡ some c
  unfolding find_command
  Only-find_command name c [] (h, e) = cc
  Only-find_command name c (d ∷ cs) ((k, h), e) = elim (Bool-cases (answers_to name d)) [
    | inl t ↦ if_yes (find_command name cs) t (ap some (the_one k t))
    | inr f ↦ if_no (some d) f (Only-find_command name c cs (h, ground arith))
  ]
    where
      the_one : (answers_to name d ≡ false) ⊎ (d ≡ c) → answers_to name d ≡ true → d ≡ c
      the_one (inl f) t = cc
      the_one (inr e) t = e

  -- `register` keeps the name with its command, if it refuses or the new command does not answer to it.
  pub Only-register :
      (name : Text) (c d : SystemCommand H) (cs : CommandRegistry H)
      → (answers_to name d ≡ false) ⊎ ((register d cs).0 ≡ cs)
      → Only name c cs
      → Only name c (register d cs).0
  unfolding register sort_commands
  Only-register name c d cs (inr e) o = rw e o
  Only-register name c d cs (inl f) o = elim (Bool-cases (id_taken d cs)) [
    | inl e ↦ rw e o
    | inr e ↦ elim (Bool-cases (shortcut_taken d cs)) [
      | inl k ↦ rw (e, k) o
      | inr k ↦
          rw (e, k, sort_onto-append [] cs d)
            (
              All-insert (λ x. (answers_to name x ≡ false) ⊎ (x ≡ c)) d (sort_onto [] cs) (inl f)
                  (All-sort_onto (λ x. (answers_to name x ≡ false) ⊎ (x ≡ c)) [] cs tt o.0),
              rw
                  (
                    any-insert (answers_to name) d (sort_onto [] cs),
                    any-sort_onto (answers_to name) [] cs,
                    f,
                  )
                  o.1,
            )
    ]
  ]

  -- A command with the same id, or the same shortcut, is refused.
  pub same_id :
      (c d : SystemCommand H) (cs : CommandRegistry H)
      → is_empty c.id ≡ false
      → eq_text d.id c.id ≡ true
      → Only c.id c cs
      → register d cs ≡ (cs, false)
  unfolding register
  same_id c d cs n e o =
      let q = eq_text-eq d.id c.id e in
      let taken : id_taken d cs ≡ true =
        Only-any c.id c (λ x. eq_text x.id d.id && not (is_empty d.id)) cs
          (rw (q, eq_text_refl c.id, n) refl) o in
      rw taken refl

  pub same_shortcut :
      (c d : SystemCommand H) (cs : CommandRegistry H)
      → is_empty c.shortcut ≡ false
      → eq_text d.shortcut c.shortcut ≡ true
      → Only c.shortcut c cs
      → register d cs ≡ (cs, false)
  unfolding register
  same_shortcut c d cs n e o =
      let q = eq_text-eq d.shortcut c.shortcut e in
      let taken : any (λ x. eq_text x.shortcut d.shortcut) cs ≡ true =
        Only-any c.shortcut c (λ x. eq_text x.shortcut d.shortcut) cs
          (rw (q, eq_text_refl c.shortcut) refl) o in
      rw (taken, q, n) (ground arith)
