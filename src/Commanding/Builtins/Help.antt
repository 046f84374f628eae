-- ===== src/Commanding/Builtins/Help.antt =====
-- src/system_commanding.rs: what the list of commands says.
use system_core_port_test.Prelude.{
  ◌≡◌, inl, inr, refl, sym, ap, ◌∙◌, subst, true, false, ◌||◌, [], ◌∷◌, ◌++◌, if◌then◌else◌,
  is_empty, Bool-cases,
}
use system_core_port_test.Text.{Text, pad_right}
use system_core_port_test.Commanding.Registry.{
  SystemCommand, CommandRegistry, internal_cmd_class, eq_text, help_line, group_line, help_lines,
}

abbrev shortcut_column : Text → Text
shortcut_column [] = 32 ∷ 32 ∷ 32 ∷ []
shortcut_column (a ∷ as') = a ∷ as' ++ 44 ∷ 32 ∷ []

abbrev description : Text → Text
description [] = []
description (a ∷ as') = 46 ∷ 46 ∷ 32 ∷ a ∷ as'

abbrev heading : Text → Text
heading group = if is_empty group || eq_text group internal_cmd_class then [] else group ++ 10 ∷ []

module _ {H : Type 0} where
  -- A command's line: shortcut, id and description.
  abbrev pub line : SystemCommand H → Text
  line c =
      (32 ∷ 32 ∷ [])
      ++ (shortcut_column c.shortcut ++ (pad_right 18 c.id ++ (description c.desc ++ 10 ∷ [])))

  -- The lines of all commands, behind one of a group.
  pub data Lists : Text → CommandRegistry H → Text → Type 0 where
    nothing : (group : Text) → Lists group [] []
    same_group :
        (group : Text) (c : SystemCommand H) {cs : CommandRegistry H} {t : Text}
        → eq_text c.group group ≡ true
        → Lists c.group cs t
        → Lists group (c ∷ cs) (line c ++ t)
    next_group :
        (group : Text) (c : SystemCommand H) {cs : CommandRegistry H} {t : Text}
        → eq_text c.group group ≡ false
        → Lists c.group cs t
        → Lists group (c ∷ cs) ((10 ∷ heading c.group) ++ (line c ++ t))

  help_line-line : (c : SystemCommand H) → help_line c ≡ line c
  help_line-line c =
      ap
        (λ x.
          32 ∷ 32 ∷ x
          ++ (pad_right 18 c.id
              ++ ((if is_empty c.desc then [] else 46 ∷ 46 ∷ 32 ∷ c.desc) ++ 10 ∷ [])))
        (columns c.shortcut)
      ∙ ap (λ x. 32 ∷ 32 ∷ shortcut_column c.shortcut ++ (pad_right 18 c.id ++ (x ++ 10 ∷ [])))
          (descriptions c.desc)
    where
      columns :
          (t : Text)
          → (if is_empty t then 32 ∷ 32 ∷ 32 ∷ [] else t ++ 44 ∷ 32 ∷ []) ≡ shortcut_column t
      columns [] = refl
      columns (a ∷ as') = refl

      descriptions : (t : Text) → (if is_empty t then [] else 46 ∷ 46 ∷ 32 ∷ t) ≡ description t
      descriptions [] = refl
      descriptions (a ∷ as') = refl

  pub help_lines-Lists :
      (group : Text) (cs : CommandRegistry H) → Lists group cs (help_lines group cs)
  unfolding help_lines
  help_lines-Lists group [] = nothing group
  help_lines-Lists group (c ∷ cs) =
      subst (λ x. Lists group (c ∷ cs) (group_line group c ++ (x ++ help_lines c.group cs)))
        (sym (help_line-line c))
        (elim (Bool-cases (eq_text c.group group)) [
          | inl e ↦ rw e (same_group group c e (help_lines-Lists c.group cs))
          | inr e ↦ rw e (next_group group c e (help_lines-Lists c.group cs))
        ])
