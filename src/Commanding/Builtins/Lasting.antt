-- ===== src/Commanding/Builtins/Lasting.antt =====
-- src/system_commanding.rs: the built-in commands stay what they are.
use system_core_port_test.Prelude.{
  ℕ, ◌≡◌, inl, inr, refl, sym, ap, subst, ◌++◌, true, false, some, List, [], ◌∷◌, is_empty, arith,
  All, Bool-cases,
}
use system_core_port_test.Text.{Text, Bytes, trim, trim_start, trim_end, split_first, is_whitespace}
use system_core_port_test.Commanding.Registry.{
  SystemCommand, CommandRegistry, eq_text, cmp_text, command_sort, insert_sorted, sort_onto,
  sort_commands, register, find_command, execute_line, help_title, help_lines, help_text,
}
use system_core_port_test.Commanding.Builtins.{
  Handler, call_handler, Globals, help_id, help_shortcut, hex_dump_id, globals_new, help_builtin,
  hex_dump_builtin, register_builtin, ensure_builtin_commands, cmd_reg, command_registry_snapshot,
}
use system_core_port_test.Commanding.Builtins.Names.{
  Only, Only-find_command, Only-register, same_id, same_shortcut,
}
use system_core_port_test.Commanding.Builtins.Help.{Lists, help_lines-Lists}

module _ {H : Type 0} where
  -- A command of the program that leaves the names of the built-in ones alone, but may try their ids.
  pub record Clear (d : SystemCommand (Handler H)) : Type 0 where
    pub no_shortcut_help : eq_text d.shortcut help_id ≡ false
    pub no_shortcut_hd : eq_text d.shortcut hex_dump_id ≡ false
    pub no_id_h : eq_text d.id help_shortcut ≡ false

  -- A command with a name that a built-in one has.
  pub data Claims (d : SystemCommand (Handler H)) : Type 0 where
    claims_help : eq_text d.id help_id ≡ true → Claims d
    claims_hd : eq_text d.id hex_dump_id ≡ true → Claims d
    claims_h : eq_text d.shortcut help_shortcut ≡ true → Claims d

  -- The three names of the built-in commands.
  pub record Ready (g : Globals H) : Type 0 where
    pub help : Only help_id help_builtin g.commands
    pub short : Only help_shortcut help_builtin g.commands
    pub hd : Only hex_dump_id hex_dump_builtin g.commands
    pub init : g.builtins_init ≡ true

  ensured-Ready : Ready (ensure_builtin_commands globals_new)
  unfolding ensure_builtin_commands register_builtin register sort_commands sort_onto insert_sorted
      command_sort eq_text cmp_text
  ensured-Ready = record {
    help = ((inr refl, (inl refl, tt)), refl);
    short = ((inr refl, (inl refl, tt)), refl);
    hd = ((inl refl, (inr refl, tt)), refl);
    init = refl;
  }

  by_id :
      (c d : SystemCommand (Handler H)) (cs : CommandRegistry (Handler H))
      → is_empty c.id ≡ false
      → eq_text d.shortcut c.id ≡ false
      → Only c.id c cs
      → Only c.id c (register d cs).0
  by_id c d cs n s o = elim (Bool-cases (eq_text d.id c.id)) [
    | inl e ↦ Only-register c.id c d cs (inr (ap (λ r. r.0) (same_id c d cs n e o))) o
    | inr e ↦ Only-register c.id c d cs (inl (rw (e, s) (ground arith))) o
  ]

  by_shortcut :
      (c d : SystemCommand (Handler H)) (cs : CommandRegistry (Handler H))
      → is_empty c.shortcut ≡ false
      → eq_text d.id c.shortcut ≡ false
      → Only c.shortcut c cs
      → Only c.shortcut c (register d cs).0
  by_shortcut c d cs n s o = elim (Bool-cases (eq_text d.shortcut c.shortcut)) [
    | inl e ↦ Only-register c.shortcut c d cs (inr (ap (λ r. r.0) (same_shortcut c d cs n e o))) o
    | inr e ↦ Only-register c.shortcut c d cs (inl (rw (e, s) (ground arith))) o
  ]

  cmd_reg-Ready :
      (d : SystemCommand (Handler H)) (g : Globals H) → Clear d → Ready g → Ready (cmd_reg d g).0
  unfolding cmd_reg ensure_builtin_commands
  cmd_reg-Ready d g k r = record {
    help = rw r.init (by_id help_builtin d g.commands refl k.no_shortcut_help r.help);
    short = rw r.init (by_shortcut help_builtin d g.commands refl k.no_id_h r.short);
    hd = rw r.init (by_id hex_dump_builtin d g.commands refl k.no_shortcut_hd r.hd);
    init = rw r.init refl;
  }

  abbrev pub register_commands : List (SystemCommand (Handler H)) → Globals H → Globals H
  register_commands [] g = g
  register_commands (d ∷ ds) g = register_commands ds (cmd_reg d g).0

  register_commands-Ready :
      (ds : List (SystemCommand (Handler H))) (g : Globals H)
      → All Clear ds
      → Ready g
      → Ready (register_commands ds g)
  register_commands-Ready [] g k r = r
  register_commands-Ready (d ∷ ds) g k r =
      register_commands-Ready ds (cmd_reg d g).0 k.1 (cmd_reg-Ready d g k.0 r)

  ensured_already : (g : Globals H) → g.builtins_init ≡ true → ensure_builtin_commands g ≡ g
  unfolding ensure_builtin_commands
  ensured_already g e = rw e refl

  cmd_reg_first :
      (d : SystemCommand (Handler H))
      → cmd_reg d (ensure_builtin_commands globals_new) ≡ cmd_reg d globals_new
  unfolding cmd_reg ensure_builtin_commands
  cmd_reg_first d = refl

  snapshot-Ready :
      (ds : List (SystemCommand (Handler H)))
      → All Clear ds
      → Ready (ensure_builtin_commands (register_commands ds globals_new))
  snapshot-Ready [] k = ensured-Ready
  snapshot-Ready (d ∷ ds) k =
      let first : Ready (cmd_reg d globals_new).0 =
        rw (sym (cmd_reg_first d))
          (cmd_reg-Ready d (ensure_builtin_commands globals_new) k.0 ensured-Ready) in
      let r = register_commands-Ready ds (cmd_reg d globals_new).0 k.1 first in
      subst Ready (sym (ensured_already (register_commands ds (cmd_reg d globals_new).0) r.init)) r

  refused_lem :
      (d : SystemCommand (Handler H)) (g : Globals H)
      → Claims d
      → Ready g
      → cmd_reg d g ≡ (g, false)
  unfolding cmd_reg ensure_builtin_commands
  refused_lem d g k r = rw r.init (rw (refused k) refl)
    where
      refused : Claims d → register d g.commands ≡ (g.commands, false)
      refused (claims_help e) = same_id help_builtin d g.commands refl e r.help
      refused (claims_hd e) = same_id hex_dump_builtin d g.commands refl e r.hd
      refused (claims_h e) = same_shortcut help_builtin d g.commands refl e r.short

  help_answered :
      (memory : ℕ → ℕ → Bytes) (call : H → Text → CommandRegistry (Handler H) → Text)
      (registry : CommandRegistry (Handler H))
      → find_command help_id registry ≡ some help_builtin
      → (t : Text) × Lists [] registry t
        × (execute_line (call_handler memory call) registry help_id ≡ trim_end (help_title ++ t))
  unfolding execute_line call_handler trim trim_start trim_end split_first is_whitespace help_text
  help_answered memory call registry e =
      (help_lines [] registry, help_lines-Lists [] registry, rw e refl)

  -- Whatever the program registers from the start on, the snapshot of the registry finds the built-in
  -- commands by their names "help", "h" and "hd"; "help" answers with the line of each command of that
  -- snapshot, in their order, with a heading where the group changes; and a further command with the id
  -- "help" or "hd" or with the shortcut "h" is refused and changes nothing. What the program registers has
  -- no id "h" and no shortcut "help" or "hd", which `register` would not refuse.
  pub command_registry_snapshot-builtins :
      (memory : ℕ → ℕ → Bytes) (call : H → Text → CommandRegistry (Handler H) → Text)
      (ds : List (SystemCommand (Handler H)))
      → All Clear ds
      → (d : SystemCommand (Handler H)) → Claims d
      → let (g, registry) = command_registry_snapshot (register_commands ds globals_new) in
        (find_command help_id registry ≡ some help_builtin)
        × (find_command help_shortcut registry ≡ some help_builtin)
        × (find_command hex_dump_id registry ≡ some hex_dump_builtin)
        × ((t : Text) × Lists [] registry t
            × (execute_line (call_handler memory call) registry help_id
                ≡ trim_end (help_title ++ t)))
        × (cmd_reg d g ≡ (g, false))
  unfolding command_registry_snapshot
  command_registry_snapshot-builtins memory call ds k d c =
      let r = snapshot-Ready ds k in
      let (g, registry) = command_registry_snapshot (register_commands ds globals_new) in
      let help = Only-find_command help_id help_builtin registry r.help in
      (
        help,
        Only-find_command help_shortcut help_builtin registry r.short,
        Only-find_command hex_dump_id hex_dump_builtin registry r.hd,
        help_answered memory call registry help,
        refused_lem d g c r,
      )
