-- ===== src/Commanding/Builtins/Tests.antt =====
-- src/system_commanding.rs: a program that tries to replace the built-in help, numbers, and a dump.
use system_core_port_test.Prelude.{ℕ, ◌≡◌, refl, false, some, none, [], ◌++◌, ◌∷◌, arith}
use system_core_port_test.Text.{Text, decimal, trim_end}
use system_core_port_test.Commanding.Registry.{
  SystemCommand, find_command, execute_line, help_title, eq_text,
}
use system_core_port_test.Commanding.Numbers.{parse_number}
use system_core_port_test.Commanding.Parsing.{parse_number-numeral}
use system_core_port_test.Commanding.HexDump.{hex, hex_dump_bytes}
use system_core_port_test.Commanding.HexDump.Reading.{read_dump}
use system_core_port_test.Commanding.HexDump.RoundTrip.{hex_dump_bytes-reads}
use system_core_port_test.Commanding.Builtins.{
  Handler, custom, call_handler, globals_new, help_id, help_shortcut, hex_dump_id, help_builtin,
  hex_dump_builtin, cmd_reg, command_registry_snapshot,
}
use system_core_port_test.Commanding.Builtins.Help.{Lists}
use system_core_port_test.Commanding.Builtins.Lasting.{
  Clear, Claims, claims_help, register_commands, command_registry_snapshot-builtins,
}

-- Has the id "help".
abbrev own_help : SystemCommand (Handler ℕ)
own_help = record { id = help_id; shortcut = []; desc = []; group = []; handler = custom 1 }

own_help-Clear : Clear own_help
unfolding eq_text
own_help-Clear = record { no_shortcut_help = refl; no_shortcut_hd = refl; no_id_h = refl }

own_help-Claims : Claims own_help
unfolding eq_text
own_help-Claims = claims_help refl

command_registry_snapshot-builtins_example :
    let (g, registry) = command_registry_snapshot (register_commands (own_help ∷ []) globals_new) in
    (find_command help_id registry ≡ some help_builtin)
    × (find_command help_shortcut registry ≡ some help_builtin)
    × (find_command hex_dump_id registry ≡ some hex_dump_builtin)
    × ((t : Text) × Lists [] registry t
        × (execute_line (call_handler (λ a n. []) (λ h args r. args)) registry help_id
            ≡ trim_end (help_title ++ t)))
    × (cmd_reg own_help g ≡ (g, false))
command_registry_snapshot-builtins_example =
    command_registry_snapshot-builtins (λ a n. []) (λ h args r. args) (own_help ∷ [])
      (own_help-Clear, tt) own_help own_help-Claims

parse_number-numeral_example :
    (parse_number (decimal 18_446_744_073_709_551_616) ≡ none)
    × (parse_number (48 ∷ 120 ∷ hex 18_446_744_073_709_551_616) ≡ none)
    × (parse_number (48 ∷ 88 ∷ hex 18_446_744_073_709_551_616) ≡ none)
parse_number-numeral_example = parse_number-numeral 18_446_744_073_709_551_616

hex_dump_bytes-reads_example :
    read_dump 2 (hex_dump_bytes 4096 (1 ∷ 171 ∷ 10 ∷ []) none 2) ≡ 1 ∷ 171 ∷ 10 ∷ []
hex_dump_bytes-reads_example =
    hex_dump_bytes-reads 4096 (1 ∷ 171 ∷ 10 ∷ []) 2 (omega arith) (omega arith)
