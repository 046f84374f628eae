-- ===== src/Commanding/Builtins.antt =====
-- src/system_commanding.rs: the global registry and its built-in commands. `H` names the handlers of the
-- program around it.
pub mod Names
pub mod Help
pub mod Lasting
mod Tests
use system_core_port_test.Prelude.{ℕ, Bool, true, false, List, [], ◌∷◌, if◌then◌else◌}
use system_core_port_test.Text.{Text, Bytes}
use system_core_port_test.Commanding.Registry.{
  SystemCommand, CommandRegistry, internal_cmd_class, register, help_text,
}
use system_core_port_test.Commanding.HexDump.{hex_dump_command}

pub data Handler (H : Type 0) : Type 0 where
  show_help dump_memory : Handler H
  custom : H → Handler H

-- The handler that a command has.
unfoldable pub call_handler :
    {H : Type 0}
    → (ℕ → ℕ → Bytes)
    → (H → Text → CommandRegistry (Handler H) → Text)
    → Handler H
    → Text
    → CommandRegistry (Handler H)
    → Text
call_handler memory call show_help args registry = help_text registry
call_handler memory call dump_memory args registry = hex_dump_command memory args
call_handler memory call (custom h) args registry = call h args registry

-- `GLOBAL_COMMANDS` and `BUILTINS_INIT`.
pub record Globals (H : Type 0) : Type 0 where
  pub commands : CommandRegistry (Handler H)
  pub builtins_init : Bool

-- "help"
abbrev pub help_id : Text
help_id = 104 ∷ 101 ∷ 108 ∷ 112 ∷ []

-- "h"
abbrev pub help_shortcut : Text
help_shortcut = 104 ∷ []

-- "hd"
abbrev pub hex_dump_id : Text
hex_dump_id = 104 ∷ 100 ∷ []

-- "This help screen"
abbrev pub help_desc : Text
help_desc =
    84 ∷ 104 ∷ 105 ∷ 115 ∷ 32 ∷ 104 ∷ 101 ∷ 108 ∷ 112 ∷ 32 ∷ 115 ∷ 99 ∷ 114 ∷ 101 ∷ 101 ∷ 110 ∷ []

-- "Hex dump. Usage: hd <addr> [len=16]"
abbrev pub hex_dump_desc : Text
hex_dump_desc =
    72 ∷ 101 ∷ 120 ∷ 32 ∷ 100 ∷ 117 ∷ 109 ∷ 112 ∷ 46 ∷ 32 ∷ 85 ∷ 115 ∷ 97 ∷ 103 ∷ 101 ∷ 58 ∷ 32
    ∷ 104 ∷ 100 ∷ 32 ∷ 60 ∷ 97 ∷ 100 ∷ 100 ∷ 114 ∷ 62 ∷ 32 ∷ 91 ∷ 108 ∷ 101 ∷ 110 ∷ 61 ∷ 49 ∷ 54
    ∷ 93 ∷ []

module _ {H : Type 0} where
  abbrev pub globals_new : Globals H
  globals_new = record { commands = []; builtins_init = false }

  abbrev pub help_builtin : SystemCommand (Handler H)
  help_builtin = record {
    id = help_id;
    shortcut = help_shortcut;
    desc = help_desc;
    group = internal_cmd_class;
    handler = show_help;
  }

  abbrev pub hex_dump_builtin : SystemCommand (Handler H)
  hex_dump_builtin = record {
    id = hex_dump_id;
    shortcut = [];
    desc = hex_dump_desc;
    group = internal_cmd_class;
    handler = dump_memory;
  }

  unfoldable pub register_builtin : SystemCommand (Handler H) → Globals H → Globals H
  register_builtin command g = record g { commands = (register command g.commands).0 }

  unfoldable pub ensure_builtin_commands : Globals H → Globals H
  ensure_builtin_commands g =
      if g.builtins_init
      then g
      else record (register_builtin hex_dump_builtin (register_builtin help_builtin g)) {
        builtins_init = true;
      }

  unfoldable pub cmd_reg : SystemCommand (Handler H) → Globals H → Globals H × Bool
  cmd_reg command g =
      let ready = ensure_builtin_commands g in
      let (commands, added) = register command ready.commands in
      (record ready { commands = commands }, added)

  unfoldable pub command_registry_snapshot : Globals H → Globals H × CommandRegistry (Handler H)
  command_registry_snapshot g = let ready = ensure_builtin_commands g in (ready, ready.commands)
