-- ===== src/Debugging/Commands.antt =====
-- src/system_debugging.rs: the two commands that `new` registers. Their handlers are names of the program;
-- what they do is `log_level_command` and `socket_level_command`.
use system_core_port_test.Prelude.{[], ◌∷◌}
use system_core_port_test.Text.{Text}
use system_core_port_test.Commanding.Registry.{SystemCommand, internal_cmd_class}
use system_core_port_test.Commanding.Builtins.{Handler, custom, Globals, cmd_reg}

-- "levelLog"
abbrev pub level_log_id : Text
level_log_id = 108 ∷ 101 ∷ 118 ∷ 101 ∷ 108 ∷ 76 ∷ 111 ∷ 103 ∷ []

-- "levelLogSys"
abbrev pub level_log_sys_id : Text
level_log_sys_id = 108 ∷ 101 ∷ 118 ∷ 101 ∷ 108 ∷ 76 ∷ 111 ∷ 103 ∷ 83 ∷ 121 ∷ 115 ∷ []

-- "Set the log level for stdout"
abbrev pub level_log_desc : Text
level_log_desc =
    83 ∷ 101 ∷ 116 ∷ 32 ∷ 116 ∷ 104 ∷ 101 ∷ 32 ∷ 108 ∷ 111 ∷ 103 ∷ 32 ∷ 108 ∷ 101 ∷ 118 ∷ 101 ∷ 108
    ∷ 32 ∷ 102 ∷ 111 ∷ 114 ∷ 32 ∷ 115 ∷ 116 ∷ 100 ∷ 111 ∷ 117 ∷ 116 ∷ []

-- "Set the log level for socket"
abbrev pub level_log_sys_desc : Text
level_log_sys_desc =
    83 ∷ 101 ∷ 116 ∷ 32 ∷ 116 ∷ 104 ∷ 101 ∷ 32 ∷ 108 ∷ 111 ∷ 103 ∷ 32 ∷ 108 ∷ 101 ∷ 118 ∷ 101 ∷ 108
    ∷ 32 ∷ 102 ∷ 111 ∷ 114 ∷ 32 ∷ 115 ∷ 111 ∷ 99 ∷ 107 ∷ 101 ∷ 116 ∷ []

module _ {H : Type 0} where
  abbrev pub level_log_builtin : H → SystemCommand (Handler H)
  level_log_builtin h = record {
    id = level_log_id;
    shortcut = [];
    desc = level_log_desc;
    group = internal_cmd_class;
    handler = custom h;
  }

  abbrev pub level_log_sys_builtin : H → SystemCommand (Handler H)
  level_log_sys_builtin h = record {
    id = level_log_sys_id;
    shortcut = [];
    desc = level_log_sys_desc;
    group = internal_cmd_class;
    handler = custom h;
  }

  -- The results are ignored.
  unfoldable pub register_level_commands : H → H → Globals H → Globals H
  register_level_commands console sockets g =
      (cmd_reg (level_log_sys_builtin sockets) (cmd_reg (level_log_builtin console) g).0).0
