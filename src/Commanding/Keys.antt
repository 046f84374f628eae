-- ===== src/Commanding/Keys.antt =====
-- src/system_commanding.rs: `feed_byte`, the parser of keys and escape sequences.
use system_core_port_test.Prelude.{ℕ, ◌||◌, Option, none, some, ◌==◌, if◌then◌else◌}
use system_core_port_test.Text.{between}

pub data ParsedKey : Type 0 where
  char : ℕ → ParsedKey
  enter tab backspace delete left right up down home end jump_left jump_right ctrl_c ctrl_d :
      ParsedKey

pub data ParserState : Type 0 where
  main escape escape_bracket escape_1 escape_3 escape_semi escape_semi_5 iac iac_option :
      ParserState

abbrev after_main : ℕ → ParserState × Option ParsedKey
after_main b =
    if b == 0xff
    then (iac, none)
    else if b == 0x1b
    then (escape, none)
    else if b == 0x03
    then (main, some ctrl_c)
    else if b == 0x04
    then (main, some ctrl_d)
    else if b == 13 || b == 10
    then (main, some enter)
    else if b == 9
    then (main, some tab)
    else if b == 0x7f || b == 0x08
    then (main, some backspace)
    else if between 0x20 0x7e b
    then (main, some (char b))
    else (main, none)

abbrev after_bracket : ℕ → ParserState × Option ParsedKey
after_bracket b =
    if b == b'A'
    then (main, some up)
    else if b == b'B'
    then (main, some down)
    else if b == b'C'
    then (main, some right)
    else if b == b'D'
    then (main, some left)
    else if b == b'F' || b == b'8' || b == b'4'
    then (main, some end)
    else if b == b'H' || b == b'7'
    then (main, some home)
    else if b == b'1'
    then (escape_1, none)
    else if b == b'3'
    then (escape_3, none)
    else (main, none)

-- The new state of the parser, and the key that the byte completes.
unfoldable pub feed_byte : ParserState → ℕ → ParserState × Option ParsedKey
feed_byte main b = after_main b
feed_byte escape b = (if b == b'[' then escape_bracket else main, none)
feed_byte escape_bracket b = after_bracket b
feed_byte escape_1 b =
    if b == b'~' then (main, some home) else if b == b';' then (escape_semi, none) else (main, none)
feed_byte escape_3 b = (main, if b == b'~' then some delete else none)
feed_byte escape_semi b = (if b == b'5' then escape_semi_5 else main, none)
feed_byte escape_semi_5 b =
    (main, if b == b'C' then some jump_right else if b == b'D' then some jump_left else none)
feed_byte iac b = (iac_option, none)
feed_byte iac_option b = (main, none)
