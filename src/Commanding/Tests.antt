-- ===== src/Commanding/Tests.antt =====
-- src/system_commanding.rs: concrete sessions, over a registry with one command.
use system_core_port_test.Prelude.{
  true, false, ℕ, ◌≡◌, ◌⊎◌, refl, some, arith, [], ◌∷◌, ◌++◌, ◌>>=◌,
}
use system_core_port_test.Text.{Text, Bytes}
use system_core_port_test.Commanding.LineEnds.{crlf_only, with_returns, normalize_lf_to_crlf_lem}
use system_core_port_test.Commanding.Registered.{Unique, register-Unique, register-find_command}
use system_core_port_test.Commanding.Sorted.{Sorted, Placed, register-Sorted}
use system_core_port_test.Commanding.Registry.{
  register, find_command, eq_text, SystemCommand, CommandRegistry,
}
use system_core_port_test.Commanding.Keys.{main, backspace, end}
use system_core_port_test.Commanding.Session.{SystemCommanding, session_new, output_new}
use system_core_port_test.Commanding.Ingest.{
  normalize_lf_to_crlf, Run, key_step, ingest, ingest_interactive,
}
use system_core_port_test.Commanding.Safe.{Wf, session_new-Wf}
use system_core_port_test.Commanding.Complete.{AsciiIds}
use system_core_port_test.Commanding.Total.{ingest_total}
use system_core_port_test.Commanding.Editing.{Zipper, Shows, key_step-edit}
use system_core_port_test.Commanding.Typing.{end_4, ingest-sequence, ingest-printable}

-- "wave", shortcut "w".
abbrev wave : SystemCommand ℕ
wave = record {
  id = 119 ∷ 97 ∷ 118 ∷ 101 ∷ [];
  shortcut = 119 ∷ [];
  desc = [];
  group = [];
  handler = 1;
}

abbrev registry : CommandRegistry ℕ
registry = wave ∷ []

abbrev call : ℕ → Text → CommandRegistry ℕ → Text
call h args cs = 111 ∷ 107 ∷ args

registry-AsciiIds : AsciiIds registry
registry-AsciiIds = ((omega arith, (omega arith, (omega arith, (omega arith, tt)))), tt)

-- "wa", tab, "x", enter.
abbrev typed : Bytes
typed = 119 ∷ 97 ∷ 9 ∷ 120 ∷ 13 ∷ []

ingest_total_example : (r : Run) × (ingest call registry typed session_new ≡ some r) × Wf r.0
ingest_total_example =
    ingest_total call registry registry-AsciiIds typed session_new refl session_new-Wf

-- The line "ab" with the cursor on "b".
abbrev between_a_and_b : SystemCommanding
between_a_and_b = record session_new { line = 97 ∷ 98 ∷ []; cursor = 1 }

abbrev zipper_of : Bytes → Bytes → Zipper
zipper_of l r = record { front = l; back = r }

between_a_and_b-Shows : Shows (zipper_of (97 ∷ []) (98 ∷ [])) between_a_and_b
between_a_and_b-Shows = record { line_is = refl; cursor_is = refl }

key_step-edit_example :
    (r : Run) × (key_step call registry backspace between_a_and_b output_new ≡ some r)
    × Shows (zipper_of [] (98 ∷ [])) r.0
key_step-edit_example =
    key_step-edit call registry backspace (zipper_of (97 ∷ []) (98 ∷ [])) (zipper_of [] (98 ∷ []))
      between_a_and_b output_new between_a_and_b-Shows refl

abbrev end_bytes : Bytes
end_bytes = 0x1b ∷ 91 ∷ 52 ∷ []

ingest-sequence_example :
    ingest_interactive call registry (end_bytes ++ 126 ∷ []) between_a_and_b output_new ≡ (
      key_step call registry end between_a_and_b output_new
      >>= (λ r. ingest_interactive call registry (126 ∷ []) r.0 r.1))
ingest-sequence_example =
    ingest-sequence call registry end end_bytes (126 ∷ []) between_a_and_b output_new refl end_4

ingest-printable_example :
    (r : Run) × (ingest_interactive call registry (99 ∷ 100 ∷ []) between_a_and_b output_new
      ≡ some r)
    × Shows (zipper_of (100 ∷ 99 ∷ 97 ∷ []) (98 ∷ [])) r.0
    × (r.0.parser_state ≡ main)
ingest-printable_example =
    ingest-printable call registry (99 ∷ 100 ∷ []) (zipper_of (97 ∷ []) (98 ∷ [])) between_a_and_b
      output_new (refl, (refl, tt)) refl between_a_and_b-Shows

-- "help", shortcut "h".
abbrev help : SystemCommand ℕ
help = record {
  id = 104 ∷ 101 ∷ 108 ∷ 112 ∷ [];
  shortcut = 104 ∷ [];
  desc = [];
  group = [];
  handler = 2;
}

register-Unique_example : Unique (register help registry).0
register-Unique_example = register-Unique help registry (tt, tt)

register-find_command_example : find_command help.id (register help registry).0 ≡ some help
unfolding register eq_text
register-find_command_example = register-find_command help registry refl refl refl

-- A line end of each kind.
abbrev mixed : Text
mixed = 97 ∷ 10 ∷ 98 ∷ 13 ∷ 10 ∷ 13 ∷ 99 ∷ []

normalize_lf_to_crlf_lem_example :
    (normalize_lf_to_crlf mixed ≡ with_returns false mixed)
    × (crlf_only false (normalize_lf_to_crlf mixed) ≡ true)
    × (crlf_only false mixed ≡ true → normalize_lf_to_crlf mixed ≡ mixed)
    × (normalize_lf_to_crlf (normalize_lf_to_crlf mixed) ≡ normalize_lf_to_crlf mixed)
normalize_lf_to_crlf_lem_example = normalize_lf_to_crlf_lem mixed

register-Sorted_example :
    Sorted (register help registry).0
    × ((((register help registry).1 ≡ false) × ((register help registry).0 ≡ registry))
        ⊎ (((register help registry).1 ≡ true) × Placed help registry (register help registry).0))
register-Sorted_example = register-Sorted help registry (tt, tt)
