-- ===== src/Commanding/Registry.antt =====
-- src/system_commanding.rs: `SystemCommand` and `CommandRegistry`. A handler is other people's code;
-- it is a name of type `H`, and what a call of it answers is the argument `call`.
use Prim.Native.Nat.{compare, Ordering}
use system_core_port_test.Prelude.{
  Bool, true, false, not, ◌&&◌, ◌||◌, Option, none, some, List, [], ◌∷◌, ◌++◌, ◌==◌, if◌then◌else◌,
  is_empty, any,
}
use system_core_port_test.Text.{Text, trim, split_first, trim_end, pad_right}

-- `str::cmp`; UTF-8 keeps the order of the code points.
unfoldable pub cmp_text : Text → Text → Ordering
cmp_text [] [] = Ordering.eq
cmp_text [] (b ∷ bs) = Ordering.lt
cmp_text (a ∷ as') [] = Ordering.gt
cmp_text (a ∷ as') (b ∷ bs) =
    let rest = cmp_text as' bs in
    elim (compare a b) [
      | Ordering.lt ↦ Ordering.lt
      | Ordering.gt ↦ Ordering.gt
      | Ordering.eq ↦ rest
    ]

unfoldable pub eq_text : Text → Text → Bool
eq_text [] [] = true
eq_text [] (b ∷ bs) = false
eq_text (a ∷ as') [] = false
eq_text (a ∷ as') (b ∷ bs) = a == b && eq_text as' bs

-- `str::starts_with`, the prefix second.
unfoldable pub starts_with : Text → Text → Bool
starts_with t [] = true
starts_with [] (p ∷ ps) = false
starts_with (c ∷ cs) (p ∷ ps) = c == p && starts_with cs ps

pub record SystemCommand (H : Type 0) : Type 0 where
  pub id : Text
  pub shortcut : Text
  pub desc : Text
  pub group : Text
  pub handler : H

-- `CommandRegistry`: its commands.
abbrev pub CommandRegistry : Type 0 → Type 0
CommandRegistry H = List (SystemCommand H)

-- "dbg"
abbrev pub internal_cmd_class : Text
internal_cmd_class = 100 ∷ 98 ∷ 103 ∷ []

abbrev pub is_lt : Ordering → Bool
is_lt Ordering.lt = true
is_lt Ordering.eq = false
is_lt Ordering.gt = false

abbrev pub is_eq : Ordering → Bool
is_eq Ordering.eq = true
is_eq Ordering.lt = false
is_eq Ordering.gt = false

-- "Command not found"
abbrev pub not_found : Text
not_found =
    67 ∷ 111 ∷ 109 ∷ 109 ∷ 97 ∷ 110 ∷ 100 ∷ 32 ∷ 110 ∷ 111 ∷ 116 ∷ 32 ∷ 102 ∷ 111 ∷ 117 ∷ 110 ∷ 100
    ∷ []

-- "\nAvailable commands\n"
abbrev pub help_title : Text
help_title =
    10 ∷ 65 ∷ 118 ∷ 97 ∷ 105 ∷ 108 ∷ 97 ∷ 98 ∷ 108 ∷ 101 ∷ 32 ∷ 99 ∷ 111 ∷ 109 ∷ 109 ∷ 97 ∷ 110
    ∷ 100 ∷ 115 ∷ 10 ∷ []

module _ {H : Type 0} where
  unfoldable pub command_sort : SystemCommand H → SystemCommand H → Ordering
  command_sort left right =
      if eq_text left.group internal_cmd_class && not (eq_text right.group internal_cmd_class)
      then Ordering.lt
      else if not (eq_text left.group internal_cmd_class) && eq_text right.group internal_cmd_class
      then Ordering.gt
      else if not (is_eq (cmp_text left.group right.group))
      then cmp_text left.group right.group
      else if not (is_empty left.shortcut) && is_empty right.shortcut
      then Ordering.lt
      else if is_empty left.shortcut && not (is_empty right.shortcut)
      then Ordering.gt
      else cmp_text left.id right.id

  -- `sort_by` is stable: a command goes behind those that are equal to it.
  unfoldable pub insert_sorted : SystemCommand H → List (SystemCommand H) → List (SystemCommand H)
  insert_sorted c [] = c ∷ []
  insert_sorted c (d ∷ ds) = if is_lt (command_sort c d) then c ∷ d ∷ ds else d ∷ insert_sorted c ds

  unfoldable pub sort_onto :
      List (SystemCommand H) → List (SystemCommand H) → List (SystemCommand H)
  sort_onto done [] = done
  sort_onto done (c ∷ cs) = sort_onto (insert_sorted c done) cs

  unfoldable pub sort_commands : List (SystemCommand H) → List (SystemCommand H)
  unfolding sort_onto
  sort_commands cs = sort_onto [] cs

  abbrev pub id_taken : SystemCommand H → CommandRegistry H → Bool
  id_taken command cs = any (λ e. eq_text e.id command.id && not (is_empty command.id)) cs

  abbrev pub shortcut_taken : SystemCommand H → CommandRegistry H → Bool
  shortcut_taken command cs =
      not (is_empty command.shortcut) && any (λ e. eq_text e.shortcut command.shortcut) cs

  unfoldable pub register : SystemCommand H → CommandRegistry H → CommandRegistry H × Bool
  register command cs =
      if id_taken command cs
      then (cs, false)
      else if shortcut_taken command cs
      then (cs, false)
      else (sort_commands (cs ++ command ∷ []), true)

  abbrev pub answers_to : Text → SystemCommand H → Bool
  answers_to id c = eq_text c.id id || not (is_empty c.shortcut) && eq_text c.shortcut id

  unfoldable pub find_command : Text → CommandRegistry H → Option (SystemCommand H)
  find_command id [] = none
  find_command id (c ∷ cs) = if answers_to id c then some c else find_command id cs

  abbrev pub answer :
      (H → Text → CommandRegistry H → Text)
      → CommandRegistry H
      → Text
      → Option (SystemCommand H)
      → Text
  answer call cs args none = not_found
  answer call cs args (some c) = call c.handler args cs

  unfoldable pub execute_line :
      (H → Text → CommandRegistry H → Text) → CommandRegistry H → Text → Text
  execute_line call cs line =
      let trimmed = trim line in
      let (id, rest) = split_first trimmed in
      if is_empty trimmed then [] else answer call cs (trim rest) (find_command id cs)

  unfoldable pub candidates : CommandRegistry H → Text → List Text
  candidates [] prefix = []
  candidates (c ∷ cs) prefix =
      let rest = candidates cs prefix in if starts_with c.id prefix then c.id ∷ rest else rest

  -- One round of the loop of `help_text`: the group printed last, and the text so far.
  abbrev pub help_line : SystemCommand H → Text
  help_line c =
      (32 ∷ 32 ∷ [])
      ++ ((if is_empty c.shortcut then 32 ∷ 32 ∷ 32 ∷ [] else c.shortcut ++ 44 ∷ 32 ∷ [])
          ++ (pad_right 18 c.id
              ++ ((if is_empty c.desc then [] else 46 ∷ 46 ∷ 32 ∷ c.desc) ++ 10 ∷ [])))

  abbrev pub group_line : Text → SystemCommand H → Text
  group_line group c =
      if eq_text c.group group
      then []
      else 10
        ∷ (if is_empty c.group || eq_text c.group internal_cmd_class
            then []
            else c.group ++ 10 ∷ [])

  unfoldable pub help_lines : Text → List (SystemCommand H) → Text
  help_lines group [] = []
  help_lines group (c ∷ cs) = group_line group c ++ (help_line c ++ help_lines c.group cs)

  unfoldable pub help_text : CommandRegistry H → Text
  unfolding help_lines
  help_text cs = trim_end (help_title ++ help_lines [] cs)
