-- ===== src/Processing/Render.antt =====
-- src/processing.rs: `process_tree_string`. The world stands still while the tree is drawn. The names
-- of the processes never change; which behaviours are at work, so that `try_lock` fails, is an argument.
use system_core_port_test.Prelude.{
  ℕ, zero, suc, ◌+◌, ◌*◌, Bool, true, false, not, ◌&&◌, ◌||◌, Option, none, some, List, [], ◌∷◌,
  ◌++◌, leb, ◌==◌, if◌then◌else◌, ◌>>=◌,
}
use system_core_port_test.Text.{Text, spaces}
use system_core_port_test.Processing.{
  DriverMode, parent, new_internal_driver, external_driver, Success, pending, positive, negative,
  ProcessRenderOptions, RuntimeState, World, is_finished,
}
use system_core_port_test.Processing.Tick.{Behavior}

abbrev pub marker : Success → ℕ
marker pending = 45
marker positive = 43
marker (negative code) = 120

-- "\x1b[38;5;135m"
abbrev pub external_color : Text
external_color = 0x1b ∷ 91 ∷ 51 ∷ 56 ∷ 59 ∷ 53 ∷ 59 ∷ 49 ∷ 51 ∷ 53 ∷ 109 ∷ []

-- "\x1b[38;5;81m"
abbrev pub internal_color : Text
internal_color = 0x1b ∷ 91 ∷ 51 ∷ 56 ∷ 59 ∷ 53 ∷ 59 ∷ 56 ∷ 49 ∷ 109 ∷ []

-- "\x1b[38;5;40m"
abbrev pub root_color : Text
root_color = 0x1b ∷ 91 ∷ 51 ∷ 56 ∷ 59 ∷ 53 ∷ 59 ∷ 52 ∷ 48 ∷ 109 ∷ []

-- "\x1b[0m"
abbrev pub reset_color : Text
reset_color = 0x1b ∷ 91 ∷ 48 ∷ 109 ∷ []

-- "\x1b[37m"
abbrev pub white : Text
white = 0x1b ∷ 91 ∷ 51 ∷ 55 ∷ 109 ∷ []

-- "### " and "*** "
abbrev pub driver_mark : DriverMode → Bool → Text
driver_mark parent colored = []
driver_mark new_internal_driver colored = if colored then internal_color else 42 ∷ 42 ∷ 42 ∷ 32 ∷ []
driver_mark external_driver colored = if colored then external_color else 35 ∷ 35 ∷ 35 ∷ 32 ∷ []

abbrev pub is_driven_apart : DriverMode → Bool
is_driven_apart parent = false
is_driven_apart new_internal_driver = true
is_driven_apart external_driver = true

-- The first line of a process.
unfoldable pub heading : ProcessRenderOptions → Text → RuntimeState → Text
heading options name r =
    let top = options.colored && r.level_driver == 0 in
    spaces (r.level_tree * 2)
    ++ (marker r.success ∷ 32 ∷ driver_mark r.driver_mode options.colored)
    ++ (if top then root_color ++ (name ++ reset_color) else name)
    ++ (40 ∷ 41 ∷ 13 ∷ 10 ∷ [])
    ++ (if options.colored && (top || is_driven_apart r.driver_mode) then white else [])

-- The lines below it, indented.
unfoldable pub indented : ℕ → List Text → Text
indented level [] = []
indented level (line ∷ lines) = spaces (level * 2 + 2) ++ (line ++ (13 ∷ 10 ∷ indented level lines))

module _ {B : Type 0} (w : World B) where
  abbrev pub is_hidden : ℕ → Bool
  is_hidden n = (w.runtime n).tree_hidden

  -- "..\r\n"
  abbrev pub more_line : ℕ → Text
  more_line n = spaces ((w.runtime n).level_tree * 2 + 2) ++ (46 ∷ 46 ∷ 13 ∷ 10 ∷ [])

module _ {B : Type 0} (env : Behavior B) (name : ℕ → Text) (locked : ℕ → Bool)
    (options : ProcessRenderOptions) (w : World B) where
  unfoldable pub details : ℕ → Text
  details n =
      let r = w.runtime n in
      let b = w.behavior n in
      if options.detailed && not (is_finished r.state)
      then (if locked n
          then indented r.level_tree r.info_cache ++ indented r.level_tree r.extra_tree_cache
          else indented r.level_tree (env.process_info b)
            ++ indented r.level_tree (env.extra_lines b options))
      else []

  -- The loop over the children of `n`; `draw` draws one of them behind the text so far.
  unfoldable pub render_children : (ℕ → Text → Option Text) → ℕ → ℕ → List ℕ → Text → Option Text
  render_children draw n drawn [] out = some out
  render_children draw n drawn (c ∷ cs) out = draw c out >>= (λ drawn_out.
      let count = if is_hidden w c then drawn else drawn + 1 in
      let rest = render_children draw n count cs drawn_out in
      if leb 11 count then some (drawn_out ++ more_line w n) else rest)

  -- The fuel bounds the depth of the recursion.
  unfoldable pub render_into : ℕ → ℕ → Text → Option Text
  render_into zero n out = none
  render_into (suc fuel) n out =
      if is_hidden w n
      then some out
      else render_children (render_into fuel) n 0 (w.runtime n).children
          (out ++ (heading options (name n) (w.runtime n) ++ details n))

  unfoldable pub process_tree_string : ℕ → ℕ → Option Text
  process_tree_string fuel n = render_into fuel n []
