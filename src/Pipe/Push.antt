-- ===== src/Pipe/Push.antt =====
-- src/pipe.rs: `to_push_try`.
use system_core_port_test.Prelude.{
  ℕ, zero, suc, Bool, true, false, ◌&&◌, ◌||◌, Option, none, some, List, [], ◌∷◌, ◌++◌, ltb,
  if◌then◌else◌, is_empty, length, retain, any, ◌>>=◌, drop,
}
use system_core_port_test.Pipe.{
  PipeEntry, PipeState, Store, is_full, is_alive, modify, children_of, entries_of, source_done_set,
}

module _ {ℓ} {A : Type ℓ} where
  abbrev pub pop_front : PipeState A → PipeState A
  pop_front s = record s { entries = drop 1 s.entries }

  -- A child without room does without the entry.
  abbrev pub push_if_room : PipeEntry A → PipeState A → PipeState A
  push_if_room e s =
      if ltb (length s.entries) s.size_max then record s { entries = s.entries ++ e ∷ [] } else s

  unfoldable pub broadcast : PipeEntry A → List ℕ → Store A → Store A
  broadcast e [] s = s
  broadcast e (c ∷ cs) s = broadcast e cs (modify c (push_if_room e) s)

  abbrev pub full_of : Option (PipeState A) → Bool
  full_of none = false
  full_of (some s) = is_full s

  abbrev pub full_at : Store A → ℕ → Bool
  full_at s c = full_of (s c)

  abbrev pub live_children : Store A → List ℕ → List ℕ
  live_children s children = retain (λ c. is_alive (s c)) children

  -- The loop. `none`: the fuel ran out.
  unfoldable pub push_loop : ℕ → ℕ → List ℕ → Bool → Store A → Bool → Option (Store A × Bool)
  push_loop zero self children blocking s pushed = none
  push_loop (suc fuel) self children blocking s pushed = elim (entries_of (s self)) [
    | [] ↦ some (s, pushed)
    | e ∷ es ↦
        let live = live_children s children in
        let next =
          push_loop fuel self children blocking (broadcast e live (modify self pop_front s)) true in
        if is_empty live || (any (full_at s) live && blocking) then some (s, pushed) else next
  ]

  unfoldable pub close_all : List ℕ → Store A → Store A
  close_all [] s = s
  close_all (c ∷ cs) s = close_all cs (modify c source_done_set s)

  abbrev pub blocking_of : Option (PipeState A) → Bool
  blocking_of none = true
  blocking_of (some s) = s.data_blocking

  abbrev pub nothing_left : Option (PipeState A) → Bool
  nothing_left none = false
  nothing_left (some s) = is_empty s.entries && s.source_done

  -- What is closed is decided by what was left before the loop.
  unfoldable pub to_push_try : ℕ → ℕ → Store A → Option (Store A × Bool)
  to_push_try fuel self s =
      let children = children_of (s self) in
      push_loop fuel self children (blocking_of (s self)) s false >>= (λ r.
        some
          (if nothing_left (s self) then close_all (live_children r.0 children) r.0 else r.0, r.1))
