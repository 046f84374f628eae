-- ===== src/Pipe.antt =====
-- src/pipe.rs: the state behind the lock of one pipe, and what its methods do with it. The pipes of
-- a program lie in a `Store`: a pipe is a number, and `none` is a pipe that was dropped, whose
-- `Weak::upgrade` fails.
pub mod Push
pub mod Changes
pub mod Delivered
pub mod Broadcast
pub mod Closing
pub mod Links
pub mod Unlinks
pub mod Cycle
mod Tests
use system_core_port_test.Prelude.{
  ℕ, Bool, true, false, not, ◌&&◌, ◌||◌, Option, none, some, List, [], ◌∷◌, ◌++◌, ◌==◌, leb, ltb,
  max, if◌then◌else◌, is_empty, length, retain, any,
}

-- The times are `u32` and are only carried along.
pub record PipeEntry {ℓ} (A : Type ℓ) : Type ℓ where
  pub particle : A
  pub t1 : ℕ
  pub t2 : ℕ

pub data PipeCommitStatus : Type 0 where
  accepted full closed : PipeCommitStatus

pub data PipeRead {ℓ} (A : Type ℓ) : Type ℓ where
  entry : PipeEntry A → PipeRead A
  empty read_closed : PipeRead A

pub record PipeState {ℓ} (A : Type ℓ) : Type ℓ where
  pub parents : List ℕ
  pub children : List ℕ
  pub entries : List (PipeEntry A)
  pub size_max : ℕ
  pub source_done : Bool
  pub sink_done : Bool
  pub data_blocking : Bool

abbrev pub Store {ℓ} : Type ℓ → Type ℓ
Store A = ℕ → Option (PipeState A)

module _ {ℓ} {A : Type ℓ} where
  abbrev pub pipe_new : ℕ → PipeState A
  pipe_new size_max = record {
    parents = [];
    children = [];
    entries = [];
    size_max = max size_max 1;
    source_done = false;
    sink_done = false;
    data_blocking = true;
  }

  abbrev pub size_max_set : ℕ → PipeState A → PipeState A
  size_max_set n s = record s { size_max = max n 1 }

  abbrev pub is_full : PipeState A → Bool
  is_full s = leb s.size_max (length s.entries)

  abbrev pub data_blocking_set : Bool → PipeState A → PipeState A
  data_blocking_set block s = record s { data_blocking = block }

  abbrev pub source_done_set : PipeState A → PipeState A
  source_done_set s = record s { source_done = true }

  abbrev pub sink_done_set : PipeState A → PipeState A
  sink_done_set s = record s { sink_done = true }

  abbrev pub entries_left : PipeState A → Bool
  entries_left s = not (is_empty s.entries) || not s.source_done

  abbrev read_front : PipeState A → List (PipeEntry A) → PipeState A × PipeRead A
  read_front s [] = (s, if s.source_done then read_closed else empty)
  read_front s (e ∷ es) = (record s { entries = es }, entry e)

  unfoldable pub get : PipeState A → PipeState A × PipeRead A
  get s = read_front s s.entries

  unfoldable pub commit : A → ℕ → ℕ → PipeState A → PipeState A × PipeCommitStatus
  commit particle t1 t2 s =
      if s.source_done || s.sink_done then (s, closed) else if is_full s then (s, full) else (
        record s { entries = s.entries ++ record { particle = particle; t1 = t1; t2 = t2 } ∷ [] },
        accepted,
      )

  abbrev pub is_alive : Option (PipeState A) → Bool
  is_alive none = false
  is_alive (some s) = true

  abbrev pub map_state : (PipeState A → PipeState A) → Option (PipeState A) → Option (PipeState A)
  map_state f none = none
  map_state f (some s) = some (f s)

  -- A change under the lock of one pipe.
  abbrev pub modify : ℕ → (PipeState A → PipeState A) → Store A → Store A
  modify n f s m = if m == n then map_state f (s m) else s m

  abbrev pub parents_of : Option (PipeState A) → List ℕ
  parents_of none = []
  parents_of (some s) = s.parents

  abbrev pub children_of : Option (PipeState A) → List ℕ
  children_of none = []
  children_of (some s) = s.children

  abbrev pub entries_of : Option (PipeState A) → List (PipeEntry A)
  entries_of none = []
  entries_of (some s) = s.entries

  -- A child that has a parent keeps it.
  unfoldable pub connect : ℕ → ℕ → Store A → Store A
  connect self child s =
      if is_empty (parents_of (s child))
      then modify self (λ p. record p { children = p.children ++ child ∷ [] })
          (modify child (λ c. record c { parents = c.parents ++ self ∷ [] }) s)
      else s

  -- The children that are alive and are not `child`.
  abbrev pub other_children : Store A → ℕ → PipeState A → PipeState A
  other_children s child p = record p {
    children = retain (λ k. is_alive (s k) && not (k == child)) p.children;
  }

  abbrev pub clear_parents : PipeState A → PipeState A
  clear_parents c = record c { parents = [] }

  unfoldable pub disconnect : ℕ → ℕ → Store A → Store A
  disconnect self child s = modify child clear_parents (modify self (other_children s child) s)

  unfoldable pub leave_parents : ℕ → List ℕ → Store A → Store A
  leave_parents self [] s = s
  leave_parents self (p ∷ ps) s = leave_parents self ps (modify p (other_children s self) s)

  unfoldable pub parent_disconnect : ℕ → Store A → Store A
  parent_disconnect self s = modify self clear_parents (leave_parents self (parents_of (s self)) s)
