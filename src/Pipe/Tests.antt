-- ===== src/Pipe/Tests.antt =====
-- src/pipe.rs: two pipes, the second fed by the first.
use system_core_port_test.Prelude.{
  [], ◌∷◌, ap, ℕ, zero, suc, ◌≡◌, refl, Bool, false, none, some, arith, contains, if◌then◌else◌,
}
use system_core_port_test.Pipe.{
  disconnect, parent_disconnect, parents_of, Store, PipeState, pipe_new, connect, commit,
  source_done_set, map_state, modify, children_of,
}
use system_core_port_test.Pipe.Links.{Links, connect-Links}
use system_core_port_test.Pipe.Unlinks.{disconnect-Links, parent_disconnect-Links}
use system_core_port_test.Pipe.Cycle.{to_push_try_diverges}
use system_core_port_test.Pipe.Push.{to_push_try}
use system_core_port_test.Pipe.Broadcast.{Outcome, to_push_try-delivers}
use system_core_port_test.Pipe.Closing.{to_push_try-closes}

abbrev two_pipes : Store ℕ
two_pipes zero = some (pipe_new 4)
two_pipes (suc zero) = some (pipe_new 1)
two_pipes _ = none

-- The second pipe has room for one entry, and two wait in the first.
abbrev connected : Store ℕ
connected = connect 0 1 two_pipes

abbrev filled : Store ℕ
filled = modify 0 (λ s. (commit 8 0 0 (commit 7 1 2 s).0).0) connected

to_push_try-delivers_example :
    (r : Store ℕ × Bool) × (to_push_try 3 0 filled ≡ some r)
    × Outcome 0 (children_of (filled 0)) filled false r
unfolding connect commit
to_push_try-delivers_example =
    to_push_try-delivers 3 0 filled (refl, tt) refl refl refl (omega arith)

abbrev ended : Store ℕ
ended = modify 0 source_done_set connected

to_push_try-closes_example :
    (t : Store ℕ) × (to_push_try 1 0 ended ≡ some (t, false))
    × ((p : ℕ)
        → t p ≡ (
            if contains p (children_of (ended 0))
            then map_state source_done_set (ended p)
            else ended p))
unfolding connect
to_push_try-closes_example = to_push_try-closes 0 0 ended refl

two_pipes-children : (p : ℕ) → children_of (two_pipes p) ≡ []
two_pipes-children zero = refl
two_pipes-children (suc zero) = refl
two_pipes-children (suc (suc n)) = refl

two_pipes-parents : (p : ℕ) → parents_of (two_pipes p) ≡ []
two_pipes-parents zero = refl
two_pipes-parents (suc zero) = refl
two_pipes-parents (suc (suc n)) = refl

two_pipes-Links : Links two_pipes
two_pipes-Links = record {
  back = λ p c h a. absurd (cc (h, ap (contains c) (two_pipes-children p)));
  one = λ c. rw (two_pipes-parents c) (omega arith);
  distinct = λ p. rw (two_pipes-children p) tt;
}

connected-Links : Links connected
connected-Links = connect-Links 0 1 two_pipes refl refl two_pipes-Links

connect-Links_example : Links (connect 0 1 two_pipes)
connect-Links_example = connect-Links 0 1 two_pipes refl refl two_pipes-Links

disconnect-Links_example : Links (disconnect 0 1 connected)
unfolding connect
disconnect-Links_example = disconnect-Links 0 1 connected refl connected-Links

parent_disconnect-Links_example :
    Links (parent_disconnect 1 connected) × (parents_of (parent_disconnect 1 connected 1) ≡ [])
parent_disconnect-Links_example = parent_disconnect-Links 1 connected connected-Links

-- One entry in a pipe with room for four, connected to itself.
abbrev looped : Store ℕ
looped = modify 0 (λ s. (commit 7 1 2 s).0) (connect 0 0 two_pipes)

abbrev looped_pipe : PipeState ℕ
looped_pipe = record (pipe_new 4) {
  parents = 0 ∷ [];
  children = 0 ∷ [];
  entries = record { particle = 7; t1 = 1; t2 = 2 } ∷ [];
}

looped-at : looped 0 ≡ some looped_pipe
unfolding connect commit
looped-at = refl

to_push_try_diverges_example : to_push_try 1000 0 looped ≡ none
to_push_try_diverges_example =
    to_push_try_diverges 1000 0 looped looped_pipe looped-at refl (omega arith) (omega arith)
