-- ===== src/Lib.antt =====
-- SystemCorePortTest: a tree of cooperative processes, the terminal over which it is commanded, the
-- pipes between processes, the log, and the server over which all of it is watched.
--
-- The parts, and the file of the repository that each follows:
--
-- * Processing (src/processing.rs). `ProcessNode` objects behind `Arc` are numbers, and
--   `Processing.World` holds what lies behind the two locks of each. Processing/Calls has the
--   methods of `ProcessHandle` that change a runtime, Processing/Tick has `tree_tick` with what it
--   calls, Processing/Drive has the loops over ticks, the drivers' configuration and the global
--   destructors, Processing/Render has `process_tree_string`. The behaviours are the argument
--   `Behavior`: a hook answers with its new state, the calls that it made and its result.
--   Processing/Machine is the abstract view: the moves of one runtime and the steps of a tree. The
--   other modules hold the proofs: Quiet and Refines set the code against the machine, Lifecycle and
--   Progress are about its runs, Hierarchy and Total about termination, Quitting and Returning about
--   canceled processes, Verdict about what the drivers and destructors return, Soft, External and
--   Blocks about external drivers, Drawing about the text of the tree.
-- * Commanding (src/system_commanding.rs). Registry has `CommandRegistry`, Builtins the global
--   registry with the built-in commands, Numbers `parse_number`, HexDump the hex dump, Keys the
--   parser of escape sequences, Session the state of `SystemCommanding` with history, jumps and
--   completion, Ingest the loops of `ingest`. A handler is a name, and what it answers is the
--   argument `call`. A panic (an index out of range, a cut inside a character) is `none`. Safe,
--   Complete and Total are about panics and well-formed sessions; Editing sets the editor against a
--   zipper; Typing is about the bytes of keys, Registered, Ordered and Sorted about `register`,
--   LineEnds about the line ends of answers, Builtins/Names, Builtins/Help and Builtins/Lasting
--   about the names of the built-in commands and the list of all, Parsing about numerals,
--   HexDump/Reading and HexDump/RoundTrip about reading a dump.
-- * Pipe (src/pipe.rs). A pipe is a number in a `Store`; an absent number is a dropped pipe, whose
--   weak references fail. Pipe/Push has `to_push_try`; Changes and Delivered have its single steps,
--   Broadcast is about what it delivers, Closing about the end of the data, Links and Unlinks about
--   parents and children, Cycle about a pipe that is its own child.
-- * Net (src/net.rs). `TcpTransfering` over a `Socket`, which stands for the operating system's
--   non-blocking stream; Flush is about what it sends, Refusing about when that ends it, Reading and
--   Apart about what it receives. Listening has `TcpListening` over `Listeners`, Binding its `bind`
--   over `Sockets`, the calls of the crate socket2; Queue is about the queue of connections.
-- * Logging (src/logging.rs). The logger with the channels to its subscribers and the lines of the
--   console; FanOut and Delivery are about what a subscriber gets, Columns about the lines.
-- * Debugging (src/system_debugging.rs). The state of `SystemDebugging`; Starting has
--   `ensure_started` (Settling: what it comes to), Accepting `accept_peers`, Serving `peer_check`
--   and `command_peers_pump`, Broadcasting `send_process_tree` and `send_log_entries`, Listing the
--   lines in the process tree, Commands what `new` registers, Running `process`. Sending, Ending and
--   Delivering are about what peers are handed and why they go, Retaining about `retain_mut`,
--   Answering, Owed, Replying and Pumping about the command peers, Joining and Accepted about new
--   peers, Turning, Turned and Rounds about a whole call.
-- * Text has what the code uses of Rust's `str`: trimming, splitting, UTF-8 both ways, padding,
--   numerals and lines. Prelude has the shared names, Boolean tests on numbers and list operations.
--
-- A session calls the registry in `execute_line` and for completion; the registry calls handlers.
-- Processes meet only in the `World`: a hook sees it, and changes it through its calls. The debugging
-- process drives a session for each command peer, subscribes to the logger, and draws the tree of
-- the root, in which it appears by the lines that it cached before.
--
-- Fuel: `tree_tick` and `render_into` take the depth of the recursion (Processing/Total says how much
-- a hierarchy needs); `push_loop` takes the number of entries and one more, `accept_loop` the free
-- places of the queue and one more, `flush_loop` the number of waiting bytes and one more; the
-- debugging process computes the last two. The loops over rounds (`drive_until_finished`,
-- `internal_drive_loop`) take the number of rounds, since they may run for ever, and `read_loop` the
-- number of reads, which the peer decides.
--
-- Numbers: a port is a `u16` and a sum beyond it a panic; `usize` is taken with 64 bits where a text
-- is parsed, and its counters do not wrap.
--
-- Not modelled: `TcpTransfering::connect`, which resolves a name; `now_ms`; poisoned locks; the
-- effect of closing a socket that is dropped; interleavings of threads inside one tick, other than
-- by the relation of Processing/Machine; a hook that ticks a process itself; a destructor that
-- registers another one, which waits for the lock for ever. A handler of a session answers with a
-- text only, so the level commands of the debugging process are functions of their own. The memory
-- that the hex dump reads is an argument. src/lib.rs and src/single_wire.rs have no behaviour of
-- their own, and examples/hello_world.rs is an example.
pub mod Commanding
pub mod Debugging
pub mod Logging
pub mod Net
pub mod Pipe
pub mod Prelude
pub mod Processing
pub mod Text
