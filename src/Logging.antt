-- ===== src/Logging.antt =====
-- src/logging.rs. The `mpsc` channels are numbers; `Channels` has what each holds and whether its
-- receiver is still there. The clock is an argument: `now` is the time since the start, in nanoseconds.
-- `emit` holds the lock of the logger until it returns, so its effects are one step.
pub mod FanOut
pub mod Delivery
pub mod Columns
mod Tests
use system_core_port_test.Prelude.{
  ℕ, zero, suc, ◌+◌, ◌/◌, Bool, true, false, Option, none, some, List, [], ◌∷◌, ◌++◌, ◌==◌, leb,
  if◌then◌else◌,
}
use system_core_port_test.Text.{Text, pad_left, pad_right, decimal}

pub data LogSeverity : Type 0 where
  error warn info debug core : LogSeverity

-- `severity as usize`; the derived order follows it.
abbrev pub number : LogSeverity → ℕ
number error = 1
number warn = 2
number info = 3
number debug = 4
number core = 5

abbrev pub label : LogSeverity → Text
label error = 69 ∷ 82 ∷ 82 ∷ []
label warn = 87 ∷ 82 ∷ 78 ∷ []
label info = 73 ∷ 78 ∷ 70 ∷ []
label debug = 68 ∷ 66 ∷ 71 ∷ []
label core = 67 ∷ 79 ∷ 82 ∷ []

pub record LogEntry : Type 0 where
  pub severity : LogSeverity
  pub process : Option Text
  pub elapsed : ℕ
  pub message : Text

pub record LoggerState : Type 0 where
  pub console_level : LogSeverity
  pub subscribers : List ℕ

-- The channels from `next` on do not exist yet.
pub record Channels : Type 0 where
  pub next : ℕ
  pub queue : ℕ → List LogEntry
  pub alive : ℕ → Bool

-- The logger, the channels to its subscribers, and the lines on the two standard streams.
pub record Logger : Type 0 where
  pub state : LoggerState
  pub channels : Channels
  pub stdout : List Text
  pub stderr : List Text

abbrev pub logger_state_new : LoggerState
logger_state_new = record { console_level = info; subscribers = [] }

abbrev pub logger_new : Logger
logger_new = record {
  state = logger_state_new;
  channels = record { next = 0; queue = λ c. []; alive = λ c. false };
  stdout = [];
  stderr = [];
}

unfoldable pub severity_of : ℕ → LogSeverity
severity_of level =
    if leb level 1
    then error
    else if level == 2
    then warn
    else if level == 3
    then info
    else if level == 4
    then debug
    else core

unfoldable pub level_log_set : ℕ → Logger → Logger
level_log_set level l = record l { state = record l.state { console_level = severity_of level } }

abbrev pub level_log : Logger → LogSeverity
level_log l = l.state.console_level

abbrev pub set_queue : ℕ → List LogEntry → Channels → Channels
set_queue c q ch = record ch { queue = λ d. if d == c then q else ch.queue d }

abbrev open_channel : Channels → Channels
open_channel ch = record {
  next = suc ch.next;
  queue = λ d. if d == ch.next then [] else ch.queue d;
  alive = λ d. if d == ch.next then true else ch.alive d;
}

-- The new channel is the second result.
unfoldable pub subscribe_logs : Logger → Logger × ℕ
subscribe_logs l = (
  record l {
    state = record l.state { subscribers = l.state.subscribers ++ l.channels.next ∷ [] };
    channels = open_channel l.channels;
  },
  l.channels.next,
)

-- The receiver is dropped.
unfoldable pub drop_receiver : ℕ → Logger → Logger
drop_receiver c l = record l {
  channels = record l.channels { alive = λ d. if d == c then false else l.channels.alive d };
}

-- `Sender::send`: is it `ok`?
unfoldable pub send : LogEntry → ℕ → Channels → Channels × Bool
send entry c ch =
    if ch.alive c then (set_queue c (ch.queue c ++ entry ∷ []) ch, true) else (ch, false)

-- `retain` over the subscribers, with the sending that its test does.
unfoldable pub send_all : LogEntry → List ℕ → Channels → Channels × List ℕ
send_all entry [] ch = (ch, [])
send_all entry (c ∷ cs) ch =
    let (sent, ok) = send entry c ch in
    let (rest, kept) = send_all entry cs sent in (rest, if ok then c ∷ kept else kept)

abbrev pub name_or_dash : Option Text → Text
name_or_dash none = 45 ∷ []
name_or_dash (some process) = process

abbrev pub as_millis : ℕ → ℕ
as_millis elapsed = elapsed / 1_000_000

-- `{severity:<3}` pads nothing: `Display` writes the label as it is.
unfoldable pub log_line : LogEntry → Text
log_line e =
    pad_left 8 (decimal (as_millis e.elapsed))
    ++ ((32 ∷ 32 ∷ [])
        ++ (pad_right 24 (name_or_dash e.process)
            ++ ((32 ∷ label e.severity) ++ (32 ∷ 32 ∷ e.message))))

unfoldable pub print_line : LogEntry → Logger → Logger
print_line e l =
    if leb (number e.severity) (number warn)
    then record l { stderr = l.stderr ++ log_line e ∷ [] }
    else record l { stdout = l.stdout ++ log_line e ∷ [] }

abbrev pub entry_of : LogSeverity → Option Text → ℕ → Text → LogEntry
entry_of severity process now message = record {
  severity = severity;
  process = process;
  elapsed = now;
  message = message;
}

unfoldable pub emit : LogSeverity → Option Text → ℕ → Text → Logger → Logger
emit severity process now message l =
    let entry = entry_of severity process now message in
    let printed =
      if leb (number severity) (number l.state.console_level) then print_line entry l else l in
    let (channels, kept) = send_all entry printed.state.subscribers printed.channels in
    record printed { state = record printed.state { subscribers = kept }; channels = channels }

abbrev pub user_error : ℕ → Text → Logger → Logger
user_error now message = emit error none now message

abbrev pub user_warn : ℕ → Text → Logger → Logger
user_warn now message = emit warn none now message

abbrev pub user_info : ℕ → Text → Logger → Logger
user_info now message = emit info none now message

abbrev pub user_debug : ℕ → Text → Logger → Logger
user_debug now message = emit debug none now message
