-- ===== src/Logging/Columns.antt =====
-- src/logging.rs: what reaches the console, and the columns of a line.
use system_core_port_test.Prelude.{
  ℕ, zero, suc, ◌-◌, ◌≤◌, ◌<◌, ◌≡◌, refl, ◌&&◌, Option, [], ◌∷◌, ◌++◌, leb, if◌then◌else◌, max,
  arith, length, length-append, append_assoc,
}
use system_core_port_test.Text.{Text, spaces, pad_left, pad_right, decimal}
use system_core_port_test.Text.Decimal.{decimal-length}
use system_core_port_test.Logging.{
  LogSeverity, error, warn, info, debug, core, number, LogEntry, Logger, severity_of, level_log_set,
  print_line, entry_of, log_line, emit, name_or_dash, as_millis, label,
}

-- After `level_log_set` an entry is printed as one line if its severity is at most that level, where 0
-- counts as 1; errors and warnings go to the standard error, the others to the standard output, and
-- nothing else is printed.
pub level_log_set-emit :
    (level : ℕ) (severity : LogSeverity) (process : Option Text) (now : ℕ) (message : Text)
    (l : Logger)
    → let v = emit severity process now message (level_log_set level l) in
      let line = log_line (entry_of severity process now message) in
      (v.stderr ≡ (
        if leb (number severity) (max level 1) && leb (number severity) 2
        then l.stderr ++ line ∷ []
        else l.stderr))
      × (v.stdout ≡ (
          if leb (number severity) (max level 1) && leb 3 (number severity)
          then l.stdout ++ line ∷ []
          else l.stdout))
unfolding emit level_log_set print_line severity_of
level_log_set-emit level error process now message l = ground arith
level_log_set-emit level warn process now message l = ground arith
level_log_set-emit level info process now message l = ground arith
level_log_set-emit level debug process now message l = ground arith
level_log_set-emit level core process now message l = ground arith

length-spaces : (n : ℕ) → length (spaces n) ≡ n
length-spaces zero = refl
length-spaces (suc n) = omega (arith, length-spaces n)

-- Where less than 10 ^ 8 milliseconds have passed since the start and the process has a name of 24
-- characters at most, the message of a line begins at column 40, whatever the severity.
pub log_line-columns :
    (e : LogEntry)
    → e.elapsed < 100_000_000_000_000
    → length (name_or_dash e.process) ≤ 24
    → (front : Text) × (log_line e ≡ front ++ e.message) × (length front ≡ 40)
unfolding log_line pad_left pad_right
log_line-columns e short named =
    let ms = decimal (as_millis e.elapsed) in
    let name = name_or_dash e.process in
    let digits : length ms ≤ 8 = decimal-length 7 (as_millis e.elapsed) (omega arith) in
    let time = spaces (8 - length ms) ++ ms in
    let column = name ++ spaces (24 - length name) in
    let end : Text = 32 ∷ (label e.severity ++ 32 ∷ 32 ∷ []) in
    let three : length (label e.severity) ≡ 3 = length-label e.severity in
    (
      time ++ ((32 ∷ 32 ∷ []) ++ (column ++ end)),
      simp append_assoc refl,
      omega (
        arith,
        length-append time ((32 ∷ 32 ∷ []) ++ (column ++ end)),
        length-append (spaces (8 - length ms)) ms,
        length-append column end,
        length-append name (spaces (24 - length name)),
        length-spaces (8 - length ms),
        length-spaces (24 - length name),
        length-append (label e.severity) (32 ∷ 32 ∷ []),
      ),
    )
  where
    length-label : (s : LogSeverity) → length (label s) ≡ 3
    length-label error = refl
    length-label warn = refl
    length-label info = refl
    length-label debug = refl
    length-label core = refl
