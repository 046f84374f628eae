-- ===== src/Net/Tests.antt =====
-- src/net.rs: a socket that takes three bytes at a time, of six that it has room for.
use system_core_port_test.Prelude.{
  ℕ, zero, suc, subst, ◌+◌, ◌-◌, ◌≤◌, ◌≡◌, refl, sym, ap, ◌∙◌, none, some, [], ◌∷◌, ◌++◌, length,
  take, min, arith, if◌then◌else◌, ◌==◌, length-take, Bool-cases, inl, inr, ◌⊎◌, true,
}
use system_core_port_test.Net.{
  Bytes, Io, ok, Answer, answered, would_block, failed, Socket, TcpTransfering, from_stream,
  queue_send, read_available, err,
}
use system_core_port_test.Net.Listening.{
  Listeners, TcpListening, listening_new, max_conn_queued_set, accept_ready,
}
use system_core_port_test.Net.Queue.{Grown, accept_ready-Grown}
use system_core_port_test.Net.Reading.{Ordered, read_available-takes}
use system_core_port_test.Net.Flush.{Honest, queue_send-conserves}

-- The room of a step: three bytes, and six in all.
abbrev room : Bytes → ℕ
room taken = min 3 (6 - length taken)

abbrev small_write : Bytes → Bytes → Bytes × Answer ℕ
small_write bytes taken =
    if room taken == 0
    then (taken, would_block)
    else (taken ++ take (room taken) bytes, answered (length (take (room taken) bytes)))

abbrev small_socket : Socket Bytes
small_socket = record { write = small_write; read = λ size s. (s, would_block); shutdown = λ s. s }

abbrev same : Bytes → Bytes
same s = s

-- The case that the socket has room, and the case that it has none.
small_write-cases :
    (bs s : Bytes) (P : Bytes × Answer ℕ → Type 0)
    → P (s, would_block)
    → P (s ++ take (room s) bs, answered (length (take (room s) bs)))
    → P (small_write bs s)
small_write-cases bs s P h k = elim (Bool-cases (room s == 0)) [ inl e ↦ rw e h | inr e ↦ rw e k ]

take-length-take : (n : ℕ) (xs : Bytes) → take (length (take n xs)) xs ≡ take n xs
take-length-take zero xs = refl
take-length-take (suc n) [] = refl
take-length-take (suc n) (x ∷ xs) = ap (λ l. x ∷ l) (take-length-take n xs)

length-take_le : (n : ℕ) (xs : Bytes) → length (take n xs) ≤ length xs
length-take_le n xs = omega (arith, length-take n xs)

answered-eq : {m n : ℕ} → answered m ≡ answered n → m ≡ n
answered-eq h = cc

small_socket-Honest : Honest small_socket same
small_socket-Honest = record {
  write_le = λ bs s n.
      small_write-cases bs s (λ r. r.1 ≡ answered n → n ≤ length bs) (λ e. absurd (cc e))
        (λ e. subst (λ m. m ≤ length bs) (answered-eq e) (length-take_le (room s) bs));
  write_takes = λ bs s n.
      small_write-cases bs s (λ r. r.1 ≡ answered n → r.0 ≡ s ++ take n bs) (λ e. absurd (cc e))
        (λ e.
          ap (λ l. s ++ l)
            (sym (take-length-take (room s) bs) ∙ ap (λ m. take m bs) (answered-eq e)));
  write_blocks = λ bs s.
      small_write-cases bs s (λ r. r.1 ≡ would_block → r.0 ≡ s) (λ e. refl) (λ e. absurd (cc e));
  write_fails = λ bs s c.
      small_write-cases bs s (λ r. r.1 ≡ failed c → r.0 ≡ s) (λ e. refl) (λ e. absurd (cc e));
}

abbrev fresh : TcpTransfering Bytes ℕ
fresh = from_stream [] none none

abbrev eight : Bytes
eight = 1 ∷ 2 ∷ 3 ∷ 4 ∷ 5 ∷ 6 ∷ 7 ∷ 8 ∷ []

queue_send-conserves_example :
    (r : TcpTransfering Bytes ℕ × Io (Unit {0})) × (queue_send small_socket 9 eight fresh ≡ some r)
    × (r.0.stream ++ r.0.pending_write ≡ eight)
    × (r.0.bytes_sent + 0 ≡ 0 + length r.0.stream)
queue_send-conserves_example =
    queue_send-conserves small_socket same small_socket-Honest 9 eight fresh (omega arith)

-- Connections that wait at every listener alike; the state is how many there are.
abbrev take_one : ℕ → ℕ × Answer ℕ
take_one zero = (0, would_block)
take_one (suc n) = (n, answered n)

abbrev crowd : Listeners ℕ ℕ ℕ
crowd = record { accept = λ listener. take_one; adopt = λ stream. ok (stream, none, none) }

-- Room for two, and three who wait.
abbrev two_places : TcpListening ℕ ℕ
two_places = max_conn_queued_set 2 (listening_new (0 ∷ 1 ∷ []) [])

accept_ready-Grown_example :
    (r : ℕ × TcpListening ℕ ℕ × Io ℕ) × (accept_ready crowd 3 3 two_places ≡ some r)
    × Grown crowd two_places r.1
    × ((n : ℕ) → r.2 ≡ ok n → n + two_places.connections_created ≡ r.1.connections_created)
unfolding max_conn_queued_set
accept_ready-Grown_example = accept_ready-Grown crowd 3 3 two_places (omega arith)

-- A peer whose bytes arrive one by one; the state is what has not been read.
abbrev one_read : ℕ → Bytes → Bytes × Answer Bytes
one_read zero s = (s, answered [])
one_read (suc n) [] = ([], would_block)
one_read (suc n) (b ∷ bs) = (bs, answered (b ∷ []))

abbrev slow_socket : Socket Bytes
slow_socket = record { write = λ bytes s. (s, would_block); read = one_read; shutdown = λ s. s }

answered-bytes : {a b : Bytes} → answered a ≡ answered b → a ≡ b
answered-bytes h = cc

one_read_takes :
    (n : ℕ) (s bs : Bytes) → (one_read n s).1 ≡ answered bs → s ≡ bs ++ (one_read n s).0
one_read_takes zero s bs e = rw (sym (answered-bytes e)) refl
one_read_takes (suc n) [] bs e = cc
one_read_takes (suc n) (b ∷ s) bs e = rw (sym (answered-bytes e)) refl

one_read_blocks : (n : ℕ) (s : Bytes) → (one_read n s).1 ≡ would_block → s ≡ (one_read n s).0
one_read_blocks zero s e = refl
one_read_blocks (suc n) [] e = refl
one_read_blocks (suc n) (b ∷ s) e = cc

one_read_fails : (n : ℕ) (s : Bytes) (c : ℕ) → (one_read n s).1 ≡ failed c → s ≡ (one_read n s).0
one_read_fails zero s c e = refl
one_read_fails (suc n) [] c e = refl
one_read_fails (suc n) (b ∷ s) c e = cc

slow_socket-Ordered : Ordered slow_socket same
slow_socket-Ordered = record {
  read_takes = one_read_takes;
  read_blocks = one_read_blocks;
  read_fails = one_read_fails;
}

abbrev sending : TcpTransfering Bytes ℕ
sending = from_stream eight none none

read_available-takes_example :
    (r : TcpTransfering Bytes ℕ × Io Bytes) × (read_available slow_socket 9 sending ≡ some r)
    × ((got : Bytes) × (eight ≡ got ++ r.0.stream)
        × (r.0.bytes_received ≡ 0 + length got)
        × (r.0.pending_write ≡ [])
        × ((r.1 ≡ ok got) ⊎ ((e : ℕ) × (r.1 ≡ err e) × (r.0.done ≡ true))))
read_available-takes_example =
    read_available-takes slow_socket same slow_socket-Ordered 9 sending (omega arith)
