-- ===== src/Debugging/Streams.antt =====
-- src/system_debugging.rs: two streams for the tests, which take whole buffers.
use system_core_port_test.Prelude.{
  ℕ, ◌≡◌, refl, sym, Option, none, some, [], ◌∷◌, ◌++◌, arith, length, take, ◌<◌,
}
use system_core_port_test.Text.{Bytes}
use system_core_port_test.Net.{Answer, answered, would_block, failed, Socket}
use system_core_port_test.Net.Flush.{Honest}
use system_core_port_test.Debugging.Owed.{Duplex}

-- What a peer still sends, and what it was sent.
abbrev pub Wire : Type 0
Wire = Bytes × Bytes

abbrev pub wire_read : Bytes → Bytes → Wire × Answer Bytes
wire_read [] o = (([], o), would_block)
wire_read (b ∷ bs) o = ((bs, o), answered (b ∷ []))

abbrev pub wire : Socket Wire
wire = record {
  write = λ bytes s. ((s.0, s.1 ++ bytes), answered (length bytes));
  read = λ size s. wire_read s.0 s.1;
  shutdown = λ s. s;
}

abbrev pub arrived : Wire → Bytes
arrived s = s.1

abbrev pub unread : Wire → Bytes
unread s = s.0

answered-eq : {A : Type 0} {a b : A} → answered a ≡ answered b → a ≡ b
answered-eq h = cc

take_all : (bs : Bytes) → take (length bs) bs ≡ bs
take_all [] = refl
take_all (b ∷ bs) = rw (take_all bs) refl

pub wire-Honest : Honest wire arrived
wire-Honest = record {
  write_le = λ bs s n e. omega (arith, answered-eq e);
  write_takes = λ bs s n e. rw (sym (answered-eq e), take_all bs) refl;
  write_blocks = λ bs s e. absurd (cc e);
  write_fails = λ bs s n e. absurd (cc e);
}

wire_read_takes : (i o bs : Bytes) → (wire_read i o).1 ≡ answered bs → i ≡ bs ++ (wire_read i o).0.0
wire_read_takes [] o bs e = cc
wire_read_takes (b ∷ i) o bs e = rw (sym (answered-eq e)) refl

wire_read_blocks : (i o : Bytes) → (wire_read i o).1 ≡ would_block → i ≡ (wire_read i o).0.0
wire_read_blocks [] o e = refl
wire_read_blocks (b ∷ i) o e = cc

wire_read_fails : (i o : Bytes) (n : ℕ) → (wire_read i o).1 ≡ failed n → i ≡ (wire_read i o).0.0
wire_read_fails [] o n e = refl
wire_read_fails (b ∷ i) o n e = cc

wire_read_apart : (i o : Bytes) → (wire_read i o).0.1 ≡ o
wire_read_apart [] o = refl
wire_read_apart (b ∷ i) o = refl

pub wire-Duplex : Duplex wire arrived unread
wire-Duplex = record {
  stream = record { honest = wire-Honest; shutdown_takes = λ s. refl };
  ordered = record {
    read_takes = λ n s. wire_read_takes s.0 s.1;
    read_blocks = λ n s. wire_read_blocks s.0 s.1;
    read_fails = λ n s. wire_read_fails s.0 s.1;
  };
  apart = λ n s. wire_read_apart s.0 s.1;
}

-- A stream that holds one byte of what its peer sends, at most; and what the peer was sent.
abbrev pub Cell : Type 0
Cell = Option ℕ × Bytes

abbrev pub cell_read : Option ℕ → Bytes → Cell × Answer Bytes
cell_read none o = ((none, o), would_block)
cell_read (some b) o = ((none, o), answered (b ∷ []))

abbrev pub cell : Socket Cell
cell = record {
  write = λ bytes s. ((s.0, s.1 ++ bytes), answered (length bytes));
  read = λ size s. cell_read s.0 s.1;
  shutdown = λ s. s;
}

abbrev pub cell_arrived : Cell → Bytes
cell_arrived s = s.1

abbrev pub held : Option ℕ → Bytes
held none = []
held (some b) = b ∷ []

abbrev pub cell_unread : Cell → Bytes
cell_unread s = held s.0

pub held-short : (o : Option ℕ) → length (held o) < 2
held-short none = omega arith
held-short (some b) = omega arith

pub cell-Honest : Honest cell cell_arrived
cell-Honest = record {
  write_le = λ bs s n e. omega (arith, answered-eq e);
  write_takes = λ bs s n e. rw (sym (answered-eq e), take_all bs) refl;
  write_blocks = λ bs s e. absurd (cc e);
  write_fails = λ bs s n e. absurd (cc e);
}

cell_read_takes :
    (i : Option ℕ) (o bs : Bytes)
    → (cell_read i o).1 ≡ answered bs
    → held i ≡ bs ++ held (cell_read i o).0.0
cell_read_takes none o bs e = cc
cell_read_takes (some b) o bs e = rw (sym (answered-eq e)) refl

cell_read_blocks :
    (i : Option ℕ) (o : Bytes) → (cell_read i o).1 ≡ would_block → held i ≡ held (cell_read i o).0.0
cell_read_blocks none o e = refl
cell_read_blocks (some b) o e = cc

cell_read_fails :
    (i : Option ℕ) (o : Bytes) (n : ℕ)
    → (cell_read i o).1 ≡ failed n
    → held i ≡ held (cell_read i o).0.0
cell_read_fails none o n e = refl
cell_read_fails (some b) o n e = cc

cell_read_apart : (i : Option ℕ) (o : Bytes) → (cell_read i o).0.1 ≡ o
cell_read_apart none o = refl
cell_read_apart (some b) o = refl

pub cell-Duplex : Duplex cell cell_arrived cell_unread
cell-Duplex = record {
  stream = record { honest = cell-Honest; shutdown_takes = λ s. refl };
  ordered = record {
    read_takes = λ n s. cell_read_takes s.0 s.1;
    read_blocks = λ n s. cell_read_blocks s.0 s.1;
    read_fails = λ n s. cell_read_fails s.0 s.1;
  };
  apart = λ n s. cell_read_apart s.0 s.1;
}
