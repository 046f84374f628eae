-- ===== src/Debugging/Delivering.antt =====
-- src/system_debugging.rs: what the peers get of a broadcast, and of the entries of the log.
use system_core_port_test.Prelude.{
  ℕ, ◌≡◌, ◌⊎◌, refl, sym, ap, ◌∙◌, inl, inr, Bool, true, false, some, List, [], ◌∷◌, ◌++◌, ltb,
  if◌then◌else◌, if_yes, arith, All, ==_iff, Bool-cases, append_assoc, append-nil,
}
use system_core_port_test.Text.{Bytes}
use system_core_port_test.Logging.{LogEntry, number, Logger}
use system_core_port_test.Net.{Socket}
use system_core_port_test.Debugging.{PeerType, log, Peer, SystemDebugging, is_open, retain_mut}
use system_core_port_test.Debugging.Broadcasting.{
  same_kind, send_to_peer, send_to_all, entry_bytes, drained, drain_log, send_entries,
  send_log_entries,
}
use system_core_port_test.Debugging.Sending.{Stream, handed, if_kind, Gone, send_to_peer-Gets}

-- What the entries up to a level come to.
abbrev pub entries_bytes : ℕ → List LogEntry → Bytes
entries_bytes level [] = []
entries_bytes level (e ∷ es) =
    if ltb level (number e.severity)
    then entries_bytes level es
    else entry_bytes e ++ entries_bytes level es

abbrev pub AllOpen : {S : Type 0} → List (Peer S) → Type 0
AllOpen = All (λ p. is_open p.connection ≡ true)

module _ {S : Type 0} (socket : Socket S) (taken : S → Bytes) (stream : Stream socket taken) where
  -- A peer of the kind that stays is open and was handed all that was said; a peer of the other kind stays
  -- as it is. Only a peer of the kind goes, and only because its stream refused to take what waits; it
  -- was handed a front of what was said. The order stays.
  pub data Served (kind : PeerType) (said : Bytes) : List (Peer S) → List (Peer S) → Type 0 where
    nobody : Served kind said [] []
    stays :
        (p q : Peer S) {ps qs : List (Peer S)}
        → is_open q.connection ≡ true
        → q.kind ≡ p.kind
        → handed socket taken stream q.connection
          ≡ handed socket taken stream p.connection ++ if_kind socket taken stream kind p said
        → (same_kind p.kind kind ≡ false → q ≡ p)
        → Served kind said ps qs
        → Served kind said (p ∷ ps) (q ∷ qs)
    goes :
        (p q : Peer S) (front back : Bytes) {ps qs : List (Peer S)}
        → same_kind p.kind kind ≡ true
        → Gone socket taken stream q.connection
        → said ≡ front ++ back
        → handed socket taken stream q.connection ≡ handed socket taken stream p.connection ++ front
        → Served kind said ps qs
        → Served kind said (p ∷ ps) qs

  -- Which of the two becomes of an open peer.
  served_lem :
      (kind : PeerType) (said : Bytes) (p q : Peer S) (keep : Bool) (ps qs : List (Peer S))
      → p.connection.done ≡ false
      → keep ≡ is_open q.connection
      → q.kind ≡ p.kind
      → handed socket taken stream q.connection
        ≡ handed socket taken stream p.connection ++ if_kind socket taken stream kind p said
      → (q.connection.done ≡ false) ⊎ Gone socket taken stream q.connection
      → (same_kind p.kind kind ≡ false → q ≡ p)
      → Served kind said ps qs
      → Served kind said (p ∷ ps) (if keep then q ∷ qs else qs)
  served_lem kind said p q true ps qs o k same h g other s = stays p q (sym k) same h other s
  served_lem kind said p q false ps qs o k same h (inl d) other s = absurd (cc (rw d at k))
  served_lem kind said p q false ps qs o k same h (inr g) other s =
      elim (Bool-cases (same_kind p.kind kind)) [
        | inl e ↦ goes p q said [] e g (sym (append-nil said)) (rw e at h) s
        | inr e ↦ let d : q.connection.done ≡ false = rw (other e) o in absurd (cc (rw d at k))
      ]

  send_all-Served :
      (kind : PeerType) (said : Bytes) (ps : List (Peer S))
      → AllOpen ps
      → (qs : List (Peer S)) × (retain_mut (send_to_peer socket kind said) ps ≡ some qs)
        × Served kind said ps qs
  unfolding retain_mut
  send_all-Served kind said [] a = ([], refl, nobody)
  send_all-Served kind said (p ∷ ps) a =
      let d : p.connection.done ≡ false = ground (arith, a.0) in
      let ((q, keep), e, k, same, h, g, other) =
        send_to_peer-Gets socket taken stream kind said p d in
      let (qs, f, s) = send_all-Served kind said ps a.1 in
      (
        if keep then q ∷ qs else qs,
        rw (e, f) refl,
        served_lem kind said p q keep ps qs d k same h g other s,
      )

  pub send_to_all-Served :
      (kind : PeerType) (said : Bytes) (d : SystemDebugging S)
      → AllOpen d.peers
      → (qs : List (Peer S)) × (send_to_all socket kind said d ≡ some (record d { peers = qs }))
        × Served kind said d.peers qs
  unfolding send_to_all
  send_to_all-Served kind said d a =
      let (qs, e, s) = send_all-Served kind said d.peers a in (qs, rw e refl, s)

  if_kind-append :
      (kind : PeerType) (p q : Peer S) (a b : Bytes)
      → q.kind ≡ p.kind
      → if_kind socket taken stream kind p (a ++ b)
        ≡ if_kind socket taken stream kind p a ++ if_kind socket taken stream kind q b
  if_kind-append kind p q a b e =
      rw e
        (elim (same_kind p.kind kind)
          as (λ x. (if x then a ++ b else []) ≡ (if x then a else []) ++ (if x then b else [])) [
            | true ↦ refl
            | false ↦ refl
          ])

  chained :
      (kind : PeerType) (p q : Peer S) (x y z a b : Bytes)
      → q.kind ≡ p.kind
      → y ≡ x ++ if_kind socket taken stream kind p a
      → z ≡ y ++ if_kind socket taken stream kind q b
      → z ≡ x ++ if_kind socket taken stream kind p (a ++ b)
  chained kind p q x y z a b e f g =
      g
      ∙ ap (λ t. t ++ if_kind socket taken stream kind q b) f
      ∙ append_assoc x (if_kind socket taken stream kind p a) (if_kind socket taken stream kind q b)
      ∙ ap (λ t. x ++ t) (sym (if_kind-append kind p q a b e))

  -- One broadcast after the other.
  Served-trans :
      (kind : PeerType) (a b : Bytes) (ps qs rs : List (Peer S))
      → Served kind a ps qs
      → Served kind b qs rs
      → Served kind (a ++ b) ps rs
  Served-trans kind a b ps qs rs nobody nobody = nobody
  Served-trans kind a b ps qs rs (goes p q front back m g f h s) t =
      goes p q front (back ++ b) m g (ap (λ x. x ++ b) f ∙ append_assoc front back b) h
        (Served-trans kind a b _ qs rs s t)
  Served-trans kind a b ps qs rs (stays p q o same h k s) (stays q' r o2 same2 h2 k2 t) =
      stays p r o2 (same2 ∙ same) (chained kind p q _ _ _ a b same h h2)
        (λ e. k2 (ap (λ x. same_kind x kind) same ∙ e) ∙ k e) (Served-trans kind a b _ _ _ s t)
  Served-trans kind a b ps qs rs (stays p q o same h k s) (goes q' r front back m g f h2 t) =
      let n : same_kind p.kind kind ≡ true = ap (λ x. same_kind x kind) (sym same) ∙ m in
      goes p r (a ++ front) back n g (ap (λ x. a ++ x) f ∙ sym (append_assoc a front back))
        (h2
          ∙ ap (λ x. x ++ front) h
          ∙ append_assoc (handed socket taken stream p.connection)
              (if_kind socket taken stream kind p a) front
          ∙ ap (λ x. handed socket taken stream p.connection ++ (x ++ front)) (if_yes [] n refl))
        (Served-trans kind a b _ _ rs s t)

  unsaid : (kind : PeerType) (p : Peer S) → if_kind socket taken stream kind p [] ≡ []
  unsaid kind p = ground arith

  Served_refl : (kind : PeerType) (ps : List (Peer S)) → AllOpen ps → Served kind [] ps ps
  Served_refl kind [] h = nobody
  Served_refl kind (p ∷ ps) h =
      stays p p h.0 refl
        (sym (append-nil _)
          ∙ ap (λ x. handed socket taken stream p.connection ++ x) (sym (unsaid kind p)))
        (λ k. refl) (Served_refl kind ps h.1)

  pub Served-AllOpen :
      (kind : PeerType) (said : Bytes) (ps qs : List (Peer S)) → Served kind said ps qs → AllOpen qs
  Served-AllOpen kind said ps qs nobody = tt
  Served-AllOpen kind said ps qs (stays p q o same h k s) = (o, Served-AllOpen kind said _ _ s)
  Served-AllOpen kind said ps qs (goes p q front back m g f h s) = Served-AllOpen kind said _ qs s

  send_entries-Served :
      (level : ℕ) (es : List LogEntry) (d : SystemDebugging S)
      → AllOpen d.peers
      → (qs : List (Peer S)) × (send_entries socket level es d ≡ some (record d { peers = qs }))
        × Served log (entries_bytes level es) d.peers qs
  unfolding send_entries
  send_entries-Served level [] d o = (d.peers, refl, Served_refl log d.peers o)
  send_entries-Served level (e ∷ es) d o = elim (Bool-cases (ltb level (number e.severity))) [
    | inl quiet ↦ let (qs, f, s) = send_entries-Served level es d o in (qs, rw quiet f, rw quiet s)
    | inr loud ↦
        let (qs, f, s) = send_to_all-Served log (entry_bytes e) d o in
        let (rs, g, t) =
          send_entries-Served level es (record d { peers = qs })
            (Served-AllOpen log (entry_bytes e) d.peers qs s) in
        (
          rs,
          rw (loud, f) g,
          rw loud (Served-trans log (entry_bytes e) (entries_bytes level es) d.peers qs rs s t),
        )
  ]

  -- Where all peers are open, as `peer_check` leaves them, and the log is subscribed,
  -- `send_log_entries` returns and empties the channel. Each log peer that stays was handed the lines of
  -- all entries of the channel up to the level of the sockets, in their order and nothing else, and is
  -- open. A peer is dropped only if it is a log peer and its stream refused to take what waits, with an
  -- error or by taking nothing; it was handed a front of these lines. The peers of the process tree stay
  -- as they are, and so do the order of the peers and the rest of the process. The sockets take prefixes of
  -- what is written.
  pub send_log_entries-Served :
      (level : ℕ) (d : SystemDebugging S) (l : Logger) (c : ℕ)
      → d.log_rx ≡ some c
      → AllOpen d.peers
      → (qs : List (Peer S)) × (send_log_entries socket level d l
          ≡ some (record d { peers = qs }, drained c l))
        × Served log (entries_bytes level (l.channels.queue c)) d.peers qs
        × ((drained c l).channels.queue c ≡ [])
  unfolding send_log_entries
  send_log_entries-Served level d l c e o =
      let (qs, f, s) = send_entries-Served level (l.channels.queue c) d o in
      (qs, ap (drain_log socket level d l) e ∙ rw f refl, s, rw ((==_iff c c).1 refl) refl)
