-- ===== src/Net/Binding.antt =====
-- src/net.rs: `TcpListening::bind`. The crate `socket2` and the operating system below it are the
-- argument `Sockets`, with the calls that the code makes; `W` is the state of that system. An address is
-- an IP address as it is printed, and a port.
use system_core_port_test.Prelude.{ℕ, Bool, true, false, List, [], ◌∷◌, ◌++◌, if◌then◌else◌}
use system_core_port_test.Text.{Text, decimal}
use system_core_port_test.Net.{Io, ok, err}
use system_core_port_test.Net.Listening.{TcpListening, listening_new}

pub data SocketAddr : Type 0 where
  v4 v6 : (ip : Text) (port : ℕ) → SocketAddr

pub record Sockets (W K : Type 0) : Type 0 where
  pub socket_new : (ipv4 : Bool) → W → W × Io K
  pub set_only_v6 : K → W → W × Io (Unit {0})
  pub set_reuse_address : K → W → W × Io (Unit {0})
  pub set_nonblocking : K → W → W × Io (Unit {0})
  pub bind_to : K → SocketAddr → W → W × Io (Unit {0})
  pub listen : K → ℕ → W → W × Io (Unit {0})
  pub listener_of : K → ℕ
  pub local_addr : ℕ → W → W × Io SocketAddr

-- "?" after a call.
infixl 5 ◌>>?◌
abbrev pub ◌>>?◌ : {W A B : Type 0} → W × Io A → (A → W → W × Io B) → W × Io B
(w, ok a) >>? f = f a w
(w, err e) >>? f = (w, err e)

abbrev pub is_ipv4 : SocketAddr → Bool
is_ipv4 (v4 ip port) = true
is_ipv4 (v6 ip port) = false

-- "127.0.0.1", `Ipv4Addr::LOCALHOST`
abbrev pub localhost_v4 : Text
localhost_v4 = 49 ∷ 50 ∷ 55 ∷ 46 ∷ 48 ∷ 46 ∷ 48 ∷ 46 ∷ 49 ∷ []

-- "0.0.0.0", `Ipv4Addr::UNSPECIFIED`
abbrev pub unspecified_v4 : Text
unspecified_v4 = 48 ∷ 46 ∷ 48 ∷ 46 ∷ 48 ∷ 46 ∷ 48 ∷ []

-- "::1", `Ipv6Addr::LOCALHOST`
abbrev pub localhost_v6 : Text
localhost_v6 = 58 ∷ 58 ∷ 49 ∷ []

-- "::", `Ipv6Addr::UNSPECIFIED`
abbrev pub unspecified_v6 : Text
unspecified_v6 = 58 ∷ 58 ∷ []

-- An address in a text.
unfoldable pub format_socket_addr : SocketAddr → Text
format_socket_addr (v4 ip port) = ip ++ (58 ∷ decimal port)
format_socket_addr (v6 ip port) = (91 ∷ ip) ++ (93 ∷ 58 ∷ decimal port)

-- `join(", ")`
unfoldable pub join_comma : List Text → Text
join_comma [] = []
join_comma (t ∷ []) = t
join_comma (t ∷ u ∷ ts) = t ++ (44 ∷ 32 ∷ join_comma (u ∷ ts))

abbrev pub format_all : List SocketAddr → List Text
format_all [] = []
format_all (a ∷ as') = format_socket_addr a ∷ format_all as'

unfoldable pub address_summary : {S : Type 0} → TcpListening S SocketAddr → Text
address_summary t = join_comma (format_all t.bind_addrs)

module _ {W K : Type 0} (sockets : Sockets W K) where
  abbrev pub only_v6 : SocketAddr → K → W → W × Io (Unit {0})
  only_v6 (v4 ip port) socket w = (w, ok tt)
  only_v6 (v6 ip port) socket w = sockets.set_only_v6 socket w

  unfoldable pub bind_one : SocketAddr → W → W × Io (ℕ × SocketAddr)
  bind_one addr w = sockets.socket_new (is_ipv4 addr) w >>? (λ socket v.
      only_v6 addr socket v >>? (λ _ v. sockets.set_reuse_address socket v >>? (λ _ v.
        sockets.set_nonblocking socket v >>? (λ _ v. sockets.bind_to socket addr v >>? (λ _ v.
          sockets.listen socket 8192 v >>? (λ _ v.
            sockets.local_addr (sockets.listener_of socket) v
            >>? (λ at v. (v, ok (sockets.listener_of socket, at)))))))))

  abbrev pub with_v6 :
      {S : Type 0} → ℕ × SocketAddr → W × Io (ℕ × SocketAddr) → W × Io (TcpListening S SocketAddr)
  with_v6 first (w, ok second) =
      (w, ok (listening_new (first.0 ∷ second.0 ∷ []) (first.1 ∷ second.1 ∷ [])))
  with_v6 first (w, err e) = (w, ok (listening_new (first.0 ∷ []) (first.1 ∷ [])))

  -- A host without IPv6 is no error.
  unfoldable pub bind : {S : Type 0} → ℕ → Bool → W → W × Io (TcpListening S SocketAddr)
  bind port local_only w =
      bind_one (v4 (if local_only then localhost_v4 else unspecified_v4) port) w >>? (λ first v.
        with_v6 first (bind_one (v6 (if local_only then localhost_v6 else unspecified_v6) port) v))
