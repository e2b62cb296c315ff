-- ===== src/Socket/Create.antt =====
-- CreateTCPAcceptor and CreateTcpConnector of src/SocketOpts.cpp.
pub mod Kept
pub mod Held
use winsock_tut.Base.{
  ℕ, ◌≡◌, ◌≢◌, Bool, true, false, List, [], ◌∷◌, Option, none, some, ◌==◌, if◌then◌else◌,
}
use winsock_tut.Winsock.{invalid_socket, wsaewouldblock, af_inet, af_inet6}
use winsock_tut.Socket.Calls.{Calls, set_nonblock, AddrInfo, Status, success, socket_error}

-- How one round of a loop over the addresses ends.
pub data Round : Type 0 where
  next : Round  -- continue, with `fd` invalid
  done : ℕ → Round  -- break
  leave : ℕ → Round  -- return

module _ {W : Type 0} (c : Calls W) where
  -- closesocket(fd); fd = INVALID_SOCKET; continue
  unfoldable pub give_up : ℕ → W → Round × W
  give_up fd w = (next, c.closesocket fd w)

  -- One step of a round: go on after success, give up after SOCKET_ERROR.
  unfoldable pub or_give_up : ℕ → (W → Round × W) → Status × W → Round × W
  or_give_up fd go (success, w) = go w
  or_give_up fd go (socket_error, w) = give_up fd w

  -- SetNonblock under `if (nonblock)`
  unfoldable pub if_nonblock : ℕ → Bool → W → Status × W
  if_nonblock fd nonblock w = if nonblock then set_nonblock c fd true w else (success, w)

  unfoldable pub listened : ℕ → W → Round × W
  listened fd w = (done fd, w)

  -- The round of CreateTCPAcceptor after a socket that is valid.
  unfoldable pub acceptor_setup : Bool → AddrInfo → ℕ → W → Round × W
  acceptor_setup nonblock info fd w =
      or_give_up fd
        (λ w1.
          or_give_up fd (λ w2. or_give_up fd (listened fd) (c.listen fd w2))
            (if_nonblock fd nonblock w1))
        (c.bind fd info.addr w)

  -- connect, whose failure may only mean that it is under way; the other failures return false.
  unfoldable pub connected : ℕ → Status × W → Round × W
  connected fd (success, w) = (done fd, w)
  connected fd (socket_error, w) =
      if c.last_error w == wsaewouldblock then (done fd, w) else (leave 0, c.closesocket fd w)

  -- The round of CreateTcpConnector after a socket that is valid.
  unfoldable pub connector_setup : Bool → AddrInfo → ℕ → W → Round × W
  connector_setup nonblock info fd w =
      or_give_up fd (λ w1. connected fd (c.connect fd info.addr w1)) (if_nonblock fd nonblock w)

  -- `if (fd == INVALID_SOCKET) continue`
  unfoldable pub with_socket : (ℕ → W → Round × W) → ℕ × W → Round × W
  with_socket setup (fd, w) = if fd == invalid_socket then (next, w) else setup fd w

  -- What follows a round: the next rounds, or the end of the loop with `fd`. The flag says that
  -- freeaddrinfo is still to come.
  unfoldable pub after_round : (W → ℕ × Bool × W) → Round × W → ℕ × Bool × W
  after_round go (next, w) = go w
  after_round go (done fd, w) = (fd, true, w)
  after_round go (leave fd, w) = (fd, false, w)

  -- The for loop; after the last address `fd` is invalid.
  unfoldable pub address_loop : (AddrInfo → ℕ → W → Round × W) → List AddrInfo → W → ℕ × Bool × W
  address_loop setup [] w = (invalid_socket, true, w)
  address_loop setup (info ∷ rest) w =
      after_round (address_loop setup rest) (with_socket (setup info) (c.socket info.family w))

  unfoldable pub finish : ℕ × Bool × W → ℕ × W
  finish (fd, to_free, w) = (fd, if to_free then c.freeaddrinfo w else w)

  unfoldable pub create : (AddrInfo → ℕ → W → Round × W) → Option (List AddrInfo) × W → ℕ × W
  create setup (none, w) = (invalid_socket, w)
  create setup (some infos, w) = finish (address_loop setup infos w)

  unfoldable pub create_tcp_acceptor : Bool → Bool → W → ℕ × W
  create_tcp_acceptor nonblock ipv6 w =
      create (acceptor_setup nonblock) (c.getaddrinfo (if ipv6 then af_inet6 else af_inet) w)

  unfoldable pub create_tcp_connector : Bool → Bool → W → ℕ × W
  create_tcp_connector nonblock ipv6 w =
      create (connector_setup nonblock) (c.getaddrinfo (if ipv6 then af_inet6 else af_inet) w)
