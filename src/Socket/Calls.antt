-- ===== src/Socket/Calls.antt =====
-- The socket calls of Winsock as an interface, with what the program relies on, and the small
-- wrappers of src/SocketOpts.cpp: SetNonblock, BindAnyAddr and UpdateConnectCtx.
use winsock_tut.Base.{ℕ, ◌≡◌, ◌≢◌, Bool, true, List, ◌∷◌, Option, none, some, ◌==◌, if◌then◌else◌}
use winsock_tut.Winsock.{invalid_socket, af_inet, af_inet6}
use winsock_tut.Socket.Address.{SockAddr}

-- An int that is 0 or SOCKET_ERROR.
pub data Status : Type 0 where
  success socket_error : Status

-- One entry of the list that getaddrinfo makes.
pub record AddrInfo : Type 0 where
  pub family : ℕ
  pub addr : SockAddr

-- The calls over a world `W`. `getaddrinfo` is given the family of the hints; the host and port
-- are fixed. `ioctl` is ioctlsocket with FIONBIO, `update_context` is setsockopt
-- with SO_UPDATE_CONNECT_CONTEXT, and `last_error` what WSAGetLastError returns.
pub record Calls (W : Type 0) : Type 0 where
  pub socket : ℕ → W → ℕ × W
  pub bind : ℕ → SockAddr → W → Status × W
  pub ioctl : ℕ → ℕ → W → Status × W
  pub listen : ℕ → W → Status × W
  pub connect : ℕ → SockAddr → W → Status × W
  pub update_context : ℕ → W → Status × W
  pub closesocket : ℕ → W → W
  pub last_error : W → ℕ
  pub getaddrinfo : ℕ → W → Option (List AddrInfo) × W
  pub freeaddrinfo : W → W

-- What the calls do to the sockets that the process holds: socket opens one, closesocket closes
-- the one that was opened last, and the others keep all; a listen that succeeds makes its socket
-- listen.
pub record Laws {W : Type 0} (c : Calls W) (held : W → List ℕ) (listening : W → ℕ → Bool)
    : Type 0 where
  pub opened :
      (f fd : ℕ) (w w' : W) → c.socket f w ≡ (fd, w') → fd ≢ invalid_socket → held w' ≡ fd ∷ held w
  pub not_opened :
      (f fd : ℕ) (w w' : W) → c.socket f w ≡ (fd, w') → fd ≡ invalid_socket → held w' ≡ held w
  pub bind_keeps :
      (fd : ℕ) (a : SockAddr) (r : Status) (w w' : W) → c.bind fd a w ≡ (r, w') → held w' ≡ held w
  pub ioctl_keeps : (fd v : ℕ) (r : Status) (w w' : W) → c.ioctl fd v w ≡ (r, w') → held w' ≡ held w
  pub listen_keeps : (fd : ℕ) (r : Status) (w w' : W) → c.listen fd w ≡ (r, w') → held w' ≡ held w
  pub listens : (fd : ℕ) (w w' : W) → c.listen fd w ≡ (success, w') → listening w' fd ≡ true
  pub connect_keeps :
      (fd : ℕ) (a : SockAddr) (r : Status) (w w' : W)
      → c.connect fd a w ≡ (r, w')
      → held w' ≡ held w
  pub closed :
      (fd : ℕ) (w : W) (rest : List ℕ) → held w ≡ fd ∷ rest → held (c.closesocket fd w) ≡ rest
  pub resolve_keeps :
      (r : Option (List AddrInfo)) (f : ℕ) (w w' : W)
      → c.getaddrinfo f w ≡ (r, w')
      → held w' ≡ held w
  pub free_keeps : (w : W) → held (c.freeaddrinfo w) ≡ held w
  pub free_listening : (w : W) (fd : ℕ) → listening (c.freeaddrinfo w) fd ≡ listening w fd

module _ {W : Type 0} (c : Calls W) where
  unfoldable pub set_nonblock : ℕ → Bool → W → Status × W
  set_nonblock fd nonblock w = c.ioctl fd (if nonblock then 1 else 0) w

  -- BindAnyAddr, for the families that its switch knows; CHECK ends the program for another.
  unfoldable pub bind_any_addr : SockAddr → SockAddr → ℕ → ℕ → W → Option (Status × W)
  bind_any_addr any4 any6 fd family w =
      if family == af_inet
      then some (c.bind fd any4 w)
      else if family == af_inet6
      then some (c.bind fd any6 w)
      else none
