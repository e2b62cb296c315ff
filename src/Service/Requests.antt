-- ===== src/Service/Requests.antt =====
-- The requests of src/OverlappedIOService.cpp: AsyncConnect, AsyncAccept, AsyncRead, AsyncWrite.
--
-- ConnectEx, AcceptEx, WSARecv and WSASend are parameters: each is given the address of the context
-- for the pointer to its OVERLAPPED. The result of a request is an int, and -1 its pattern.
pub mod Accept
pub mod Returns
use winsock_tut.Base.{ℕ, ◌-◌, ◌^◌, Bool, true, false, Option, none, some, ◌==◌, if◌then◌else◌}
use winsock_tut.Winsock.{invalid_socket, af_inet, wsa_io_pending}
use winsock_tut.Socket.Address.{SockAddr}
use winsock_tut.Socket.Calls.{Status, success, socket_error, AddrInfo, Calls, bind_any_addr}
use winsock_tut.Outcome.{Outcome, ok, check_failed, ◌>>=◌}
use winsock_tut.Heap.{read, write, found}
use winsock_tut.Service.Contexts.{OverlapContext, Store}

-- The int -1.
abbrev pub minus_one : ℕ
minus_one = 2 ^ 32 - 1

-- The extension functions and the overlapped calls.
pub record Requests (W : Type 0) : Type 0 where
  pub connect_ex : ℕ → SockAddr → ℕ → W → Bool × W
  pub accept_ex : ℕ → ℕ → ℕ → ℕ → W → Bool × W
  pub recv : ℕ → ℕ → ℕ → ℕ → W → Status × W
  pub send : ℕ → ℕ → ℕ → ℕ → W → Status × W
  pub any4 : SockAddr
  pub any6 : SockAddr

-- The two words of the OVERLAPPED that a request sets to 0.
abbrev pub cleared : OverlapContext → OverlapContext
cleared ctx = record ctx { internal = 0; internal_high = 0 }

module _ {W : Type 0} (c : Calls W) (req : Requests W) where
  -- What ConnectEx and a bound socket give.
  unfoldable pub connect_done : ℕ → ℕ → Store W → Bool × W → Store W × ℕ
  connect_done a fd s (true, w) = (record s { world = (c.update_context fd w).1 }, 0)
  connect_done a fd s (false, w) =
      (record s { world = w }, if c.last_error w == wsa_io_pending then 0 else minus_one)

  unfoldable pub connect_bound :
      ℕ → OverlapContext → AddrInfo → Store W → Option (Status × W) → Outcome (Store W × ℕ)
  connect_bound a ctx info s none = check_failed
  connect_bound a ctx info s (some (socket_error, w)) = ok (record s { world = w }, minus_one)
  connect_bound a ctx info s (some (success, w)) =
      let t : Store W = record { heap = write a cleared s.heap; world = w } in
      ok (connect_done a ctx.fd t (req.connect_ex ctx.fd info.addr a w))

  unfoldable pub async_connect : ℕ → AddrInfo → Store W → Outcome (Store W × ℕ)
  async_connect a info s = do
    ctx ← found (read a s.heap)
    connect_bound a ctx info s (bind_any_addr c req.any4 req.any6 ctx.fd info.family s.world)

  -- AsyncAccept after AcceptEx, for the new socket.
  unfoldable pub accept_done : ℕ → Store W → Bool × W → Store W × ℕ
  accept_done fd s (true, w) = (record s { world = w }, 0)
  accept_done fd s (false, w) =
      if c.last_error w == wsa_io_pending
      then (record s { world = w }, 0)
      else (record s { world = c.closesocket fd w }, c.last_error w)

  unfoldable pub accept_on : ℕ → OverlapContext → Store W → ℕ × W → Store W × ℕ
  accept_on a ctx s (fd, w) =
      if fd == invalid_socket
      then (record s { world = w }, minus_one)
      else accept_done fd
          record { heap = write a (λ x. cleared (record x { udata = fd })) s.heap; world = w }
          (req.accept_ex ctx.fd fd ctx.buf a w)

  unfoldable pub async_accept : ℕ → Store W → Outcome (Store W × ℕ)
  async_accept a s = do
    ctx ← found (read a s.heap)
    ok (accept_on a ctx s (c.socket af_inet s.world))

  -- The end of AsyncRead and AsyncWrite.
  unfoldable pub transfer_done : Store W → Status × W → Store W × ℕ
  transfer_done s (success, w) = (record s { world = w }, 0)
  transfer_done s (socket_error, w) =
      (record s { world = w }, if c.last_error w == wsa_io_pending then 0 else c.last_error w)

  unfoldable pub async_read : ℕ → Store W → Outcome (Store W × ℕ)
  async_read a s = do
    ctx ← found (read a s.heap)
    let t : Store W = record s { heap = write a cleared s.heap }
    ok (transfer_done t (req.recv ctx.fd ctx.buf ctx.len a s.world))

  unfoldable pub async_write : ℕ → Store W → Outcome (Store W × ℕ)
  async_write a s = do
    ctx ← found (read a s.heap)
    let t : Store W = record s { heap = write a cleared s.heap }
    ok (transfer_done t (req.send ctx.fd ctx.buf ctx.len a s.world))
