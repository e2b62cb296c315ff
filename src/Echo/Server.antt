-- ===== src/Echo/Server.antt =====
-- examples/echo/EchoConn.cpp and examples/echo/EchoServer.cpp.
--
-- A connection is an object in the heap; the server, to which all of them point, is the record. The
-- map connections_ is a list of descriptors and addresses. `fd_` of a connection and `acceptor_` are
-- as in the source; `buf_` only carries bytes from ReadSome to WriteSome, and stands for what the
-- first stored. Output to the streams is left out.
pub mod Sessions
pub mod Accept
pub mod Leak
pub mod Shutdown
pub mod Frame
use winsock_tut.Base.{
  ℕ, ◌+◌, Bool, true, false, List, [], ◌∷◌, ◌++◌, Option, none, some, ltb, ◌==◌, if◌then◌else◌,
  length, take,
}
use winsock_tut.Winsock.{invalid_socket}
use winsock_tut.Outcome.{Outcome, ok, bad_pointer, check_failed, out_of_fuel, ◌>>=◌}
use winsock_tut.Table.{find_entry, update_entry, remove_all, has_entry}
use winsock_tut.Heap.{Heap, found, fresh, read, write, delete}
use winsock_tut.Socket.Transfer.{Count, minus_one, count, read_some, write_some}
use winsock_tut.Socket.Create.{create_tcp_acceptor}
use winsock_tut.Echo.{PollerApi, Sockets}

-- MAX_CONN_RECVBUF and MAX_RECV_COUNT
abbrev pub max_conn_recvbuf : ℕ
max_conn_recvbuf = 1024

abbrev pub max_recv_count : ℕ
max_recv_count = 5

pub record EchoConn : Type 0 where
  pub fd : ℕ
  pub recv_count : ℕ

-- The server with its connections, and all that is outside of it.
pub record EchoServer (P : Type 0) : Type 0 where
  pub acceptor : ℕ
  pub connections : List (ℕ × ℕ)
  pub heap : Heap EchoConn
  pub outside : P

abbrev pub fd_of : ℕ × ℕ → ℕ
fd_of e = e.0

abbrev pub new_server : {P : Type 0} → P → EchoServer P
new_server p = record { acceptor = invalid_socket; connections = []; heap = []; outside = p }

-- `connections_[fd] = conn`
unfoldable pub put : ℕ → ℕ → List (ℕ × ℕ) → List (ℕ × ℕ)
put fd a es =
    if has_entry fd_of fd es then update_entry fd_of fd (λ e. (fd, a)) es else es ++ (fd, a) ∷ []

-- A write through a pointer to a connection.
abbrev pub set_conn : {P : Type 0} → ℕ → (EchoConn → EchoConn) → EchoServer P → EchoServer P
set_conn a f s = record s { heap = write a f s.heap }

-- `delete conn`, which needs the connection to be there.
unfoldable pub delete_conn : {P : Type 0} → ℕ → EchoServer P → Outcome (EchoServer P)
delete_conn a s = do conn ← found (read a s.heap); ok (record s { heap = delete a s.heap })

module _ {P : Type 0} (api : PollerApi P) (sys : Sockets P) where
  -- RemoveFd and closesocket.
  abbrev pub drop_fd : ℕ → EchoServer P → EchoServer P
  drop_fd fd s = record s { outside = sys.calls.closesocket fd (api.remove_fd fd s.outside) }

  -- EchoServer::CloseSession
  unfoldable pub close_session : ℕ → EchoServer P → Outcome (EchoServer P)
  close_session fd s = elim (find_entry fd_of fd s.connections) [
    | none ↦ ok s
    | some e ↦ do
      t ← delete_conn e.1 (drop_fd fd s)
      ok (record t { connections = remove_all fd_of fd t.connections })
  ]

  -- EchoConn::Close for a connection that has been read.
  unfoldable pub close_open : ℕ → EchoConn → EchoServer P → Outcome (EchoServer P)
  close_open a conn s =
      if conn.fd == invalid_socket
      then ok s
      else close_session conn.fd (set_conn a (λ x. record x { fd = invalid_socket }) s)

  unfoldable pub close : ℕ → EchoServer P → Outcome (EchoServer P)
  close a s = found (read a s.heap) >>= λ conn. close_open a conn s

  -- The end of EchoConn::StartRead, after WriteSome.
  unfoldable pub echoed : ℕ → EchoServer P → Option (Count × P) → Outcome (EchoServer P)
  echoed a s none = out_of_fuel
  echoed a s (some (minus_one, p)) = close a (record s { outside = p })
  echoed a s (some (count n, p)) = ok (record s { outside = p })

  -- StartRead after ReadSome: the connection is closed for -1, and for the last message; any other
  -- message is sent back.
  unfoldable pub received :
      ℕ → EchoConn → EchoServer P → Option (Count × List ℕ × P) → Outcome (EchoServer P)
  received a conn s none = out_of_fuel
  received a conn s (some (minus_one, bytes, p)) = close a (record s { outside = p })
  received a conn s (some (count n, bytes, p)) =
      let t : EchoServer P = record s { outside = p } in
      let u : EchoServer P = set_conn a (λ x. record x { recv_count = x.recv_count + 1 }) t in
      if n == 0
      then ok t
      else if ltb (conn.recv_count + 1) max_recv_count
      then echoed a u (write_some (sys.send conn.fd) (take n bytes) p)
      else close a u

  unfoldable pub start_read : ℕ → EchoServer P → Outcome (EchoServer P)
  start_read a s = do
    conn ← found (read a s.heap)
    received a conn s (read_some (sys.recv conn.fd) max_conn_recvbuf s.outside)

  -- OnReadable of a connection; its OnWritable and OnTimeout do nothing.
  unfoldable pub on_conn_readable : ℕ → EchoServer P → Outcome (EchoServer P)
  on_conn_readable = start_read

  -- EchoServer::OnReadable after accept.
  unfoldable pub registered : ℕ → ℕ → EchoServer P → P × Bool → Outcome (EchoServer P)
  registered fd a s (p, true) = do
    t ← start_read a (record s { outside = api.set_poll_out fd (api.set_poll_in fd p) })
    ok (record t { connections = put fd a t.connections })
  registered fd a s (p, false) = close a (record s { outside = p }) >>= delete_conn a

  unfoldable pub accepted : ℕ → EchoServer P → Outcome (EchoServer P)
  accepted fd s =
      let a = fresh s.heap in
      let conn : EchoConn = record { fd = fd; recv_count = 0 } in
      if fd == invalid_socket
      then ok s
      else registered fd a (record s { heap = s.heap ++ (a, conn) ∷ [] })
          (api.add_fd fd a s.outside)

  unfoldable pub on_readable : EchoServer P → Outcome (EchoServer P)
  on_readable s =
      let (fd, p) = sys.accept s.acceptor s.outside in accepted fd (record s { outside = p })

  -- EchoServer::Start; `this` is the address of the server, for the poller's callbacks.
  unfoldable pub start : ℕ → EchoServer P → Outcome (EchoServer P)
  start this s =
      let (fd, p) = create_tcp_acceptor sys.calls true false s.outside in
      if fd == invalid_socket
      then check_failed
      else ok record s { acceptor = fd; outside = api.set_poll_in fd (api.add_fd fd this p).0 }

  unfoldable pub stop_accepting : EchoServer P → EchoServer P
  stop_accepting s =
      if s.acceptor == invalid_socket
      then s
      else record (drop_fd s.acceptor s) { acceptor = invalid_socket }

  -- The loop of EchoServer::Cleanup over the connections that the map held at the start: each is
  -- closed and deleted. An iterator to an entry that was erased is a dangling pointer, too.
  unfoldable pub close_all : List (ℕ × ℕ) → EchoServer P → Outcome (EchoServer P)
  close_all [] s = ok (record s { connections = [] })
  close_all (e ∷ es) s = do
    t ← close e.1 s
    u ← delete_conn e.1 t
    if has_entry fd_of e.0 u.connections then close_all es u else bad_pointer

  unfoldable pub cleanup : EchoServer P → Outcome (EchoServer P)
  cleanup s = let t = stop_accepting s in close_all t.connections t
