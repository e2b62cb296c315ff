-- ===== src/Echo/Server/Leak.antt =====
-- A new connection of the echo server that ends at once: EchoServer::OnReadable.
use winsock_tut.Base.{ℕ, ◌≡◌, ◌≢◌, refl, true, false, List, none, some, arith, ◌==◌}
use winsock_tut.Winsock.{invalid_socket}
use winsock_tut.Outcome.{ok}
use winsock_tut.Table.{find_entry}
use winsock_tut.Heap.{fresh, read, has_entry-fresh, read-append}
use winsock_tut.Socket.Transfer.{minus_one, read_some}
use winsock_tut.Echo.{PollerApi, Sockets}
use winsock_tut.Echo.Server.{
  EchoConn, EchoServer, fd_of, max_conn_recvbuf, close_open, close, received, start_read,
  registered, accepted, on_readable,
}
use winsock_tut.Echo.Server.Sessions.{IsTracked}
use winsock_tut.Echo.Server.Accept.{joined, close-apart, find_entry-joined}

module _ {P : Type 0} (api : PollerApi P) (sys : Sockets P) (s : EchoServer P)
    (v : IsTracked s) where
  -- A connection that the poller takes and whose first ReadSome gives -1 is lost: OnReadable of the
  -- server leaves an entry in the map, under the descriptor that accept gave, to a connection that is
  -- marked as closed. After ReadSome neither RemoveFd nor closesocket is called, and Close of this
  -- connection does nothing from then on.
  pub on_readable_leak :
      (fd : ℕ) (p q w : P) (bytes : List ℕ)
      → sys.accept s.acceptor s.outside ≡ (fd, p)
      → fd ≢ invalid_socket
      → find_entry fd_of fd s.connections ≡ none
      → api.add_fd fd (fresh s.heap) p ≡ (q, true)
      → read_some (sys.recv fd) max_conn_recvbuf (api.set_poll_out fd (api.set_poll_in fd q))
        ≡ some (minus_one, bytes, w)
      → (t : EchoServer P) × (on_readable api sys s ≡ ok t)
        × (t.outside ≡ w)
        × (find_entry fd_of fd t.connections ≡ some (fd, fresh s.heap))
        × (read (fresh s.heap) t.heap ≡ some (record { fd = invalid_socket; recv_count = 0 }))
        × (close api sys (fresh s.heap) t ≡ ok t)
  unfolding on_readable accepted registered start_read received close close_open
  on_readable_leak fd p q w bytes took valid unused added eof =
      let new = has_entry-fresh s.heap in
      let other : (fd == invalid_socket) ≡ false = ground arith in
      let marked : EchoConn = record { fd = invalid_socket; recv_count = 0 } in
      let there = read-append (fresh s.heap) marked s.heap new in
      (
        joined s v fd valid unused marked w,
        rw
            (
              took,
              other,
              added,
              read-append (fresh s.heap) (record { fd = fd; recv_count = 0 }) s.heap new,
              eof,
              close-apart s v fd valid unused api sys 0 w,
            )
            refl,
        refl,
        ground (arith, find_entry-joined s v fd valid unused fd),
        there,
        rw there refl,
      )
