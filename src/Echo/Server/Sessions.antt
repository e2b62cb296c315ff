-- ===== src/Echo/Server/Sessions.antt =====
-- The connections of the echo server: what its map and its heap promise, and that closing a
-- connection and reading from it keep the promise.
use winsock_tut.Base.{
  some_eq, ℕ, ◌+◌, ◌≤◌, ◌<◌, ◌≡◌, ◌≢◌, ◌⊎◌, inl, inr, refl, sym, ap, ◌∙◌, false, List, some, arith,
  ltb, ltb→lt, ◌==◌, take, Bool-cases,
}
use winsock_tut.Winsock.{invalid_socket}
use winsock_tut.Outcome.{Outcome, ok}
use winsock_tut.Table.{find_entry, remove_all, find_entry-remove_all, find_entry-remove_all_self}
use winsock_tut.Heap.{
  Heap, read, write, delete, read-delete, read-delete_ne, read-write, read-write_ne, delete-write,
}
use winsock_tut.Socket.Transfer.{Count, minus_one, count, write_some}
use winsock_tut.Socket.Transfer.Read.{IsStream, read_some-HasRead}
use winsock_tut.Socket.Transfer.Write.{IsSink, write_some-HasWritten}
use winsock_tut.Echo.{PollerApi, Sockets}
use winsock_tut.Echo.Server.{
  EchoConn, EchoServer, fd_of, max_recv_count, max_conn_recvbuf, delete_conn, close_session,
  close_open, close, echoed, received, start_read, on_conn_readable,
}

-- Each entry of the map leads to a connection, which has the descriptor of the entry or is closed;
-- each connection that is not closed has an entry, and has echoed less than the limit.
pub record IsTracked {P : Type 0} (s : EchoServer P) : Type 0 where
  pub owned :
      (fd : ℕ) (e : ℕ × ℕ)
      → find_entry fd_of fd s.connections ≡ some e
      → (conn : EchoConn) × (read e.1 s.heap ≡ some conn)
        × ((conn.fd ≡ fd) ⊎ (conn.fd ≡ invalid_socket))
  pub listed :
      (a : ℕ) (conn : EchoConn)
      → read a s.heap ≡ some conn
      → conn.fd ≢ invalid_socket
      → (find_entry fd_of conn.fd s.connections ≡ some (conn.fd, a))
        × (conn.recv_count < max_recv_count)

module _ {P : Type 0} (s : EchoServer P) (v : IsTracked s) (a : ℕ) (conn : EchoConn)
    (here : read a s.heap ≡ some conn) (open' : conn.fd ≢ invalid_socket) where
  -- The server without an open connection, in another world.
  abbrev pub without : P → EchoServer P
  without p = record s {
    connections = remove_all fd_of conn.fd s.connections;
    heap = delete a s.heap;
    outside = p;
  }

  pub without-IsTracked : (p : P) → IsTracked (without p)
  without-IsTracked p = record { owned = owned; listed = listed }
    where
      owned :
          (fd : ℕ) (e : ℕ × ℕ)
          → find_entry fd_of fd (remove_all fd_of conn.fd s.connections) ≡ some e
          → (c : EchoConn) × (read e.1 (delete a s.heap) ≡ some c)
            × ((c.fd ≡ fd) ⊎ (c.fd ≡ invalid_socket))
      owned fd e at = elim (Bool-cases (fd == conn.fd)) [
        | inl same ↦ absurd (ground (arith, find_entry-remove_all_self fd_of conn.fd s.connections))
        | inr other ↦
            let old : find_entry fd_of fd s.connections ≡ some e =
              sym (find_entry-remove_all fd_of conn.fd fd s.connections (ground arith)) ∙ at in
            let (c, there, its) = v.owned fd e old in
            let apart : e.1 ≢ a = λ q.
              let one : c ≡ conn = some_eq c conn (sym there ∙ ap (λ k. read k s.heap) q ∙ here) in
              ground (arith, ap (λ (x : EchoConn). x.fd) one) in
            (c, read-delete_ne a e.1 s.heap apart ∙ there, its)
      ]

      listed :
          (b : ℕ) (c : EchoConn)
          → read b (delete a s.heap) ≡ some c
          → c.fd ≢ invalid_socket
          → (find_entry fd_of c.fd (remove_all fd_of conn.fd s.connections) ≡ some (c.fd, b))
            × (c.recv_count < max_recv_count)
      listed b c at opened =
          let apart : b ≢ a = λ q. ground (arith, read-delete a s.heap, q) in
          let (entry, few) = v.listed b c (sym (read-delete_ne a b s.heap apart) ∙ at) opened in
          let other : c.fd ≢ conn.fd = λ q.
            let entry' = (v.listed a conn here open').0 in
            apart (ground (arith, entry, entry', q)) in
          (find_entry-remove_all fd_of conn.fd c.fd s.connections other ∙ entry, few)

  module _ (api : PollerApi P) (sys : Sockets P) where
    -- The server without the connection, its descriptor removed from the poller and closed.
    abbrev pub dropped : P → EchoServer P
    dropped p = without (sys.calls.closesocket conn.fd (api.remove_fd conn.fd p))

    -- Close of the connection, in a heap that may hold it with another count.
    pub close-dropped :
        (h : Heap EchoConn) (n : ℕ) (p : P)
        → read a h ≡ some (record conn { recv_count = n })
        → delete a h ≡ delete a s.heap
        → close api sys a (record s { heap = h; outside = p }) ≡ ok (dropped p)
    unfolding close close_open close_session delete_conn
    close-dropped h n p at same =
        let shut : EchoConn → EchoConn = λ x. record x { fd = invalid_socket } in
        let other : (conn.fd == invalid_socket) ≡ false = ground arith in
        rw
          (
            at,
            other,
            close_session,
            (v.listed a conn here open').0,
            read-write a shut (record conn { recv_count = n }) h at,
            delete-write a shut h,
            same,
          )
          refl

    -- EchoConn::Close of an open connection returns: exactly that connection is gone, from the map
    -- and from the heap, its descriptor is removed from the poller and closed, and the server still
    -- has an entry for each open connection, and a connection for each entry.
    pub close_lem : (close api sys a s ≡ ok (dropped s.outside)) × IsTracked (dropped s.outside)
    close_lem = (close-dropped s.heap conn.recv_count s.outside here refl, without-IsTracked _)

    -- What reading from the connection may come to: it is closed, or it is still there with its
    -- descriptor, and the map is as it was.
    pub data IsHandled (o : Outcome (EchoServer P)) : Type 0 where
      closed : (p : P) → o ≡ ok (dropped p) → IsTracked (dropped p) → IsHandled o
      kept :
          (n : ℕ) (t : EchoServer P)
          → o ≡ ok t
          → IsTracked t
          → read a t.heap ≡ some (record conn { recv_count = n })
          → t.connections ≡ s.connections
          → conn.recv_count ≤ n
          → IsHandled o

    -- One more message of the connection is counted.
    counted : EchoConn → EchoConn
    counted x = record x { recv_count = x.recv_count + 1 }

    counted-IsTracked :
        (p : P)
        → conn.recv_count + 1 < max_recv_count
        → IsTracked (record s { heap = write a counted s.heap; outside = p })
    unfolding counted
    counted-IsTracked p few = record { owned = owned; listed = listed }
      where
        owned :
            (fd : ℕ) (e : ℕ × ℕ)
            → find_entry fd_of fd s.connections ≡ some e
            → (c : EchoConn) × (read e.1 (write a counted s.heap) ≡ some c)
              × ((c.fd ≡ fd) ⊎ (c.fd ≡ invalid_socket))
        owned fd e at =
            let (c, there, its) = v.owned fd e at in
            elim (Bool-cases (e.1 == a)) [
              | inl same ↦
                  let q : e.1 ≡ a = ground arith in
                  let one : c ≡ conn =
                    some_eq c conn (sym there ∙ ap (λ k. read k s.heap) q ∙ here) in
                  (
                    counted conn,
                    ap (λ k. read k (write a counted s.heap)) q
                        ∙ read-write a counted conn s.heap here,
                    ground (arith, ap (λ (x : EchoConn). x.fd) one),
                  )
              | inr other ↦ (c, read-write_ne a e.1 counted s.heap (ground arith) ∙ there, its)
            ]

        listed :
            (b : ℕ) (c : EchoConn)
            → read b (write a counted s.heap) ≡ some c
            → c.fd ≢ invalid_socket
            → (find_entry fd_of c.fd s.connections ≡ some (c.fd, b))
              × (c.recv_count < max_recv_count)
        listed b c at opened = elim (Bool-cases (b == a)) [
          | inl same ↦
              let q : b ≡ a = ground arith in
              let one : counted conn ≡ c = some_eq (counted conn) c (
                sym (read-write a counted conn s.heap here)
                ∙ ap (λ k. read k (write a counted s.heap)) (sym q)
                ∙ at) in
              rw⁻¹ one (rw q ((v.listed a conn here open').0, few))
          | inr other ↦
              v.listed b c (sym (read-write_ne a b counted s.heap (ground arith)) ∙ at) opened
        ]

    -- What has stayed in the map and the heap stays tracked in another world.
    moved-IsTracked : (p : P) → IsTracked (record s { outside = p })
    moved-IsTracked p = record { owned = v.owned; listed = v.listed }

    echoed-IsHandled :
        (p : P)
        → conn.recv_count + 1 < max_recv_count
        → (r : Count × P)
        → IsHandled
            (echoed api sys a (record s { heap = write a counted s.heap; outside = p }) (some r))
    unfolding echoed counted
    echoed-IsHandled p few (minus_one, q) =
        closed q
          (close-dropped (write a counted s.heap) (conn.recv_count + 1) q
            (read-write a counted conn s.heap here) (delete-write a counted s.heap))
          (without-IsTracked _)
    echoed-IsHandled p few (count n, q) =
        kept (conn.recv_count + 1) _ refl (counted-IsTracked q few)
          (read-write a counted conn s.heap here) refl (omega arith)

    module _
        (sends : (buf : List ℕ) (w : P)
          → (r : Count × P) × (write_some (sys.send conn.fd) buf w ≡ some r)) where
      received-IsHandled : (r : Count × List ℕ × P) → IsHandled (received api sys a conn s (some r))
      unfolding received counted
      received-IsHandled (minus_one, bytes, p) =
          closed p (close-dropped s.heap conn.recv_count p here refl) (without-IsTracked _)
      received-IsHandled (count n, bytes, p) = elim (Bool-cases (n == 0)) [
        | inl nothing ↦
            rw nothing (kept conn.recv_count _ refl (moved-IsTracked p) here refl (omega arith))
        | inr some_bytes ↦ elim (Bool-cases (ltb (conn.recv_count + 1) max_recv_count)) [
          | inl few ↦
              let (r, sent) = sends (take n bytes) p in
              rw (some_bytes, few, sent) (echoed-IsHandled p (ltb→lt _ _ few) r)
          | inr last ↦
              rw (some_bytes, last)
                (closed p
                  (close-dropped (write a counted s.heap) (conn.recv_count + 1) p
                    (read-write a counted conn s.heap here) (delete-write a counted s.heap))
                  (without-IsTracked _))
        ]
      ]

-- OnReadable of an open connection of the server, over sockets whose recv reads a stream and whose
-- send takes bytes from the front, returns and touches no deleted connection. Either the connection
-- is gone from the map and the heap, with its descriptor removed from the poller and closed, or it is
-- still there and the map is as it was; and the map and the heap keep their promise.
pub on_conn_readable_lem :
    {P : Type 0} (api : PollerApi P) (sys : Sockets P) (incoming outgoing : ℕ → P → List ℕ)
    → ((fd : ℕ) → IsStream (sys.recv fd) (incoming fd))
    → ((fd : ℕ) → IsSink (sys.send fd) (outgoing fd))
    → (s : EchoServer P) (v : IsTracked s) (a : ℕ) (conn : EchoConn)
      (here : read a s.heap ≡ some conn) (open' : conn.fd ≢ invalid_socket)
    → IsHandled s v a conn here open' api sys (on_conn_readable api sys a s)
unfolding on_conn_readable start_read
on_conn_readable_lem api sys incoming outgoing streams sinks s v a conn here open' =
    let (r, got, _) =
      read_some-HasRead (sys.recv conn.fd) (incoming conn.fd) (streams conn.fd) max_conn_recvbuf
        s.outside in
    rw (here, got)
      (received-IsHandled s v a conn here open' api sys
        (λ buf w.
          let (r', sent, _) =
            write_some-HasWritten (sys.send conn.fd) (outgoing conn.fd) (sinks conn.fd) buf w in
          (r', sent))
        r)
