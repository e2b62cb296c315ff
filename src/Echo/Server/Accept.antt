-- ===== src/Echo/Server/Accept.antt =====
-- A new connection of the echo server: EchoServer::OnReadable.
use winsock_tut.Base.{
  ℕ, ◌+◌, ◌≤◌, ◌<◌, ◌≡◌, ◌≢◌, ◌⊎◌, inl, inr, refl, ap, ◌∙◌, Bool, true, false, List, [], ◌∷◌, ◌++◌,
  none, some, arith, ◌==◌, if◌then◌else◌, take, Bool-cases,
}
use winsock_tut.Winsock.{invalid_socket}
use winsock_tut.Outcome.{Outcome, ok}
use winsock_tut.Table.{find_entry, has_entry-find_entry, find_entry-append}
use winsock_tut.Heap.{
  fresh, read, has_entry-fresh, read-append, read-append_old, read-append_cases, write-append,
  delete-append,
}
use winsock_tut.Socket.Transfer.{Count, minus_one, count, write_some}
use winsock_tut.Socket.Transfer.Read.{IsStream, read_some-HasRead}
use winsock_tut.Socket.Transfer.Write.{IsSink, write_some-HasWritten}
use winsock_tut.Echo.{PollerApi, Sockets}
use winsock_tut.Echo.Server.{
  EchoConn, EchoServer, fd_of, put, max_recv_count, max_conn_recvbuf, delete_conn, close_session,
  close_open, close, echoed, received, start_read, registered, accepted, on_readable,
}
use winsock_tut.Echo.Server.Sessions.{IsTracked}

-- What StartRead makes of a connection that is not yet in the map: it has at most one message, or it
-- is closed.
abbrev pub IsNew : ℕ → EchoConn → Type 0
IsNew fd c = (c.fd ≡ fd) × (c.recv_count ≤ 1) ⊎ (c.fd ≡ invalid_socket)

module _ {P : Type 0} (s : EchoServer P) (v : IsTracked s) (fd : ℕ) (valid : fd ≢ invalid_socket)
    (unused : find_entry fd_of fd s.connections ≡ none) where
  -- The server with a connection more, under its descriptor, in another world.
  abbrev pub joined : EchoConn → P → EchoServer P
  joined c p = record s {
    connections = put fd (fresh s.heap) s.connections;
    heap = s.heap ++ (fresh s.heap, c) ∷ [];
    outside = p;
  }

  -- The same before it is in the map.
  abbrev pub apart : EchoConn → P → EchoServer P
  apart c p = record s { heap = s.heap ++ (fresh s.heap, c) ∷ []; outside = p }

  pub find_entry-joined :
      (k : ℕ)
      → find_entry fd_of k (put fd (fresh s.heap) s.connections)
        ≡ (if fd == k then some (fd, fresh s.heap) else find_entry fd_of k s.connections)
  unfolding put
  find_entry-joined k =
      rw (has_entry-find_entry fd_of fd s.connections unused)
        (find_entry-append fd_of fd k (fd, fresh s.heap) s.connections refl unused)

  joined-IsTracked : (c : EchoConn) (p : P) → IsNew fd c → IsTracked (joined c p)
  joined-IsTracked c p new = record { owned = owned; listed = listed }
    where
      owned :
          (k : ℕ) (e : ℕ × ℕ)
          → find_entry fd_of k (put fd (fresh s.heap) s.connections) ≡ some e
          → (x : EchoConn) × (read e.1 (s.heap ++ (fresh s.heap, c) ∷ []) ≡ some x)
            × ((x.fd ≡ k) ⊎ (x.fd ≡ invalid_socket))
      owned k e at = elim (Bool-cases (fd == k)) [
        | inl same ↦
            let q : e.1 ≡ fresh s.heap = ground (arith, find_entry-joined k) in
            (
              c,
              ap (λ b. read b (s.heap ++ (fresh s.heap, c) ∷ [])) q
                  ∙ read-append (fresh s.heap) c s.heap (has_entry-fresh s.heap),
              ground arith,
            )
        | inr other ↦
            let (x, there, its) = v.owned k e (ground (arith, find_entry-joined k)) in
            (x, read-append_old (fresh s.heap) e.1 c x s.heap there, its)
      ]

      listed :
          (b : ℕ) (x : EchoConn)
          → read b (s.heap ++ (fresh s.heap, c) ∷ []) ≡ some x
          → x.fd ≢ invalid_socket
          → (find_entry fd_of x.fd (put fd (fresh s.heap) s.connections) ≡ some (x.fd, b))
            × (x.recv_count < max_recv_count)
      listed b x at opened = elim (read-append_cases (fresh s.heap) b c x s.heap at) [
        | inl old ↦
            let (entry, few) = v.listed b x old opened in
            (ground (arith, find_entry-joined x.fd), few)
        | inr (q, one) ↦
            let k : c.fd ≡ x.fd = ap (λ (y : EchoConn). y.fd) one in
            let n : c.recv_count ≡ x.recv_count = ap (λ (y : EchoConn). y.recv_count) one in
            (ground (arith, find_entry-joined x.fd), ground arith)
      ]

  module _ (api : PollerApi P) (sys : Sockets P) where
    -- Close finds no entry in the map: the connection is marked, and nothing else happens.
    pub close-apart :
        (n : ℕ) (p : P)
        → close api sys (fresh s.heap) (apart (record { fd = fd; recv_count = n }) p)
          ≡ ok (apart (record { fd = invalid_socket; recv_count = n }) p)
    unfolding close close_open close_session
    close-apart n p =
        let new = has_entry-fresh s.heap in
        let a = fresh s.heap in
        let c : EchoConn = record { fd = fd; recv_count = n } in
        let other : (fd == invalid_socket) ≡ false = ground arith in
        rw
          (
            read-append a c s.heap new,
            other,
            close_session,
            unused,
            write-append a (λ x. record x { fd = invalid_socket }) c s.heap new,
          )
          refl

    -- What StartRead gives for the new connection.
    abbrev IsStarted : Outcome (EchoServer P) → Type 0
    IsStarted o = (c : EchoConn) × (p : P) × (o ≡ ok (apart c p)) × IsNew fd c

    echoed-IsStarted :
        (p : P) (r : Count × P)
        → IsStarted
            (echoed api sys (fresh s.heap) (apart (record { fd = fd; recv_count = 1 }) p) (some r))
    unfolding echoed
    echoed-IsStarted p (minus_one, q) = (_, q, close-apart 1 q, inr refl)
    echoed-IsStarted p (count n, q) = (_, q, refl, inl (refl, omega arith))

    module _
        (sends : (buf : List ℕ) (w : P)
          → (r : Count × P) × (write_some (sys.send fd) buf w ≡ some r)) where
      received-IsStarted :
          (w : P) (r : Count × List ℕ × P)
          → IsStarted (
              received api sys
                (fresh s.heap)
                (record { fd = fd; recv_count = 0 })
                (apart (record { fd = fd; recv_count = 0 }) w)
                (some r))
      unfolding received
      received-IsStarted w (minus_one, bytes, p) = (_, p, close-apart 0 p, inr refl)
      received-IsStarted w (count n, bytes, p) =
          let new = has_entry-fresh s.heap in
          let a = fresh s.heap in
          let c : EchoConn = record { fd = fd; recv_count = 0 } in
          elim (Bool-cases (n == 0)) [
            | inl nothing ↦ rw nothing (_, p, refl, inl (refl, omega arith))
            | inr some_bytes ↦
                let (r, sent) = sends (take n bytes) p in
                rw
                  (
                    some_bytes,
                    sent,
                    write-append a (λ x. record x { recv_count = x.recv_count + 1 }) c s.heap new,
                  )
                  (echoed-IsStarted p r)
          ]

-- What OnReadable of the server comes to: it has taken in no connection and its own state is as it
-- was, or it has one more, under a new address and the descriptor that accept gave.
pub data IsAccepted {P : Type 0} (s : EchoServer P) (fd : ℕ) (o : Outcome (EchoServer P))
    : Type 0 where
  unchanged : (p : P) → o ≡ ok (record s { outside = p }) → IsAccepted s fd o
  one_more :
      (c : EchoConn) (p : P)
      → IsNew fd c
      → o
        ≡ ok record s {
          connections = put fd (fresh s.heap) s.connections;
          heap = s.heap ++ (fresh s.heap, c) ∷ [];
          outside = p;
        }
      → IsTracked (record s {
        connections = put fd (fresh s.heap) s.connections;
        heap = s.heap ++ (fresh s.heap, c) ∷ [];
        outside = p;
      })
      → IsAccepted s fd o

module _ {P : Type 0} (api : PollerApi P) (sys : Sockets P) (incoming outgoing : ℕ → P → List ℕ)
    (streams : (fd : ℕ) → IsStream (sys.recv fd) (incoming fd))
    (sinks : (fd : ℕ) → IsSink (sys.send fd) (outgoing fd)) (s : EchoServer P)
    (v : IsTracked s) where
  registered-IsAccepted :
      (fd : ℕ) (o : P) (r : P × Bool)
      → fd ≢ invalid_socket
      → find_entry fd_of fd s.connections ≡ none
      → IsAccepted s fd (
          registered api sys fd
            (fresh s.heap)
            record s {
              heap = s.heap ++ (fresh s.heap, record { fd = fd; recv_count = 0 }) ∷ [];
              outside = o;
            }
            r)
  unfolding registered start_read delete_conn
  registered-IsAccepted fd o (p, true) valid unused =
      let w = api.set_poll_out fd (api.set_poll_in fd p) in
      let (r, got, _) =
        read_some-HasRead (sys.recv fd) (incoming fd) (streams fd) max_conn_recvbuf w in
      let (c, q, started, new) =
        received-IsStarted s v fd valid unused api sys
          (λ buf u.
            let (r', sent, _) =
              write_some-HasWritten (sys.send fd) (outgoing fd) (sinks fd) buf u in
            (r', sent))
          w r in
      rw
        (
          read-append (fresh s.heap) (record { fd = fd; recv_count = 0 }) s.heap
              (has_entry-fresh s.heap),
          got,
          started,
        )
        (one_more c q new refl (joined-IsTracked s v fd valid unused c q new))
  registered-IsAccepted fd o (p, false) valid unused =
      rw
        (
          close-apart s v fd valid unused api sys 0 p,
          read-append (fresh s.heap) (record { fd = invalid_socket; recv_count = 0 }) s.heap
              (has_entry-fresh s.heap),
          delete-append (fresh s.heap) (record { fd = invalid_socket; recv_count = 0 }) s.heap
              (has_entry-fresh s.heap),
        )
        (unchanged p refl)

  -- OnReadable of the server, over sockets whose recv reads a stream and whose send takes bytes from
  -- the front, with a descriptor from accept that is not in the map, returns and touches no deleted
  -- connection: its own state is as it was, or it has exactly one connection more, and the map and
  -- the heap keep their promise.
  pub on_readable_lem :
      find_entry fd_of (sys.accept s.acceptor s.outside).0 s.connections ≡ none
      → IsAccepted s (sys.accept s.acceptor s.outside).0 (on_readable api sys s)
  unfolding on_readable accepted
  on_readable_lem unused =
      let fd = (sys.accept s.acceptor s.outside).0 in
      let p = (sys.accept s.acceptor s.outside).1 in
      elim (Bool-cases (fd == invalid_socket)) [
        | inl bad ↦ rw bad (unchanged p refl)
        | inr good ↦
            rw good
              (registered-IsAccepted fd p (api.add_fd fd (fresh s.heap) p) (ground arith) unused)
      ]
