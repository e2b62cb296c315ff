-- ===== src/Echo/Server/Shutdown.antt =====
-- The end of the echo server: EchoServer::Cleanup.
use winsock_tut.Base.{ℕ, ◌≡◌, ◌≢◌, refl, ap, ◌∙◌, inl, inr, Bool-cases, List, ◌∷◌, some, ◌==◌}
use winsock_tut.Winsock.{invalid_socket}
use winsock_tut.Outcome.{bad_pointer}
use winsock_tut.Heap.{read, read-delete}
use winsock_tut.Echo.{PollerApi, Sockets}
use winsock_tut.Echo.Server.{
  EchoConn, EchoServer, delete_conn, drop_fd, stop_accepting, close_all, cleanup,
}
use winsock_tut.Echo.Server.Sessions.{IsTracked, close_lem}

module _ {P : Type 0} (api : PollerApi P) (sys : Sockets P) where
  close_all_double :
      (s : EchoServer P) (a : ℕ) (conn : EchoConn) (es : List (ℕ × ℕ))
      → IsTracked s
      → read a s.heap ≡ some conn
      → conn.fd ≢ invalid_socket
      → close_all api sys ((conn.fd, a) ∷ es) s ≡ bad_pointer
  unfolding close_all delete_conn
  close_all_double s a conn es v here open' =
      rw ((close_lem s v a conn here open' api sys).0, read-delete a s.heap) refl

  -- Cleanup of a server whose map starts with a connection that is not closed deletes this
  -- connection twice: Close has already deleted it through CloseSession.
  cleanup_double_delete :
      (s : EchoServer P) (a : ℕ) (conn : EchoConn) (es : List (ℕ × ℕ))
      → IsTracked s
      → s.connections ≡ (conn.fd, a) ∷ es
      → read a s.heap ≡ some conn
      → conn.fd ≢ invalid_socket
      → cleanup api sys s ≡ bad_pointer
  unfolding cleanup stop_accepting
  cleanup_double_delete s a conn es v first here open' =
      elim (Bool-cases (s.acceptor == invalid_socket)) [
        | inl closed ↦
            rw closed
              (ap (λ l. close_all api sys l s) first ∙ close_all_double s a conn es v here open')
        | inr listening ↦
            let t : EchoServer P = record (drop_fd api sys s.acceptor s) {
              acceptor = invalid_socket;
            } in
            rw listening (
              ap (λ l. close_all api sys l t) first
              ∙ close_all_double t a conn es (record { owned = v.owned; listed = v.listed }) here
                  open')
      ]
