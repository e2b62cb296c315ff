-- ===== src/Echo/Server/Frame.antt =====
-- What EchoServer::Cleanup keeps of the world outside of the server.
use mathlib.Core.Path.{subst}
use winsock_tut.Base.{ℕ, ◌≡◌, Bool-cases, Option-cases, inl, inr, List, [], ◌∷◌, ◌==◌}
use winsock_tut.Winsock.{invalid_socket}
use winsock_tut.Outcome.{ok, bind_ok, ok_eq, Ends, bind-Ends}
use winsock_tut.Table.{find_entry, has_entry}
use winsock_tut.Heap.{read, found, found-Ends}
use winsock_tut.Echo.{PollerApi, Sockets}
use winsock_tut.Echo.Server.{
  EchoServer, fd_of, set_conn, delete_conn, drop_fd, close_session, close_open, close, close_all,
}

module _ {P : Type 0} (api : PollerApi P) (sys : Sockets P) (Q : P → Type 0)
    (keeps : (fd : ℕ) (p : P) → Q p → Q (sys.calls.closesocket fd (api.remove_fd fd p))) where
  ok-frame : (s t : EchoServer P) → ok s ≡ ok t → Q s.outside → Q t.outside
  ok-frame s t e q = subst (λ x. Q x.outside) (ok_eq s t e) q

  delete_conn-frame :
      (a : ℕ) (s t : EchoServer P) → delete_conn a s ≡ ok t → Q s.outside → Q t.outside
  unfolding delete_conn
  delete_conn-frame a s t e q =
      let (conn, here, rest) = bind_ok (found (read a s.heap)) _ t e in ok-frame _ t rest q

  close_session-frame :
      (fd : ℕ) (s t : EchoServer P) → close_session api sys fd s ≡ ok t → Q s.outside → Q t.outside
  unfolding close_session
  close_session-frame fd s t e q = elim (Option-cases (find_entry fd_of fd s.connections)) [
    | inl gone ↦ ok-frame s t (rw (close_session, gone) at e) q
    | inr (x, at) ↦
        let (u, deleted, rest) =
          bind_ok (delete_conn x.1 (drop_fd api sys fd s)) _ t (rw (close_session, at) at e) in
        ok-frame _ t rest
          (delete_conn-frame x.1 (drop_fd api sys fd s) u deleted (keeps fd s.outside q))
  ]

  close-frame : (a : ℕ) (s t : EchoServer P) → close api sys a s ≡ ok t → Q s.outside → Q t.outside
  unfolding close close_open
  close-frame a s t e q =
      let (conn, here, rest) = bind_ok (found (read a s.heap)) _ t e in
      elim (Bool-cases (conn.fd == invalid_socket)) [
        | inl shut ↦ ok-frame s t (rw shut at rest) q
        | inr live ↦
            close_session-frame conn.fd (set_conn a (λ x. record x { fd = invalid_socket }) s) t
              (rw live at rest) q
      ]

  -- What the closing of a connection keeps holds after the loop of Cleanup, if it ends.
  pub close_all-frame :
      (es : List (ℕ × ℕ)) (s t : EchoServer P)
      → close_all api sys es s ≡ ok t
      → Q s.outside
      → Q t.outside
  unfolding close_all
  close_all-frame [] s t e q = ok-frame (record s { connections = [] }) t e q
  close_all-frame (x ∷ es) s t e q =
      let (u, closed, rest) = bind_ok (close api sys x.1 s) _ t e in
      let (v, deleted, rest2) = bind_ok (delete_conn x.1 u) _ t rest in
      let q' = delete_conn-frame x.1 u v deleted (close-frame x.1 s u closed q) in
      elim (Bool-cases (has_entry fd_of x.0 v.connections)) [
        | inl there ↦ close_all-frame es v t (rw there at rest2) q'
        | inr gone ↦ cc (rw gone at rest2)
      ]

-- Cleanup runs into no CHECK, and its loop ends.
module _ {P : Type 0} (api : PollerApi P) (sys : Sockets P) where
  delete_conn-Ends : (a : ℕ) (s : EchoServer P) → Ends (delete_conn a s)
  unfolding delete_conn
  delete_conn-Ends a s = bind-Ends (found (read a s.heap)) _ (found-Ends _) (λ conn e. tt)

  close_session-Ends : (fd : ℕ) (s : EchoServer P) → Ends (close_session api sys fd s)
  unfolding close_session
  close_session-Ends fd s = elim (Option-cases (find_entry fd_of fd s.connections)) [
    | inl gone ↦ rw (close_session, gone) tt
    | inr (x, at) ↦
        rw (close_session, at)
          (bind-Ends (delete_conn x.1 (drop_fd api sys fd s)) _ (delete_conn-Ends _ _) (λ t e. tt))
  ]

  close-Ends : (a : ℕ) (s : EchoServer P) → Ends (close api sys a s)
  unfolding close close_open
  close-Ends a s = bind-Ends (found (read a s.heap)) _ (found-Ends _) λ conn e.
      elim (Bool-cases (conn.fd == invalid_socket)) [
        | inl shut ↦ rw shut tt
        | inr live ↦ rw live (close_session-Ends conn.fd _)
      ]

  pub close_all-Ends : (es : List (ℕ × ℕ)) (s : EchoServer P) → Ends (close_all api sys es s)
  unfolding close_all
  close_all-Ends [] s = tt
  close_all-Ends (x ∷ es) s = bind-Ends (close api sys x.1 s) _ (close-Ends x.1 s) λ t e.
      bind-Ends (delete_conn x.1 t) _ (delete_conn-Ends x.1 t) λ u e2.
        elim (Bool-cases (has_entry fd_of x.0 u.connections)) [
          | inl there ↦ rw there (close_all-Ends es u)
          | inr gone ↦ rw gone tt
        ]
