-- ===== src/Echo/Program/Shutdown.antt =====
-- The end of examples/echo/main.cpp: the poller is deleted before the server that has a pointer to it.
use mathlib.Core.Path.{subst}
use winsock_tut.Base.{
  ℕ, ◌≡◌, ◌≢◌, refl, ap, Bool, true, false, Bool-cases, inl, inr, List, [], some, ◌==◌,
  if◌then◌else◌, length, get_or, ◌∙◌, arith,
}
use winsock_tut.Winsock.{invalid_socket}
use winsock_tut.Outcome.{bad_pointer, ok, bind_ok, ok_eq, Ends, bind-Ends, Ends-bad_pointer}
use winsock_tut.Socket.Create.{create_tcp_acceptor}
use winsock_tut.Echo.{PollerApi, Sockets}
use winsock_tut.Echo.Server.{EchoServer, start, stop_accepting, cleanup}
use winsock_tut.Echo.Server.Frame.{close_all-frame, close_all-Ends}
use winsock_tut.Program.{server_text, same_text, started, opened, finish, atoi}
use winsock_tut.Program.Rounds.{Rounds, main_lem, main-serve}
use winsock_tut.Echo.Program.{
  Guarded, reach, guarded_api, guarded_sockets, Sink, no_sink, serving, joined, System, create,
  serve, delete_poller, checked, destroy, example, echo_main,
}

-- A server that listens.
abbrev pub IsServing : {P : Type 0} → Sink P → Type 0
IsServing (no_sink g) = ⊥
IsServing (serving s) = s.acceptor ≢ invalid_socket
IsServing (joined c) = ⊥

-- The poller was called after its end.
abbrev IsFaulty : {P : Type 0} → Guarded P → Type 0
IsFaulty g = (g.fault ≡ true) × (g.alive ≡ false)

start-listens :
    {P : Type 0} (api : PollerApi P) (sys : Sockets P) (this : ℕ) (s t : EchoServer P)
    → start api sys this s ≡ ok t
    → t.acceptor ≢ invalid_socket
unfolding start
start-listens api sys this s t e =
    let fd = (create_tcp_acceptor sys.calls true false s.outside).0 in
    elim (Bool-cases (fd == invalid_socket)) [
      | inl bad ↦ cc (rw bad at e)
      | inr good ↦
          let same = ok_eq _ t (rw good at e) in
          λ q. ground (arith, ap (λ (x : EchoServer _). x.acceptor) same)
    ]

module _ {P : Type 0} where
  called-IsFaulty :
      (f : P → P) (g : Guarded P) (b : Bool)
      → b ≡ false
      → g.alive ≡ false
      → IsFaulty (if b then reach f g else record g { fault = true })
  called-IsFaulty f g b e dead = rw e (refl, dead)

  module _ (api : PollerApi P) (sys : Sockets P) where
    -- A call of RemoveFd for a poller that is deleted.
    drop-IsFaulty :
        (fd : ℕ) (g : Guarded P)
        → g.alive ≡ false
        → IsFaulty ((guarded_sockets sys).calls.closesocket fd ((guarded_api api).remove_fd fd g))
    drop-IsFaulty fd g dead = called-IsFaulty (api.remove_fd fd) g g.alive dead dead

    cleanup-IsFaulty :
        (s t : EchoServer (Guarded P))
        → s.acceptor ≢ invalid_socket
        → s.outside.alive ≡ false
        → cleanup (guarded_api api) (guarded_sockets sys) s ≡ ok t
        → IsFaulty t.outside
    unfolding cleanup stop_accepting
    cleanup-IsFaulty s t listening dead e =
        let opened' : (s.acceptor == invalid_socket) ≡ false = ground arith in
        close_all-frame (guarded_api api) (guarded_sockets sys) IsFaulty
          (λ fd g q. drop-IsFaulty fd g q.1) _ _ t (rw opened' at e)
          (drop-IsFaulty s.acceptor s.outside dead)

module _ {P : Type 0} (sys : System P) where
  serve-IsServing : (r t : Sink P) → serve sys r ≡ ok t → IsServing t
  unfolding serve
  serve-IsServing r t e =
      let (s, starts, rest) =
        bind_ok (start (guarded_api sys.api) (guarded_sockets sys.sockets) sys.this _) _ t e in
      subst IsServing (ok_eq (serving s) t rest) (start-listens _ _ _ _ s starts)

  -- The destructor of a server that listens calls the poller that was deleted.
  finish-serving : (r : Sink P) (x : ℕ × Sink P) → IsServing r → finish (example sys) r ≢ ok x
  unfolding finish destroy delete_poller checked
  finish-serving (no_sink g) x listens e = absurd listens
  finish-serving (joined c) x listens e = absurd listens
  finish-serving (serving s) x listens e =
      let (t, destroyed, _) = bind_ok (destroy sys (delete_poller sys (serving s))) _ x e in
      let (u, cleaned, last) =
        bind_ok (cleanup (guarded_api sys.api) (guarded_sockets sys.sockets) _) (checked sys) t
          destroyed in
      let faulty = cleanup-IsFaulty sys.api sys.sockets _ u listens refl cleaned in
      cc (rw faulty.0 at last)

  -- main of the echo example as a server never returns, however long it runs and whatever is outside, if Poll
  -- and its callbacks leave the socket of the acceptor to the server: when the loop ends, the poller is
  -- deleted, and the destructor of the server calls it to remove that socket.
  echo_main-ne-ok :
      (fuel : ℕ) (args : List (List ℕ)) (p : P) (x : ℕ × Sink P)
      → length args ≡ 5
      → get_or args 1 [] ≡ server_text
      → ((r t : Sink P) → IsServing r → sys.poll r ≡ ok t → IsServing t)
      → echo_main sys fuel args p ≢ ok x
  unfolding echo_main
  echo_main-ne-ok fuel args p x five serves keeps =
      main-serve (example sys) IsServing serve-IsServing keeps finish-serving fuel args _ x five
        serves

  finish-Ends : (s : EchoServer (Guarded P)) → Ends (finish (example sys) (serving s))
  unfolding finish destroy delete_poller checked cleanup
  finish-Ends s =
      bind-Ends (destroy sys (delete_poller sys (serving s))) _
        (bind-Ends (cleanup (guarded_api sys.api) (guarded_sockets sys.sockets) _) (checked sys)
          (close_all-Ends (guarded_api sys.api) (guarded_sockets sys.sockets) _ _)
          (λ t e. kept_if t.outside.fault t))
        (λ t e. tt)
    where
      kept_if :
          (b : Bool) (t : EchoServer (Guarded P))
          → Ends {A = Sink P} (if b then bad_pointer else ok (serving t))
      kept_if true t = tt
      kept_if false t = tt

  -- main of the echo example as a server ends, with enough fuel, in a call through a pointer to a freed object,
  -- if the start succeeds and the signal comes after some rounds that leave a server with the socket of its
  -- acceptor: the poller is deleted, and the destructor of the server calls it to remove that socket.
  pub echo_main-server :
      (args : List (List ℕ)) (p : P) (t u v : Sink P) (s : EchoServer (Guarded P))
      → length args ≡ 5
      → get_or args 1 [] ≡ server_text
      → started (example sys) (no_sink record { inner = p; alive = false; fault = false }) ≡ ok t
      → create sys (atoi (get_or args 4 [])) t ≡ some u
      → serve sys u ≡ ok v
      → Rounds (example sys) v (serving s)
      → s.acceptor ≢ invalid_socket
      → sys.stopped s.outside.inner ≡ true
      → (fuel : ℕ) × (echo_main sys fuel args p ≡ bad_pointer)
  unfolding echo_main opened same_text
  echo_main-server args p t u v s five serves starts makes serves' rounds listens stop =
      let ex = example sys in
      let asked : opened ex (get_or args 1 []) u ≡ ok v = rw serves serves' in
      let (fuel, ends) =
        main_lem ex args (no_sink record { inner = p; alive = false; fault = false }) t u v
          (serving s) five starts makes asked rounds stop in
      (
        fuel,
        ends
            ∙ Ends-bad_pointer (finish ex (serving s)) (finish-Ends s)
                (λ x. finish-serving (serving s) x listens),
      )
