-- ===== src/Echo/Program.antt =====
-- examples/echo/main.cpp, with the server and the client of the example.
--
-- The poller may be deleted before the server that has a pointer to it: a call through the pointer is
-- then noted as a fault, which the end of main finds.
pub mod Shutdown
mod Tests
use winsock_tut.Base.{ℕ, Bool, true, false, List, Option, none, some, if◌then◌else◌}
use winsock_tut.Outcome.{Outcome, ok, bad_pointer, ◌>>=◌}
use winsock_tut.Socket.Calls.{Calls}
use winsock_tut.Poller.{create_poller, PollerKind}
use winsock_tut.Program.{Example}
use winsock_tut.Program
use winsock_tut.Echo.{PollerApi, Sockets}
use winsock_tut.Echo.Server.{EchoServer, new_server}
use winsock_tut.Echo.Server
use winsock_tut.Echo.Client.{EchoClient, new_client}
use winsock_tut.Echo.Client

-- The poller with all that it reaches, whether it has been made and not deleted, and whether it was
-- called after that.
pub record Guarded (P : Type 0) : Type 0 where
  pub inner : P
  pub alive : Bool
  pub fault : Bool

-- A change of what the poller reaches, and a call through the pointer to the poller.
abbrev pub reach : {P : Type 0} → (P → P) → Guarded P → Guarded P
reach f g = record g { inner = f g.inner }

abbrev pub called : {P : Type 0} → (P → P) → Guarded P → Guarded P
called f g = if g.alive then reach f g else record g { fault = true }

abbrev pub with_inner : {P A : Type 0} → Guarded P → A × P → A × Guarded P
with_inner g (a, p) = (a, record g { inner = p })

abbrev pub added : {P : Type 0} → Guarded P → P × Bool → Guarded P × Bool
added g (p, r) = (record g { inner = p }, r)

abbrev pub guarded_api : {P : Type 0} → PollerApi P → PollerApi (Guarded P)
guarded_api api = record {
  add_fd = λ fd k g.
      if g.alive then added g (api.add_fd fd k g.inner) else (record g { fault = true }, false);
  remove_fd = λ fd. called (api.remove_fd fd);
  set_poll_in = λ fd. called (api.set_poll_in fd);
  set_poll_out = λ fd. called (api.set_poll_out fd);
  reset_poll_out = λ fd. called (api.reset_poll_out fd);
  add_timer = λ ms k. called (api.add_timer ms k);
}

abbrev pub guarded_calls : {P : Type 0} → Calls P → Calls (Guarded P)
guarded_calls c = record {
  socket = λ f g. with_inner g (c.socket f g.inner);
  bind = λ fd a g. with_inner g (c.bind fd a g.inner);
  ioctl = λ fd v g. with_inner g (c.ioctl fd v g.inner);
  listen = λ fd g. with_inner g (c.listen fd g.inner);
  connect = λ fd a g. with_inner g (c.connect fd a g.inner);
  update_context = λ fd g. with_inner g (c.update_context fd g.inner);
  closesocket = λ fd. reach (c.closesocket fd);
  last_error = λ g. c.last_error g.inner;
  getaddrinfo = λ f g. with_inner g (c.getaddrinfo f g.inner);
  freeaddrinfo = reach c.freeaddrinfo;
}

abbrev pub guarded_sockets : {P : Type 0} → Sockets P → Sockets (Guarded P)
guarded_sockets sys = record {
  accept = λ fd g. with_inner g (sys.accept fd g.inner);
  recv = λ fd n g. with_inner g (sys.recv fd n g.inner);
  send = λ fd bytes g. with_inner g (sys.send fd bytes g.inner);
  names = λ fd g. sys.names fd g.inner;
  calls = guarded_calls sys.calls;
}

-- What main has made: no sink, the server or the client.
pub data Sink (P : Type 0) : Type 0 where
  no_sink : Guarded P → Sink P
  serving : EchoServer (Guarded P) → Sink P
  joined : EchoClient (Guarded P) → Sink P

abbrev pub outside_of : {P : Type 0} → Sink P → Guarded P
outside_of (no_sink g) = g
outside_of (serving s) = s.outside
outside_of (joined c) = c.outside

abbrev pub with_outside : {P : Type 0} → Guarded P → Sink P → Sink P
with_outside g (no_sink _) = no_sink g
with_outside g (serving s) = serving (record s { outside = g })
with_outside g (joined c) = joined (record c { outside = g })

-- What the program is given: Winsock, g_stop, Poll with the callbacks of the sink, the delete of the
-- poller, and the address of the sink.
pub record System (P : Type 0) : Type 0 where
  pub api : PollerApi P
  pub sockets : Sockets P
  pub wsa_startup : P → Bool × P
  pub wsa_ext : P → Outcome P
  pub wsa_cleanup : P → P
  pub stopped : P → Bool
  pub poll : Sink P → Outcome (Sink P)
  pub delete_poller : P → P
  pub this : ℕ

module _ {P : Type 0} (sys : System P) where
  unfoldable pub create : ℕ → Sink P → Option (Sink P)
  create mode r = elim (create_poller mode) [
    | none ↦ none
    | some kind ↦ some (with_outside (record (outside_of r) { alive = true }) r)
  ]

  unfoldable pub serve : Sink P → Outcome (Sink P)
  serve r = do
    s ←
        Server.start (guarded_api sys.api) (guarded_sockets sys.sockets) sys.this
          (new_server (outside_of r))
    ok (serving s)

  unfoldable pub join : Sink P → Outcome (Sink P)
  join r = do
    c ←
        Client.start (guarded_api sys.api) (guarded_sockets sys.sockets) sys.this
          (new_client (outside_of r))
    ok (joined c)

  -- `delete poller`
  unfoldable pub delete_poller : Sink P → Sink P
  delete_poller r =
      let g = outside_of r in
      with_outside (record g { inner = sys.delete_poller g.inner; alive = false }) r

  -- Whether the poller was called after its end.
  unfoldable pub checked : EchoServer (Guarded P) → Outcome (Sink P)
  checked s = if s.outside.fault then bad_pointer else ok (serving s)

  -- The destructor of the server is Cleanup; that of the client does nothing.
  unfoldable pub destroy : Sink P → Outcome (Sink P)
  destroy (no_sink g) = ok (no_sink g)
  destroy (serving s) =
      Server.cleanup (guarded_api sys.api) (guarded_sockets sys.sockets) s >>= checked
  destroy (joined c) = ok (joined c)

  abbrev pub example : Example (Sink P)
  example = record {
    wsa_startup = λ r.
        let (good, p) = sys.wsa_startup (outside_of r).inner in
        (good, with_outside (record (outside_of r) { inner = p }) r);
    wsa_ext = λ r. sys.wsa_ext (outside_of r).inner >>= λ p.
        ok (with_outside (record (outside_of r) { inner = p }) r);
    create = create;
    serve = serve;
    join = join;
    stopped = λ r. sys.stopped (outside_of r).inner;
    round = sys.poll;
    delete = delete_poller;
    destroy = destroy;
    wsa_cleanup = λ r. with_outside (reach sys.wsa_cleanup (outside_of r)) r;
  }

  -- main of the echo example, from a world before it.
  unfoldable pub echo_main : ℕ → List (List ℕ) → P → Outcome (ℕ × Sink P)
  echo_main fuel args p =
      Program.main example fuel args (no_sink record { inner = p; alive = false; fault = false })
