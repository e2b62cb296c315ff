-- ===== src/Pingpong/Program.antt =====
-- examples/pingpong/main.cpp, with the server and the client of the example.
--
-- The service may be deleted before the server or the client that has a pointer to it: a call through
-- the pointer is then one through a dangling pointer. The contexts are objects of their own, and stay.
pub mod Shutdown
mod Tests
use winsock_tut.Base.{ℕ, Bool, true, false, List, [], Option, none, some, if◌then◌else◌}
use winsock_tut.Outcome.{Outcome, ok, bad_pointer, ◌>>=◌}
use winsock_tut.Service.{create_io_service, ServiceKind}
use winsock_tut.Program.{Example}
use winsock_tut.Program
use winsock_tut.Pingpong.{ServiceApi, Layout, Io}
use winsock_tut.Pingpong.Server.{Server, new_server}
use winsock_tut.Pingpong.Server
use winsock_tut.Pingpong.Client.{Client, new_client}
use winsock_tut.Pingpong.Client

-- The service with all that it reaches, whether it has been made and not deleted, and whether AddTimer was
-- called after that.
pub record Guarded (S : Type 0) : Type 0 where
  pub inner : S
  pub alive : Bool
  pub fault : Bool

abbrev pub reach : {S : Type 0} → (S → S) → Guarded S → Guarded S
reach f g = record g { inner = f g.inner }

abbrev pub with_inner : {S A : Type 0} → Guarded S → A × S → A × Guarded S
with_inner g (a, s) = (a, record g { inner = s })

-- A call through the pointer to the service.
abbrev pub called : {S : Type 0} → (S → Outcome (S × ℕ)) → Guarded S → Outcome (Guarded S × ℕ)
called f g =
    if g.alive then (f g.inner >>= λ r. ok (record g { inner = r.0 }, r.1)) else bad_pointer

abbrev pub freed : {S : Type 0} → (S → Outcome S) → Guarded S → Outcome (Guarded S)
freed f g = if g.alive then (f g.inner >>= λ s. ok (record g { inner = s })) else bad_pointer

abbrev pub guarded_api : {S : Type 0} → ServiceApi S → ServiceApi (Guarded S)
guarded_api api = record {
  get = λ a g. api.get a g.inner;
  set = λ a f. reach (api.set a f);
  alloc_overlap_ctx = λ fd flags. called (api.alloc_overlap_ctx fd flags);
  free_overlap_ctx = λ a. freed (api.free_overlap_ctx a);
  async_connect = λ a info. called (api.async_connect a info);
  async_accept = λ a. called (api.async_accept a);
  async_read = λ a. called (api.async_read a);
  async_write = λ a. called (api.async_write a);
  add_timer = λ ms k g. if g.alive then reach (api.add_timer ms k) g else record g { fault = true };
  create_tcp_acceptor = λ g. with_inner g (api.create_tcp_acceptor g.inner);
  getaddrinfo = λ g. with_inner g (api.getaddrinfo g.inner);
  freeaddrinfo = reach api.freeaddrinfo;
  socket = λ info g. with_inner g (api.socket info g.inner);
  closesocket = λ fd. reach (api.closesocket fd);
}

-- What main has made: neither, the server or the client.
pub data Peer (S : Type 0) : Type 0 where
  no_peer : Io (Guarded S) → Peer S
  serving : Server (Guarded S) → Peer S
  joined : Client (Guarded S) → Peer S

abbrev pub io_of : {S : Type 0} → Peer S → Io (Guarded S)
io_of (no_peer io) = io
io_of (serving s) = s.io
io_of (joined c) = c.io

abbrev pub with_io : {S : Type 0} → Io (Guarded S) → Peer S → Peer S
with_io io (no_peer _) = no_peer io
with_io io (serving s) = serving (record s { io = io })
with_io io (joined c) = joined (record c { io = io })

abbrev pub service_of : {S : Type 0} → Peer S → Guarded S
service_of r = (io_of r).service

abbrev pub with_service : {S : Type 0} → Guarded S → Peer S → Peer S
with_service g r = with_io (record (io_of r) { service = g }) r

-- What the program is given: Winsock, g_stop, Run with the callbacks, the delete of the service, and the
-- address of the server or the client.
pub record System (S : Type 0) : Type 0 where
  pub api : ServiceApi S
  pub layout : Layout
  pub wsa_startup : S → Bool × S
  pub wsa_ext : S → Outcome S
  pub wsa_cleanup : S → S
  pub stopped : S → Bool
  pub run : Peer S → Outcome (Peer S)
  pub delete_service : S → S
  pub this : ℕ

-- The state before main.
abbrev pub before : {S : Type 0} → S → Peer S
before s =
    no_peer record { service = record { inner = s; alive = false; fault = false }; arrays = [] }

module _ {S : Type 0} (sys : System S) where
  abbrev pub api : ServiceApi (Guarded S)
  api = guarded_api sys.api

  unfoldable pub create : ℕ → Peer S → Option (Peer S)
  create mode r = elim (create_io_service mode) [
    | none ↦ none
    | some kind ↦ some (with_service (record (service_of r) { alive = true }) r)
  ]

  unfoldable pub serve : Peer S → Outcome (Peer S)
  serve r = do s ← Server.start api sys.layout sys.this (new_server (io_of r)); ok (serving s)

  -- The result of Start is not looked at.
  unfoldable pub join : Peer S → Outcome (Peer S)
  join r = do c ← Client.connect api sys.layout sys.this (new_client (io_of r)); ok (joined c.0)

  -- `delete service`
  unfoldable pub delete_service : Peer S → Peer S
  delete_service r =
      let g = service_of r in
      with_service (record g { inner = sys.delete_service g.inner; alive = false }) r

  -- The destructors are Cleanup.
  unfoldable pub destroy : Peer S → Outcome (Peer S)
  destroy (no_peer io) = ok (no_peer io)
  destroy (serving s) = Server.cleanup api sys.layout sys.this s >>= λ t. ok (serving t)
  destroy (joined c) = Client.cleanup api sys.layout sys.this c >>= λ t. ok (joined t)

  abbrev pub example : Example (Peer S)
  example = record {
    wsa_startup = λ r.
        let (good, s) = sys.wsa_startup (service_of r).inner in
        (good, with_service (record (service_of r) { inner = s }) r);
    wsa_ext = λ r. sys.wsa_ext (service_of r).inner >>= λ s.
        ok (with_service (record (service_of r) { inner = s }) r);
    create = create;
    serve = serve;
    join = join;
    stopped = λ r. sys.stopped (service_of r).inner;
    round = sys.run;
    delete = delete_service;
    destroy = destroy;
    wsa_cleanup = λ r. with_service (reach sys.wsa_cleanup (service_of r)) r;
  }

  -- main of the pingpong example, from a world before it.
  unfoldable pub pingpong_main : ℕ → List (List ℕ) → S → Outcome (ℕ × Peer S)
  pingpong_main fuel args s = Program.main example fuel args (before s)
