-- ===== src/Pingpong/Port.antt =====
-- CompletionPortService of src/CompletionPortService.cpp behind the interface of the pingpong
-- example.
pub mod Laws
use Prim.Native.Nat.{bit_and}
use winsock_tut.Base.{
  some_eq, ap, arith, ℕ, ◌≡◌, ◌≢◌, ◌⊎◌, inl, inr, refl, ◌∙◌, Bool, true, false, none, some, ◌==◌,
  Bool-cases, ◌++◌, ◌∷◌, [],
}
use winsock_tut.Winsock.{invalid_socket, af_inet, wsa_io_pending}
use winsock_tut.Timer.{add_timer}
use winsock_tut.Socket.Calls.{AddrInfo, Calls, Status, success, socket_error, bind_any_addr}
use winsock_tut.Socket.Create.{create_tcp_acceptor}
use winsock_tut.Outcome.{ok}
use winsock_tut.Heap.{
  fresh, read, write, has_entry-fresh, read-fresh, fresh-ne-zero, read-append, read-append_ne,
  read-delete, read-delete_ne, read-write, read-write_ne,
}
use winsock_tut.Service.Contexts.{
  OverlapContext, new_context, Store, flag_associate, flag_lazy_delete,
}
use winsock_tut.Service.Requests.{
  Requests, cleared, async_read, async_write, async_accept, connect_done, connect_bound,
  async_connect, transfer_done, accept_on, accept_done,
}
use winsock_tut.Service.Completion.{
  CompletionPortService, Outside, release, free_overlap_ctx, alloc_overlap_ctx, on_store,
  port_connect, port_accept, port_read, port_write,
}
use winsock_tut.Service.Completion.Lifetime.{free_appended}
use winsock_tut.Pingpong.{ServiceApi}
use winsock_tut.Pingpong.Services.{IsService, IsConnector, Spares, Has}

-- The service with another state of the world.
abbrev in_world : {W : Type 0} → W → CompletionPortService W → CompletionPortService W
in_world w p = record p { store = record p.store { world = w } }

-- The service behind the interface, at a tick count.
abbrev pub port_api :
    {W : Type 0} → Outside W → Calls W → Requests W → ℕ → ServiceApi (CompletionPortService W)
port_api env c req tick = record {
  get = λ a p. read a p.store.heap;
  set = λ a f p. record p { store = record p.store { heap = write a f p.store.heap } };
  alloc_overlap_ctx = alloc_overlap_ctx env;
  free_overlap_ctx = free_overlap_ctx env;
  async_connect = port_connect c req;
  async_accept = port_accept c req;
  async_read = port_read c req;
  async_write = port_write c req;
  add_timer =
      λ millsec sink p. record p { timers = (add_timer tick millsec (some sink) p.timers).0 };
  create_tcp_acceptor =
      λ p. let (fd, w) = create_tcp_acceptor c true false p.store.world in (fd, in_world w p);
  getaddrinfo = λ p. let (infos, w) = c.getaddrinfo af_inet p.store.world in (infos, in_world w p);
  freeaddrinfo = λ p. in_world (c.freeaddrinfo p.store.world) p;
  socket = λ info p. let (fd, w) = c.socket info.family p.store.world in (fd, in_world w p);
  closesocket = λ fd p. in_world (c.closesocket fd p.store.world) p;
}
