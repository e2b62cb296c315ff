-- ===== src/Pingpong/Overlapped.antt =====
-- OverlappedIOService of src/OverlappedIOService.cpp behind the interface of the pingpong example.
pub mod Laws
use winsock_tut.Base.{ℕ, true, false, some}
use winsock_tut.Winsock.{af_inet}
use winsock_tut.Timer.{add_timer}
use winsock_tut.Socket.Calls.{Calls}
use winsock_tut.Socket.Create.{create_tcp_acceptor}
use winsock_tut.Outcome.{Outcome, ok, ◌>>=◌}
use winsock_tut.Heap.{read, write}
use winsock_tut.Service.Contexts.{Store}
use winsock_tut.Service.Requests.{Requests, async_read, async_write, async_accept, async_connect}
use winsock_tut.Service.Overlapped.{OverlappedService, Outside, alloc_overlap_ctx, free_overlap_ctx}
use winsock_tut.Pingpong.{ServiceApi}

-- The service with another state of the world.
abbrev in_world : {W : Type 0} → W → OverlappedService W → OverlappedService W
in_world w p = record p { store = record p.store { world = w } }

-- A request of the service, which works on its heap and the world.
unfoldable pub on_store :
    {W : Type 0}
    → (Store W → Outcome (Store W × ℕ))
    → OverlappedService W
    → Outcome (OverlappedService W × ℕ)
on_store f p = do r ← f p.store; ok (record p { store = r.0 }, r.1)

-- The service behind the interface, at a tick count.
abbrev pub overlapped_api :
    {W : Type 0} → Outside W → Calls W → Requests W → ℕ → ServiceApi (OverlappedService W)
overlapped_api env c req tick = record {
  get = λ a p. read a p.store.heap;
  set = λ a f p. record p { store = record p.store { heap = write a f p.store.heap } };
  alloc_overlap_ctx = λ fd flags p. ok (alloc_overlap_ctx env fd flags p);
  free_overlap_ctx = free_overlap_ctx env;
  async_connect = λ a info. on_store (async_connect c req a info);
  async_accept = λ a. on_store (async_accept c req a);
  async_read = λ a. on_store (async_read c req a);
  async_write = λ a. on_store (async_write c req a);
  add_timer =
      λ millsec sink p. record p { timers = (add_timer tick millsec (some sink) p.timers).0 };
  create_tcp_acceptor =
      λ p. let (fd, w) = create_tcp_acceptor c true false p.store.world in (fd, in_world w p);
  getaddrinfo = λ p. let (infos, w) = c.getaddrinfo af_inet p.store.world in (infos, in_world w p);
  freeaddrinfo = λ p. in_world (c.freeaddrinfo p.store.world) p;
  socket = λ info p. let (fd, w) = c.socket info.family p.store.world in (fd, in_world w p);
  closesocket = λ fd p. in_world (c.closesocket fd p.store.world) p;
}
