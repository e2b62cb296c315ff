-- ===== src/Service/Completion.antt =====
-- src/CompletionPortService.h and src/CompletionPortService.cpp.
--
-- The requests differ from those in Requests only in the pointer that they pass on: the context in
-- place of its OVERLAPPED, which is its first member and has its address.
pub mod Lifetime
use Prim.Native.Nat.{bit_and}
use winsock_tut.Base.{
  ℕ, ◌≡◌, refl, Bool, true, false, List, [], ◌∷◌, ◌++◌, Option, none, some, ◌==◌, if◌then◌else◌,
}
use winsock_tut.Winsock.{invalid_socket}
use winsock_tut.Timer.{TimerSched, Host, update_timer}
use winsock_tut.Socket.Calls.{AddrInfo, Calls}
use winsock_tut.Outcome.{Outcome, ok, ◌>>=◌, ticked}
use winsock_tut.Poller.AsyncEvent.{wait_timeout}
use winsock_tut.Heap.{fresh, read, write, delete, found}
use winsock_tut.Service.Contexts.{
  OverlapContext, new_context, Store, flag_associate, flag_cancel_io, flag_lazy_delete,
}
use winsock_tut.Service.Requests.{
  Requests, minus_one, async_connect, async_accept, async_read, async_write,
}

pub record CompletionPortService (W : Type 0) : Type 0 where
  pub timers : TimerSched
  pub completion_port : ℕ
  pub store : Store W

abbrev pub host : {W : Type 0} → Host (CompletionPortService W)
host = record {
  sched = λ p. p.timers;
  with_sched = λ t p. record p { timers = t };
  sched-with_sched = λ t p. refl;
}

-- What GetQueuedCompletionStatus gives: its result, the pointer, and the last error.
pub record Packet : Type 0 where
  pub success : Bool
  pub overlap : ℕ
  pub error : ℕ

pub record Outside (W : Type 0) : Type 0 where
  pub on_complete : ℕ → CompletionPortService W → CompletionPortService W
  pub on_timeout : ℕ → CompletionPortService W → CompletionPortService W
  pub associate : ℕ → ℕ → W → ℕ × W
  pub cancel_io : ℕ → W → W
  pub get_status : ℕ → ℕ → Store W → Packet × Store W

module _ {W : Type 0} (env : Outside W) where
  unfoldable pub cancelled : OverlapContext → W → W
  cancelled ctx w = if bit_and ctx.flags flag_cancel_io == 0 then w else env.cancel_io ctx.fd w

  unfoldable pub release : ℕ → OverlapContext → Store W → Store W
  release a ctx s =
      let marked = write a (λ x. record x { fd = invalid_socket }) s.heap in
      record {
        heap = if bit_and ctx.flags flag_lazy_delete == 0 then delete a marked else marked;
        world = cancelled ctx s.world;
      }

  unfoldable pub free_overlap_ctx : ℕ → CompletionPortService W → Outcome (CompletionPortService W)
  free_overlap_ctx a p = do
    ctx ← found (read a p.store.heap)
    ok (record p { store = release a ctx p.store })

  -- The new context and its address, or 0 for the null pointer.
  unfoldable pub alloc_overlap_ctx :
      ℕ → ℕ → CompletionPortService W → Outcome (CompletionPortService W × ℕ)
  alloc_overlap_ctx fd flags p =
      let a : ℕ = fresh p.store.heap in
      let ctx : OverlapContext = record new_context { fd = fd } in
      let heap = p.store.heap ++ (a, ctx) ∷ [] in
      let (handle, w) = env.associate fd p.completion_port p.store.world in
      let q : CompletionPortService W = record p { store = record { heap = heap; world = w } } in
      if bit_and flags flag_associate == 0
      then ok (record p { store = record { heap = heap; world = p.store.world } }, a)
      else if handle == p.completion_port
      then ok (q, a)
      else (free_overlap_ctx a q >>= λ r. ok (r, 0))

  unfoldable pub complete : OverlapContext → CompletionPortService W → CompletionPortService W
  complete ctx p = elim ctx.cb [ none ↦ p | some k ↦ env.on_complete k p ]

  -- `if (pContext->flags & FLAG_LAZY_DELETE) delete pContext`, which reads the context again.
  unfoldable pub delete_lazily : ℕ → CompletionPortService W → Outcome (CompletionPortService W × ℕ)
  delete_lazily a p = do
    ctx ← found (read a p.store.heap)
    let deleted : Store W = record { heap = delete a p.store.heap; world = p.store.world }
    ok (if bit_and ctx.flags flag_lazy_delete == 0 then p else record p { store = deleted }, 0)

  unfoldable pub dispatch : ℕ → CompletionPortService W → Outcome (CompletionPortService W × ℕ)
  dispatch a p = do ctx ← found (read a p.store.heap); delete_lazily a (complete ctx p)

  unfoldable pub dequeued : Packet → CompletionPortService W → Outcome (CompletionPortService W × ℕ)
  dequeued k p =
      if k.success
      then (if k.overlap == 0 then ok (p, 0) else dispatch k.overlap p)
      else if k.overlap == 0
      then ok (p, if k.error == wait_timeout then 0 else minus_one)
      else ok (p, minus_one)

  unfoldable pub after_timers : ℕ → CompletionPortService W → Outcome (CompletionPortService W × ℕ)
  after_timers timeout p =
      let (k, s) = env.get_status p.completion_port timeout p.store in
      dequeued k (record p { store = s })

  unfoldable pub run : ℕ → ℕ → ℕ → CompletionPortService W → Outcome (CompletionPortService W × ℕ)
  run fuel tick timeout p =
      ticked (update_timer host env.on_timeout fuel tick p) >>= after_timers timeout

-- A request of the service, which works on its heap and the world.
unfoldable pub on_store :
    {W : Type 0}
    → (Store W → Outcome (Store W × ℕ))
    → CompletionPortService W
    → Outcome (CompletionPortService W × ℕ)
on_store f p = do r ← f p.store; ok (record p { store = r.0 }, r.1)

module _ {W : Type 0} (c : Calls W) (req : Requests W) where
  unfoldable pub port_connect :
      ℕ → AddrInfo → CompletionPortService W → Outcome (CompletionPortService W × ℕ)
  port_connect a info = on_store (async_connect c req a info)

  unfoldable pub port_accept : ℕ → CompletionPortService W → Outcome (CompletionPortService W × ℕ)
  port_accept a = on_store (async_accept c req a)

  unfoldable pub port_read : ℕ → CompletionPortService W → Outcome (CompletionPortService W × ℕ)
  port_read a = on_store (async_read c req a)

  unfoldable pub port_write : ℕ → CompletionPortService W → Outcome (CompletionPortService W × ℕ)
  port_write a = on_store (async_write c req a)
