-- ===== src/Pingpong/Port/Laws.antt =====
-- The completion port service keeps the laws of the pingpong example.
use Prim.Native.Nat.{bit_and}
use winsock_tut.Base.{
  some_eq, ap, arith, ℕ, ◌≡◌, ◌≢◌, ◌⊎◌, inl, inr, refl, ◌∙◌, none, some, ◌==◌, Bool-cases, ◌++◌,
  ◌∷◌, [],
}
use winsock_tut.Winsock.{invalid_socket}
use winsock_tut.Socket.Calls.{Calls}
use winsock_tut.Outcome.{ok}
use winsock_tut.Heap.{
  fresh, read, write, has_entry-fresh, read-fresh, fresh-ne-zero, read-append, read-append_ne,
  read-delete, read-delete_ne, read-write, read-write_ne,
}
use winsock_tut.Service.Contexts.{OverlapContext, new_context, flag_associate, flag_lazy_delete}
use winsock_tut.Service.Requests.{Requests, cleared}
use winsock_tut.Service.Completion.{
  CompletionPortService, Outside, release, free_overlap_ctx, alloc_overlap_ctx, on_store,
  port_connect, port_accept, port_read, port_write,
}
use winsock_tut.Service.Completion.Lifetime.{free_appended}
use winsock_tut.Pingpong.{ServiceApi}
use winsock_tut.Pingpong.Services.{IsService, IsConnector, Spares, Has}
use winsock_tut.Pingpong.Port.{port_api}
use winsock_tut.Service.Requests.Returns.{
  asked, async_read_lem, async_write_lem, async_accept_lem, async_connect_lem,
}

module _ {W : Type 0} (env : Outside W) (c : Calls W) (req : Requests W) (tick : ℕ) where
  abbrev api : ServiceApi (CompletionPortService W)
  api = port_api env c req tick

  frees_lem :
      (a : ℕ) (p : CompletionPortService W)
      → Has api a p
      → (q : CompletionPortService W) × (free_overlap_ctx env a p ≡ ok q)
        × Spares api a p q
        × ((x : OverlapContext)
            → read a p.store.heap ≡ some x
            → x.flags ≡ 0
            → read a q.store.heap ≡ none)
  unfolding free_overlap_ctx release
  frees_lem a p (x, here) =
      let marked : OverlapContext → OverlapContext = λ y. record y { fd = invalid_socket } in
      elim (Bool-cases (bit_and x.flags flag_lazy_delete == 0)) [
        | inl now ↦
            rw (here, now)
              (
                _,
                refl,
                λ k other.
                    read-delete_ne a k (write a marked p.store.heap) other
                    ∙ read-write_ne a k marked p.store.heap other,
                λ y at blank. read-delete a (write a marked p.store.heap),
              )
        | inr later ↦
            rw (here, later)
              (
                _,
                refl,
                λ k other. read-write_ne a k marked p.store.heap other,
                λ y at blank.
                    let same : x.flags ≡ y.flags =
                      ap (λ (z : OverlapContext). z.flags) (some_eq x y at) in
                    absurd
                      (ground (arith, later, ap (λ n. bit_and n flag_lazy_delete) (same ∙ blank))),
              )
      ]

  -- AllocOverlapCtx with a new context in the heap.
  allocated :
      (fd : ℕ) (w : W) (p : CompletionPortService W)
      → let a = fresh p.store.heap in
        let x : OverlapContext = record new_context { fd = fd } in
        let q : CompletionPortService W = record p {
          store = record { heap = p.store.heap ++ (a, x) ∷ []; world = w };
        } in
        (a ≢ 0)
        × (read a p.store.heap ≡ none)
        × ((y : OverlapContext) × (read a q.store.heap ≡ some y) × (y.fd ≡ fd) × (y.flags ≡ 0))
        × Spares api a p q
  allocated fd w p =
      let a = fresh p.store.heap in
      let x : OverlapContext = record new_context { fd = fd } in
      (
        fresh-ne-zero p.store.heap,
        read-fresh p.store.heap,
        (x, read-append a x p.store.heap (has_entry-fresh p.store.heap), refl, refl),
        λ k other. read-append_ne a k x p.store.heap other,
      )

  allocates_lem :
      (fd flags : ℕ) (p : CompletionPortService W)
      → (q : CompletionPortService W) × (a : ℕ) × (alloc_overlap_ctx env fd flags p ≡ ok (q, a))
        × ((a ≡ 0) × ((k : ℕ) → read k q.store.heap ≡ read k p.store.heap)
            ⊎ (a ≢ 0)
              × (read a p.store.heap ≡ none)
              × ((x : OverlapContext) × (read a q.store.heap ≡ some x)
                  × (x.fd ≡ fd)
                  × (x.flags ≡ 0))
              × Spares api a p q)
  unfolding alloc_overlap_ctx
  allocates_lem fd flags p =
      let (handle, w) = env.associate fd p.completion_port p.store.world in
      elim (Bool-cases (bit_and flags flag_associate == 0)) [
        | inl plain ↦ rw plain (_, _, refl, inr (allocated fd p.store.world p))
        | inr asked' ↦ elim (Bool-cases (handle == p.completion_port)) [
          | inl good ↦ rw (asked', good) (_, _, refl, inr (allocated fd w p))
          | inr bad ↦ rw (asked', bad, free_appended env p fd w) (_, _, refl, inl (refl, λ k. refl))
        ]
      ]

  -- The service keeps the laws that the example relies on.
  pub port-IsService : IsService api
  unfolding port_read port_write port_accept on_store
  port-IsService = record {
    closed = λ fd k p. refl;
    set_self = λ a f p x here. read-write a f x p.store.heap here;
    set_other = λ a f p k other. read-write_ne a k f p.store.heap other;
    frees = frees_lem;
    allocates = allocates_lem;
    reads = λ a p (x, here).
        let (w, r, runs) = async_read_lem c req a x p.store here in
        (
          record p { store = asked c req a w p.store },
          r,
          rw runs refl,
          λ k other. read-write_ne a k cleared p.store.heap other,
        );
    accepts = λ a p (x, here).
        let (t, r, runs, spares) = async_accept_lem c req a x p.store here in
        (record p { store = t }, r, rw runs refl, spares);
    writes = λ a p x here.
        let (w, r, runs) = async_write_lem c req a x p.store here in
        (
          record p { store = asked c req a w p.store },
          r,
          rw runs refl,
          λ k other. read-write_ne a k cleared p.store.heap other,
          (cleared x, read-write a cleared x p.store.heap here, refl, refl, refl),
        );
  }

  -- The calls that a client connects by keep their laws, too.
  pub port-IsConnector : IsConnector api
  unfolding port_connect on_store
  port-IsConnector = record {
    resolves = λ k p. refl;
    infos_freed = λ k p. refl;
    opens = λ info k p. refl;
    connects = λ a info p x inet here.
        let (t, n, runs, (spares, kept)) = async_connect_lem c req a info x p.store inet here in
        (record p { store = t }, n, rw runs refl, spares, kept);
  }
