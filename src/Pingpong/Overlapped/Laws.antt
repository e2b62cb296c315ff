-- ===== src/Pingpong/Overlapped/Laws.antt =====
-- The overlapped service keeps the laws of the pingpong example.
use winsock_tut.Base.{
  ℕ, ◌≡◌, ◌≢◌, ◌⊎◌, inl, inr, refl, ◌∙◌, none, some, ◌==◌, leb, length, Bool-cases,
}
use winsock_tut.Winsock.{invalid_socket, wsa_maximum_wait_events}
use winsock_tut.Socket.Calls.{Calls}
use winsock_tut.Outcome.{ok}
use winsock_tut.Heap.{
  fresh, read, write, has_entry-fresh, read-fresh, fresh-ne-zero, read-append, read-append_ne,
  read-delete, read-delete_ne, read-write, read-write_ne,
}
use winsock_tut.Service.Contexts.{OverlapContext, new_context}
use winsock_tut.Service.Requests.{Requests, cleared}
use winsock_tut.Service.Requests.Returns.{
  asked, async_read_lem, async_write_lem, async_accept_lem, async_connect_lem,
}
use winsock_tut.Service.Overlapped.{OverlappedService, Outside, free_overlap_ctx, alloc_overlap_ctx}
use winsock_tut.Pingpong.{ServiceApi}
use winsock_tut.Pingpong.Services.{IsService, IsConnector, Spares, Has}
use winsock_tut.Pingpong.Overlapped.{overlapped_api, on_store}

module _ {W : Type 0} (env : Outside W) (c : Calls W) (req : Requests W) (tick : ℕ) where
  abbrev api : ServiceApi (OverlappedService W)
  api = overlapped_api env c req tick

  frees_lem :
      (a : ℕ) (p : OverlappedService W)
      → Has api a p
      → (q : OverlappedService W) × (free_overlap_ctx env a p ≡ ok q)
        × Spares api a p q
        × ((x : OverlapContext)
            → read a p.store.heap ≡ some x
            → x.flags ≡ 0
            → read a q.store.heap ≡ none)
  unfolding free_overlap_ctx
  frees_lem a p (x, here) =
      let retired : OverlapContext → OverlapContext =
        λ y. record y { fd = invalid_socket; h_event = 0 } in
      rw here (
        _,
        refl,
        λ k other.
            read-delete_ne a k (write a retired p.store.heap) other
            ∙ read-write_ne a k retired p.store.heap other,
        λ y at blank. read-delete a (write a retired p.store.heap),
      )

  allocates_lem :
      (fd flags : ℕ) (p : OverlappedService W)
      → (q : OverlappedService W) × (a : ℕ) × (ok (alloc_overlap_ctx env fd flags p) ≡ ok (q, a))
        × ((a ≡ 0) × ((k : ℕ) → read k q.store.heap ≡ read k p.store.heap)
            ⊎ (a ≢ 0)
              × (read a p.store.heap ≡ none)
              × ((x : OverlapContext) × (read a q.store.heap ≡ some x)
                  × (x.fd ≡ fd)
                  × (x.flags ≡ 0))
              × Spares api a p q)
  unfolding alloc_overlap_ctx
  allocates_lem fd flags p = elim (Bool-cases (leb wsa_maximum_wait_events (length p.fds))) [
    | inl full ↦ rw full (_, _, refl, inl (refl, λ k. refl))
    | inr room ↦ elim (Bool-cases ((env.create_event p.store.world).0 == 0)) [
      | inl bad ↦ rw (room, bad) (_, _, refl, inl (refl, λ k. refl))
      | inr good ↦
          let a = fresh p.store.heap in
          let x : OverlapContext = record new_context {
            fd = fd;
            h_event = (env.create_event p.store.world).0;
          } in
          rw (room, good)
            (
              _,
              _,
              refl,
              inr (
                fresh-ne-zero p.store.heap,
                read-fresh p.store.heap,
                (x, read-append a x p.store.heap (has_entry-fresh p.store.heap), refl, refl),
                λ k other. read-append_ne a k x p.store.heap other,
              ),
            )
    ]
  ]

  -- The service keeps the laws that the example relies on.
  pub overlapped-IsService : IsService api
  unfolding on_store
  overlapped-IsService = record {
    closed = λ fd k p. refl;
    set_self = λ a f p x here. read-write a f x p.store.heap here;
    set_other = λ a f p k other. read-write_ne a k f p.store.heap other;
    frees = frees_lem;
    allocates = allocates_lem;
    reads = λ a p (x, here).
        let (w, r, runs) = async_read_lem c req a x p.store here in
        (
          record p { store = asked c req a w p.store },
          r,
          rw runs refl,
          λ k other. read-write_ne a k cleared p.store.heap other,
        );
    accepts = λ a p (x, here).
        let (t, r, runs, spares) = async_accept_lem c req a x p.store here in
        (record p { store = t }, r, rw runs refl, spares);
    writes = λ a p x here.
        let (w, r, runs) = async_write_lem c req a x p.store here in
        (
          record p { store = asked c req a w p.store },
          r,
          rw runs refl,
          λ k other. read-write_ne a k cleared p.store.heap other,
          (cleared x, read-write a cleared x p.store.heap here, refl, refl, refl),
        );
  }

  -- The calls that a client connects by keep their laws, too.
  pub overlapped-IsConnector : IsConnector api
  unfolding on_store
  overlapped-IsConnector = record {
    resolves = λ k p. refl;
    infos_freed = λ k p. refl;
    opens = λ info k p. refl;
    connects = λ a info p x inet here.
        let (t, n, runs, (spares, kept)) = async_connect_lem c req a info x p.store inet here in
        (record p { store = t }, n, rw runs refl, spares, kept);
  }
