-- ===== src/Service/Overlapped/Release.antt =====
-- AllocOverlapCtx and FreeOverlapCtx of src/OverlappedIOService.cpp.
use winsock_tut.Base.{
  ℕ, ◌<◌, ◌≡◌, ◌≢◌, refl, false, List, [], ◌∷◌, ◌++◌, some, arith, ◌==◌, leb, length,
}
use winsock_tut.Winsock.{invalid_socket, wsa_maximum_wait_events}
use winsock_tut.Outcome.{ok, bad_pointer, ◌>>=◌}
use winsock_tut.Table.{remove_all, has_entry}
use winsock_tut.Heap.{
  fresh, read, write, has_entry-fresh, read-append, delete-append, read-delete, delete-write,
}
use winsock_tut.Service.Contexts.{OverlapContext, new_context}
use winsock_tut.Service.Overlapped.{
  OverlappedService, Outside, handle_of, put, alloc_overlap_ctx, free_overlap_ctx,
}

remove_all-append :
    (h a : ℕ) (xs : List (ℕ × ℕ))
    → has_entry handle_of h xs ≡ false
    → remove_all handle_of h (xs ++ (h, a) ∷ []) ≡ xs
unfolding remove_all has_entry
remove_all-append h a [] k = ground arith
remove_all-append h a (x ∷ xs) k = ground (arith, remove_all-append h a xs)

remove_all-put :
    (h a : ℕ) (es : List (ℕ × ℕ))
    → has_entry handle_of h es ≡ false
    → remove_all handle_of h (put h a es) ≡ es
unfolding put
remove_all-put h a es new = rw new (remove_all-append h a es new)

module _ {W : Type 0} (env : Outside W) where
  -- The result of AllocOverlapCtx where the table has room and the event is valid.
  alloc_overlap_ctx_ok :
      (p : OverlappedService W) (fd flags h : ℕ) (w : W)
      → (leb wsa_maximum_wait_events (length p.fds)) ≡ false
      → env.create_event p.store.world ≡ (h, w)
      → (h == 0) ≡ false
      → alloc_overlap_ctx env fd flags p ≡ (
        record p {
          fds = put h (fresh p.store.heap) p.fds;
          store = record {
            heap =
                p.store.heap
                ++ (fresh p.store.heap, record new_context { fd = fd; h_event = h }) ∷ [];
            world = w;
          };
        },
        fresh p.store.heap,
      )
  unfolding alloc_overlap_ctx
  alloc_overlap_ctx_ok p fd flags h w room made valid = rw (room, made, valid) refl

  -- AllocOverlapCtx with room in the table, and a valid event whose handle is not in the table,
  -- gives a context that FreeOverlapCtx takes: the table and the heap are then as they were
  -- before, and the event is closed.
  free_overlap_ctx-alloc_overlap_ctx :
      (p : OverlappedService W) (fd flags h : ℕ) (w : W)
      → length p.fds < wsa_maximum_wait_events
      → env.create_event p.store.world ≡ (h, w)
      → h ≢ 0
      → has_entry handle_of h p.fds ≡ false
      → free_overlap_ctx env
          (alloc_overlap_ctx env fd flags p).1
          (alloc_overlap_ctx env fd flags p).0
        ≡ ok (record p { store = record { heap = p.store.heap; world = env.close_event h w } })
  unfolding free_overlap_ctx
  free_overlap_ctx-alloc_overlap_ctx p fd flags h w room made valid new =
      let a = fresh p.store.heap in
      let ctx : OverlapContext = record new_context { fd = fd; h_event = h } in
      let unused = has_entry-fresh p.store.heap in
      rw
        (
          alloc_overlap_ctx_ok p fd flags h w (ground arith) made (ground arith),
          read-append a ctx p.store.heap unused,
          delete-write a (λ x. record x { fd = invalid_socket; h_event = 0 })
              (p.store.heap ++ (a, ctx) ∷ []),
          delete-append a ctx p.store.heap unused,
          remove_all-put h a p.fds new,
        )
        refl

  -- FreeOverlapCtx of a context that it has freed before reads freed memory.
  free_overlap_ctx-free_overlap_ctx :
      (p : OverlappedService W) (a : ℕ) (ctx : OverlapContext)
      → read a p.store.heap ≡ some ctx
      → (free_overlap_ctx env a p >>= free_overlap_ctx env a) ≡ bad_pointer
  unfolding free_overlap_ctx
  free_overlap_ctx-free_overlap_ctx p a ctx here =
      rw
        (
          here,
          read-delete a (write a (λ x. record x { fd = invalid_socket; h_event = 0 }) p.store.heap),
        )
        refl
