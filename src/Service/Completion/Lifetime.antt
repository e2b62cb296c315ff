-- ===== src/Service/Completion/Lifetime.antt =====
-- The lifetime of a context in src/CompletionPortService.cpp.
use Prim.Native.Nat.{bit_and}
use winsock_tut.Base.{
  ℕ, ◌<◌, ◌≡◌, ◌≢◌, refl, false, [], ◌∷◌, ◌++◌, some, arith, ◌==◌, ==_iff, if◌then◌else◌,
  Bool-cases, inl, inr, ◌⊎◌, ap, sym, ◌∙◌,
}
use mathlib.Core.Path.{subst}
use winsock_tut.Winsock.{invalid_socket}
use winsock_tut.Outcome.{Outcome, ok, bad_pointer}
use winsock_tut.Poller.Bits.{two_three}
use winsock_tut.Heap.{
  fresh, read, write, delete, has_entry-fresh, read-append, delete-append, read-delete, read-write,
  delete-write,
}
use winsock_tut.Service.Contexts.{
  OverlapContext, new_context, flag_associate, flag_cancel_io, flag_lazy_delete,
}
use winsock_tut.Service.Completion.{
  CompletionPortService, Outside, cancelled, release, free_overlap_ctx, alloc_overlap_ctx, complete,
  delete_lazily, dispatch,
}

-- The mark of a context that is freed.
abbrev pub marked : OverlapContext → OverlapContext
marked ctx = record ctx { fd = invalid_socket }

module _ {W : Type 0} (env : Outside W) where
  -- FreeOverlapCtx of a new context.
  pub free_appended :
      (p : CompletionPortService W) (fd : ℕ) (w : W)
      → free_overlap_ctx env (fresh p.store.heap) record p {
        store = record {
          heap = p.store.heap ++ (fresh p.store.heap, record new_context { fd = fd }) ∷ [];
          world = w;
        };
      }
        ≡ ok (record p { store = record { heap = p.store.heap; world = w } })
  unfolding free_overlap_ctx release cancelled
  free_appended p fd w =
      let a = fresh p.store.heap in
      let ctx : OverlapContext = record new_context { fd = fd } in
      let unused = has_entry-fresh p.store.heap in
      rw
        (
          read-append a ctx p.store.heap unused,
          delete-write a marked (p.store.heap ++ (a, ctx) ∷ []),
          delete-append a ctx p.store.heap unused,
        )
        refl

  -- The world after the association that AllocOverlapCtx may ask for.
  abbrev pub associated : ℕ → ℕ → CompletionPortService W → W
  associated fd flags p =
      if bit_and flags flag_associate == 0
      then p.store.world
      else (env.associate fd p.completion_port p.store.world).1

  -- AllocOverlapCtx returns the null pointer with the heap as it was before, or a context that
  -- FreeOverlapCtx takes, and then the heap is as it was before. The world is the one after the
  -- association in both cases: with FLAG_CANCEL_IO among the flags of AllocOverlapCtx, FreeOverlapCtx
  -- cancels nothing all the same.
  pub free_context-alloc_context :
      (p : CompletionPortService W) (fd flags : ℕ)
      → let back : CompletionPortService W = record p {
        store = record { heap = p.store.heap; world = associated fd flags p };
      } in
        (q : CompletionPortService W) × (a : ℕ) × (alloc_overlap_ctx env fd flags p ≡ ok (q, a))
        × ((a ≡ 0) × (q ≡ back) ⊎ (free_overlap_ctx env a q ≡ ok back))
  unfolding alloc_overlap_ctx
  free_context-alloc_context p fd flags = elim (Bool-cases (bit_and flags flag_associate == 0)) [
    | inl plain ↦ rw plain (_, _, refl, inr (free_appended p fd p.store.world))
    | inr asked ↦
        let w = (env.associate fd p.completion_port p.store.world).1 in
        elim (Bool-cases
          ((env.associate fd p.completion_port p.store.world).0 == p.completion_port)) [
            | inl good ↦ rw (asked, good) (_, _, refl, inr (free_appended p fd w))
            | inr bad ↦ rw (asked, bad, free_appended p fd w) (_, _, refl, inl (refl, refl))
          ]
  ]

  -- FreeOverlapCtx of a context with FLAG_CANCEL_IO set, in a flag word below 64, cancels its
  -- requests and does not delete it: it stays in the heap, marked with the invalid socket.
  free_overlap_ctx-cancel :
      (p : CompletionPortService W) (a : ℕ) (ctx : OverlapContext)
      → read a p.store.heap ≡ some ctx
      → ctx.flags < 64
      → bit_and ctx.flags flag_cancel_io ≢ 0
      → (q : CompletionPortService W) × (free_overlap_ctx env a p ≡ ok q)
        × (q.store.world ≡ env.cancel_io ctx.fd p.store.world)
        × (read a q.store.heap ≡ some (marked ctx))
  unfolding free_overlap_ctx release cancelled
  free_overlap_ctx-cancel p a ctx here small set =
      let two : (bit_and ctx.flags flag_cancel_io == 0) ≡ false = ground arith in
      let three = two_three ctx.flags small two in
      rw (here, two, three) (_, refl, refl, read-write a marked ctx p.store.heap here)

  -- The end of Run for a context whose callback has left `x` behind.
  abbrev IsDeleted : ℕ → OverlapContext → CompletionPortService W → CompletionPortService W → Type 0
  IsDeleted a ctx p x =
      (bit_and ctx.flags flag_lazy_delete ≡ 0 → delete_lazily env a x ≡ bad_pointer)
      × (bit_and ctx.flags flag_lazy_delete ≢ 0
          → (delete_lazily env a x
              ≡ ok (
                record x { store = record { heap = delete a p.store.heap; world = x.store.world } },
                0,
              )))

  released-IsDeleted :
      (p : CompletionPortService W) (a : ℕ) (ctx : OverlapContext)
      → read a p.store.heap ≡ some ctx
      → IsDeleted a ctx p (record p { store = release env a ctx p.store })
  unfolding release delete_lazily
  released-IsDeleted p a ctx here = (
    (λ none_set.
        rw ((==_iff (bit_and ctx.flags flag_lazy_delete) 0).1 none_set) rw
          (read-delete a (write a marked p.store.heap)) refl),
    λ set.
        let lazy : (bit_and ctx.flags flag_lazy_delete == 0) ≡ false = ground arith in
        rw
          (
            lazy,
            read-write a marked ctx p.store.heap here,
            lazy,
            delete-write a marked p.store.heap,
          )
          refl,
  )

  free_found :
      (p : CompletionPortService W) (a : ℕ) (ctx : OverlapContext)
      → read a p.store.heap ≡ some ctx
      → free_overlap_ctx env a p ≡ ok (record p { store = release env a ctx p.store })
  unfolding free_overlap_ctx
  free_found p a ctx here = rw here refl

  completed :
      (ctx : OverlapContext) (p : CompletionPortService W) (k : ℕ)
      → ctx.cb ≡ some k
      → complete env ctx p ≡ env.on_complete k p
  unfolding complete
  completed ctx p k callback = simp (complete, callback) refl

  result : Outcome (CompletionPortService W) → CompletionPortService W → CompletionPortService W
  result (ok x) d = x
  result o d = d

  -- A context whose callback frees it by FreeOverlapCtx, and does no more: without a bit of
  -- FLAG_LAZY_DELETE, Run goes on to read freed memory; with one, Run deletes the context, and leaves
  -- the other contexts as they are.
  pub dispatch-free_overlap_ctx :
      (p : CompletionPortService W) (a k : ℕ) (ctx : OverlapContext)
      → read a p.store.heap ≡ some ctx
      → ctx.cb ≡ some k
      → free_overlap_ctx env a p ≡ ok (env.on_complete k p)
      → (bit_and ctx.flags flag_lazy_delete ≡ 0 → dispatch env a p ≡ bad_pointer)
        × (bit_and ctx.flags flag_lazy_delete ≢ 0
            → (dispatch env a p
                ≡ ok (
                  record (env.on_complete k p) {
                    store = record {
                      heap = delete a p.store.heap;
                      world = (env.on_complete k p).store.world;
                    };
                  },
                  0,
                )))
  unfolding dispatch result
  dispatch-free_overlap_ctx p a k ctx here callback frees =
      let left : record p { store = release env a ctx p.store } ≡ env.on_complete k p =
        ap (λ o. result o p) (sym (free_found p a ctx here) ∙ frees) in
      rw (here, completed ctx p k callback)
        (subst (IsDeleted a ctx p) left (released-IsDeleted p a ctx here))
