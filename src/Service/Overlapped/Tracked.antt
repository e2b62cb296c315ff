-- ===== src/Service/Overlapped/Tracked.antt =====
-- The table of src/OverlappedIOService.cpp and its contexts: AllocOverlapCtx and FreeOverlapCtx keep
-- them in step.
use winsock_tut.Base.{
  ℕ, ◌+◌, ◌≤◌, ◌<◌, ◌≡◌, ◌≢◌, ◌⊎◌, inl, inr, refl, sym, ap, ◌∙◌, false, [], ◌∷◌, ◌++◌, some,
  some_eq, arith, ◌==◌, leb, length, length-append, if◌then◌else◌, Bool-cases,
}
use winsock_tut.Winsock.{invalid_socket, wsa_maximum_wait_events}
use winsock_tut.Outcome.{ok}
use winsock_tut.Table.{
  find_entry, remove_all, has_entry, find_entry-remove_all, find_entry-remove_all_self,
  find_entry-append, find_entry-missing, has_entry-found, length-remove_all,
}
use winsock_tut.Heap.{
  fresh, read, delete, has_entry-fresh, read-append, read-append_old, read-append_cases,
  read-delete, read-delete_ne, delete-write,
}
use winsock_tut.Service.Contexts.{OverlapContext, new_context}
use winsock_tut.Service.Overlapped.{
  OverlappedService, Outside, handle_of, put, alloc_overlap_ctx, free_overlap_ctx,
}

-- Each entry of the table leads to a context with its handle, each context has its entry, and the
-- handles can be waited for at once.
pub record IsTracked {W : Type 0} (p : OverlappedService W) : Type 0 where
  pub owned :
      (h : ℕ) (e : ℕ × ℕ)
      → find_entry handle_of h p.fds ≡ some e
      → (ctx : OverlapContext) × (read e.1 p.store.heap ≡ some ctx) × (ctx.h_event ≡ h)
  pub listed :
      (a : ℕ) (ctx : OverlapContext)
      → read a p.store.heap ≡ some ctx
      → find_entry handle_of ctx.h_event p.fds ≡ some (ctx.h_event, a)
  pub fits : length p.fds ≤ wsa_maximum_wait_events

module _ {W : Type 0} (env : Outside W) (p : OverlappedService W) (v : IsTracked p) where
  -- The service with one context more, for a new handle.
  abbrev more : ℕ → ℕ → W → OverlappedService W
  more fd h w = record p {
    fds = put h (fresh p.store.heap) p.fds;
    store = record {
      heap = p.store.heap ++ (fresh p.store.heap, record new_context { fd = fd; h_event = h }) ∷ [];
      world = w;
    };
  }

  find_entry-put :
      (h a k : ℕ)
      → has_entry handle_of h p.fds ≡ false
      → find_entry handle_of k (put h a p.fds)
        ≡ (if h == k then some (h, a) else find_entry handle_of k p.fds)
  unfolding put
  find_entry-put h a k unused = rw unused (
      find_entry-append handle_of h k (h, a) p.fds refl
        (find_entry-missing handle_of h p.fds unused))

  length-put :
      (h a : ℕ) → has_entry handle_of h p.fds ≡ false → length (put h a p.fds) ≡ length p.fds + 1
  unfolding put
  length-put h a unused = rw unused (length-append p.fds ((h, a) ∷ []))

  more-IsTracked :
      (fd h : ℕ) (w : W)
      → has_entry handle_of h p.fds ≡ false
      → length p.fds < wsa_maximum_wait_events
      → IsTracked (more fd h w)
  more-IsTracked fd h w unused room = record {
    owned = owned;
    listed = listed;
    fits = omega (arith, length-put h (fresh p.store.heap) unused);
  }
    where
      owned :
          (k : ℕ) (e : ℕ × ℕ)
          → find_entry handle_of k (put h (fresh p.store.heap) p.fds) ≡ some e
          → (ctx : OverlapContext) × (read e.1 (
                p.store.heap
                ++ (fresh p.store.heap, record new_context { fd = fd; h_event = h }) ∷ [])
              ≡ some ctx)
            × (ctx.h_event ≡ k)
      owned k e at =
          let a = fresh p.store.heap in
          let x : OverlapContext = record new_context { fd = fd; h_event = h } in
          elim (Bool-cases (h == k)) [
            | inl same ↦
                let q : e.1 ≡ a = ground (arith, find_entry-put h a k unused) in
                (
                  x,
                  ap (λ b. read b (p.store.heap ++ (a, x) ∷ [])) q
                      ∙ read-append a x p.store.heap (has_entry-fresh p.store.heap),
                  ground arith,
                )
            | inr other ↦
                let (ctx, there, its) = v.owned k e (ground (arith, find_entry-put h a k unused)) in
                (ctx, read-append_old a e.1 x ctx p.store.heap there, its)
          ]

      listed :
          (b : ℕ) (ctx : OverlapContext)
          → read b (
              p.store.heap
              ++ (fresh p.store.heap, record new_context { fd = fd; h_event = h }) ∷ [])
            ≡ some ctx
          → find_entry handle_of ctx.h_event (put h (fresh p.store.heap) p.fds)
            ≡ some (ctx.h_event, b)
      listed b ctx at =
          let a = fresh p.store.heap in
          let x : OverlapContext = record new_context { fd = fd; h_event = h } in
          elim (read-append_cases a b x ctx p.store.heap at) [
            | inl old ↦
                let entry = v.listed b ctx old in
                ground (
                  arith,
                  find_entry-put h a ctx.h_event unused,
                  entry,
                  has_entry-found handle_of ctx.h_event (ctx.h_event, b) p.fds entry,
                )
            | inr (q, one) ↦
                let k : h ≡ ctx.h_event = ap (λ (y : OverlapContext). y.h_event) one in
                ground (arith, find_entry-put h a ctx.h_event unused)
          ]

  -- AllocOverlapCtx, for an event whose handle is not in the table, keeps the table and the contexts in
  -- step. It returns the null pointer, with both as they were, or the address of a new context.
  pub alloc_overlap_ctx-IsTracked :
      (fd flags : ℕ)
      → has_entry handle_of (env.create_event p.store.world).0 p.fds ≡ false
      → let (q, a) = alloc_overlap_ctx env fd flags p in
        IsTracked q
        × ((a ≡ 0) × (q.fds ≡ p.fds) × (q.store.heap ≡ p.store.heap)
            ⊎ (read a q.store.heap
                ≡ some
                    (record new_context { fd = fd; h_event = (env.create_event p.store.world).0 })))
  unfolding alloc_overlap_ctx
  alloc_overlap_ctx-IsTracked fd flags unused =
      let h = (env.create_event p.store.world).0 in
      let w = (env.create_event p.store.world).1 in
      elim (Bool-cases (leb wsa_maximum_wait_events (length p.fds))) [
        | inl full ↦ rw full (v, inl (refl, refl, refl))
        | inr room ↦ elim (Bool-cases (h == 0)) [
          | inl bad ↦
              rw (room, bad)
                (
                  record { owned = v.owned; listed = v.listed; fits = v.fits },
                  inl (refl, refl, refl),
                )
          | inr good ↦
              rw (room, good)
                (
                  more-IsTracked fd h w unused (ground arith),
                  inr (
                      read-append (fresh p.store.heap) (record new_context { fd = fd; h_event = h })
                        p.store.heap (has_entry-fresh p.store.heap)),
                )
        ]
      ]

  module _ (a : ℕ) (ctx : OverlapContext) (here : read a p.store.heap ≡ some ctx) where
    -- The service without the context.
    abbrev pub without : OverlappedService W
    without = record p {
      fds = remove_all handle_of ctx.h_event p.fds;
      store = record {
        heap = delete a p.store.heap;
        world = env.close_event ctx.h_event p.store.world;
      };
    }

    without-IsTracked : IsTracked without
    without-IsTracked = record {
      owned = owned;
      listed = listed;
      fits = omega (arith, length-remove_all handle_of ctx.h_event p.fds, v.fits);
    }
      where
        owned :
            (h : ℕ) (e : ℕ × ℕ)
            → find_entry handle_of h (remove_all handle_of ctx.h_event p.fds) ≡ some e
            → (x : OverlapContext) × (read e.1 (delete a p.store.heap) ≡ some x) × (x.h_event ≡ h)
        owned h e at = elim (Bool-cases (h == ctx.h_event)) [
          | inl same ↦
              absurd (ground (arith, find_entry-remove_all_self handle_of ctx.h_event p.fds))
          | inr other ↦
              let old : find_entry handle_of h p.fds ≡ some e =
                sym (find_entry-remove_all handle_of ctx.h_event h p.fds (ground arith)) ∙ at in
              let (x, there, its) = v.owned h e old in
              let apart : e.1 ≢ a = λ q.
                let one : x ≡ ctx =
                  some_eq x ctx (sym there ∙ ap (λ k. read k p.store.heap) q ∙ here) in
                ground (arith, ap (λ (y : OverlapContext). y.h_event) one) in
              (x, read-delete_ne a e.1 p.store.heap apart ∙ there, its)
        ]

        listed :
            (b : ℕ) (x : OverlapContext)
            → read b (delete a p.store.heap) ≡ some x
            → find_entry handle_of x.h_event (remove_all handle_of ctx.h_event p.fds)
              ≡ some (x.h_event, b)
        listed b x at =
            let apart : b ≢ a = λ q. ground (arith, read-delete a p.store.heap, q) in
            let entry = v.listed b x (sym (read-delete_ne a b p.store.heap apart) ∙ at) in
            let other : x.h_event ≢ ctx.h_event =
              λ q. apart (ground (arith, entry, v.listed a ctx here, q)) in
            find_entry-remove_all handle_of ctx.h_event x.h_event p.fds other ∙ entry

    -- FreeOverlapCtx of a context of the service returns: the context and its entry are gone, the event
    -- is closed, and the table and the contexts are in step.
    pub free_overlap_ctx-IsTracked : (free_overlap_ctx env a p ≡ ok without) × IsTracked without
    unfolding free_overlap_ctx
    free_overlap_ctx-IsTracked = (
      rw (here, delete-write a (λ x. record x { fd = invalid_socket; h_event = 0 }) p.store.heap)
          refl,
      without-IsTracked,
    )
