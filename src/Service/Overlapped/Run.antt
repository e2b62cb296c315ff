-- ===== src/Service/Overlapped/Run.antt =====
-- Run of src/OverlappedIOService.cpp, with timers and callbacks that allocate and free contexts.
use winsock_tut.Base.{
  ℕ, ◌/◌, ◌%◌, ◌^◌, ◌≤◌, ◌<◌, ◌≡◌, ◌⊎◌, inl, inr, refl, sym, ap, ◌∙◌, false, List, [], ◌∷◌, some,
  arith, ◌==◌, ltb, leb, length, get_elem?, drop-cons, ◌||◌, Bool-cases, Option-cases, not, ◌&&◌,
  i32_negative,
}
use mathlib.Core.Path.{subst}
use winsock_tut.Winsock.{wsa_maximum_wait_events}
use winsock_tut.Outcome.{ok}
use winsock_tut.Table.{find_entry}
use winsock_tut.Heap.{read, write, read-write, read-write_ne, read-write_old}
use winsock_tut.Timer.Sift.{timers}
use winsock_tut.Timer.Valid.{IsValid}
use winsock_tut.Timer.Callbacks.{IsTame, pending, update_timer_tame}
use winsock_tut.Timer.Frame.{update_timer-frame}
use winsock_tut.Poller.AsyncEvent.{wait_failed, wait_timeout, wait_failed-cases}
use winsock_tut.Service.Contexts.{OverlapContext, Store}
use winsock_tut.Service.Requests.{minus_one}
use winsock_tut.Service.Overlapped.{
  OverlappedService, Outside, handle_of, handles, host, complete, dispatch, handle_handle,
  after_timers, waited, run,
}
use winsock_tut.Service.Overlapped.Tracked.{IsTracked}

-- What WSAGetOverlappedResult fills in.
abbrev pub transferred : ℕ → ℕ → OverlapContext → OverlapContext
transferred i j ctx = record ctx { internal = i; internal_high = j }

-- What Run relies on, for an invariant `Inv` of the table and the world: callbacks that keep it, and the
-- table and the contexts in step, of which those of the timers leave the list of the handles alone,
-- and the documented results of the two calls of WinSock, which keep it, as Sleep does. Such an
-- invariant says that the next event gets a handle that is not in the table.
pub record IsSteady {W : Type 0} (env : Outside W) (Inv : List (ℕ × ℕ) → W → Type 0) : Type 0 where
  pub timed :
      (k : ℕ) (p : OverlappedService W)
      → IsTracked p × Inv p.fds p.store.world
      → IsTracked (env.on_timeout k p)
        × Inv (env.on_timeout k p).fds (env.on_timeout k p).store.world
  pub timed_events : (k : ℕ) (p : OverlappedService W) → (env.on_timeout k p).events ≡ p.events
  pub completed :
      (k : ℕ) (p : OverlappedService W)
      → IsTracked p × Inv p.fds p.store.world
      → IsTracked (env.on_complete k p)
        × Inv (env.on_complete k p).fds (env.on_complete k p).store.world
  pub waits :
      (es : List ℕ) (ms : ℕ) (w : W)
      → ((env.wait es ms w).0 ≡ wait_timeout)
        ⊎ ((env.wait es ms w).0 ≡ wait_failed)
        ⊎ ((env.wait es ms w).0 < length es)
  pub fetches :
      (fd a : ℕ) (s : Store W)
      → (i : ℕ) × (j : ℕ) × ((env.get_overlapped_result fd a s).heap
          ≡ write a (transferred i j) s.heap)
  pub wait_keeps :
      (es : List ℕ) (ms : ℕ) (fds : List (ℕ × ℕ)) (w : W) → Inv fds w → Inv fds (env.wait es ms w).1
  pub sleep_keeps : (ms : ℕ) (fds : List (ℕ × ℕ)) (w : W) → Inv fds w → Inv fds (env.sleep ms w)
  pub fetch_keeps :
      (fd a : ℕ) (s : Store W) (fds : List (ℕ × ℕ))
      → Inv fds s.world
      → Inv fds (env.get_overlapped_result fd a s).world

module _ {W : Type 0} (env : Outside W) (Inv : List (ℕ × ℕ) → W → Type 0)
    (steady : IsSteady env Inv) where
  -- In step, with the invariant.
  abbrev IsSound : OverlappedService W → Type 0
  IsSound p = IsTracked p × Inv p.fds p.store.world

  -- Another world, with the results of an operation in its context.
  transferred-IsTracked :
      (p : OverlappedService W) (a i j : ℕ) (s : Store W)
      → s.heap ≡ write a (transferred i j) p.store.heap
      → IsTracked p
      → IsTracked (record p { store = s })
  transferred-IsTracked p a i j s e v = record {
    owned = λ h x at.
        let (ctx, there, its) = v.owned h x at in
        elim (Bool-cases (x.1 == a)) [
          | inl same ↦
              let q : x.1 ≡ a = ground arith in
              (
                transferred i j ctx,
                ap (read x.1) e
                    ∙ ap (λ b. read b (write a (transferred i j) p.store.heap)) q
                    ∙ read-write a (transferred i j) ctx p.store.heap
                        (ap (λ b. read b p.store.heap) (sym q) ∙ there),
                its,
              )
          | inr other ↦ (
            ctx,
            ap (read x.1) e
                ∙ read-write_ne a x.1 (transferred i j) p.store.heap (ground arith)
                ∙ there,
            its,
          )
        ];
    listed = λ b x at.
        let (y, old, same) =
          read-write_old a b (transferred i j) (λ (c : OverlapContext). c.h_event) (λ c. refl) x
            p.store.heap (ap (read b) (sym e) ∙ at) in
        subst (λ h. find_entry handle_of h p.fds ≡ some (h, b)) (sym same) (v.listed b y old);
    fits = v.fits;
  }

  complete-IsTracked :
      (ctx : OverlapContext) (p : OverlappedService W) → IsSound p → IsSound (complete env ctx p)
  unfolding complete
  complete-IsTracked ctx p v = elim (Option-cases ctx.cb) [
    | inl e ↦ rw e v
    | inr (k, e) ↦ rw e (steady.completed k p v)
  ]

  -- Run for the context of a signalled event.
  dispatch-IsTracked :
      (p : OverlappedService W) (a : ℕ) (ctx : OverlapContext)
      → read a p.store.heap ≡ some ctx
      → IsSound p
      → (q : OverlappedService W) × (dispatch env a p ≡ ok (q, 0)) × IsSound q
  unfolding dispatch
  dispatch-IsTracked p a ctx here v =
      let s = env.get_overlapped_result ctx.fd a p.store in
      let q : OverlappedService W = record p { store = s } in
      let (i, j, e) = steady.fetches ctx.fd a p.store in
      let there : read a s.heap ≡ some (transferred i j ctx) =
        ap (read a) e ∙ read-write a (transferred i j) ctx p.store.heap here in
      (
        complete env (transferred i j ctx) q,
        rw (here, there) refl,
        complete-IsTracked (transferred i j ctx) q
            (transferred-IsTracked p a i j s e v.0, steady.fetch_keeps ctx.fd a p.store p.fds v.1),
      )

  get_elem?-inside : (xs : List ℕ) (i : ℕ) → i < length xs → (x : ℕ) × (get_elem? xs i ≡ some x)
  get_elem?-inside xs i h = let (x, e, _) = drop-cons i xs h in (x, e)

  -- Run for a signalled event, of which the timers may have freed the context.
  handle_handle-IsTracked :
      (p : OverlappedService W) (h : ℕ)
      → IsSound p
      → (q : OverlappedService W) × (n : ℕ) × (handle_handle env (some h) p ≡ ok (q, n))
        × ((n ≡ 0) ⊎ (n ≡ minus_one))
        × IsSound q
  unfolding handle_handle
  handle_handle-IsTracked p h v = elim (Option-cases (find_entry handle_of h p.fds)) [
    | inl gone ↦ (p, minus_one, rw (handle_handle, gone) refl, inr refl, v)
    | inr (e, at) ↦
        let (ctx, here, its) = v.0.owned h e at in
        let (q, run, v') = dispatch-IsTracked p e.1 ctx here v in
        (q, 0, rw (handle_handle, at) run, inl refl, v')
  ]

  after_timers-IsTracked :
      (p : OverlappedService W) (nready : ℕ)
      → (nready ≡ wait_failed) ⊎ (length p.events ≡ 0) ⊎ (nready < length p.events)
      → length p.events ≤ wsa_maximum_wait_events
      → IsSound p
      → (q : OverlappedService W) × (n : ℕ) × (after_timers env nready p ≡ ok (q, n))
        × ((n ≡ 0) ⊎ (n ≡ minus_one))
        × IsSound q
  unfolding after_timers
  after_timers-IsTracked p nready ready fits v =
      elim (Bool-cases (i32_negative nready || 0 == length p.events)) [
        | inl none_ready ↦ (p, 0, rw none_ready refl, inl refl, v)
        | inr signalled ↦
            let inside : nready < length p.events = elim ready [
              | inl failed ↦ absurd (ground arith)
              | inr (inl empty) ↦ absurd (ground arith)
              | inr (inr i) ↦ i
            ] in
            let small : leb wsa_maximum_wait_events nready ≡ false = ground arith in
            let (h, at) = get_elem?-inside p.events nready inside in
            let (q, n, run, back, v') = handle_handle-IsTracked p h v in
            (q, n, rw (signalled, small, at) run, back, v')
      ]

  length-handles : (es : List (ℕ × ℕ)) → length (handles es) ≡ length es
  unfolding handles
  length-handles [] = refl
  length-handles (e ∷ es) = omega (arith, length-handles es)

  -- The service after the wait, and what it has given.
  waited-IsTracked :
      (p : OverlappedService W) (timeout : ℕ)
      → IsSound p
      → IsSound (waited env p timeout).0
        × ((waited env p timeout).0.events ≡ p.events)
        × ((waited env p timeout).0.timers ≡ p.timers)
        × (((waited env p timeout).1 ≡ wait_failed)
            ⊎ (length p.events ≡ 0)
            ⊎ ((waited env p timeout).1 < length p.events))
  unfolding waited
  waited-IsTracked p timeout (v, inv) = elim (Bool-cases (0 == length p.events)) [
    | inl empty ↦ elim (Bool-cases (ltb 0 timeout && not (i32_negative timeout))) [
      | inl sleeps ↦
          rw (empty, sleeps)
            (
              (
                record { owned = v.owned; listed = v.listed; fits = v.fits },
                steady.sleep_keeps (timeout / 2) p.fds p.store.world inv,
              ),
              refl,
              refl,
              inr (inl (ground arith)),
            )
      | inr skips ↦ rw (empty, skips) ((v, inv), refl, refl, inr (inl (ground arith)))
    ]
    | inr full ↦ rw full (
      (
        record { owned = v.owned; listed = v.listed; fits = v.fits },
        steady.wait_keeps p.events timeout p.fds p.store.world inv,
      ),
      refl,
      refl,
      wait_failed-cases (env.wait p.events timeout p.store.world).0 (length p.events)
          (steady.waits p.events timeout p.store.world),
    )
  ]

  -- Run of a service whose table and contexts are in step, with timers that come to an end, returns, with
  -- 0 or -1, and they are in step after it, whatever contexts the callbacks allocate and free, if the
  -- callbacks keep them in step under an invariant of the table and the world, which the wait and the
  -- other calls of the system keep, and which holds after Run, too.
  pub run_lem :
      (fuel tick timeout : ℕ) (p : OverlappedService W)
      → IsTracked p
      → Inv p.fds p.store.world
      → IsValid p.timers
      → IsTame host (tick % 2 ^ 64) p.timers.next_id env.on_timeout
      → pending (tick % 2 ^ 64) (timers p.timers.heap) < fuel
      → (q : OverlappedService W) × (n : ℕ) × (run env fuel tick timeout p ≡ ok (q, n))
        × ((n ≡ 0) ⊎ (n ≡ minus_one))
        × IsTracked q
        × Inv q.fds q.store.world
  unfolding run
  run_lem fuel tick timeout p v inv valid tame enough =
      let p1 : OverlappedService W = record p { events = handles p.fds } in
      let q1 = (waited env p1 timeout).0 in
      let (v1, same, kept, ready) =
        waited-IsTracked p1 timeout
          (record { owned = v.owned; listed = v.listed; fits = v.fits }, inv) in
      let (q2, fired, ticks, _, _) =
        update_timer_tame host env.on_timeout fuel tick q1
          (subst (λ t. IsTame host (tick % 2 ^ 64) t.next_id env.on_timeout) (sym kept) tame)
          (subst (λ t. pending (tick % 2 ^ 64) (timers t.heap) < fuel) (sym kept) enough)
          (subst IsValid (sym kept) valid) in
      let (v2, es) =
        update_timer-frame host env.on_timeout (λ q. IsSound q × (q.events ≡ handles p.fds))
          (record {
            stored = λ t q k. (
              (record { owned = k.0.0.owned; listed = k.0.0.listed; fits = k.0.0.fits }, k.0.1),
              k.1,
            );
            called = λ k q h. (steady.timed k q h.0, steady.timed_events k q ∙ h.1);
          })
          fuel tick q1 q2 fired ticks (v1, same) in
      let (q, n, rest, back, (v3, inv3)) =
        after_timers-IsTracked q2 (waited env p1 timeout).1
          (subst
            (λ xs.
              ((waited env p1 timeout).1 ≡ wait_failed)
              ⊎ (length xs ≡ 0)
              ⊎ ((waited env p1 timeout).1 < length xs))
            (sym es) ready)
          (omega (arith, length-handles p.fds, v.fits, ap length es)) v2 in
      (q, n, rw ticks rest, back, v3, inv3)
