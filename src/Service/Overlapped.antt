-- ===== src/Service/Overlapped.antt =====
-- src/OverlappedIOService.h and src/OverlappedIOService.cpp, whose requests are in Requests.
--
-- `fds` is the unordered_map from event handles to contexts, in the order in which it is walked: a
-- new handle stands at the end, which stands for the order that the library's map would choose.
pub mod Release
pub mod Tracked
pub mod Run
mod Tests
use winsock_tut.Base.{
  ℕ, ◌-◌, ◌/◌, ◌^◌, ◌≡◌, refl, Bool, true, false, not, ◌&&◌, ◌||◌, List, [], ◌∷◌, ◌++◌, Option,
  none, some, ltb, leb, ◌==◌, if◌then◌else◌, length, get_elem?, i32_negative,
}
use winsock_tut.Winsock.{invalid_socket, wsa_maximum_wait_events}
use winsock_tut.Timer.{TimerSched, Host, update_timer}
use winsock_tut.Outcome.{Outcome, ok, bad_pointer, ◌>>=◌, ticked}
use winsock_tut.Table.{find_entry, update_entry, remove_all, has_entry}
use winsock_tut.Poller.AsyncEvent.{wait_failed, wait_timeout}
use winsock_tut.Heap.{fresh, read, write, delete, found}
use winsock_tut.Service.Contexts.{OverlapContext, new_context, Store}
use winsock_tut.Service.Requests.{minus_one}

abbrev pub handle_of : ℕ × ℕ → ℕ
handle_of e = e.0

pub record OverlappedService (W : Type 0) : Type 0 where
  pub timers : TimerSched
  pub events : List ℕ
  pub fds : List (ℕ × ℕ)
  pub store : Store W

abbrev pub host : {W : Type 0} → Host (OverlappedService W)
host = record {
  sched = λ p. p.timers;
  with_sched = λ t p. record p { timers = t };
  sched-with_sched = λ t p. refl;
}

pub record Outside (W : Type 0) : Type 0 where
  pub on_complete : ℕ → OverlappedService W → OverlappedService W
  pub on_timeout : ℕ → OverlappedService W → OverlappedService W
  pub create_event : W → ℕ × W
  pub close_event : ℕ → W → W
  pub wait : List ℕ → ℕ → W → ℕ × W
  pub get_overlapped_result : ℕ → ℕ → Store W → Store W
  pub sleep : ℕ → W → W

-- `fds_[hEvent] = ctx`
unfoldable pub put : ℕ → ℕ → List (ℕ × ℕ) → List (ℕ × ℕ)
put h a es =
    if has_entry handle_of h es
    then update_entry handle_of h (λ e. (h, a)) es
    else es ++ (h, a) ∷ []

-- The keys of the map.
unfoldable pub handles : List (ℕ × ℕ) → List ℕ
handles [] = []
handles (e ∷ es) = e.0 ∷ handles es

unfoldable pub clean_up : {W : Type 0} → OverlappedService W → OverlappedService W
clean_up p = record p { fds = []; events = [] }

module _ {W : Type 0} (env : Outside W) where
  -- The new context and its address, or 0 for the null pointer. `flags` is not read.
  unfoldable pub alloc_overlap_ctx : ℕ → ℕ → OverlappedService W → OverlappedService W × ℕ
  alloc_overlap_ctx fd flags p =
      if leb wsa_maximum_wait_events (length p.fds)
      then (p, 0)
      else let (h, w) = env.create_event p.store.world in
        let a : ℕ = fresh p.store.heap in
        let ctx : OverlapContext = record new_context { fd = fd; h_event = h } in
        if h == 0 then (record p { store = record { heap = p.store.heap; world = w } }, 0) else (
          record p {
            fds = put h a p.fds;
            store = record { heap = p.store.heap ++ (a, ctx) ∷ []; world = w };
          },
          a,
        )

  unfoldable pub free_overlap_ctx : ℕ → OverlappedService W → Outcome (OverlappedService W)
  free_overlap_ctx a p = do
    ctx ← found (read a p.store.heap)
    ok record p {
      fds = remove_all handle_of ctx.h_event p.fds;
      store = record {
        heap = delete a (write a (λ x. record x { fd = invalid_socket; h_event = 0 }) p.store.heap);
        world = env.close_event ctx.h_event p.store.world;
      };
    }

  -- `pContext->cb()`
  unfoldable pub complete : OverlapContext → OverlappedService W → OverlappedService W
  complete ctx p = elim ctx.cb [ none ↦ p | some k ↦ env.on_complete k p ]

  -- The part of Run for the context of the signalled event. The callback is read after the
  -- result was fetched.
  unfoldable pub dispatch : ℕ → OverlappedService W → Outcome (OverlappedService W × ℕ)
  dispatch a p = do
    ctx ← found (read a p.store.heap)
    let q : OverlappedService W = record p { store = env.get_overlapped_result ctx.fd a p.store }
    ctx2 ← found (read a q.store.heap)
    ok (complete ctx2 q, 0)

  unfoldable pub handle_handle : Option ℕ → OverlappedService W → Outcome (OverlappedService W × ℕ)
  handle_handle none p = bad_pointer
  handle_handle (some h) p = elim (find_entry handle_of h p.fds) [
    | none ↦ ok (p, minus_one)
    | some e ↦ dispatch e.1 p
  ]

  unfoldable pub after_timers : ℕ → OverlappedService W → Outcome (OverlappedService W × ℕ)
  after_timers nready p =
      if i32_negative nready || 0 == length p.events
      then ok (p, 0)
      else if leb wsa_maximum_wait_events nready
      then ok (p, minus_one)
      else handle_handle (get_elem? p.events nready) p

  unfoldable pub waited : OverlappedService W → ℕ → OverlappedService W × ℕ
  waited p timeout =
      if 0 == length p.events
      then (
        if ltb 0 timeout && not (i32_negative timeout)
            then record p {
              store = record { heap = p.store.heap; world = env.sleep (timeout / 2) p.store.world };
            }
            else p,
        0,
      )
      else let (r, w) = env.wait p.events timeout p.store.world in
        (
          record p { store = record { heap = p.store.heap; world = w } },
          if r == wait_timeout then wait_failed else r,
        )

  unfoldable pub run : ℕ → ℕ → ℕ → OverlappedService W → Outcome (OverlappedService W × ℕ)
  run fuel tick timeout p =
      let (q, nready) = waited (record p { events = handles p.fds }) timeout in
      ticked (update_timer host env.on_timeout fuel tick q) >>= after_timers nready
