-- ===== src/Service/Overlapped/Tests.antt =====
-- The theorems of the overlapped service at inputs.
use mathlib.Core.Path.{subst}
use native.Mathlib.Decide.{dec_le}
use winsock_tut.Base.{
  ℕ, ◌++◌, false, leb, ◌+◌, ◌%◌, ◌^◌, ◌<◌, ◌≡◌, ◌⊎◌, inl, inr, refl, sym, ap, some_eq, [], ◌∷◌,
  List, some, arith, length, Bool-cases, Option-cases, i64_rank, i32_extend, get_or, ◌==◌,
}
use winsock_tut.Winsock.{wsa_maximum_wait_events}
use winsock_tut.Timer.{new_sched, add_timer, siftup}
use winsock_tut.Timer.Sift.{timers}
use winsock_tut.Timer.Valid.{new_sched-IsValid}
use winsock_tut.Timer.Add.{add_timer_lem}
use winsock_tut.Timer.Callbacks.{pending, still-IsTame}
use winsock_tut.Outcome.{Outcome, ok, bad_pointer, check_failed, out_of_fuel}
use winsock_tut.Table.{has_entry, find_entry, remove_all}
use winsock_tut.Heap.{fresh, read, write}
use winsock_tut.Poller.AsyncEvent.{wait_timeout}
use winsock_tut.Service.Contexts.{OverlapContext, new_context}
use winsock_tut.Service.Requests.{minus_one}
use winsock_tut.Service.Overlapped.{
  OverlappedService, Outside, handle_of, host, alloc_overlap_ctx, free_overlap_ctx, run, put,
}
use winsock_tut.Service.Overlapped.Tracked.{
  IsTracked, without, alloc_overlap_ctx-IsTracked, free_overlap_ctx-IsTracked,
}
use winsock_tut.Service.Overlapped.Run.{IsSteady, transferred, run_lem}

-- What the wait gives: the first event, if there is one.
abbrev first : List ℕ → ℕ
first [] = wait_timeout
first (e ∷ es) = 0

-- A world that counts the events it has made.
abbrev plain : Outside ℕ
plain = record {
  on_complete = λ k p. p;
  on_timeout = λ k p. p;
  create_event = λ w. (w + 20, w + 1);
  close_event = λ h w. w;
  wait = λ es ms w. (first es, w);
  get_overlapped_result = λ fd a s. record s { heap = write a (transferred 0 7) s.heap };
  sleep = λ ms w. w;
}

abbrev or_else : OverlappedService ℕ → Outcome (OverlappedService ℕ) → OverlappedService ℕ
or_else p (ok q) = q
or_else p bad_pointer = p
or_else p check_failed = p
or_else p out_of_fuel = p

-- A callback that frees the context whose address is its number.
abbrev drop_ctx : ℕ → OverlappedService ℕ → OverlappedService ℕ
drop_ctx k p = or_else p (free_overlap_ctx plain k p)

drop_ctx-keeps :
    (k : ℕ) (p : OverlappedService ℕ)
    → ((drop_ctx k p).events ≡ p.events) × ((drop_ctx k p).timers ≡ p.timers)
unfolding free_overlap_ctx
drop_ctx-keeps k p = elim (Option-cases (read k p.store.heap)) [
  | inl gone ↦ rw gone (refl, refl)
  | inr (ctx, here) ↦ rw here (refl, refl)
]

drop_ctx-IsTracked : (k : ℕ) (p : OverlappedService ℕ) → IsTracked p → IsTracked (drop_ctx k p)
unfolding free_overlap_ctx
drop_ctx-IsTracked k p v = elim (Option-cases (read k p.store.heap)) [
  | inl gone ↦ rw (free_overlap_ctx, gone) v
  | inr (ctx, here) ↦
      let (frees, tracked) = free_overlap_ctx-IsTracked plain p v k ctx here in
      subst (λ o. IsTracked (or_else p o)) (sym frees) tracked
]

-- Each handle was made by the world.
abbrev AllBelow : List (ℕ × ℕ) → ℕ → Type 0
AllBelow [] w = Unit {0}
AllBelow (e ∷ es) w = (e.0 < w + 20) × AllBelow es w

AllBelow-unused :
    (es : List (ℕ × ℕ)) (w : ℕ) → AllBelow es w → has_entry handle_of (w + 20) es ≡ false
unfolding has_entry
AllBelow-unused [] w h = refl
AllBelow-unused (e ∷ es) w h = ground (arith, AllBelow-unused es w h.1)

AllBelow-next : (es : List (ℕ × ℕ)) (w : ℕ) → AllBelow es w → AllBelow es (w + 1)
AllBelow-next [] w h = tt
AllBelow-next (e ∷ es) w h = (omega (arith, h.0), AllBelow-next es w h.1)

AllBelow-append :
    (es : List (ℕ × ℕ)) (w h a : ℕ) → h < w + 20 → AllBelow es w → AllBelow (es ++ (h, a) ∷ []) w
AllBelow-append [] w h a low k = (low, tt)
AllBelow-append (e ∷ es) w h a low k = (k.0, AllBelow-append es w h a low k.1)

AllBelow-remove_all :
    (h : ℕ) (es : List (ℕ × ℕ)) (w : ℕ) → AllBelow es w → AllBelow (remove_all handle_of h es) w
unfolding remove_all
AllBelow-remove_all h [] w k = tt
AllBelow-remove_all h (e ∷ es) w k = ground (arith, AllBelow-remove_all h es w k.1)

-- In step, with handles that the world made.
abbrev IsSound : OverlappedService ℕ → Type 0
IsSound p = IsTracked p × AllBelow p.fds p.store.world

drop_ctx-IsSound : (k : ℕ) (p : OverlappedService ℕ) → IsSound p → IsSound (drop_ctx k p)
unfolding free_overlap_ctx
drop_ctx-IsSound k p (v, below) = (
  drop_ctx-IsTracked k p v,
  elim (Option-cases (read k p.store.heap)) [
    | inl gone ↦ rw (free_overlap_ctx, gone) below
    | inr (ctx, here) ↦
        rw (free_overlap_ctx, here) (AllBelow-remove_all ctx.h_event p.fds p.store.world below)
  ],
)

-- A callback that asks for a context for the socket with its number.
abbrev take_ctx : ℕ → OverlappedService ℕ → OverlappedService ℕ
take_ctx k p = (alloc_overlap_ctx plain k 0 p).0

take_ctx-keeps :
    (k : ℕ) (p : OverlappedService ℕ)
    → ((take_ctx k p).events ≡ p.events) × ((take_ctx k p).timers ≡ p.timers)
unfolding alloc_overlap_ctx
take_ctx-keeps k p = elim (Bool-cases (leb wsa_maximum_wait_events (length p.fds))) [
  | inl full ↦ rw (take_ctx, full) (refl, refl)
  | inr room ↦
      let good : (p.store.world + 20 == 0) ≡ false = ground arith in
      rw (take_ctx, room, good) (refl, refl)
]

take_ctx-IsSound : (k : ℕ) (p : OverlappedService ℕ) → IsSound p → IsSound (take_ctx k p)
unfolding alloc_overlap_ctx put
take_ctx-IsSound k p (v, below) =
    let unused = AllBelow-unused p.fds p.store.world below in
    (
      (alloc_overlap_ctx-IsTracked plain p v k 0 unused).0,
      elim (Bool-cases (leb wsa_maximum_wait_events (length p.fds))) [
        | inl full ↦ rw (take_ctx, full) below
        | inr room ↦
            let good : (p.store.world + 20 == 0) ≡ false = ground arith in
            rw (take_ctx, room, good, unused)
              (AllBelow-append p.fds (p.store.world + 1) (p.store.world + 20) (fresh p.store.heap)
                (omega arith) (AllBelow-next p.fds p.store.world below))
      ],
    )

-- The timers allocate a context, and the requests allocate one and free their own.
abbrev busy : Outside ℕ
busy = record plain { on_timeout = take_ctx; on_complete = λ k p. drop_ctx k (take_ctx k p) }

first-cases :
    (es : List ℕ) → (first es ≡ wait_timeout) ⊎ (first es ≡ minus_one) ⊎ (first es < length es)
first-cases [] = inl refl
first-cases (e ∷ es) = inr (inr (omega arith))

busy-IsSteady : IsSteady busy AllBelow
busy-IsSteady = record {
  timed = take_ctx-IsSound;
  timed_events = λ k p. (take_ctx-keeps k p).0;
  completed = λ k p h. drop_ctx-IsSound k (take_ctx k p) (take_ctx-IsSound k p h);
  waits = λ es ms w. first-cases es;
  fetches = λ fd a s. (0, 7, refl);
  wait_keeps = λ es ms fds w h. h;
  sleep_keeps = λ ms fds w h. h;
  fetch_keeps = λ fd a s fds h. h;
}

abbrev four : OverlapContext
four = record new_context { fd = 5; h_event = 11; cb = some 4 }

-- A context at address 4 with a callback, and a timer for a callback that allocates one more.
abbrev timed_four : OverlappedService ℕ
timed_four = record {
  timers = (add_timer 1000 30 (some 4) new_sched).0;
  events = [];
  fds = (11, 4) ∷ [];
  store = record { heap = (4, four) ∷ []; world = 0 };
}

timed_four-IsTracked : IsTracked timed_four
unfolding read find_entry
timed_four-IsTracked = record {
  owned = λ h e at. elim (Bool-cases (11 == h)) [
    | inl same ↦
        let one : (11, 4) ≡ e = some_eq (11, 4) e (rw same at at) in
        (four, subst (λ x. read x.1 timed_four.store.heap ≡ some four) one refl, ground arith)
    | inr other ↦ absurd (ground arith)
  ];
  listed = λ a ctx at. elim (Bool-cases (4 == a)) [
    | inl same ↦
        let one : four ≡ ctx = some_eq four ctx (rw same at at) in
        let e : 4 ≡ a = ground arith in
        subst
          (λ (x : OverlapContext).
            find_entry handle_of x.h_event timed_four.fds ≡ some (x.h_event, a))
          one (ap (λ k. some (11, k)) e)
    | inr other ↦ absurd (ground arith)
  ];
  fits = omega arith;
}

timed_four-pending : pending (1040 % 2 ^ 64) (timers timed_four.timers.heap) < 4
unfolding add_timer siftup i64_rank get_or i32_extend dec_le
timed_four-pending = omega arith

run_lem_example :
    (q : OverlappedService ℕ) × (n : ℕ) × (run busy 4 1040 50 timed_four ≡ ok (q, n))
    × ((n ≡ 0) ⊎ (n ≡ minus_one))
    × IsTracked q
    × AllBelow q.fds q.store.world
run_lem_example =
    run_lem busy AllBelow busy-IsSteady 4 1040 50 timed_four timed_four-IsTracked (omega arith, tt)
      (add_timer_lem 1000 30 (some 4) new_sched new_sched-IsValid (omega arith) (omega arith)).0
      (still-IsTame host _ _ take_ctx (λ k p. (take_ctx-keeps k p).1)) timed_four-pending

alloc_overlap_ctx-IsTracked_example :
    let (q, a) = alloc_overlap_ctx plain 6 0 timed_four in
    IsTracked q
    × ((a ≡ 0) × (q.fds ≡ timed_four.fds) × (q.store.heap ≡ timed_four.store.heap)
        ⊎ (read a q.store.heap ≡ some (record new_context { fd = 6; h_event = 20 })))
unfolding has_entry
alloc_overlap_ctx-IsTracked_example =
    alloc_overlap_ctx-IsTracked plain timed_four timed_four-IsTracked 6 0 refl

four_here : read 4 timed_four.store.heap ≡ some four
unfolding read
four_here = refl

free_overlap_ctx-IsTracked_example :
    (free_overlap_ctx plain 4 timed_four
      ≡ ok (without plain timed_four timed_four-IsTracked 4 four four_here))
    × IsTracked (without plain timed_four timed_four-IsTracked 4 four four_here)
free_overlap_ctx-IsTracked_example =
    free_overlap_ctx-IsTracked plain timed_four timed_four-IsTracked 4 four four_here
