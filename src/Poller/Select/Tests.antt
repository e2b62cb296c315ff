-- ===== src/Poller/Select/Tests.antt =====
-- Poll of the poller with select at an input.
use native.Mathlib.Decide.{dec_le}
use winsock_tut.Base.{
  ℕ, zero, suc, ap, ◌∙◌, ◌⊎◌, inl, none, some_eq, Bool-cases, get_elem?, ◌==◌, ◌+◌, ◌*◌, ◌%◌, ◌^◌,
  ◌≤◌, ◌<◌, ◌≡◌, inr, refl, false, List, [], ◌∷◌, some, arith, i64_rank, i32_extend, get_or,
}
use winsock_tut.Winsock.{fd_setsize, invalid_socket}
use winsock_tut.Timer.{new_sched, add_timer, siftup}
use winsock_tut.Timer.Sift.{timers}
use winsock_tut.Timer.Valid.{new_sched-IsValid}
use winsock_tut.Timer.Add.{add_timer_lem}
use winsock_tut.Timer.Callbacks.{pending, still-IsTame}
use winsock_tut.Outcome.{ok}
use winsock_tut.Table.{remove_all, has_entry, update_entry}
use winsock_tut.Poller.Select.{FdEntry, SelectPoller, FdSets, Outside, host, remove_fd, poll}
use winsock_tut.Poller.Select.Retire.{IsTidy, remove_fd_lem}
use winsock_tut.Poller.Select.Poll.{IsTimed, IsSteady, IsSwept, answer, select_poll_lem}

abbrev sets : FdSets (List ℕ)
sets = record {
  zeroed = [];
  fd_set = λ fd s. fd ∷ s;
  fd_clr = λ fd s. remove_all (λ x. x) fd s;
  fd_isset = λ fd s. has_entry (λ x. x) fd s;
}

-- select reports every set as it is; the callback of an event removes the descriptor after that of its
-- sink, and a timer the descriptor with the number of its sink.
abbrev busy : Outside (List ℕ) ℕ
busy = record {
  on_event = λ ev k p. remove_fd sets (k + 1) p;
  on_timeout = remove_fd sets;
  select = λ t ms w. (some (2, t), w);
  sleep = λ ms w. w;
}

remove_fd-timers : (k : ℕ) (p : SelectPoller (List ℕ) ℕ) → (remove_fd sets k p).timers ≡ p.timers
unfolding remove_fd
remove_fd-timers k p = refl

-- A sink has the number of its descriptor.
abbrev IsOwn : List FdEntry → Type 0
IsOwn [] = Unit {0}
IsOwn (e ∷ es) = ((k : ℕ) → e.sink ≡ some k → e.fd ≡ k) × IsOwn es

IsOwn-retire :
    (fd : ℕ) (es : List FdEntry)
    → IsOwn es
    → IsOwn (update_entry (λ e. e.fd) fd (λ e. record { fd = invalid_socket; sink = none }) es)
unfolding update_entry
IsOwn-retire fd [] h = tt
IsOwn-retire fd (e ∷ es) h = elim (Bool-cases (e.fd == fd)) [
  | inl same ↦ rw same ((λ k has. cc), h.1)
  | inr other ↦ rw other (h.0, IsOwn-retire fd es h.1)
]

retire-keeps :
    (k i : ℕ) (e : FdEntry) (es : List FdEntry)
    → IsOwn es
    → get_elem? es i ≡ some e
    → e.sink ≡ some k
    → get_elem?
        (update_entry (λ x. x.fd) (k + 1) (λ x. record { fd = invalid_socket; sink = none }) es)
        i
      ≡ some e
unfolding update_entry
retire-keeps k i e [] h at has = absurd (ground arith)
retire-keeps k zero e (x ∷ es) h at has =
    let one : x ≡ e = some_eq x e at in
    let its : x.fd ≡ k = h.0 k (ap (λ (y : FdEntry). y.sink) one ∙ has) in
    let other : (x.fd == k + 1) ≡ false = ground arith in rw other at
retire-keeps k (suc i) e (x ∷ es) h at has = elim (Bool-cases (x.fd == k + 1)) [
  | inl same ↦ rw same at
  | inr other ↦ rw other (retire-keeps k i e es h.1 at has)
]

remove_fd-IsOwn :
    (k : ℕ) (p : SelectPoller (List ℕ) ℕ) → IsOwn p.fds → IsOwn (remove_fd sets k p).fds
unfolding remove_fd
remove_fd-IsOwn k p h = IsOwn-retire k p.fds h

remove_fd-IsTimed :
    (k : ℕ) (p : SelectPoller (List ℕ) ℕ)
    → IsTimed busy 70 1040 p
    → IsTimed busy 70 1040 (remove_fd sets k p)
unfolding remove_fd
remove_fd-IsTimed k p h = h

remove_fd-keeps :
    (k i : ℕ) (e : FdEntry) (p : SelectPoller (List ℕ) ℕ)
    → IsOwn p.fds
    → get_elem? p.fds i ≡ some e
    → e.sink ≡ some k
    → get_elem? (remove_fd sets (k + 1) p).fds i ≡ some e
unfolding remove_fd
remove_fd-keeps k i e p h at has = retire-keeps k i e p.fds h at has

busy-IsSteady : IsSteady busy (λ es w. IsOwn es) 70 1040
busy-IsSteady = record {
  timed = λ k p h. ((remove_fd_lem sets p h.0 k).0, remove_fd-IsOwn k p h.1);
  called = λ ev k p (v, timed, own). (
    (remove_fd_lem sets p v (k + 1)).0,
    remove_fd-IsTimed (k + 1) p timed,
    remove_fd-IsOwn (k + 1) p own,
  );
  stays = λ ev k i e p h at has. remove_fd-keeps k i e p h.2 at has;
  selects = λ t ms es w h. h;
  sleeps = λ ms es w h. h;
}

-- Descriptors 5 and 6, and a timer for a callback that removes the first.
abbrev timed_two : SelectPoller (List ℕ) ℕ
timed_two = record {
  timers = (add_timer 1000 30 (some 5) new_sched).0;
  fds = record { fd = 5; sink = some 5 } ∷ record { fd = 6; sink = some 6 } ∷ [];
  has_retired = false;
  readfds = 5 ∷ 6 ∷ [];
  writefds = [];
  exceptfds = 5 ∷ 6 ∷ [];
  world = 0;
}

timed_two-IsTidy : IsTidy timed_two
unfolding has_entry
timed_two-IsTidy = record {
  fits = omega arith;
  paired = ((inr ((omega arith), (5, refl))), ((inr ((omega arith), (6, refl))), tt));
  announced = λ h. refl;
}

timed_two-pending : pending (1040 % 2 ^ 64) (timers timed_two.timers.heap) < 70
unfolding add_timer siftup i64_rank get_or i32_extend dec_le
timed_two-pending = omega arith

timed_two-IsTimed : IsTimed busy 70 1040 timed_two
timed_two-IsTimed = (
  (add_timer_lem 1000 30 (some 5) new_sched new_sched-IsValid (omega arith) (omega arith)).0,
  still-IsTame host _ _ (remove_fd sets) remove_fd-timers,
  timed_two-pending,
)

timed_two-IsOwn : IsOwn timed_two.fds
timed_two-IsOwn = ((λ k e. some_eq 5 k e), ((λ k e. some_eq 6 k e), tt))

select_poll_lem_example :
    (q : SelectPoller (List ℕ) ℕ) × (n : ℕ) × (poll sets busy 70 1040 50 timed_two ≡ ok (q, n))
    × (n ≤ 3 * fd_setsize)
    × IsTidy q
    × (IsSwept q ⊎ ((answer busy 50 timed_two).0 ≡ none) × (n ≡ 0) × (q.fds ≡ timed_two.fds))
select_poll_lem_example =
    select_poll_lem sets busy 70 1040 (λ es w. IsOwn es) busy-IsSteady 50 timed_two (omega arith)
      (timed_two-IsTidy, timed_two-IsTimed, timed_two-IsOwn)
