-- ===== src/Poller/AsyncEvent/Waitable.antt =====
-- The table of src/AsyncEventPoller.cpp, and the search for the entry of a signalled event.
use winsock_tut.Base.{
  ℕ, zero, suc, ◌≤◌, ◌<◌, ◌≡◌, ◌≢◌, refl, true, false, List, [], ◌∷◌, ◌++◌, some, arith, ◌==◌, ◌||◌,
  ==_iff, leb, length, length-append, get_elem?, Bool-cases, inl, inr,
}
use winsock_tut.Winsock.{invalid_socket, wsa_maximum_wait_events}
use winsock_tut.Table.{update_entry, remove_all, length-update_entry, length-remove_all}
use winsock_tut.Poller.AsyncEvent.{
  FdEntry, fd_of, AsyncEventPoller, Outside, add_fd, remove_fd, live_events, find_entry_by_event,
  remove_retired,
}

-- A retired entry has no event object.
abbrev pub AllClosed : List FdEntry → Type 0
AllClosed [] = Unit {0}
AllClosed (e ∷ es) = (e.fd ≡ invalid_socket → e.h_event ≡ 0) × AllClosed es

-- The events of the table can be waited for at once, and no retired entry has one.
pub record IsWaitable {W : Type 0} (p : AsyncEventPoller W) : Type 0 where
  pub fits : length p.fds ≤ wsa_maximum_wait_events
  pub closed : AllClosed p.fds

AllClosed-append :
    (es : List FdEntry) (e : FdEntry)
    → AllClosed es
    → (e.fd ≡ invalid_socket → e.h_event ≡ 0)
    → AllClosed (es ++ e ∷ [])
AllClosed-append [] e h k = (k, tt)
AllClosed-append (x ∷ es) e h k = (h.0, AllClosed-append es e h.1 k)

AllClosed-retire :
    (fd : ℕ) (es : List FdEntry)
    → AllClosed es
    → AllClosed (update_entry fd_of fd (λ e. record e { h_event = 0; fd = invalid_socket }) es)
unfolding update_entry
AllClosed-retire fd [] h = tt
AllClosed-retire fd (e ∷ es) h = ground (arith, AllClosed-retire fd es h.1)

pub AllClosed-remove_all :
    (fd : ℕ) (es : List FdEntry) → AllClosed es → AllClosed (remove_all fd_of fd es)
unfolding remove_all
AllClosed-remove_all fd [] h = tt
AllClosed-remove_all fd (e ∷ es) h = ground (arith, AllClosed-remove_all fd es h.1)

live_events-pos : (es : List FdEntry) (k h : ℕ) → get_elem? (live_events es) k ≡ some h → h ≢ 0
unfolding live_events
live_events-pos [] k h here = absurd (ground arith)
live_events-pos (e ∷ es) zero h here = ground (arith, live_events-pos es zero h)
live_events-pos (e ∷ es) (suc k) h here =
    ground (arith, live_events-pos es k h, live_events-pos es (suc k) h)

tail_of :
    (e : FdEntry) (es : List FdEntry) (k h : ℕ)
    → (e.h_event == h) ≡ false
    → get_elem? (e.h_event ∷ live_events es) k ≡ some h
    → (k' : ℕ) × (get_elem? (live_events es) k' ≡ some h)
tail_of e es zero h other here = absurd (ground arith)
tail_of e es (suc k) h other here = (k, here)

live_events-tail :
    (e : FdEntry) (es : List FdEntry) (k h : ℕ)
    → (e.h_event == h) ≡ false
    → get_elem? (live_events (e ∷ es)) k ≡ some h
    → (k' : ℕ) × (get_elem? (live_events es) k' ≡ some h)
unfolding live_events
live_events-tail e es k h other here =
    elim (Bool-cases (e.fd == invalid_socket || e.h_event == 0)) [
      | inl dead ↦ (k, ground arith)
      | inr live ↦ tail_of e es k h other (ground arith)
    ]

-- In a table whose retired entries have no event object, the search for a handle that Poll waits
-- for finds an entry with that handle which is not retired.
find_entry_by_event-live_events :
    (es : List FdEntry) (j k h : ℕ)
    → AllClosed es
    → get_elem? (live_events es) k ≡ some h
    → (i : ℕ) × (e : FdEntry) × (find_entry_by_event h j es ≡ some (i, e))
      × (e.h_event ≡ h)
      × (e.fd ≢ invalid_socket)
unfolding live_events find_entry_by_event
find_entry_by_event-live_events [] j k h closed here = absurd (ground arith)
find_entry_by_event-live_events (e ∷ es) j k h closed here = elim (Bool-cases (e.h_event == h)) [
  | inl same ↦ rw same (
    j,
    e,
    refl,
    (==_iff _ h).0 same,
    λ dead. live_events-pos (e ∷ es) k h here (ground (arith, closed.0 dead)),
  )
  | inr other ↦
      let (k', there) = live_events-tail e es k h other here in
      rw other (find_entry_by_event-live_events es (suc j) k' h closed.1 there)
]

module _ {W : Type 0} (env : Outside W) (p : AsyncEventPoller W) (v : IsWaitable p) where
  -- AddFd of a valid descriptor keeps a table fit for a wait as it is, whatever WSACreateEvent
  -- returns. Success means that the table had room, that the event is valid and that one entry was
  -- added; a failure leaves the entries as they were.
  pub add_fd-IsWaitable :
      (fd event : ℕ)
      → fd ≢ invalid_socket
      → IsWaitable (add_fd env fd event p).0
        × ((add_fd env fd event p).1 ≡ true
            → (length p.fds < wsa_maximum_wait_events)
              × ((env.create_event p.world).0 ≢ 0)
              × (length (add_fd env fd event p).0.fds ≡ suc (length p.fds)))
        × ((add_fd env fd event p).1 ≡ false → (add_fd env fd event p).0.fds ≡ p.fds)
  unfolding add_fd
  add_fd-IsWaitable fd event valid =
      elim (Bool-cases (leb wsa_maximum_wait_events (length p.fds))) [
        | inl full ↦ rw full (v, (λ h. absurd (ground arith)), λ _. refl)
        | inr room ↦
            let free : length p.fds < wsa_maximum_wait_events = ground arith in
            elim (Bool-cases ((env.create_event p.world).0 == 0)) [
              | inl bad ↦
                  rw (add_fd, room, bad)
                    (
                      record { fits = v.fits; closed = v.closed },
                      (λ h. absurd (ground arith)),
                      λ _. refl,
                    )
              | inr good ↦
                  let e : FdEntry = record {
                    fd = fd;
                    h_event = (env.create_event p.world).0;
                    l_events = 0;
                    mask = 0;
                    sink = event;
                  } in
                  let grown = length-append p.fds (e ∷ []) in
                  rw (add_fd, room, good)
                    (
                      record {
                        fits = omega (arith, grown, free);
                        closed = AllClosed-append p.fds e v.closed (λ d. absurd (valid d));
                      },
                      (λ _. (free, ground (arith, good), omega (arith, grown))),
                      λ h. absurd (ground arith),
                    )
            ]
      ]

  -- RemoveFd keeps a table fit for a wait as it is, and so does RemoveRetired after it.
  pub remove_fd-IsWaitable :
      (fd : ℕ) → IsWaitable (remove_fd env fd p) × IsWaitable (remove_retired (remove_fd env fd p))
  unfolding remove_fd remove_retired
  remove_fd-IsWaitable fd =
      let small =
        length-update_entry fd_of fd (λ e. record e { h_event = 0; fd = invalid_socket }) p.fds in
      let closed = AllClosed-retire fd p.fds v.closed in
      (
        record { fits = omega (arith, small, v.fits); closed = closed },
        record {
          fits = omega (
            arith,
            small,
            v.fits,
            length-remove_all fd_of invalid_socket
                (update_entry fd_of fd (λ e. record e { h_event = 0; fd = invalid_socket }) p.fds),
          );
          closed = AllClosed-remove_all invalid_socket _ closed;
        },
      )
