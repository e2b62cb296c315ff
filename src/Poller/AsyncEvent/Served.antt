-- ===== src/Poller/AsyncEvent/Served.antt =====
-- The table of src/AsyncEventPoller.cpp with its sinks, and the callbacks that keep it in order.
use mathlib.Core.Path.{subst}
use winsock_tut.Base.{
  refl, ◌==◌, leb, ◌++◌, ℕ, zero, suc, ◌≤◌, ◌<◌, ◌≡◌, ◌≢◌, ◌⊎◌, inl, inr, sym, List, [], ◌∷◌, some,
  arith, length, get_elem?, Bool-cases,
}
use winsock_tut.Winsock.{invalid_socket, wsa_maximum_wait_events}
use winsock_tut.Table.{update_entry, remove_all, length-remove_all}
use winsock_tut.Poller.Events.{Event}
use winsock_tut.Poller.AsyncEvent.{
  add_fd, remove_fd, FdEntry, fd_of, AsyncEventPoller, Outside, wait_failed, wait_timeout,
  remove_retired,
}
use winsock_tut.Poller.AsyncEvent.Waitable.{
  IsWaitable, AllClosed, AllClosed-remove_all, add_fd-IsWaitable, remove_fd-IsWaitable,
}

-- Each entry has a sink.
abbrev pub AllServed : List FdEntry → Type 0
AllServed [] = Unit {0}
AllServed (e ∷ es) = (e.sink ≢ 0) × AllServed es

-- The events of the table can be waited for at once, and each entry has a sink.
pub record IsServed {W : Type 0} (p : AsyncEventPoller W) : Type 0 where
  pub waitable : IsWaitable p
  pub served : AllServed p.fds

-- What Poll relies on: callbacks that keep the table in order, of which those of the timers leave the
-- list of the handles alone and those of the events take no entry out, and the documented result of
-- the wait.
pub record IsSteady {W : Type 0} (env : Outside W) : Type 0 where
  pub timed : (k : ℕ) (p : AsyncEventPoller W) → IsServed p → IsServed (env.on_timeout k p)
  pub timed_events : (k : ℕ) (p : AsyncEventPoller W) → (env.on_timeout k p).events ≡ p.events
  pub called :
      (ev : Event) (k : ℕ) (p : AsyncEventPoller W) → IsServed p → IsServed (env.on_event ev k p)
  pub grows :
      (ev : Event) (k : ℕ) (p : AsyncEventPoller W)
      → length p.fds ≤ length (env.on_event ev k p).fds
  pub waits :
      (es : List ℕ) (ms : ℕ) (w : W)
      → ((env.wait es ms w).0 ≡ wait_timeout)
        ⊎ ((env.wait es ms w).0 ≡ wait_failed)
        ⊎ ((env.wait es ms w).0 < length es)

pub AllServed-get_elem? :
    (es : List FdEntry) (i : ℕ) (e : FdEntry) → AllServed es → get_elem? es i ≡ some e → e.sink ≢ 0
AllServed-get_elem? [] i e h at = absurd (ground arith)
AllServed-get_elem? (x ∷ es) zero e h at = ground (arith, h.0)
AllServed-get_elem? (x ∷ es) (suc i) e h at = AllServed-get_elem? es i e h.1 at

AllServed-remove_all :
    (fd : ℕ) (es : List FdEntry) → AllServed es → AllServed (remove_all fd_of fd es)
unfolding remove_all
AllServed-remove_all fd [] h = tt
AllServed-remove_all fd (e ∷ es) h = ground (arith, AllServed-remove_all fd es h.1)

module _ {W : Type 0} where
  -- The table may stand in another poller.
  pub IsServed-fds : (p q : AsyncEventPoller W) → q.fds ≡ p.fds → IsServed p → IsServed q
  IsServed-fds p q e v = record {
    waitable = record {
      fits = subst (λ es. length es ≤ wsa_maximum_wait_events) (sym e) v.waitable.fits;
      closed = subst AllClosed (sym e) v.waitable.closed;
    };
    served = subst AllServed (sym e) v.served;
  }

  pub remove_retired-IsServed : (p : AsyncEventPoller W) → IsServed p → IsServed (remove_retired p)
  unfolding remove_retired
  remove_retired-IsServed p v = elim (Bool-cases p.has_retired) [
    | inl some_retired ↦ rw some_retired (record {
      waitable = record {
        fits = omega (arith, length-remove_all fd_of invalid_socket p.fds, v.waitable.fits);
        closed = AllClosed-remove_all invalid_socket p.fds v.waitable.closed;
      };
      served = AllServed-remove_all invalid_socket p.fds v.served;
    })
    | inr clean ↦ simp (clean) v
  ]

AllServed-update_entry :
    (fd : ℕ) (f : FdEntry → FdEntry) (es : List FdEntry)
    → ((e : FdEntry) → (f e).sink ≡ e.sink)
    → AllServed es
    → AllServed (update_entry fd_of fd f es)
unfolding update_entry
AllServed-update_entry fd f [] keeps h = tt
AllServed-update_entry fd f (e ∷ es) keeps h =
    ground (arith, keeps e, AllServed-update_entry fd f es keeps h.1)

AllServed-append :
    (es : List FdEntry) (e : FdEntry) → AllServed es → e.sink ≢ 0 → AllServed (es ++ e ∷ [])
AllServed-append [] e h k = (k, tt)
AllServed-append (x ∷ es) e h k = (h.0, AllServed-append es e h.1 k)

module _ {W : Type 0} (env : Outside W) (p : AsyncEventPoller W) (v : IsServed p) where
  -- RemoveFd keeps the table in order.
  pub remove_fd-IsServed : (fd : ℕ) → IsServed (remove_fd env fd p)
  unfolding remove_fd
  remove_fd-IsServed fd = record {
    waitable = (remove_fd-IsWaitable env p v.waitable fd).0;
    served =
        AllServed-update_entry fd (λ e. record e { h_event = 0; fd = invalid_socket }) p.fds
          (λ e. refl) v.served;
  }

  -- AddFd of a valid descriptor with a sink keeps the table in order.
  pub add_fd-IsServed :
      (fd event : ℕ) → fd ≢ invalid_socket → event ≢ 0 → IsServed (add_fd env fd event p).0
  unfolding add_fd
  add_fd-IsServed fd event valid called = record {
    waitable = (add_fd-IsWaitable env p v.waitable fd event valid).0;
    served = served;
  }
    where
      served : AllServed (add_fd env fd event p).0.fds
      served = elim (Bool-cases (leb wsa_maximum_wait_events (length p.fds))) [
        | inl full ↦ rw (add_fd, full) v.served
        | inr room ↦ elim (Bool-cases ((env.create_event p.world).0 == 0)) [
          | inl bad ↦ rw (add_fd, room, bad) v.served
          | inr good ↦ rw (add_fd, room, good) (AllServed-append p.fds _ v.served called)
        ]
      ]
