-- ===== src/Poller/Select/Retire.antt =====
-- The table of src/SelectPoller.cpp: an entry is retired first, and taken out at the end of Poll.
use winsock_tut.Base.{
  ℕ, ◌≤◌, ◌<◌, ◌≡◌, ◌≢◌, ◌⊎◌, inl, inr, refl, true, false, List, [], ◌∷◌, ◌++◌, none, some, arith,
  leb, length, length-append, Bool-cases, leb→le, ◌∙◌,
}
use winsock_tut.Winsock.{invalid_socket, fd_setsize}
use winsock_tut.Table.{
  update_entry, remove_all, find_entry, find_entry-remove_all, has_entry, length-update_entry,
  length-remove_all, has_entry-remove_all,
}
use winsock_tut.Poller.Select.{FdEntry, FdSets, SelectPoller, add_fd, remove_fd, remove_retired}

-- A retired entry has no callback object, and any other has one.
abbrev pub IsPaired : FdEntry → Type 0
IsPaired e =
    (e.fd ≡ invalid_socket) × (e.sink ≡ none)
    ⊎ (e.fd ≢ invalid_socket) × ((k : ℕ) × (e.sink ≡ some k))

abbrev pub AllPaired : List FdEntry → Type 0
AllPaired [] = Unit {0}
AllPaired (e ∷ es) = IsPaired e × AllPaired es

-- The table fits into an fd_set, its entries are paired, and a retired one is announced.
pub record IsTidy {F W : Type 0} (p : SelectPoller F W) : Type 0 where
  pub fits : length p.fds ≤ fd_setsize
  pub paired : AllPaired p.fds
  pub announced :
      p.has_retired ≡ false → has_entry (λ (e : FdEntry). e.fd) invalid_socket p.fds ≡ false

AllPaired-append :
    (es : List FdEntry) (e : FdEntry) → AllPaired es → IsPaired e → AllPaired (es ++ e ∷ [])
AllPaired-append [] e h k = (k, tt)
AllPaired-append (x ∷ es) e h k = (h.0, AllPaired-append es e h.1 k)

AllPaired-retire :
    (fd : ℕ) (es : List FdEntry)
    → AllPaired es
    → AllPaired (update_entry (λ e. e.fd) fd (λ e. record { fd = invalid_socket; sink = none }) es)
unfolding update_entry
AllPaired-retire fd [] h = tt
AllPaired-retire fd (e ∷ es) h = ground (arith, AllPaired-retire fd es h.1)

AllPaired-remove_all :
    (fd : ℕ) (es : List FdEntry) → AllPaired es → AllPaired (remove_all (λ e. e.fd) fd es)
unfolding remove_all
AllPaired-remove_all fd [] h = tt
AllPaired-remove_all fd (e ∷ es) h = ground (arith, AllPaired-remove_all fd es h.1)

has_entry-append :
    (fd : ℕ) (es : List FdEntry) (e : FdEntry)
    → e.fd ≢ fd
    → has_entry (λ e. e.fd) fd (es ++ e ∷ []) ≡ has_entry (λ e. e.fd) fd es
unfolding has_entry
has_entry-append fd [] e h = ground arith
has_entry-append fd (x ∷ es) e h = ground (arith, has_entry-append fd es e h)

module _ {F W : Type 0} (sets : FdSets F) (p : SelectPoller F W) (v : IsTidy p) where
  -- AddFd of a valid descriptor keeps the table tidy: it fails, with nothing changed, exactly when
  -- the table is full, and otherwise the entry is the last and the descriptor is polled for errors.
  pub add_fd_lem :
      (fd event : ℕ)
      → fd ≢ invalid_socket
      → IsTidy (add_fd sets fd event p).0
        × ((length p.fds ≡ fd_setsize) × (add_fd sets fd event p ≡ (p, false))
            ⊎ (length p.fds < fd_setsize)
              × ((add_fd sets fd event p).1 ≡ true)
              × ((add_fd sets fd event p).0.fds
                  ≡ p.fds ++ record { fd = fd; sink = some event } ∷ [])
              × ((add_fd sets fd event p).0.exceptfds ≡ sets.fd_set fd p.exceptfds))
  unfolding add_fd
  add_fd_lem fd event valid = elim (Bool-cases (leb fd_setsize (length p.fds))) [
    | inl full ↦ rw full (v, inl (omega (arith, leb→le _ _ full, v.fits), refl))
    | inr room ↦
        let e : FdEntry = record { fd = fd; sink = some event } in
        let free : length p.fds < fd_setsize = ground arith in
        rw room (
          record {
            fits = omega (arith, length-append p.fds (e ∷ []));
            paired = AllPaired-append p.fds e v.paired (inr (valid, (event, refl)));
            announced = λ h. has_entry-append invalid_socket p.fds e valid ∙ v.announced h;
          },
          inr (free, refl, refl, refl),
        )
  ]

  -- RemoveFd keeps the table tidy, its length too, and stops all polling of the descriptor.
  pub remove_fd_lem :
      (fd : ℕ)
      → IsTidy (remove_fd sets fd p)
        × (length (remove_fd sets fd p).fds ≡ length p.fds)
        × ((remove_fd sets fd p).readfds ≡ sets.fd_clr fd p.readfds)
        × ((remove_fd sets fd p).writefds ≡ sets.fd_clr fd p.writefds)
        × ((remove_fd sets fd p).exceptfds ≡ sets.fd_clr fd p.exceptfds)
  unfolding remove_fd
  remove_fd_lem fd =
      let size =
        length-update_entry (λ (e : FdEntry). e.fd) fd
          (λ e. record { fd = invalid_socket; sink = none }) p.fds in
      (
        record {
          fits = rw size v.fits;
          paired = AllPaired-retire fd p.fds v.paired;
          announced = λ h. cc;
        },
        size,
        refl,
        refl,
        refl,
      )

  -- RemoveRetired on a tidy table, which Poll ends with, leaves it tidy, with no retired entry and
  -- none announced, and every valid descriptor finds the entry that it found before.
  pub remove_retired_lem :
      IsTidy (remove_retired sets p)
      × (has_entry (λ (e : FdEntry). e.fd) invalid_socket (remove_retired sets p).fds ≡ false)
      × ((fd : ℕ)
          → fd ≢ invalid_socket
          → find_entry (λ (e : FdEntry). e.fd) fd (remove_retired sets p).fds
            ≡ find_entry (λ (e : FdEntry). e.fd) fd p.fds)
      × ((remove_retired sets p).has_retired ≡ false)
  unfolding remove_retired
  remove_retired_lem = elim (Bool-cases p.has_retired) [
    | inl retired ↦
        let key = λ (e : FdEntry). e.fd in
        rw retired (
          record {
            fits = omega (arith, length-remove_all key invalid_socket p.fds, v.fits);
            paired = AllPaired-remove_all invalid_socket p.fds v.paired;
            announced = λ h. has_entry-remove_all key invalid_socket p.fds;
          },
          has_entry-remove_all key invalid_socket p.fds,
          λ fd h. find_entry-remove_all key invalid_socket fd p.fds h,
          refl,
        )
    | inr kept ↦ simp kept (v, v.announced kept, (λ fd h. refl), refl)
  ]
