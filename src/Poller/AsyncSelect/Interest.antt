-- ===== src/Poller/AsyncSelect/Interest.antt =====
-- The interest in a descriptor in src/AsyncSelectPoller.cpp, and what a notification does with it.
use Prim.Native.Nat.{bit_and}
use winsock_tut.Base.{ℕ, ◌<◌, ◌≡◌, refl, Option, none, some, arith, ◌==◌, ◌||◌, if◌then◌else◌}
use winsock_tut.Poller.Events.{Event, readable, writable}
use winsock_tut.Table.{find_entry, update_entry, find_entry-update_entry}
use winsock_tut.Poller.Bits.{
  fd_read, fd_write, fd_accept, fd_connect, fd_close, close_lost, read_kept, or_readable,
  or_writable,
}
use winsock_tut.Poller.AsyncSelect.{
  FdEntry, fd_of, AsyncSelectPoller, Outside, change_interest, set_poll_in, set_poll_out,
  reset_poll_out, handle_entry, handle_event,
}

module _ {W : Type 0} (env : Outside W) where
  -- One of the four functions, for a descriptor that is found.
  change_interest_found :
      (fd : ℕ) (f : FdEntry → FdEntry) (p : AsyncSelectPoller W) (e : FdEntry)
      → find_entry fd_of fd p.fds ≡ some e
      → change_interest env fd f p ≡ record p {
        fds = update_entry fd_of fd f p.fds;
        world = env.async_select fd p.hwnd (f e).events p.world;
      }
  unfolding change_interest
  change_interest_found fd f p e found = rw (change_interest, found) refl

  found_after :
      (fd : ℕ) (f : FdEntry → FdEntry) (p : AsyncSelectPoller W) (e : FdEntry)
      → ((x : FdEntry) → (f x).fd ≡ x.fd)
      → find_entry fd_of fd p.fds ≡ some e
      → find_entry fd_of fd (change_interest env fd f p).fds ≡ some (f e)
  found_after fd f p e keeps found =
      rw (change_interest_found fd f p e found) rw
        (find_entry-update_entry fd_of f keeps fd fd p.fds e found) ground arith

  -- After SetPollIn, SetPollOut and ResetPollOut of a registered descriptor, with its event word
  -- below 64, the event word of its entry, which WSAAsyncSelect is given, has FD_READ and not
  -- FD_CLOSE: the interest in reading, which is still set, has lost its notification of the close.
  reset_poll_out-set_poll_in :
      (p : AsyncSelectPoller W) (fd : ℕ) (e : FdEntry)
      → find_entry fd_of fd p.fds ≡ some e
      → e.events < 64
      → (x : FdEntry) × (find_entry fd_of fd
            (reset_poll_out env fd (set_poll_out env fd (set_poll_in env fd p))).fds
          ≡ some x)
        × (bit_and x.events fd_read ≡ fd_read)
        × (bit_and x.events fd_close ≡ 0)
  unfolding set_poll_in set_poll_out reset_poll_out
  reset_poll_out-set_poll_in p fd e found small = (
    _,
    found_after fd _ _ _ (λ x. refl)
        (found_after fd _ _ _ (λ x. refl) (found_after fd _ p e (λ x. refl) found)),
    read_kept e.events small,
    close_lost e.events small,
  )

  -- The callback that an event of the window message stands for.
  abbrev pub event_of : ℕ → Option Event
  event_of ev =
      if ev == fd_read || ev == fd_accept || ev == fd_close
      then some readable
      else if ev == fd_write || ev == fd_connect
      then some writable
      else none

  abbrev pub told : Option Event → ℕ → AsyncSelectPoller W → AsyncSelectPoller W
  told none sink p = p
  told (some ev) sink p = env.on_event ev sink p

  handle_entry-told :
      (e : FdEntry) (ev : ℕ) (p : AsyncSelectPoller W)
      → e.mask < 64
      → handle_entry env e ev p ≡ told (event_of ev) e.sink p
  unfolding handle_entry
  handle_entry-told e ev p small =
      ground (arith, or_readable e.mask small, or_writable e.mask small)

  -- HandleEvent of a registered descriptor, with its mask below 64, keeps the error code and makes
  -- one callback, by the event alone: OnReadable for FD_READ, FD_ACCEPT and FD_CLOSE, OnWritable
  -- for FD_WRITE and FD_CONNECT, and none for another event. The mask does not matter.
  handle_event_lem :
      (p : AsyncSelectPoller W) (fd ev ec : ℕ) (e : FdEntry)
      → find_entry fd_of fd p.fds ≡ some e
      → e.mask < 64
      → handle_event env fd ev ec p ≡ told (event_of ev) e.sink (record p { last_err = ec })
  unfolding handle_event
  handle_event_lem p fd ev ec e found small =
      rw (handle_event, found) (handle_entry-told e ev (record p { last_err = ec }) small)
