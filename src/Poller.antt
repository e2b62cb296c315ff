-- ===== src/Poller.antt =====
-- The reactors of src/: PollerBase.cpp, and what the three pollers share.
pub mod Events
pub mod Bits
pub mod Select
pub mod AsyncSelect
pub mod AsyncEvent
mod Tests
use winsock_tut.Base.{ℕ, Option, none, some, ◌==◌, if◌then◌else◌}

-- PollerType, and the classes that CreatePoller makes.
pub data PollerKind : Type 0 where
  select_poller async_select_poller async_event_poller : PollerKind

-- CreatePoller for the number that the command line gives; none is the null pointer.
unfoldable pub create_poller : ℕ → Option PollerKind
create_poller type' =
    if type' == 1
    then some select_poller
    else if type' == 2
    then some async_select_poller
    else if type' == 3
    then some async_event_poller
    else none
