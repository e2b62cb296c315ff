-- ===== src/Service.antt =====
-- The proactors of src/: OverlapFd.h and IOServiceBase.cpp.
pub mod Contexts
pub mod Requests
pub mod Overlapped
pub mod Completion
mod Tests
use winsock_tut.Base.{ℕ, Option, none, some, ◌==◌, if◌then◌else◌}

-- The classes that CreateIOService makes.
pub data ServiceKind : Type 0 where
  overlapped_service completion_port_service : ServiceKind

-- CreateIOService for the number that the command line gives; none is the null pointer, which
-- IOAlertable, 2, gets as well.
unfoldable pub create_io_service : ℕ → Option ServiceKind
create_io_service type' =
    if type' == 1
    then some overlapped_service
    else if type' == 3
    then some completion_port_service
    else none
