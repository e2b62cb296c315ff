-- ===== src/Winsock.antt =====
-- The documented values of the Windows SDK's macros that the program compares with.
use winsock_tut.Base.{ℕ, ◌-◌, ◌^◌}

-- The sentinel of a SOCKET, an unsigned 64-bit integer.
abbrev pub invalid_socket : ℕ
invalid_socket = 2 ^ 64 - 1

abbrev pub wsaewouldblock : ℕ
wsaewouldblock = 10035

abbrev pub wsa_io_pending : ℕ
wsa_io_pending = 997

abbrev pub af_inet : ℕ
af_inet = 2

abbrev pub af_inet6 : ℕ
af_inet6 = 23

-- The capacity of an fd_set, and of a wait for events.
abbrev pub fd_setsize : ℕ
fd_setsize = 64

abbrev pub wsa_maximum_wait_events : ℕ
wsa_maximum_wait_events = 64
