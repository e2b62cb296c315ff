-- ===== src/Socket.antt =====
-- src/SocketOpts.cpp: helpers over the socket calls of Winsock.
--
-- A socket call is a parameter: a function of the state `W` of the world outside, with its result
-- and the state that it leaves. The text that is logged is left out.
pub mod Transfer
pub mod Address
pub mod Calls
pub mod Create
mod Tests
