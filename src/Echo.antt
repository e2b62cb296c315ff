-- ===== src/Echo.antt =====
-- The echo example, examples/echo: what its server and its client are given from outside.
pub mod Server
pub mod Client
pub mod Program
mod Tests
use winsock_tut.Base.{ℕ, ◌%◌, ◌^◌, Bool, List, Option, some}
use winsock_tut.Timer.{add_timer}
use winsock_tut.Socket.Transfer.{Received, Sent}
use winsock_tut.Socket.Address.{SockAddr}
use winsock_tut.Socket.Calls.{Calls}
use winsock_tut.Poller.Select

-- The interface of PollerBase in src/PollerBase.h, over the object and all that it reaches, `P`. A
-- sink is the address of the object that is called back; AddFd gives true for the result 0.
pub record PollerApi (P : Type 0) : Type 0 where
  pub add_fd : ℕ → ℕ → P → P × Bool
  pub remove_fd : ℕ → P → P
  pub set_poll_in : ℕ → P → P
  pub set_poll_out : ℕ → P → P
  pub reset_poll_out : ℕ → P → P
  pub add_timer : ℕ → ℕ → P → P

-- The calls of the system that the example makes by itself, over the same state: accept, recv and
-- send of a socket, what getsockname and getpeername report, and the calls that create one.
pub record Sockets (P : Type 0) : Type 0 where
  pub accept : ℕ → P → ℕ × P
  pub recv : ℕ → ℕ → P → Received × P
  pub send : ℕ → List ℕ → P → Sent × P
  pub names : ℕ → P → Option SockAddr × Option SockAddr
  pub calls : Calls P

-- SelectPoller behind the interface, at a tick count.
abbrev pub select_api : {F W : Type 0} → Select.FdSets F → ℕ → PollerApi (Select.SelectPoller F W)
select_api sets tick = record {
  add_fd = Select.add_fd sets;
  remove_fd = Select.remove_fd sets;
  set_poll_in = Select.set_poll_in sets;
  set_poll_out = Select.set_poll_out sets;
  reset_poll_out = Select.reset_poll_out sets;
  add_timer =
      λ millsec sink p. record p { timers = (add_timer tick millsec (some sink) p.timers).0 };
}
