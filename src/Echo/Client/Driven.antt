-- ===== src/Echo/Client/Driven.antt =====
-- The echo client under its timer: the calls of EchoClient::OnTimeout that its timers allow.
use winsock_tut.Base.{ℕ, suc, ◌+◌, ◌<◌, ◌≡◌, List, some}
use winsock_tut.Outcome.{ok}
use winsock_tut.Socket.Transfer.{Count, write_some}
use winsock_tut.Echo.{PollerApi, Sockets}
use winsock_tut.Echo.Client.{EchoClient, message, on_timeout}

-- How many timers of the client are pending: AddTimer adds one, an expiry takes one, and the other
-- calls of OnTimeout leave them alone.
pub record Alarms {P : Type 0} (api : PollerApi P) (sys : Sockets P) (this : ℕ) (armed : P → ℕ)
    (expire : P → P) : Type 0 where
  pub adds : (ms : ℕ) (p : P) → armed (api.add_timer ms this p) ≡ armed p + 1
  pub expires : (p : P) → 0 < armed p → armed (expire p) + 1 ≡ armed p
  pub sends : (fd : ℕ) (b : List ℕ) (p : P) → armed (sys.send fd b p).1 ≡ armed p
  pub removes : (fd : ℕ) (p : P) → armed (api.remove_fd fd p) ≡ armed p
  pub closes : (fd : ℕ) (p : P) → armed (sys.calls.closesocket fd p) ≡ armed p

module _ {P : Type 0} (api : PollerApi P) (sys : Sockets P) (this : ℕ) (armed : P → ℕ)
    (expire : P → P) where
  -- The client when a timer of it has expired.
  abbrev pub expired : EchoClient P → EchoClient P
  expired c = record c { outside = expire c.outside }

  -- A number of timeouts from one client to another: each takes a timer that is pending, calls
  -- WriteSome on the message, and returns.
  pub data Fires : EchoClient P → ℕ → EchoClient P → Type 0 where
    rest : {c : EchoClient P} → Fires c 0 c
    fire :
        {c u t : EchoClient P} {n : ℕ} (r : Count × P)
        → 0 < armed c.outside
        → write_some (sys.send c.fd) (message api sys this (expired c)) (expire c.outside) ≡ some r
        → on_timeout api sys this (expired c) ≡ ok u
        → Fires u n t
        → Fires c (suc n) t
