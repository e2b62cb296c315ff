-- ===== src/Echo/Client.antt =====
-- examples/echo/EchoClient.cpp.
--
-- The host and the port are fixed, and output to the streams is left out. `this` is the address of
-- the client, for the poller's callbacks.
pub mod Rounds
pub mod Driven
use winsock_tut.Base.{
  ℕ, ◌+◌, Bool, true, false, not, ◌&&◌, List, [], ◌∷◌, Option, none, some, ltb, ◌==◌, if◌then◌else◌,
  length,
}
use winsock_tut.Winsock.{invalid_socket}
use winsock_tut.Outcome.{Outcome, ok, check_failed, out_of_fuel, ◌>>=◌}
use winsock_tut.Socket.Transfer.{Count, minus_one, count, read_some, write_some}
use winsock_tut.Socket.Address.{is_self_connection}
use winsock_tut.Socket.Create.{create_tcp_connector}
use winsock_tut.Echo.{PollerApi, Sockets}

-- MAX_SEND_COUNT
abbrev pub max_send_count : ℕ
max_send_count = 5

-- The bytes of "a quick brown fox jumps over the lazy dog"
abbrev pub greeting : List ℕ
greeting =
    97 ∷ 32 ∷ 113 ∷ 117 ∷ 105 ∷ 99 ∷ 107 ∷ 32 ∷ 98 ∷ 114 ∷ 111 ∷ 119 ∷ 110 ∷ 32 ∷ 102 ∷ 111 ∷ 120
    ∷ 32 ∷ 106 ∷ 117 ∷ 109 ∷ 112 ∷ 115 ∷ 32 ∷ 111 ∷ 118 ∷ 101 ∷ 114 ∷ 32 ∷ 116 ∷ 104 ∷ 101 ∷ 32
    ∷ 108 ∷ 97 ∷ 122 ∷ 121 ∷ 32 ∷ 100 ∷ 111 ∷ 103 ∷ []

pub record EchoClient (P : Type 0) : Type 0 where
  pub fd : ℕ
  pub sent_count : ℕ
  pub buf : List ℕ
  pub outside : P

abbrev pub new_client : {P : Type 0} → P → EchoClient P
new_client p = record { fd = invalid_socket; sent_count = 0; buf = []; outside = p }

module _ {P : Type 0} (api : PollerApi P) (sys : Sockets P) (this : ℕ) where
  unfoldable pub cleanup : EchoClient P → EchoClient P
  cleanup c = record c {
    fd = invalid_socket;
    outside = sys.calls.closesocket c.fd (api.remove_fd c.fd c.outside);
  }

  unfoldable pub start : EchoClient P → Outcome (EchoClient P)
  start c =
      let (fd, p) = create_tcp_connector sys.calls true false c.outside in
      if fd == invalid_socket
      then check_failed
      else ok record c {
        fd = fd;
        outside = api.set_poll_out fd (api.set_poll_in fd (api.add_fd fd this p).0);
      }

  -- OnReadable after ReadSome.
  unfoldable pub received : EchoClient P → Option (Count × List ℕ × P) → Outcome (EchoClient P)
  received c none = out_of_fuel
  received c (some (minus_one, bytes, p)) = ok (cleanup (record c { outside = p }))
  received c (some (count n, bytes, p)) =
      if n == 0 then ok (record c { outside = p }) else ok (record c { buf = bytes; outside = p })

  unfoldable pub on_readable : EchoClient P → Outcome (EchoClient P)
  on_readable c = received c (read_some (sys.recv c.fd) 1024 c.outside)

  unfoldable pub on_writable : EchoClient P → Outcome (EchoClient P)
  on_writable c =
      let (local', peer) = sys.names c.fd c.outside in
      if is_self_connection local' peer
      then start (cleanup c)
      else ok (record c { outside = api.reset_poll_out c.fd (api.add_timer 1000 this c.outside) })

  -- The bytes that SendData sends: what came back last, but for the first message.
  unfoldable pub message : EchoClient P → List ℕ
  message c = if ltb 0 c.sent_count && not (length c.buf == 0) then c.buf else greeting

  -- SendData after WriteSome.
  unfoldable pub sent : EchoClient P → Option (Count × P) → Outcome (EchoClient P)
  sent c none = out_of_fuel
  sent c (some (minus_one, p)) = ok (cleanup (record c { outside = p }))
  sent c (some (count n, p)) = ok (record c { buf = []; outside = p })

  unfoldable pub send_data : EchoClient P → Outcome (EchoClient P)
  send_data c =
      sent (record c { sent_count = c.sent_count + 1 })
        (write_some (sys.send c.fd) (message c) c.outside)

  -- The end of OnTimeout.
  unfoldable pub rearm : EchoClient P → EchoClient P
  rearm c =
      if ltb c.sent_count max_send_count
      then record c { outside = api.add_timer 1000 this c.outside }
      else c

  unfoldable pub on_timeout : EchoClient P → Outcome (EchoClient P)
  on_timeout c = do t ← if c.fd == invalid_socket then ok c else send_data c; ok (rearm t)
