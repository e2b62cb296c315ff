-- ===== src/Echo/Client/Rounds.antt =====
-- The rounds of the echo client: EchoClient::OnTimeout.
use winsock_tut.Base.{
  ℕ, ap, ◌+◌, ◌≤◌, ◌<◌, ◌≡◌, ◌≢◌, ◌⊎◌, inl, inr, refl, false, List, some, arith, ltb, ◌==◌,
  Bool-cases,
}
use winsock_tut.Winsock.{invalid_socket}
use winsock_tut.Outcome.{ok, ◌>>=◌}
use winsock_tut.Socket.Transfer.{Count, minus_one, count, write_some}
use winsock_tut.Socket.Transfer.Write.{IsSink, HasWritten, write_some-HasWritten}
use winsock_tut.Echo.{PollerApi, Sockets}
use winsock_tut.Echo.Client.{
  EchoClient, max_send_count, cleanup, message, sent, send_data, rearm, on_timeout,
}

module _ {P : Type 0} (api : PollerApi P) (sys : Sockets P) (this : ℕ) where
  -- What SendData leaves of the socket and outside, after WriteSome with this result.
  abbrev pub fd_after : EchoClient P → Count × P → ℕ
  fd_after c (minus_one, p) = invalid_socket
  fd_after c (count n, p) = c.fd

  abbrev pub outside_after : EchoClient P → Count × P → P
  outside_after c (minus_one, p) = sys.calls.closesocket c.fd (api.remove_fd c.fd p)
  outside_after c (count n, p) = p

  module _ (outgoing : ℕ → P → List ℕ) (sinks : (fd : ℕ) → IsSink (sys.send fd) (outgoing fd)) where
    -- What a timeout of a connected client that may still send comes to, for the result of WriteSome:
    -- one more message is counted, the limit is kept, the socket is closed and taken from the
    -- poller just when WriteSome failed, and what is done outside after that is to add the timer, if
    -- the limit is not reached, and nothing else.
    pub record IsRound (c : EchoClient P) (r : Count × P) (t : EchoClient P) : Type 0 where
      pub counted : t.sent_count ≡ c.sent_count + 1
      pub bounded : t.sent_count ≤ max_send_count
      pub socket : t.fd ≡ fd_after c r
      pub timer :
          (t.sent_count < max_send_count)
            × (t.outside ≡ api.add_timer 1000 this (outside_after c r))
          ⊎ (t.sent_count ≡ max_send_count) × (t.outside ≡ outside_after c r)

    rearm-IsRound :
        (c t : EchoClient P) (r : Count × P)
        → t.sent_count ≡ c.sent_count + 1
        → c.sent_count < max_send_count
        → t.fd ≡ fd_after c r
        → t.outside ≡ outside_after c r
        → IsRound c r (rearm api sys this t)
    unfolding rearm
    rearm-IsRound c t r count' few socket left =
        elim (Bool-cases (ltb t.sent_count max_send_count)) [
          | inl more ↦ rw more record {
            counted = count';
            bounded = omega arith;
            socket = socket;
            timer = inl (ground arith, ap (api.add_timer 1000 this) left);
          }
          | inr last ↦ rw last record {
            counted = count';
            bounded = omega arith;
            socket = socket;
            timer = inr (ground arith, left);
          }
        ]

    sent-IsRound :
        (c : EchoClient P)
        → c.sent_count < max_send_count
        → (r : Count × P)
        → (t : EchoClient P) × ((sent api sys this
                (record c { sent_count = c.sent_count + 1 })
                (some r)
              >>= λ u. ok (rearm api sys this u))
            ≡ ok t)
          × IsRound c r t
    unfolding sent cleanup
    sent-IsRound c few (minus_one, p) =
        (_, refl, rearm-IsRound c _ (minus_one, p) refl few refl refl)
    sent-IsRound c few (count n, p) = (_, refl, rearm-IsRound c _ (count n, p) refl few refl refl)

    -- OnTimeout of a connected client that has sent fewer than five messages, with a send that takes
    -- bytes from the front, returns. It calls WriteSome on the message, which sends a front part of it;
    -- one more message is counted, at most five are; after a failure of WriteSome the socket is taken
    -- from the poller and closed, and it is kept otherwise; then the timer is added again just when
    -- fewer than five are counted.
    pub on_timeout_lem :
        (c : EchoClient P)
        → c.fd ≢ invalid_socket
        → c.sent_count < max_send_count
        → (r : Count × P) × (t : EchoClient P) × (on_timeout api sys this c ≡ ok t)
          × (write_some (sys.send c.fd) (message api sys this c) c.outside ≡ some r)
          × HasWritten (sys.send c.fd) (outgoing c.fd) (message api sys this c) c.outside r
          × IsRound c r t
    unfolding on_timeout send_data
    on_timeout_lem c open' few =
        let (r, wrote, has) =
          write_some-HasWritten (sys.send c.fd) (outgoing c.fd) (sinks c.fd)
            (message api sys this c) c.outside in
        let other : (c.fd == invalid_socket) ≡ false = ground arith in
        let (t, runs, round) = sent-IsRound c few r in
        (r, t, rw (other, wrote) runs, wrote, has, round)
