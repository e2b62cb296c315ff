-- ===== src/Pingpong/Client.antt =====
-- examples/pingpong/Client.cpp.
--
-- The host and the port are fixed, and output to the streams is left out. `this` is the address of
-- the client.
pub mod Connect
use winsock_tut.Base.{
  ℕ, ◌+◌, ◌-◌, ◌^◌, ◌&&◌, List, [], ◌∷◌, Option, none, some, ltb, ◌==◌, if◌then◌else◌, length,
  i32_negative,
}
use winsock_tut.Winsock.{invalid_socket, wsa_io_pending}
use winsock_tut.Outcome.{Outcome, ok, ◌>>=◌}
use winsock_tut.Socket.Calls.{AddrInfo}
use winsock_tut.Heap.{found}
use winsock_tut.Service.Contexts.{status_code, transferred_bytes, flag_associate}
use winsock_tut.Pingpong.{
  ServiceApi, Layout, Method, client_connect, client_read, client_written, Io, resize, lazy,
  set_ctx, request, free_ctx,
}
use winsock_tut.Pingpong
use winsock_tut.Pingpong.Server.{is_positive}

abbrev pub max_send_count : ℕ
max_send_count = 5

-- `recv_ctx` is 0 for the null pointer.
pub record Client (S : Type 0) : Type 0 where
  pub recv_ctx : ℕ
  pub fd : ℕ
  pub sent_count : ℕ
  pub recv_buf : List ℕ
  pub io : Io S

abbrev pub new_client : {S : Type 0} → Io S → Client S
new_client io = record { recv_ctx = 0; fd = invalid_socket; sent_count = 0; recv_buf = []; io = io }

-- A step of the client that works on the service and the arrays.
unfoldable pub with_io : {S : Type 0} → (Io S → Outcome (Io S)) → Client S → Outcome (Client S)
with_io f c = f c.io >>= λ io. ok (record c { io = io })

-- The client in front of another state of the service.
abbrev pub serve : {S : Type 0} → S → Client S → Client S
serve s c = record c { io = record c.io { service = s } }

module _ {S : Type 0} (api : ServiceApi S) (layout : Layout) (this : ℕ) where
  unfoldable pub close_socket : Client S → Client S
  close_socket c =
      if c.fd == invalid_socket
      then c
      else record (serve (api.closesocket c.fd c.io.service) c) { fd = invalid_socket }

  -- Client::Cleanup
  unfoldable pub cleanup : Client S → Outcome (Client S)
  cleanup c =
      let t = close_socket c in
      if t.recv_ctx == 0
      then ok t
      else (with_io (set_ctx api t.recv_ctx lazy) t >>= with_io (free_ctx api t.recv_ctx) >>= λ u.
          ok (record u { recv_ctx = 0 }))

  -- Client::Connect after AsyncConnect, with the addresses that are left.
  unfoldable pub requested :
      (Client S → Outcome (Client S)) → ℕ → Client S → S × ℕ → Outcome (Client S)
  requested next a c (s, r) =
      if i32_negative r
      then (with_io (free_ctx api a) (serve s c) >>= next)
      else ok (record (serve s c) { recv_ctx = a })

  -- Client::Connect after AllocOverlapCtx.
  unfoldable pub allocated :
      (Client S → Outcome (Client S)) → AddrInfo → ℕ → Client S → S × ℕ → Outcome (Client S)
  allocated next info fd c (s, a) =
      let t : Client S = record (serve s c) { fd = fd } in
      if a == 0
      then next (serve s c)
      else (with_io
            (set_ctx api a (λ x. record x { cb = some (layout.bound client_connect this a) })) t
          >>= λ u. (api.async_connect a info u.io.service >>= requested next a u))

  -- The loop of Client::Connect over the addresses.
  unfoldable pub connect_loop : List AddrInfo → Client S → Outcome (Client S)
  connect_loop [] c = ok c
  connect_loop (info ∷ rest) c =
      let next = connect_loop rest in
      let (fd, s) = api.socket info c.io.service in
      if fd == invalid_socket
      then next (serve s c)
      else (api.alloc_overlap_ctx fd flag_associate s >>= allocated next info fd c)

  -- Client::Connect, and its result.
  unfoldable pub resolved : Client S → Option (List AddrInfo) × S → Outcome (Client S × ℕ)
  resolved c (none, s) = ok (serve s c, 2 ^ 32 - 1)
  resolved c (some infos, s) =
      connect_loop infos (serve s c) >>= λ t. ok (serve (api.freeaddrinfo t.io.service) t, 0)

  -- Client::Connect and Client::Start
  unfoldable pub connect : Client S → Outcome (Client S × ℕ)
  connect c = resolved c (api.getaddrinfo c.io.service)

  unfoldable pub start_read : Client S → Outcome (Client S)
  start_read c =
      with_io
        (Pingpong.start_read api (layout.bound client_read this) (layout.recv_storage this)
          c.recv_ctx)
        (record c { recv_buf = resize 1024 c.recv_buf })

  unfoldable pub add_timer : Client S → Client S
  add_timer c = serve (api.add_timer 1000 this c.io.service) c

  -- Client::OnConnect
  unfoldable pub on_connect : ℕ → Client S → Outcome (Client S)
  on_connect a c = do
    ctx ← found (api.get a c.io.service)
    if status_code ctx == 0
        then (start_read c >>= λ t. ok (add_timer t))
        else with_io (free_ctx api a) c

  -- Client::OnRead
  unfoldable pub on_read : ℕ → Client S → Outcome (Client S)
  on_read a c = do
    ctx ← found (api.get a c.io.service)
    let nbytes = transferred_bytes ctx
    let t : Client S = record c {
      recv_buf = if is_positive nbytes then resize nbytes c.recv_buf else c.recv_buf;
    }
    if status_code ctx == 0
        then start_read t
        else if status_code ctx == wsa_io_pending
        then ok c
        else cleanup c

  -- Client::Write with the bytes of recv_buf_.
  unfoldable pub write : Client S → Outcome (Client S)
  write c = with_io (Pingpong.write api (layout.bound client_written this) c.fd c.recv_buf) c

  -- Client::OnWritten
  unfoldable pub on_written : ℕ → Client S → Outcome (Client S)
  on_written a c = do
    ctx ← found (api.get a c.io.service)
    let counted = status_code ctx == 0 && is_positive (transferred_bytes ctx)
    with_io (Pingpong.discard api a)
        (record c { sent_count = if counted then c.sent_count + 1 else c.sent_count })

  -- Client::OnTimeout
  unfoldable pub on_timeout : Client S → Outcome (Client S)
  on_timeout c = do
    t ←
        if ltb c.sent_count max_send_count
        then (if length c.recv_buf == 0 then ok c else write c)
        else cleanup c
    ok (add_timer t)
