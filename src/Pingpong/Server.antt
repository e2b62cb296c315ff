-- ===== src/Pingpong/Server.antt =====
-- examples/pingpong/Session.cpp and examples/pingpong/Server.cpp.
--
-- A session is an object in the heap; the server, to which all of them point, is the record. The
-- map sessions_ is a list of ids and addresses. Output to the streams, with the address that it
-- shows, is left out. An int is its bit pattern.
pub mod Sessions
pub mod Close
pub mod Accept
pub mod Reply
use winsock_tut.Base.{
  ℕ, zero, suc, ◌+◌, ◌%◌, ◌^◌, Bool, true, false, not, ◌&&◌, List, [], ◌∷◌, ◌++◌, Option, none,
  some, ◌==◌, if◌then◌else◌, take, i32_negative, length,
}
use winsock_tut.Winsock.{invalid_socket, wsa_io_pending}
use winsock_tut.Outcome.{Outcome, ok, bad_pointer, check_failed, out_of_fuel, ◌>>=◌}
use winsock_tut.Table.{find_entry, update_entry, remove_all, has_entry}
use winsock_tut.Heap.{Heap, found, fresh}
use winsock_tut.Heap
use winsock_tut.Service.Contexts.{OverlapContext, status_code, transferred_bytes, flag_associate}
use winsock_tut.Pingpong.{
  ServiceApi, Layout, Method, session_read, session_written, server_accept, Io, zeros, resize, lazy,
  delete_array, set_ctx, request, free_ctx,
}
use winsock_tut.Pingpong

pub record Session : Type 0 where
  pub id : ℕ
  pub fd : ℕ
  pub recv_ctx : ℕ
  pub recv_buf : List ℕ
  pub recv_count : ℕ

-- The server with its sessions; `ctx` is 0 for the null pointer.
pub record Server (S : Type 0) : Type 0 where
  pub ctx : ℕ
  pub acceptor : ℕ
  pub counter : ℕ
  pub sessions : List (ℕ × ℕ)
  pub heap : Heap Session
  pub io : Io S

abbrev pub id_of : ℕ × ℕ → ℕ
id_of e = e.0

abbrev pub new_server : {S : Type 0} → Io S → Server S
new_server io = record {
  ctx = 0;
  acceptor = invalid_socket;
  counter = 2001;
  sessions = [];
  heap = [];
  io = io;
}

-- A step of the server that works on the service and the arrays.
unfoldable pub with_io : {S : Type 0} → (Io S → Outcome (Io S)) → Server S → Outcome (Server S)
with_io f s = f s.io >>= λ io. ok (record s { io = io })

-- A write through a pointer to a session.
abbrev pub set_session : {S : Type 0} → ℕ → (Session → Session) → Server S → Server S
set_session a f s = record s { heap = Heap.write a f s.heap }

-- `id_ > 0` and `nbytes > 0` for an int.
abbrev pub is_positive : ℕ → Bool
is_positive n = not (n == 0) && not (i32_negative n)

-- `sessions_[sid] = session`
unfoldable pub put : ℕ → ℕ → List (ℕ × ℕ) → List (ℕ × ℕ)
put sid a es =
    if has_entry id_of sid es
    then update_entry id_of sid (λ e. (sid, a)) es
    else es ++ (sid, a) ∷ []

module _ {S : Type 0} (api : ServiceApi S) (layout : Layout) (this : ℕ) where
  abbrev pub close_fd : ℕ → Server S → Server S
  close_fd fd s = record s { io = record s.io { service = api.closesocket fd s.io.service } }

  -- Server::CloseSession, with Session::Close for the destructor: the session is destroyed and
  -- freed, and its entry is erased, which must still be there.
  unfoldable pub erase_session : ℕ → ℕ → Server S → Outcome (Server S)
  erase_session sid a s = do
    session ← found (Heap.read a s.heap)
    let t : Server S = record s { heap = Heap.delete a s.heap }
    if has_entry id_of sid t.sessions
        then ok (record t { sessions = remove_all id_of sid t.sessions })
        else bad_pointer

  unfoldable pub close_session :
      (ℕ → Server S → Outcome (Server S)) → ℕ → Server S → Outcome (Server S)
  close_session close_it sid s = elim (find_entry id_of sid s.sessions) [
    | none ↦ ok s
    | some e ↦ close_it e.1 s >>= erase_session sid e.1
  ]

  -- Session::Close of a session that has been read, before the call of CloseSession.
  unfoldable pub released : ℕ → Session → Server S → Outcome (Server S)
  released a session s =
      let t =
        set_session a (λ x. record x { id = 0; fd = invalid_socket }) (close_fd session.fd s) in
      with_io (set_ctx api session.recv_ctx lazy) t >>= with_io (free_ctx api session.recv_ctx)

  -- Session::Close. It calls CloseSession, whose destructor calls Close again: with the id 0 that
  -- one does nothing, so two rounds are enough.
  unfoldable pub close : ℕ → ℕ → Server S → Outcome (Server S)
  close zero a s = out_of_fuel
  close (suc fuel) a s = do
    session ← found (Heap.read a s.heap)
    if is_positive session.id
        then released a session s >>= close_session (close fuel) session.id
        else ok s

  unfoldable pub start_read : ℕ → Server S → Outcome (Server S)
  start_read a s = do
    session ← found (Heap.read a s.heap)
    with_io
        (Pingpong.start_read api (layout.bound session_read a) (layout.recv_storage a)
          session.recv_ctx)
        (set_session a (λ x. record x { recv_buf = resize 1024 x.recv_buf }) s)

  -- Session::Write with the first bytes of recv_buf_.
  unfoldable pub write : ℕ → Session → List ℕ → Server S → Outcome (Server S)
  write a session bytes =
      with_io (Pingpong.write api (layout.bound session_written a) session.fd bytes)

  -- Session::OnRead for a request that succeeded.
  unfoldable pub echoed : ℕ → ℕ → Session → ℕ → Server S → Outcome (Server S)
  echoed fuel a session nbytes s =
      let bytes = resize nbytes session.recv_buf in
      let grown =
        set_session a (λ x. record x { recv_buf = bytes; recv_count = x.recv_count + 1 }) s in
      if is_positive nbytes then write a session bytes grown >>= start_read a else close fuel a s

  unfoldable pub on_read : ℕ → ℕ → ℕ → Server S → Outcome (Server S)
  on_read fuel a c s = do
    ctx ← found (api.get c s.io.service)
    session ← found (Heap.read a s.heap)
    if status_code ctx == 0
        then echoed fuel a session (transferred_bytes ctx) s
        else if status_code ctx == wsa_io_pending
        then ok s
        else close fuel a s

  -- Session::OnWritten, which shows members of the session when bytes have been sent.
  unfoldable pub on_written : ℕ → ℕ → Server S → Outcome (Server S)
  on_written a c s = do
    ctx ← found (api.get c s.io.service)
    if is_positive (transferred_bytes ctx)
        then (found (Heap.read a s.heap) >>= λ session. with_io (Pingpong.discard api c) s)
        else with_io (Pingpong.discard api c) s

  -- Server::StartAccept: the array of the context is made, or filled with zeros.
  unfoldable pub accept_array : ℕ → OverlapContext → Io S → Outcome (Io S)
  accept_array c ctx io =
      let b : ℕ = fresh io.arrays in
      let made : Io S = record io {
        arrays = io.arrays ++ (b, zeros layout.accept_info_size) ∷ [];
      } in
      if ctx.buf == 0
      then set_ctx api c (λ x. record x { buf = b; len = layout.accept_info_size }) made
      else (found (Heap.read ctx.buf io.arrays) >>= λ old.
          ok (record io { arrays = Heap.write ctx.buf (λ x. zeros ctx.len) io.arrays }))

  unfoldable pub start_accept : Server S → Outcome (Server S)
  start_accept s = do
    ctx ← found (api.get s.ctx s.io.service)
    t ← with_io (accept_array s.ctx ctx) s
    u ←
        with_io
          (set_ctx api s.ctx (λ x. record x { cb = some (layout.bound server_accept this s.ctx) }))
          t
    with_io (request api (api.async_accept s.ctx)) u

  -- `new Session`, and the rest of Server::OnAccept.
  unfoldable pub joined : ℕ → OverlapContext → Server S → Outcome (Server S)
  joined c ctx s =
      let a : ℕ = fresh s.heap in
      let session : Session = record {
        id = s.counter;
        fd = ctx.fd;
        recv_ctx = c;
        recv_buf = [];
        recv_count = 0;
      } in
      let u : Server S = record s {
        counter = (s.counter + 1) % 2 ^ 32;
        heap = s.heap ++ (a, session) ∷ [];
        sessions = put s.counter a s.sessions;
      } in
      start_read a u >>= start_accept

  -- Server::OnAccept after AllocOverlapCtx.
  unfoldable pub opened : ℕ → Server S → S × ℕ → Outcome (Server S)
  opened fd s (service, c) =
      let t : Server S = record s { io = record s.io { service = service } } in
      if c == 0 then ok (close_fd fd t) else (found (api.get c service) >>= λ ctx. joined c ctx t)

  -- Server::OnAccept
  unfoldable pub on_accept : ℕ → Server S → Outcome (Server S)
  on_accept c s = do
    ctx ← found (api.get c s.io.service)
    t ← with_io (set_ctx api c (λ x. record x { udata = 0 })) s
    if status_code ctx == 0
        then api.alloc_overlap_ctx ctx.udata flag_associate t.io.service >>= opened ctx.udata t
        else ok (close_fd ctx.udata t)

  -- Server::Start
  unfoldable pub listening : ℕ → Server S → S × ℕ → Outcome (Server S)
  listening fd s (service, c) =
      let t : Server S = record s {
        acceptor = fd;
        ctx = c;
        io = record s.io { service = service };
      } in
      if c == 0 then check_failed else start_accept t

  unfoldable pub start : Server S → Outcome (Server S)
  start s =
      let (fd, service) = api.create_tcp_acceptor s.io.service in
      if fd == invalid_socket
      then check_failed
      else (api.alloc_overlap_ctx fd flag_associate service >>= listening fd s)

  unfoldable pub stop_accepting : Server S → Server S
  stop_accepting s =
      if s.acceptor == invalid_socket
      then s
      else record (close_fd s.acceptor s) { acceptor = invalid_socket }

  -- The end of Server::Cleanup.
  unfoldable pub drop_ctx : ℕ → Io S → Outcome (Io S)
  drop_ctx c io = do
    ctx ← found (api.get c io.service)
    t ← delete_array ctx.buf io
    u ← set_ctx api c (λ x. lazy (record x { buf = 0 })) t
    free_ctx api c u

  unfoldable pub cleanup : Server S → Outcome (Server S)
  cleanup s =
      let t = stop_accepting s in
      if t.ctx == 0 then ok t else (with_io (drop_ctx t.ctx) t >>= λ u. ok (record u { ctx = 0 }))
