-- ===== src/Pingpong/Server/Reply.antt =====
-- What the pingpong server sends back: Session::OnRead.
use winsock_tut.Base.{ℕ, ◌+◌, ◌≡◌, refl, ◌∙◌, true, List, some, arith, ◌==◌}
use winsock_tut.Outcome.{ok}
use winsock_tut.Heap.{read, write, read-write}
use winsock_tut.Service.Contexts.{OverlapContext, status_code, transferred_bytes}
use winsock_tut.Pingpong.{ServiceApi, Layout, Io, resize, session_read, session_written}
use winsock_tut.Pingpong.Services.{IsService, Has, Spares}
use winsock_tut.Pingpong.Requests.{IsSent, read_into, start_read_lem, write_lem}
use winsock_tut.Pingpong.Server.{Session, Server, is_positive, with_io, start_read, echoed, on_read}
use winsock_tut.Pingpong.Server
use winsock_tut.Pingpong.Server.Sessions.{IsTracked, write-IsTracked}

-- A message in the session's buffer, and the buffer made ready for the next one.
abbrev pub counted : List ℕ → Session → Session
counted bytes x = record x { recv_buf = bytes; recv_count = x.recv_count + 1 }

abbrev pub resumed : Session → Session
resumed x = record x { recv_buf = resize 1024 x.recv_buf }

module _ {S : Type 0} (s : Server S) (v : IsTracked s) (a : ℕ) (session : Session)
    (here : read a s.heap ≡ some session) (api : ServiceApi S) (laws : IsService api)
    (layout : Layout) (this : ℕ) where
  abbrev pub next : List ℕ → Io S → Server S
  next bytes io = record s { heap = write a resumed (write a (counted bytes) s.heap); io = io }

  next-IsTracked : (bytes : List ℕ) (io : Io S) → IsTracked (next bytes io)
  next-IsTracked bytes io =
      write-IsTracked (record s { heap = write a (counted bytes) s.heap; io = io })
        (write-IsTracked s v a session here (counted bytes) (λ x. refl) io) a
        (counted bytes session) (read-write a (counted bytes) session s.heap here) resumed
        (λ x. refl) io

  -- What OnRead leaves: after the reply, the last call of the service was AsyncRead of the receive
  -- context, filled in for the session's buffer and with OnRead as its callback; it touched no other
  -- context and no array.
  pub record IsReplied (bytes : List ℕ) (io : Io S) : Type 0 where
    pub mid : Io S
    pub replied : IsSent api laws (layout.bound session_written a) session.fd bytes s.io mid
    pub result : ℕ
    pub asked :
        api.async_read session.recv_ctx (
          api.set session.recv_ctx
            (read_into (layout.bound session_read a) (layout.recv_storage a) session.recv_ctx)
            mid.service)
        ≡ ok (io.service, result)
    pub spares : Spares api session.recv_ctx mid.service io.service
    pub arrays : io.arrays ≡ mid.arrays

  echoed_lem :
      (fuel nbytes : ℕ)
      → Has api session.recv_ctx s.io.service
      → is_positive nbytes ≡ true
      → let bytes = resize nbytes session.recv_buf in
        (io : Io S) × (echoed api layout this fuel a session nbytes s ≡ ok (next bytes io))
        × IsReplied bytes io
  unfolding echoed Server.write start_read with_io
  echoed_lem fuel nbytes has some_bytes =
      let bytes = resize nbytes session.recv_buf in
      let cb = layout.bound session_written a in
      let (x, here') = has in
      let (io, writes, result, keeps) = write_lem api laws cb session.fd bytes s.io in
      let (t, reads, spares, (r, asked)) =
        start_read_lem api laws (layout.bound session_read a) (layout.recv_storage a)
          session.recv_ctx io (x, keeps session.recv_ctx has ∙ here') in
      (
        record io { service = t },
        rw (some_bytes, writes, read-write a (counted bytes) session s.heap here, reads) refl,
        record {
          mid = io;
          replied = result;
          result = r;
          asked = asked;
          spares = spares;
          arrays = refl;
        },
      )

  -- On a service that keeps its laws, OnRead of a session of the server, with the status 0 and a
  -- positive number of bytes in its receive context, returns: the map and the heap keep their promise.
  -- The receive buffer, resized to that number, is copied to a new array, and AsyncWrite is called for
  -- a new context of the session's socket, with that array and its length and OnWritten as callback; or,
  -- when AllocOverlapCtx gives no context, nothing is sent and no array is made. Then AsyncRead is
  -- called for the receive context, with the receive buffer and OnRead as callback, and the buffer is
  -- made ready for the next message.
  pub on_read_lem :
      (fuel : ℕ) (x : OverlapContext)
      → api.get session.recv_ctx s.io.service ≡ some x
      → status_code x ≡ 0
      → is_positive (transferred_bytes x) ≡ true
      → let bytes = resize (transferred_bytes x) session.recv_buf in
        (io : Io S) × (on_read api layout this fuel a session.recv_ctx s ≡ ok (next bytes io))
        × IsTracked (next bytes io)
        × IsReplied bytes io
  unfolding on_read
  on_read_lem fuel x at done some_bytes =
      let (io, runs, result) = echoed_lem fuel (transferred_bytes x) (x, at) some_bytes in
      let good : (status_code x == 0) ≡ true = ground arith in
      (io, rw (at, here, good) runs, next-IsTracked _ io, result)
