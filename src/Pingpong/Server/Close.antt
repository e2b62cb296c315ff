-- ===== src/Pingpong/Server/Close.antt =====
-- Session::Close of examples/pingpong/Session.cpp.
use winsock_tut.Base.{ℕ, suc, ◌≡◌, refl, ◌∙◌, true, some, arith, i32_negative}
use winsock_tut.Winsock.{invalid_socket}
use winsock_tut.Outcome.{ok, bad_pointer}
use winsock_tut.Table.{has_entry-found}
use winsock_tut.Heap.{read, write, read-delete, read-write, delete-write}
use winsock_tut.Service.Contexts.{OverlapContext, transferred_bytes}
use winsock_tut.Pingpong.{ServiceApi, Layout, lazy, set_ctx, free_ctx}
use winsock_tut.Pingpong.Services.{IsService, Spares}
use winsock_tut.Pingpong.Server.{
  Session, Server, id_of, with_io, is_positive, erase_session, close_session, released, close,
  on_written,
}
use winsock_tut.Pingpong.Server.Sessions.{IsTracked, without, without-IsTracked}

module _ {S : Type 0} (s : Server S) (v : IsTracked s) (a : ℕ) (session : Session)
    (here : read a s.heap ≡ some session) where
  positive_id : is_positive session.id ≡ true
  positive_id =
      let (_, positive, below) = v.listed a session here in
      let small = v.small in ground (arith, i32_negative)

  module _ (api : ServiceApi S) (laws : IsService api) (layout : Layout) (this : ℕ) where
    -- What Close of the session comes to, `t` being what FreeOverlapCtx of its context leaves: the
    -- session is gone from the map and the heap, which keep their promise, and a write of it that is
    -- still pending reads the freed session when it is done.
    pub record IsClosed (fuel : ℕ) (t : S) : Type 0 where
      pub freed :
          api.free_overlap_ctx session.recv_ctx
            (api.set session.recv_ctx lazy (api.closesocket session.fd s.io.service))
          ≡ ok t
      pub spared : Spares api session.recv_ctx s.io.service t
      pub result :
          close api layout this (suc (suc fuel)) a s
          ≡ ok (without s v a session here (record s.io { service = t }))
      pub tracked : IsTracked (without s v a session here (record s.io { service = t }))
      pub pending :
          (c : ℕ) (x : OverlapContext)
          → api.get c t ≡ some x
          → is_positive (transferred_bytes x) ≡ true
          → on_written api layout this a c
              (without s v a session here (record s.io { service = t }))
            ≡ bad_pointer

    shut : Session → Session
    shut x = record x { id = 0; fd = invalid_socket }

    -- The server when Close calls CloseSession.
    abbrev shutting : S → Server S
    shutting t = record s { heap = write a shut s.heap; io = record s.io { service = t } }

    released-shutting :
        (ctx : OverlapContext) (t : S)
        → api.get session.recv_ctx (api.closesocket session.fd s.io.service) ≡ some ctx
        → api.free_overlap_ctx session.recv_ctx
            (api.set session.recv_ctx lazy (api.closesocket session.fd s.io.service))
          ≡ ok t
        → released api layout this a session s ≡ ok (shutting t)
    unfolding released with_io set_ctx free_ctx shut
    released-shutting ctx t there frees = rw (there, frees) refl

    -- The destructor's Close.
    close-shutting :
        (fuel : ℕ) (t : S) → close api layout this (suc fuel) a (shutting t) ≡ ok (shutting t)
    unfolding close shut
    close-shutting fuel t = rw (read-write a shut session s.heap here) refl

    erase_session-shutting :
        (t : S)
        → erase_session api layout this session.id a (shutting t)
          ≡ ok (without s v a session here (record s.io { service = t }))
    unfolding erase_session shut
    erase_session-shutting t =
        rw
          (
            read-write a shut session s.heap here,
            has_entry-found id_of session.id (session.id, a) s.sessions (v.listed a session here).0,
            delete-write a shut s.heap,
          )
          refl

    close_session-shutting :
        (fuel : ℕ) (t : S)
        → close_session api layout this (close api layout this (suc fuel)) session.id (shutting t)
          ≡ ok (without s v a session here (record s.io { service = t }))
    unfolding close_session
    close_session-shutting fuel t =
        rw (close_session, (v.listed a session here).0, close-shutting fuel t)
          (erase_session-shutting t)

    close-without :
        (fuel : ℕ) (t : S)
        → released api layout this a session s ≡ ok (shutting t)
        → close api layout this (suc (suc fuel)) a s
          ≡ ok (without s v a session here (record s.io { service = t }))
    unfolding close
    close-without fuel t done = rw (close, here, positive_id, done) (close_session-shutting fuel t)

    -- On a service that keeps its laws, Session::Close of a session of the server, whose receive
    -- context is there, returns: its socket is closed, its context is marked for a lazy delete and
    -- given to FreeOverlapCtx, exactly this session is gone from the map and the heap, in which all
    -- else is as it was, and the server still has an entry for each session. A write of the session
    -- that is done later, with bytes sent, reads the freed session.
    pub close_lem :
        (fuel : ℕ) (ctx : OverlapContext)
        → api.get session.recv_ctx s.io.service ≡ some ctx
        → (t : S) × IsClosed fuel t
    unfolding on_written
    close_lem fuel ctx there =
        let c = session.recv_ctx in
        let service = api.closesocket session.fd s.io.service in
        let there' = laws.closed session.fd c s.io.service ∙ there in
        let (t, frees, spares, _) =
          laws.frees c (api.set c lazy service) (_, laws.set_self c lazy service ctx there') in
        (
          t,
          record {
            freed = frees;
            spared = λ k other.
                spares k other
                ∙ laws.set_other c lazy service k other
                ∙ laws.closed session.fd k s.io.service;
            result = close-without fuel t (released-shutting ctx t there' frees);
            tracked = without-IsTracked s v a session here _;
            pending = λ k x at bytes. rw (at, bytes, read-delete a s.heap) refl;
          },
        )
