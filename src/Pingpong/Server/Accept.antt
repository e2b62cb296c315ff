-- ===== src/Pingpong/Server/Accept.antt =====
-- A new session of the pingpong server: Server::OnAccept and Server::StartAccept.
use winsock_tut.Base.{
  ℕ, ◌+◌, ◌%◌, ◌^◌, ◌<◌, ◌≡◌, ◌≢◌, ◌⊎◌, inl, inr, refl, sym, ap, ◌∙◌, false, List, [], ◌∷◌, ◌++◌,
  none, some, arith, ◌==◌, if◌then◌else◌, Bool-cases, Option-cases,
}
use winsock_tut.Outcome.{Outcome, ok}
use winsock_tut.Table.{find_entry, has_entry-find_entry, find_entry-append}
use winsock_tut.Heap.{
  fresh, read, has_entry-fresh, read-append, read-append_old, read-append_cases, write-append,
}
use winsock_tut.Service.Contexts.{OverlapContext, status_code, flag_associate}
use winsock_tut.Pingpong.{
  ServiceApi, Layout, Io, resize, set_ctx, request, session_read, server_accept,
}
use winsock_tut.Pingpong.Requests.{start_read_lem, some-ne-none}
use winsock_tut.Pingpong.Services.{IsService, Has}
use winsock_tut.Pingpong.Server.{
  Session, Server, id_of, with_io, close_fd, put, start_read, accept_array, start_accept, joined,
  opened, on_accept,
}
use winsock_tut.Pingpong.Server.Sessions.{IsTracked}

-- The array that StartAccept needs behind the context, if there is one.
abbrev pub IsReady : {S : Type 0} → OverlapContext → Io S → Type 0
IsReady ctx io = (ctx.buf ≡ 0) ⊎ (bytes : List ℕ) × (read ctx.buf io.arrays ≡ some bytes)

module _ {S : Type 0} (api : ServiceApi S) (laws : IsService api) where
  module _ (layout : Layout) (this : ℕ) where
    accept_array_lem :
        (c : ℕ) (ctx : OverlapContext) (io : Io S)
        → api.get c io.service ≡ some ctx
        → IsReady ctx io
        → (io' : Io S) × (accept_array api layout this c ctx io ≡ ok io') × Has api c io'.service
    unfolding accept_array set_ctx
    accept_array_lem c ctx io here ready = elim (Bool-cases (ctx.buf == 0)) [
      | inl empty ↦ rw (empty, here) (_, refl, (_, laws.set_self c _ io.service ctx here))
      | inr full ↦ elim ready [
        | inl e ↦ absurd (ground arith)
        | inr (bytes, there) ↦ rw (full, there) (_, refl, (ctx, here))
      ]
    ]

    -- StartAccept returns, and changes only the service and the arrays.
    start_accept_lem :
        (s : Server S) (ctx : OverlapContext)
        → api.get s.ctx s.io.service ≡ some ctx
        → IsReady ctx s.io
        → (io : Io S) × (start_accept api layout this s ≡ ok (record s { io = io }))
    unfolding start_accept with_io set_ctx request
    start_accept_lem s ctx here ready =
        let (io, made, (x, there)) = accept_array_lem s.ctx ctx s.io here ready in
        let f : OverlapContext → OverlapContext =
          λ y. record y { cb = some (layout.bound server_accept this s.ctx) } in
        let (t, r, accepts, _) =
          laws.accepts s.ctx (api.set s.ctx f io.service)
            (_, laws.set_self s.ctx f io.service x there) in
        (record io { service = t }, rw (here, made, there, accepts) refl)

module _ {S : Type 0} (s : Server S) (v : IsTracked s) (room : s.counter + 1 < 2 ^ 31) where
  -- The server with a session more.
  abbrev pub more : Session → Io S → Server S
  more x io = record s {
    counter = (s.counter + 1) % 2 ^ 32;
    heap = s.heap ++ (fresh s.heap, x) ∷ [];
    sessions = put s.counter (fresh s.heap) s.sessions;
    io = io;
  }

  unused : find_entry id_of s.counter s.sessions ≡ none
  unused = elim (Option-cases (find_entry id_of s.counter s.sessions)) [
    | inl e ↦ e
    | inr (e, found) ↦
        let (x, there, its) = v.owned s.counter e found in
        let (_, _, below) = v.listed e.1 x there in absurd (omega (arith, its, below))
  ]

  find_entry-more :
      (k : ℕ)
      → find_entry id_of k (put s.counter (fresh s.heap) s.sessions)
        ≡ (if s.counter == k then some (s.counter, fresh s.heap) else find_entry id_of k s.sessions)
  unfolding put
  find_entry-more k =
      rw (has_entry-find_entry id_of s.counter s.sessions unused)
        (find_entry-append id_of s.counter k (s.counter, fresh s.heap) s.sessions refl unused)

  pub more-IsTracked : (x : Session) (io : Io S) → x.id ≡ s.counter → IsTracked (more x io)
  more-IsTracked x io new = record {
    owned = owned;
    listed = listed;
    small = omega arith;
    started = omega arith;
  }
    where
      owned :
          (k : ℕ) (e : ℕ × ℕ)
          → find_entry id_of k (put s.counter (fresh s.heap) s.sessions) ≡ some e
          → (y : Session) × (read e.1 (s.heap ++ (fresh s.heap, x) ∷ []) ≡ some y) × (y.id ≡ k)
      owned k e at = elim (Bool-cases (s.counter == k)) [
        | inl same ↦
            let q : e.1 ≡ fresh s.heap = ground (arith, find_entry-more k) in
            (
              x,
              ap (λ b. read b (s.heap ++ (fresh s.heap, x) ∷ [])) q
                  ∙ read-append (fresh s.heap) x s.heap (has_entry-fresh s.heap),
              ground arith,
            )
        | inr other ↦
            let (y, there, its) = v.owned k e (ground (arith, find_entry-more k)) in
            (y, read-append_old (fresh s.heap) e.1 x y s.heap there, its)
      ]

      listed :
          (b : ℕ) (y : Session)
          → read b (s.heap ++ (fresh s.heap, x) ∷ []) ≡ some y
          → (find_entry id_of y.id (put s.counter (fresh s.heap) s.sessions) ≡ some (y.id, b))
            × (0 < y.id)
            × (y.id < (s.counter + 1) % 2 ^ 32)
      listed b y at = elim (read-append_cases (fresh s.heap) b x y s.heap at) [
        | inl old ↦
            let (entry, positive, below) = v.listed b y old in
            (ground (arith, find_entry-more y.id), positive, omega (arith, below, room))
        | inr (q, one) ↦
            let k : x.id ≡ y.id = ap (λ (z : Session). z.id) one in
            let first = v.started in
            (
              ground (arith, find_entry-more y.id),
              omega (arith, k, new, first),
              omega (arith, k, new, room),
            )
      ]

  module _ (api : ServiceApi S) (laws : IsService api) (layout : Layout) (this : ℕ) where
    -- The session that OnAccept makes.
    abbrev pub started : ℕ → ℕ → Session
    started k fd = record {
      id = s.counter;
      fd = fd;
      recv_ctx = k;
      recv_buf = resize 1024 [];
      recv_count = 0;
    }

    joined_lem :
        (k fd : ℕ) (x ctx : OverlapContext) (io : Io S)
        → x.fd ≡ fd
        → api.get k io.service ≡ some x
        → api.get s.ctx io.service ≡ some ctx
        → k ≢ s.ctx
        → IsReady ctx io
        → (io' : Io S) × (joined api layout this k x (record s { io = io })
            ≡ ok (more (started k fd) io'))
    unfolding joined start_read with_io
    joined_lem k fd x ctx io its here listening apart ready =
        let a = fresh s.heap in
        let new = has_entry-fresh s.heap in
        let fresh_one : Session = record (started k x.fd) { recv_buf = [] } in
        let (t, reads, spares, _) =
          start_read_lem api laws (layout.bound session_read a) (layout.recv_storage a) k io
            (x, here) in
        let (io', accepts) =
          start_accept_lem api laws layout this (more (started k x.fd) (record io { service = t }))
            ctx (spares s.ctx (λ e. apart (sym e)) ∙ listening) ready in
        (
          io',
          rw
                (
                  read-append a fresh_one s.heap new,
                  write-append a (λ y. record y { recv_buf = resize 1024 y.recv_buf }) fresh_one
                      s.heap new,
                  reads,
                )
                accepts
              ∙ ap (λ f. ok (more (started k f) io')) its,
        )

    -- What OnAccept comes to: there is no new session, and the socket is closed; or there is exactly
    -- one more, under the id that the counter gave, with the socket and a context for it, and the
    -- server is ready for the next one.
    pub data IsAnswered (fd : ℕ) (o : Outcome (Server S)) : Type 0 where
      refused :
          (t : S)
          → o ≡ ok (close_fd api layout this fd (record s { io = record s.io { service = t } }))
          → IsAnswered fd o
      one_more :
          (k : ℕ) (io : Io S)
          → api.get k s.io.service ≡ none
          → o ≡ ok (more (started k fd) io)
          → IsTracked (more (started k fd) io)
          → IsAnswered fd o

    -- On a service that keeps its laws, OnAccept of a server whose map and heap keep their promise,
    -- with its context there, an id left, and the array of the context there or still to be made,
    -- returns: there is no new session and the socket of the context is closed, or there is exactly
    -- one more, with the socket, a context that was not there before, and the counter as its id, and
    -- the map and the heap keep their promise.
    pub on_accept_lem :
        (ctx : OverlapContext)
        → api.get s.ctx s.io.service ≡ some ctx
        → IsReady ctx s.io
        → IsAnswered ctx.udata (on_accept api layout this s.ctx s)
    unfolding on_accept with_io set_ctx opened
    on_accept_lem ctx here ready =
        let taken : OverlapContext → OverlapContext = λ y. record y { udata = 0 } in
        let service = api.set s.ctx taken s.io.service in
        let listening = laws.set_self s.ctx taken s.io.service ctx here in
        let (t, k, allocates, outcome) = laws.allocates ctx.udata flag_associate service in
        elim (Bool-cases (status_code ctx == 0)) [
          | inl good ↦ elim outcome [
            | inl (null, _) ↦ rw (here, good, allocates, null) (refused t refl)
            | inr (valid, unseen, (x, there, its, _), spares) ↦
                let apart : k ≢ s.ctx = λ e.
                  some-ne-none api laws _
                    (sym listening ∙ ap (λ j. api.get j service) (sym e) ∙ unseen) in
                let (io, joins) =
                  joined_lem k ctx.udata x (taken ctx) (record s.io { service = t }) its there
                    (spares s.ctx (λ e. apart (sym e)) ∙ listening) apart ready in
                let other : (k == 0) ≡ false = ground arith in
                rw (here, good, allocates, other, there, joins)
                  (one_more k io (sym (laws.set_other s.ctx taken s.io.service k apart) ∙ unseen)
                    refl (more-IsTracked (started k ctx.udata) io refl))
          ]
          | inr bad ↦ rw (here, bad) (refused service refl)
        ]
