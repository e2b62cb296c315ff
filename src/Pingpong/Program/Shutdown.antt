-- ===== src/Pingpong/Program/Shutdown.antt =====
-- The end of examples/pingpong/main.cpp: the service is deleted before the server that has a pointer to it.
use mathlib.Core.Path.{subst}
use winsock_tut.Base.{
  ℕ, ◌≡◌, ◌≢◌, refl, sym, ap, ◌∙◌, false, Bool-cases, inl, inr, List, [], some, true, ◌==◌, length,
  get_or, arith,
}
use winsock_tut.Winsock.{invalid_socket}
use winsock_tut.Outcome.{
  Outcome, ok, bad_pointer, bind_ok, ok_eq, Ends, bind-Ends, Ends-bad_pointer,
}
use winsock_tut.Heap.{read, found, found-Ends}
use winsock_tut.Pingpong.{ServiceApi, Layout, Io, delete_array, set_ctx, free_ctx}
use winsock_tut.Pingpong.Server.{
  Server, new_server, with_io, start_accept, listening, start, stop_accepting, drop_ctx, cleanup,
}
use winsock_tut.Service.Contexts.{OverlapContext}
use winsock_tut.Program.{server_text, finish, opened, started, atoi, same_text}
use winsock_tut.Program.Rounds.{Rounds, main_lem, main-serve}
use winsock_tut.Pingpong.Program.{
  before, create, Guarded, reach, freed, guarded_api, Peer, no_peer, serving, joined, io_of, System,
  serve, delete_service, destroy, example, pingpong_main,
}

-- A server with the context of its acceptor.
abbrev pub IsServing : {S : Type 0} → Peer S → Type 0
IsServing (no_peer io) = ⊥
IsServing (serving s) = s.ctx ≢ 0
IsServing (joined c) = ⊥

module _ {S : Type 0} where
  with_io-ctx : (f : Io S → Outcome (Io S)) (s t : Server S) → with_io f s ≡ ok t → t.ctx ≡ s.ctx
  unfolding with_io
  with_io-ctx f s t e =
      let (io, runs, rest) = bind_ok (f s.io) _ t e in
      sym (ap (λ (x : Server S). x.ctx) (ok_eq _ t rest))

  module _ (api : ServiceApi S) (layout : Layout) (this : ℕ) where
    start_accept-ctx : (s t : Server S) → start_accept api layout this s ≡ ok t → t.ctx ≡ s.ctx
    unfolding start_accept
    start_accept-ctx s t e =
        let (ctx, here, e1) = bind_ok (found (api.get s.ctx s.io.service)) _ t e in
        let (u, fills, e2) = bind_ok (with_io _ s) _ t e1 in
        let (v, sets, e3) = bind_ok (with_io _ u) _ t e2 in
        with_io-ctx _ v t e3 ∙ with_io-ctx _ u v sets ∙ with_io-ctx _ s u fills

    -- Start checks that there is a context.
    start-ctx : (s t : Server S) → start api layout this s ≡ ok t → t.ctx ≢ 0
    unfolding start listening
    start-ctx s t e =
        elim (Bool-cases ((api.create_tcp_acceptor s.io.service).0 == invalid_socket)) [
          | inl bad ↦ cc (rw bad at e)
          | inr good ↦
              let ((g, c), allocates, e1) =
                bind_ok
                  (api.alloc_overlap_ctx (api.create_tcp_acceptor s.io.service).0 1
                    (api.create_tcp_acceptor s.io.service).1)
                  _ t (rw good at e) in
              elim (Bool-cases (c == 0)) [
                | inl empty ↦ cc (rw empty at e1)
                | inr full ↦ λ q. ground (arith, start_accept-ctx _ t (rw full at e1))
              ]
        ]

module _ {S : Type 0} (api : ServiceApi S) where
  -- The service is deleted.
  abbrev IsDead : Io (Guarded S) → Type 0
  IsDead io = io.service.alive ≡ false

  delete_array-IsDead :
      (b : ℕ) (io io' : Io (Guarded S)) → delete_array b io ≡ ok io' → IsDead io → IsDead io'
  unfolding delete_array
  delete_array-IsDead b io io' e dead = elim (Bool-cases (b == 0)) [
    | inl null ↦ subst IsDead (ok_eq io io' (rw null at e)) dead
    | inr array ↦
        let (bytes, here, rest) = bind_ok (found (read b io.arrays)) _ io' (rw array at e) in
        subst IsDead (ok_eq _ io' rest) dead
  ]

  set_ctx-IsDead :
      (a : ℕ) (f : OverlapContext → OverlapContext) (io io' : Io (Guarded S))
      → set_ctx (guarded_api api) a f io ≡ ok io'
      → IsDead io
      → IsDead io'
  unfolding set_ctx
  set_ctx-IsDead a f io io' e dead =
      let (ctx, here, rest) = bind_ok (found (api.get a io.service.inner)) _ io' e in
      subst IsDead (ok_eq _ io' rest) dead

  freed-dead : (f : S → Outcome S) (g : Guarded S) → g.alive ≡ false → freed f g ≡ bad_pointer
  freed-dead f g dead = rw dead refl

  drop_ctx-dead :
      (layout : Layout) (this c : ℕ) (io io' : Io (Guarded S))
      → IsDead io
      → drop_ctx (guarded_api api) layout this c io ≢ ok io'
  unfolding drop_ctx free_ctx
  drop_ctx-dead layout this c io io' dead e =
      let (ctx, here, e1) = bind_ok (found (api.get c io.service.inner)) _ io' e in
      let (io1, deletes, e2) = bind_ok (delete_array ctx.buf io) _ io' e1 in
      let (io2, sets, e3) = bind_ok (set_ctx (guarded_api api) c _ io1) _ io' e2 in
      let dead2 =
        set_ctx-IsDead c _ io1 io2 sets (delete_array-IsDead ctx.buf io io1 deletes dead) in
      let (g, frees, e4) = bind_ok (freed (api.free_overlap_ctx c) io2.service) _ io' e3 in
      cc (frees, freed-dead (api.free_overlap_ctx c) io2.service dead2)

  -- The destructor of a server that has a context frees it through the service.
  cleanup-dead :
      (layout : Layout) (this : ℕ) (s t : Server (Guarded S))
      → s.ctx ≢ 0
      → IsDead s.io
      → cleanup (guarded_api api) layout this s ≢ ok t
  unfolding cleanup stop_accepting with_io
  cleanup-dead layout this s t held dead e =
      let kept : (s.ctx == 0) ≡ false = ground arith in
      elim (Bool-cases (s.acceptor == invalid_socket)) [
        | inl closed ↦
            let (u, drops, _) =
              bind_ok (with_io (drop_ctx (guarded_api api) layout this s.ctx) s) _ t
                (rw (closed, kept) at e) in
            let (io, runs, _) =
              bind_ok (drop_ctx (guarded_api api) layout this s.ctx s.io) _ u drops in
            drop_ctx-dead layout this s.ctx s.io io dead runs
        | inr listening' ↦
            let g : Guarded S = reach (api.closesocket s.acceptor) s.io.service in
            let io1 : Io (Guarded S) = record s.io { service = g } in
            let s1 : Server (Guarded S) = record s { io = io1; acceptor = invalid_socket } in
            let (u, drops, _) =
              bind_ok (with_io (drop_ctx (guarded_api api) layout this s.ctx) s1) _ t
                (rw (listening', kept) at e) in
            let (io, runs, _) =
              bind_ok (drop_ctx (guarded_api api) layout this s.ctx io1) _ u drops in
            drop_ctx-dead layout this s.ctx io1 io dead runs
      ]

  -- Cleanup runs into no CHECK, for a service that is deleted.
  delete_array-Ends : (b : ℕ) (io : Io (Guarded S)) → Ends (delete_array b io)
  unfolding delete_array
  delete_array-Ends b io = elim (Bool-cases (b == 0)) [
    | inl null ↦ rw null tt
    | inr array ↦ rw array (bind-Ends (found (read b io.arrays)) _ (found-Ends _) (λ x e. tt))
  ]

  set_ctx-Ends :
      (a : ℕ) (f : OverlapContext → OverlapContext) (io : Io (Guarded S))
      → Ends (set_ctx (guarded_api api) a f io)
  unfolding set_ctx
  set_ctx-Ends a f io = bind-Ends (found (api.get a io.service.inner)) _ (found-Ends _) (λ x e. tt)

  free_ctx-Ends : (a : ℕ) (io : Io (Guarded S)) → IsDead io → Ends (free_ctx (guarded_api api) a io)
  unfolding free_ctx
  free_ctx-Ends a io dead =
      let fails : freed (api.free_overlap_ctx a) io.service ≡ bad_pointer =
        freed-dead (api.free_overlap_ctx a) io.service dead in
      bind-Ends (freed (api.free_overlap_ctx a) io.service) _ (subst Ends (sym fails) tt)
        (λ g e. tt)

  drop_ctx-Ends :
      (layout : Layout) (this c : ℕ) (io : Io (Guarded S))
      → IsDead io
      → Ends (drop_ctx (guarded_api api) layout this c io)
  unfolding drop_ctx
  drop_ctx-Ends layout this c io dead =
      bind-Ends (found (api.get c io.service.inner)) _ (found-Ends _) λ ctx here.
        bind-Ends (delete_array ctx.buf io) _ (delete_array-Ends ctx.buf io) λ io1 deletes.
          bind-Ends (set_ctx (guarded_api api) c _ io1) _ (set_ctx-Ends c _ io1) λ io2 sets.
            free_ctx-Ends c io2
              (set_ctx-IsDead c _ io1 io2 sets (delete_array-IsDead ctx.buf io io1 deletes dead))

  cleanup-Ends :
      (layout : Layout) (this : ℕ) (s : Server (Guarded S))
      → s.ctx ≢ 0
      → IsDead s.io
      → Ends (cleanup (guarded_api api) layout this s)
  unfolding cleanup stop_accepting with_io
  cleanup-Ends layout this s held dead =
      let kept : (s.ctx == 0) ≡ false = ground arith in
      elim (Bool-cases (s.acceptor == invalid_socket)) [
        | inl closed ↦
            rw (closed, kept)
              (bind-Ends (with_io (drop_ctx (guarded_api api) layout this s.ctx) s) _
                (bind-Ends (drop_ctx (guarded_api api) layout this s.ctx s.io) _
                  (drop_ctx-Ends layout this s.ctx s.io dead) (λ io e. tt))
                (λ t e. tt))
        | inr open' ↦
            let io1 : Io (Guarded S) = record s.io {
              service = reach (api.closesocket s.acceptor) s.io.service;
            } in
            let s1 : Server (Guarded S) = record s { io = io1; acceptor = invalid_socket } in
            rw (open', kept)
              (bind-Ends (with_io (drop_ctx (guarded_api api) layout this s.ctx) s1) _
                (bind-Ends (drop_ctx (guarded_api api) layout this s.ctx io1) _
                  (drop_ctx-Ends layout this s.ctx io1 dead) (λ io e. tt))
                (λ t e. tt))
      ]

module _ {S : Type 0} (sys : System S) where
  serve-IsServing : (r t : Peer S) → serve sys r ≡ ok t → IsServing t
  unfolding serve
  serve-IsServing r t e =
      let api = guarded_api sys.api in
      let (s, starts, rest) =
        bind_ok (start api sys.layout sys.this (new_server (io_of r))) _ t e in
      subst IsServing (ok_eq (serving s) t rest)
        (start-ctx api sys.layout sys.this (new_server (io_of r)) s starts)

  finish-serving : (r : Peer S) (x : ℕ × Peer S) → IsServing r → finish (example sys) r ≢ ok x
  unfolding finish destroy delete_service
  finish-serving (no_peer io) x held e = absurd held
  finish-serving (joined c) x held e = absurd held
  finish-serving (serving s) x held e =
      let (t, destroyed, _) = bind_ok (destroy sys (delete_service sys (serving s))) _ x e in
      let (u, cleaned, _) =
        bind_ok (cleanup (guarded_api sys.api) sys.layout sys.this _) _ t destroyed in
      cleanup-dead sys.api sys.layout sys.this _ u held refl cleaned

  -- main of the pingpong example as a server never returns, however long it runs and whatever is outside, if
  -- Run and its callbacks leave the context of the acceptor to the server: when the loop ends, the
  -- service is deleted, and the destructor of the server frees its context through it.
  pingpong_main-ne-ok :
      (fuel : ℕ) (args : List (List ℕ)) (s : S) (x : ℕ × Peer S)
      → length args ≡ 5
      → get_or args 1 [] ≡ server_text
      → ((r t : Peer S) → IsServing r → sys.run r ≡ ok t → IsServing t)
      → pingpong_main sys fuel args s ≢ ok x
  unfolding pingpong_main
  pingpong_main-ne-ok fuel args s x five serves keeps =
      main-serve (example sys) IsServing serve-IsServing keeps finish-serving fuel args _ x five
        serves

  finish-Ends : (s : Server (Guarded S)) → s.ctx ≢ 0 → Ends (finish (example sys) (serving s))
  unfolding finish destroy delete_service
  finish-Ends s held =
      bind-Ends (destroy sys (delete_service sys (serving s))) _
        (bind-Ends (cleanup (guarded_api sys.api) sys.layout sys.this _) _
          (cleanup-Ends sys.api sys.layout sys.this _ held refl) (λ t e. tt))
        (λ t e. tt)

  -- main of the pingpong example as a server ends, with enough fuel, in a call through a pointer to a freed
  -- object, if the start succeeds and the signal comes after some rounds that leave a server with the
  -- context of its acceptor: the service is deleted, and the destructor of the server frees that context
  -- through it.
  pub pingpong_main-server :
      (args : List (List ℕ)) (w : S) (t u v : Peer S) (s : Server (Guarded S))
      → length args ≡ 5
      → get_or args 1 [] ≡ server_text
      → started (example sys) (before w) ≡ ok t
      → create sys (atoi (get_or args 4 [])) t ≡ some u
      → serve sys u ≡ ok v
      → Rounds (example sys) v (serving s)
      → s.ctx ≢ 0
      → sys.stopped s.io.service.inner ≡ true
      → (fuel : ℕ) × (pingpong_main sys fuel args w ≡ bad_pointer)
  unfolding pingpong_main opened same_text
  pingpong_main-server args w t u v s five serves starts makes serves' rounds held stop =
      let ex = example sys in
      let asked : opened ex (get_or args 1 []) u ≡ ok v = rw serves serves' in
      let (fuel, ends) =
        main_lem ex args (before w) t u v (serving s) five starts makes asked rounds stop in
      (
        fuel,
        ends
            ∙ Ends-bad_pointer (finish ex (serving s)) (finish-Ends s held)
                (λ x. finish-serving (serving s) x held),
      )
