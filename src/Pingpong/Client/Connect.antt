-- ===== src/Pingpong/Client/Connect.antt =====
-- The contexts that Client::Connect of examples/pingpong/Client.cpp takes and gives back.
use winsock_tut.Base.{
  ℕ, ◌≡◌, inl, inr, refl, sym, ◌∙◌, false, List, [], ◌∷◌, Option, none, some, arith, ◌==◌,
  Bool-cases, i32_negative,
}
use winsock_tut.Winsock.{invalid_socket, af_inet}
use winsock_tut.Outcome.{Outcome, ok, ◌>>=◌}
use winsock_tut.Socket.Calls.{AddrInfo}
use winsock_tut.Service.Contexts.{OverlapContext, flag_associate}
use winsock_tut.Pingpong.{ServiceApi, Layout, client_connect, set_ctx, free_ctx}
use winsock_tut.Pingpong.Services.{IsService, IsConnector, Spares}
use winsock_tut.Pingpong.Client.{
  Client, with_io, serve, requested, allocated, connect_loop, resolved, connect,
}

-- All addresses are for IPv4, as the hints of Connect ask for.
abbrev pub AllInet : List AddrInfo → Type 0
AllInet [] = Unit {0}
AllInet (info ∷ infos) = (info.family ≡ af_inet) × AllInet infos

module _ {S : Type 0} (api : ServiceApi S) (layout : Layout) (this : ℕ) where
  -- A client has asked for no connection, and every context is as it was; or it has asked for one, by
  -- a new context that is its own and whose callback is OnConnect, and all others are as they were.
  pub data IsRequested (s : S) (before : ℕ) (t : Client S) : Type 0 where
    refused :
        t.recv_ctx ≡ before
        → ((k : ℕ) → api.get k t.io.service ≡ api.get k s)
        → IsRequested s before t
    asked :
        (y : OverlapContext)
        → api.get t.recv_ctx s ≡ none
        → api.get t.recv_ctx t.io.service ≡ some y
        → y.cb ≡ some (layout.bound client_connect this t.recv_ctx)
        → Spares api t.recv_ctx s t.io.service
        → IsRequested s before t

  -- From another state of the service with the same contexts.
  IsRequested-from :
      (s u : S) (before : ℕ) (t : Client S)
      → ((k : ℕ) → api.get k u ≡ api.get k s)
      → IsRequested u before t
      → IsRequested s before t
  IsRequested-from s u before t same (refused kept all) = refused kept (λ k. all k ∙ same k)
  IsRequested-from s u before t same (asked y unseen there cb spares) =
      asked y (sym (same t.recv_ctx) ∙ unseen) there cb (λ k other. spares k other ∙ same k)

  -- To another state of the service with the same contexts.
  IsRequested-to :
      (s : S) (before : ℕ) (t : Client S) (u : S)
      → ((k : ℕ) → api.get k u ≡ api.get k t.io.service)
      → IsRequested s before t
      → IsRequested s before (serve u t)
  IsRequested-to s before t u same (refused kept all) = refused kept (λ k. same k ∙ all k)
  IsRequested-to s before t u same (asked y unseen there cb spares) =
      asked y unseen (same t.recv_ctx ∙ there) cb (λ k other. same k ∙ spares k other)

  module _ (laws : IsService api) (calls : IsConnector api) where
    -- What the rest of the loop does.
    abbrev IsRest : (Client S → Outcome (Client S)) → Type 0
    IsRest next =
        (c : Client S) → (t : Client S) × (next c ≡ ok t) × IsRequested c.io.service c.recv_ctx t

    requested_lem :
        (next : Client S → Outcome (Client S))
        → IsRest next
        → (a : ℕ) (c : Client S) (before : S) (s : S) (r : ℕ) (y : OverlapContext)
        → api.get a before ≡ none
        → api.get a s ≡ some y
        → y.cb ≡ some (layout.bound client_connect this a)
        → y.flags ≡ 0
        → Spares api a before s
        → (t : Client S) × (requested api layout this next a c (s, r) ≡ ok t)
          × IsRequested before c.recv_ctx t
    unfolding requested with_io free_ctx
    requested_lem next rest a c before s r y unseen there cb blank spares =
        elim (Bool-cases (i32_negative r)) [
          | inl failed ↦
              let (u, frees, spares', gone) = laws.frees a s (y, there) in
              let (t, runs, result) = rest (serve u c) in
              let same : (k : ℕ) → api.get k u ≡ api.get k before = λ k.
                elim (Bool-cases (k == a)) [
                  | inl e ↦ let q : k ≡ a = ground arith in rw q (gone y there blank ∙ sym unseen)
                  | inr e ↦ spares' k (ground arith) ∙ spares k (ground arith)
                ] in
              (t, rw (failed, frees) runs, IsRequested-from before u c.recv_ctx t same result)
          | inr begun ↦
              (record (serve s c) { recv_ctx = a }, rw begun refl, asked y unseen there cb spares)
        ]

    allocated_lem :
        (next : Client S → Outcome (Client S))
        → IsRest next
        → (info : AddrInfo) (fd : ℕ) (c : Client S) (s : S) → info.family ≡ af_inet
        → (t : Client S) × ((api.alloc_overlap_ctx fd flag_associate s
              >>= allocated api layout this next info fd c)
            ≡ ok t)
          × IsRequested s c.recv_ctx t
    unfolding allocated with_io set_ctx
    allocated_lem next rest info fd c s inet =
        let (u, a, allocates, outcome) = laws.allocates fd flag_associate s in
        let f : OverlapContext → OverlapContext =
          λ x. record x { cb = some (layout.bound client_connect this a) } in
        elim outcome [
          | inl (null, same) ↦
              let (t, runs, result) = rest (serve u c) in
              (t, rw (allocates, null) runs, IsRequested-from s u c.recv_ctx t same result)
          | inr (valid, unseen, (x, there, _, blank), spares) ↦
              let other : (a == 0) ≡ false = ground arith in
              let at = laws.set_self a f u x there in
              let (v, r, connects, keeps, (y, there', cb, flags)) =
                calls.connects a info (api.set a f u) (f x) inet at in
              let (t, runs, result) =
                requested_lem next rest a (record (serve (api.set a f u) c) { fd = fd }) s v r y
                  unseen there' cb (flags ∙ blank)
                  (λ k apart. keeps k apart ∙ laws.set_other a f u k apart ∙ spares k apart) in
              (t, rw (allocates, other, there, connects) runs, result)
        ]

    connect_loop_lem :
        (infos : List AddrInfo)
        → AllInet infos
        → (c : Client S)
        → (t : Client S) × (connect_loop api layout this infos c ≡ ok t)
          × IsRequested c.io.service c.recv_ctx t
    unfolding connect_loop
    connect_loop_lem [] inet c = (c, refl, refused refl (λ k. refl))
    connect_loop_lem (info ∷ rest) (inet, inets) c =
        let (fd, s) = api.socket info c.io.service in
        let same = λ (k : ℕ). calls.opens info k c.io.service in
        elim (Bool-cases (fd == invalid_socket)) [
          | inl bad ↦
              let (t, runs, result) = connect_loop_lem rest inets (serve s c) in
              (t, rw bad runs, IsRequested-from c.io.service s c.recv_ctx t same result)
          | inr good ↦
              let (t, runs, result) =
                allocated_lem (connect_loop api layout this rest) (connect_loop_lem rest inets) info
                  fd c s inet in
              (t, rw good runs, IsRequested-from c.io.service s c.recv_ctx t same result)
        ]

    resolved_lem :
        (c : Client S) (s : S) (r : Option (List AddrInfo) × S)
        → ((k : ℕ) → api.get k r.1 ≡ api.get k s)
        → ((infos : List AddrInfo) → r.0 ≡ some infos → AllInet infos)
        → (t : Client S) × (n : ℕ) × (resolved api layout this c r ≡ ok (t, n))
          × IsRequested s c.recv_ctx t
    unfolding resolved
    resolved_lem c s (none, u) same inet = (serve u c, _, refl, refused refl same)
    resolved_lem c s (some infos, u) same inet =
        let (t, runs, result) = connect_loop_lem infos (inet infos refl) (serve u c) in
        (
          serve (api.freeaddrinfo t.io.service) t,
          0,
          rw runs refl,
          IsRequested-from s u c.recv_ctx _ same (
              IsRequested-to u c.recv_ctx t (api.freeaddrinfo t.io.service)
                (λ k. calls.infos_freed k t.io.service) result),
        )

    -- On a service that keeps its laws, Connect of the client, with getaddrinfo giving addresses for
    -- IPv4 only, returns. No context is lost: each one that it takes on the way is freed again, so
    -- that all are as they were and the client keeps the one that it had, or exactly one is new, which
    -- is the client's and has OnConnect as its callback, and all others are as they were.
    pub connect_lem :
        (c : Client S)
        → ((infos : List AddrInfo) → (api.getaddrinfo c.io.service).0 ≡ some infos → AllInet infos)
        → (t : Client S) × (n : ℕ) × (connect api layout this c ≡ ok (t, n))
          × IsRequested c.io.service c.recv_ctx t
    unfolding connect
    connect_lem c inet =
        resolved_lem c c.io.service (api.getaddrinfo c.io.service)
          (λ k. calls.resolves k c.io.service) inet
