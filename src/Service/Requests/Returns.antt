-- ===== src/Service/Requests/Returns.antt =====
-- The requests of src/OverlappedIOService.cpp on a context that is there: they return, and touch no
-- other context.
use winsock_tut.Base.{ℕ, ◌≡◌, ◌≢◌, refl, Bool, true, false, some, ◌==◌, Bool-cases, inl, inr}
use winsock_tut.Winsock.{invalid_socket, af_inet, wsa_io_pending}
use winsock_tut.Socket.Calls.{AddrInfo, Calls, Status, success, socket_error, bind_any_addr}
use winsock_tut.Outcome.{ok}
use winsock_tut.Heap.{read, write, read-write, read-write_ne}
use winsock_tut.Service.Contexts.{OverlapContext, Store}
use winsock_tut.Service.Requests.{
  Requests, cleared, async_read, async_write, async_accept, connect_done, connect_bound,
  async_connect, transfer_done, accept_on, accept_done,
}

module _ {W : Type 0} (c : Calls W) (req : Requests W) where
  transfer_done-world :
      (s : Store W) (r : Status × W)
      → (w : W) × (n : ℕ) × (transfer_done c req s r ≡ (record s { world = w }, n))
  unfolding transfer_done
  transfer_done-world s (success, w) = (w, 0, refl)
  transfer_done-world s (socket_error, w) = (w, _, refl)

  -- What AsyncRead and AsyncWrite leave: the context's words are cleared, and the world is another.
  abbrev pub asked : ℕ → W → Store W → Store W
  asked a w s = record { heap = write a cleared s.heap; world = w }

  pub async_read_lem :
      (a : ℕ) (x : OverlapContext) (s : Store W)
      → read a s.heap ≡ some x
      → (w : W) × (r : ℕ) × (async_read c req a s ≡ ok (asked a w s, r))
  unfolding async_read
  async_read_lem a x s here =
      let (w, n, done) =
        transfer_done-world (record s { heap = write a cleared s.heap })
          (req.recv x.fd x.buf x.len a s.world) in
      (w, n, rw (here, done) refl)

  pub async_write_lem :
      (a : ℕ) (x : OverlapContext) (s : Store W)
      → read a s.heap ≡ some x
      → (w : W) × (r : ℕ) × (async_write c req a s ≡ ok (asked a w s, r))
  unfolding async_write
  async_write_lem a x s here =
      let (w, n, done) =
        transfer_done-world (record s { heap = write a cleared s.heap })
          (req.send x.fd x.buf x.len a s.world) in
      (w, n, rw (here, done) refl)

  accept_done-world :
      (fd : ℕ) (s : Store W) (r : Bool × W)
      → (w : W) × (n : ℕ) × (accept_done c req fd s r ≡ (record s { world = w }, n))
  unfolding accept_done
  accept_done-world fd s (true, w) = (w, 0, refl)
  accept_done-world fd s (false, w) = elim (Bool-cases (c.last_error w == wsa_io_pending)) [
    | inl pending ↦ rw pending (w, 0, refl)
    | inr failed ↦ rw failed (c.closesocket fd w, c.last_error w, refl)
  ]

  accept_on-spares :
      (a : ℕ) (x : OverlapContext) (s : Store W) (r : ℕ × W)
      → (t : Store W) × (n : ℕ) × (accept_on c req a x s r ≡ (t, n))
        × ((k : ℕ) → k ≢ a → read k t.heap ≡ read k s.heap)
  unfolding accept_on
  accept_on-spares a x s (fd, w) = elim (Bool-cases (fd == invalid_socket)) [
    | inl bad ↦ rw bad (_, _, refl, λ k other. refl)
    | inr good ↦
        let f : OverlapContext → OverlapContext = λ y. cleared (record y { udata = fd }) in
        let s' : Store W = record { heap = write a f s.heap; world = w } in
        let (w', n, done) = accept_done-world fd s' (req.accept_ex x.fd fd x.buf a w) in
        rw (good, done) (_, _, refl, λ k other. read-write_ne a k f s.heap other)
  ]

  pub async_accept_lem :
      (a : ℕ) (x : OverlapContext) (s : Store W)
      → read a s.heap ≡ some x
      → (t : Store W) × (r : ℕ) × (async_accept c req a s ≡ ok (t, r))
        × ((k : ℕ) → k ≢ a → read k t.heap ≡ read k s.heap)
  unfolding async_accept
  async_accept_lem a x s here =
      let (t, n, done, spares) = accept_on-spares a x s (c.socket af_inet s.world) in
      (t, n, rw (here, done) refl, spares)

  -- What AsyncConnect leaves of the context.
  abbrev pub Connects : ℕ → OverlapContext → Store W → Store W → Type 0
  Connects a x s t =
      ((k : ℕ) → k ≢ a → read k t.heap ≡ read k s.heap)
      × ((y : OverlapContext) × (read a t.heap ≡ some y) × (y.cb ≡ x.cb) × (y.flags ≡ x.flags))

  connect_done-world :
      (a fd : ℕ) (s : Store W) (r : Bool × W)
      → (w : W) × (n : ℕ) × (connect_done c req a fd s r ≡ (record s { world = w }, n))
  unfolding connect_done
  connect_done-world a fd s (true, w) = (_, _, refl)
  connect_done-world a fd s (false, w) = (_, _, refl)

  connect_bound_lem :
      (a : ℕ) (x : OverlapContext) (info : AddrInfo) (s : Store W) (r : Status × W)
      → read a s.heap ≡ some x
      → (t : Store W) × (n : ℕ) × (connect_bound c req a x info s (some r) ≡ ok (t, n))
        × Connects a x s t
  unfolding connect_bound
  connect_bound_lem a x info s (socket_error, w) here =
      (record s { world = w }, _, refl, ((λ k other. refl), (x, here, refl, refl)))
  connect_bound_lem a x info s (success, w) here =
      let s' : Store W = record { heap = write a cleared s.heap; world = w } in
      let (w', n, done) = connect_done-world a x.fd s' (req.connect_ex x.fd info.addr a w) in
      (
        record s' { world = w' },
        n,
        rw done refl,
        (
          (λ k other. read-write_ne a k cleared s.heap other),
          (cleared x, read-write a cleared x s.heap here, refl, refl),
        ),
      )

  bind_inet :
      (fd family : ℕ) (w : W)
      → family ≡ af_inet
      → bind_any_addr c req.any4 req.any6 fd family w ≡ some (c.bind fd req.any4 w)
  unfolding bind_any_addr
  bind_inet fd family w inet = rw inet refl

  pub async_connect_lem :
      (a : ℕ) (info : AddrInfo) (x : OverlapContext) (s : Store W)
      → info.family ≡ af_inet
      → read a s.heap ≡ some x
      → (t : Store W) × (n : ℕ) × (async_connect c req a info s ≡ ok (t, n)) × Connects a x s t
  unfolding async_connect
  async_connect_lem a info x s inet here =
      let (t, n, done, leaves) = connect_bound_lem a x info s (c.bind x.fd req.any4 s.world) here in
      (t, n, rw (here, bind_inet x.fd info.family s.world inet, done) refl, leaves)
