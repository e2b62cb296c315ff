-- ===== src/Service/Requests/Accept.antt =====
-- The new socket of AsyncAccept in src/OverlappedIOService.cpp.
use winsock_tut.Base.{
  ℕ, ◌≡◌, ◌≢◌, refl, ◌∙◌, Bool, true, false, List, ◌∷◌, some, arith, ◌==◌, ==_iff, Bool-cases, inl,
  inr, ◌⊎◌,
}
use winsock_tut.Winsock.{invalid_socket, af_inet, wsa_io_pending}
use winsock_tut.Socket.Calls.{Calls, Laws}
use winsock_tut.Outcome.{ok}
use winsock_tut.Heap.{read, write, read-write}
use winsock_tut.Service.Contexts.{OverlapContext, Store}
use winsock_tut.Service.Requests.{Requests, cleared, accept_done, accept_on, async_accept}

module _ {W : Type 0} (c : Calls W) (req : Requests W) (held : W → List ℕ)
    (listening : W → ℕ → Bool) (laws : Laws c held listening)
    (accept_keeps : (l fd b a : ℕ) (r : Bool) (w w' : W)
      → req.accept_ex l fd b a w ≡ (r, w')
      → held w' ≡ held w)
    (failure_known : (l fd b a : ℕ) (w w' : W)
      → req.accept_ex l fd b a w ≡ (false, w')
      → c.last_error w' ≢ 0) where
  -- What AsyncAccept leaves behind: with the result 0 one more socket is held, and it is the
  -- context's `udata`; with another result the sockets are as before.
  abbrev pub IsSettled : ℕ → Store W → Store W × ℕ → Type 0
  IsSettled a s (t, r) =
      (r ≡ 0)
        × ((ctx : OverlapContext) × (read a t.heap ≡ some ctx)
            × (held t.world ≡ ctx.udata ∷ held s.world))
      ⊎ (r ≢ 0) × (held t.world ≡ held s.world)

  accept_done-IsSettled :
      (a l b fd : ℕ) (ok' : Bool) (w w' : W) (ctx : OverlapContext) (s : Store W)
      → read a s.heap ≡ some ctx
      → held w ≡ fd ∷ held s.world
      → req.accept_ex l fd b a w ≡ (ok', w')
      → IsSettled a s (
          accept_done c req fd
            record { heap = write a (λ x. cleared (record x { udata = fd })) s.heap; world = w }
            (ok', w'))
  unfolding accept_done
  accept_done-IsSettled a l b fd true w w' ctx s here opened done = inl (
    refl,
    (
      _,
      read-write a (λ x. cleared (record x { udata = fd })) ctx s.heap here,
      accept_keeps l fd b a true w w' done ∙ opened,
    ),
  )
  accept_done-IsSettled a l b fd false w w' ctx s here opened done =
      elim (Bool-cases (c.last_error w' == wsa_io_pending)) [
        | inl pending ↦ rw pending (
            inl (
              refl,
              (
                _,
                read-write a (λ x. cleared (record x { udata = fd })) ctx s.heap here,
                accept_keeps l fd b a false w w' done ∙ opened,
              ),
            ))
        | inr failed ↦ rw failed (
            inr (
              failure_known l fd b a w w' done,
              laws.closed fd w' (held s.world) (accept_keeps l fd b a false w w' done ∙ opened),
            ))
      ]

  accept_on-IsSettled :
      (a fd : ℕ) (w : W) (ctx : OverlapContext) (s : Store W)
      → read a s.heap ≡ some ctx
      → c.socket af_inet s.world ≡ (fd, w)
      → IsSettled a s (accept_on c req a ctx s (fd, w))
  unfolding accept_on
  accept_on-IsSettled a fd w ctx s here made = elim (Bool-cases (fd == invalid_socket)) [
    | inl bad ↦ rw bad (
        inr (
          (λ e. absurd (omega (arith, e))),
          laws.not_opened af_inet fd s.world w made ((==_iff fd invalid_socket).0 bad),
        ))
    | inr good ↦
        let result = req.accept_ex ctx.fd fd ctx.buf a w in
        rw good (
          accept_done-IsSettled a ctx.fd ctx.buf fd result.0 w result.1 ctx s here
            (laws.opened af_inet fd s.world w made (ground arith)) refl)
  ]

  -- AsyncAccept of a context returns. With the result 0 the process holds one more socket, which is
  -- the context's `udata`; with any other result it holds the sockets that it held before. AcceptEx is
  -- taken to keep the sockets, and to leave an error code other than 0 where it fails.
  pub async_accept-IsSettled :
      (a : ℕ) (ctx : OverlapContext) (s : Store W)
      → read a s.heap ≡ some ctx
      → (r : Store W × ℕ) × (async_accept c req a s ≡ ok r) × IsSettled a s r
  unfolding async_accept
  async_accept-IsSettled a ctx s here = rw here (_, refl, accept_on-IsSettled a _ _ ctx s here refl)
