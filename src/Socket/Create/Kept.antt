-- ===== src/Socket/Create/Kept.antt =====
-- Which sockets the loop over the addresses leaves open, which the two functions that create one in
-- src/SocketOpts.cpp have in common.
use winsock_tut.Base.{
  ℕ, ◌≡◌, ◌≢◌, ◌⊎◌, refl, ◌∙◌, inl, inr, Bool, true, false, List, [], ◌∷◌, Option, none, some,
  arith, ◌==◌, Bool-cases,
}
use winsock_tut.Winsock.{invalid_socket}
use winsock_tut.Socket.Calls.{Calls, Laws, set_nonblock, AddrInfo, Status, success, socket_error}
use winsock_tut.Socket.Create.{
  Round, next, done, leave, give_up, or_give_up, if_nonblock, with_socket, after_round,
  address_loop, finish, create,
}

-- What a result says of the open sockets, `before` being those at the start: a valid socket was
-- opened and satisfies `Q`, or the result is not valid and none was, and `N` holds, or the result is 0
-- and none was, and `Z` holds.
pub data Created {W : Type 0} (held : W → List ℕ) (before : List ℕ) (Q : ℕ → W → Type 0)
    (N Z : W → Type 0) (r : ℕ × W) : Type 0 where
  fresh : r.0 ≢ invalid_socket → held r.1 ≡ r.0 ∷ before → Q r.0 r.1 → Created held before Q N Z r
  nothing : r.0 ≡ invalid_socket → held r.1 ≡ before → N r.1 → Created held before Q N Z r
  zero_back : r.0 ≡ 0 → held r.1 ≡ before → Z r.1 → Created held before Q N Z r

-- The calls that keep a property of the world.
pub record Calm {W : Type 0} (c : Calls W) (N : W → Type 0) : Type 0 where
  pub opens : (f : ℕ) (w : W) → N w → N (c.socket f w).1
  pub sets : (fd v : ℕ) (w : W) → N w → N (c.ioctl fd v w).1
  pub closes : (fd : ℕ) (w : W) → N w → N (c.closesocket fd w)
  pub frees : (w : W) → N w → N (c.freeaddrinfo w)

module _ {W : Type 0} (c : Calls W) (held : W → List ℕ) (listening : W → ℕ → Bool)
    (laws : Laws c held listening) (Q : ℕ → W → Type 0) (N Z : W → Type 0) (calm : Calm c N)
    (before : List ℕ) where
  -- The same for a round of the loop.
  abbrev pub RoundOk : Round × W → Type 0
  RoundOk (next, w) = (held w ≡ before) × N w
  RoundOk (done fd, w) = (fd ≢ invalid_socket) × (held w ≡ fd ∷ before) × Q fd w
  RoundOk (leave fd, w) = (fd ≡ 0) × (held w ≡ before) × Z w

  pub or_give_up-Ok :
      (fd : ℕ) (go : W → Round × W) (r : Status × W)
      → held r.1 ≡ fd ∷ before
      → N r.1
      → ((w : W) → r ≡ (success, w) → held w ≡ fd ∷ before → N w → RoundOk (go w))
      → RoundOk (or_give_up c fd go r)
  unfolding or_give_up give_up
  or_give_up-Ok fd go (success, w) kept n ok = ok w refl kept n
  or_give_up-Ok fd go (socket_error, w) kept n ok =
      (laws.closed fd w before kept, calm.closes fd w n)

  pub if_nonblock-held :
      (fd : ℕ) (nonblock : Bool) (w : W) → held (if_nonblock c fd nonblock w).1 ≡ held w
  unfolding if_nonblock set_nonblock
  if_nonblock-held fd true w = laws.ioctl_keeps fd 1 _ w _ refl
  if_nonblock-held fd false w = refl

  pub if_nonblock-calm :
      (fd : ℕ) (nonblock : Bool) (w : W) → N w → N (if_nonblock c fd nonblock w).1
  unfolding if_nonblock set_nonblock
  if_nonblock-calm fd true w n = calm.sets fd 1 w n
  if_nonblock-calm fd false w n = n

  with_socket-Ok :
      (setup : ℕ → W → Round × W) (f : ℕ) (w : W)
      → held w ≡ before
      → N w
      → ((fd : ℕ) (v : W) → fd ≢ invalid_socket → held v ≡ fd ∷ before → N v → RoundOk (setup fd v))
      → RoundOk (with_socket c setup (c.socket f w))
  unfolding with_socket
  with_socket-Ok setup f w start n ok =
      let fd = (c.socket f w).0 in
      let v = (c.socket f w).1 in
      elim (Bool-cases (fd == invalid_socket)) [
        | inl bad ↦ rw bad (laws.not_opened f fd w v refl (ground arith) ∙ start, calm.opens f w n)
        | inr good ↦
            let valid : fd ≢ invalid_socket = ground arith in
            rw good
              (ok fd v valid (rw start at (laws.opened f fd w v refl valid)) (calm.opens f w n))
      ]

  abbrev LoopOk : ℕ × Bool × W → Type 0
  LoopOk (fd, true, w) =
      ((fd ≢ invalid_socket) × (held w ≡ fd ∷ before) × Q fd w)
      ⊎ (fd ≡ invalid_socket) × (held w ≡ before) × N w
  LoopOk (fd, false, w) = (fd ≡ 0) × (held w ≡ before) × Z w

  after_round-Ok :
      (go : W → ℕ × Bool × W) (r : Round × W)
      → RoundOk r
      → ((w : W) → held w ≡ before → N w → LoopOk (go w))
      → LoopOk (after_round c go r)
  unfolding after_round
  after_round-Ok go (next, w) ok more = more w ok.0 ok.1
  after_round-Ok go (done fd, w) ok more = inl ok
  after_round-Ok go (leave fd, w) ok more = ok

  address_loop-Ok :
      (setup : AddrInfo → ℕ → W → Round × W)
      → ((info : AddrInfo) (fd : ℕ) (v : W)
          → fd ≢ invalid_socket
          → held v ≡ fd ∷ before
          → N v
          → RoundOk (setup info fd v))
      → (infos : List AddrInfo) (w : W) → held w ≡ before
      → N w
      → LoopOk (address_loop c setup infos w)
  unfolding address_loop
  address_loop-Ok setup ok [] w start n = inr (refl, start, n)
  address_loop-Ok setup ok (info ∷ rest) w start n =
      after_round-Ok (address_loop c setup rest) _
        (with_socket-Ok (setup info) info.family w start n (ok info))
        (address_loop-Ok setup ok rest)

  finish-Created :
      (r : ℕ × Bool × W)
      → ((fd : ℕ) (w : W) → Q fd w → Q fd (c.freeaddrinfo w))
      → LoopOk r
      → Created held before Q N Z (finish c r)
  unfolding finish
  finish-Created (fd, true, w) freed (inl (valid, kept, q)) =
      fresh valid (laws.free_keeps w ∙ kept) (freed fd w q)
  finish-Created (fd, true, w) freed (inr (bad, kept, n)) =
      nothing bad (laws.free_keeps w ∙ kept) (calm.frees w n)
  finish-Created (fd, false, w) freed (zero', kept, z) = zero_back zero' kept z

  pub create-Created :
      (setup : AddrInfo → ℕ → W → Round × W) (r : Option (List AddrInfo) × W)
      → held r.1 ≡ before
      → N r.1
      → ((fd : ℕ) (w : W) → Q fd w → Q fd (c.freeaddrinfo w))
      → ((info : AddrInfo) (fd : ℕ) (v : W)
          → fd ≢ invalid_socket
          → held v ≡ fd ∷ before
          → N v
          → RoundOk (setup info fd v))
      → Created held before Q N Z (create c setup r)
  unfolding create
  create-Created setup (none, w) start n freed ok = nothing refl start n
  create-Created setup (some infos, w) start n freed ok =
      finish-Created _ freed (address_loop-Ok setup ok infos w start n)
