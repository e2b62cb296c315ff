-- ===== src/Socket/Create/Held.antt =====
-- Which sockets the two functions that create one in src/SocketOpts.cpp leave open.
use winsock_tut.Base.{
  ℕ, ◌≡◌, ◌≢◌, refl, ap, not, ◌||◌, ◌∙◌, inl, inr, Bool, true, false, List, ◌∷◌, arith, ◌==◌,
  Bool-cases,
}
use winsock_tut.Winsock.{invalid_socket, wsaewouldblock}
use winsock_tut.Socket.Address.{SockAddr}
use winsock_tut.Socket.Calls.{Calls, Laws, AddrInfo, Status, success, socket_error}
use winsock_tut.Socket.Create.{
  listened, acceptor_setup, connected, connector_setup, create_tcp_acceptor, create_tcp_connector,
}
use winsock_tut.Socket.Create.Kept.{
  Created, Calm, RoundOk, or_give_up-Ok, if_nonblock-held, if_nonblock-calm, create-Created,
}

-- Whether a call of connect was refused: it failed, and not since it is under way.
abbrev pub refuses : {W : Type 0} → Calls W → Status × W → Bool
refuses c (success, w) = false
refuses c (socket_error, w) = not (c.last_error w == wsaewouldblock)

-- A flag of the world that is set by a connect that is refused, and by no other call that
-- CreateTcpConnector makes.
pub record Flags {W : Type 0} (c : Calls W) (flag : W → Bool) : Type 0 where
  pub on_socket : (f : ℕ) (w : W) → flag (c.socket f w).1 ≡ flag w
  pub on_ioctl : (fd v : ℕ) (w : W) → flag (c.ioctl fd v w).1 ≡ flag w
  pub on_connect :
      (fd : ℕ) (a : SockAddr) (w : W)
      → flag (c.connect fd a w).1 ≡ (flag w || refuses c (c.connect fd a w))
  pub on_close : (fd : ℕ) (w : W) → flag (c.closesocket fd w) ≡ flag w
  pub on_resolve : (f : ℕ) (w : W) → flag (c.getaddrinfo f w).1 ≡ flag w
  pub on_free : (w : W) → flag (c.freeaddrinfo w) ≡ flag w

module _ {W : Type 0} (c : Calls W) (held : W → List ℕ) (listening : W → ℕ → Bool)
    (laws : Laws c held listening) where
  abbrev Listens : ℕ → W → Type 0
  Listens fd w = listening w fd ≡ true

  abbrev Any : W → Type 0
  Any w = Unit {0}

  any_calm : Calm c Any
  any_calm = record {
    opens = λ f w n. tt;
    sets = λ fd v w n. tt;
    closes = λ fd w n. tt;
    frees = λ w n. tt;
  }

  acceptor_setup-Ok :
      (nonblock : Bool) (before : List ℕ) (info : AddrInfo) (fd : ℕ) (w : W)
      → fd ≢ invalid_socket
      → held w ≡ fd ∷ before
      → RoundOk c held listening laws Listens Any
          (λ v. ⊥)
          any_calm
          before
          (acceptor_setup c nonblock info fd w)
  unfolding acceptor_setup listened
  acceptor_setup-Ok nonblock before info fd w valid start =
      or_give_up-Ok c held listening laws Listens Any (λ v. ⊥) any_calm before fd _ _
        (laws.bind_keeps fd info.addr _ w _ refl ∙ start) tt
        λ w1 _ kept1 _.
          or_give_up-Ok c held listening laws Listens Any (λ v. ⊥) any_calm before fd _ _
            (if_nonblock-held c held listening laws Listens Any (λ v. ⊥) any_calm before fd nonblock
                w1
              ∙ kept1)
            tt
            λ w2 _ kept2 _.
              or_give_up-Ok c held listening laws Listens Any (λ v. ⊥) any_calm before fd _ _
                (laws.listen_keeps fd _ w2 _ refl ∙ kept2) tt
                λ w3 e kept3 _. (valid, kept3, laws.listens fd w2 w3 e)

  -- CreateTCPAcceptor, under the laws of the socket calls, keeps no socket open but the one that
  -- it returns: either a valid socket, which it has opened and which listens, or INVALID_SOCKET
  -- and the open sockets are as before.
  pub create_tcp_acceptor-Created :
      (nonblock ipv6 : Bool) (w : W)
      → Created held
          (held w)
          (λ fd v. listening v fd ≡ true)
          (λ v. Unit {0})
          (λ v. ⊥)
          (create_tcp_acceptor c nonblock ipv6 w)
  unfolding create_tcp_acceptor
  create_tcp_acceptor-Created nonblock ipv6 w =
      create-Created c held listening laws Listens Any (λ v. ⊥) any_calm (held w)
        (acceptor_setup c nonblock) _ (laws.resolve_keeps _ _ w _ refl) tt
        (λ fd v q. laws.free_listening v fd ∙ q)
        (λ info fd v valid start _. acceptor_setup-Ok nonblock (held w) info fd v valid start)

  module _ (flag : W → Bool) (flags : Flags c flag) where
    -- No connect was refused, and one was.
    abbrev Clear : W → Type 0
    Clear w = flag w ≡ false

    abbrev Set : W → Type 0
    Set w = flag w ≡ true

    clear_calm : Calm c Clear
    clear_calm = record {
      opens = λ f w n. flags.on_socket f w ∙ n;
      sets = λ fd v w n. flags.on_ioctl fd v w ∙ n;
      closes = λ fd w n. flags.on_close fd w ∙ n;
      frees = λ w n. flags.on_free w ∙ n;
    }

    connected-Ok :
        (before : List ℕ) (fd : ℕ) (r : Status × W)
        → fd ≢ invalid_socket
        → held r.1 ≡ fd ∷ before
        → flag r.1 ≡ refuses c r
        → RoundOk c held listening laws
            (λ _ v. Clear v)
            Clear
            Set
            clear_calm
            before
            (connected c fd r)
    unfolding connected
    connected-Ok before fd (success, w) valid kept f = (valid, kept, f)
    connected-Ok before fd (socket_error, w) valid kept f =
        elim (Bool-cases (c.last_error w == wsaewouldblock)) [
          | inl under_way ↦
              let clear : flag w ≡ false = ground (arith, f, under_way) in
              rw under_way (valid, kept, clear)
          | inr failed ↦
              let set : flag w ≡ true = ground (arith, f, failed) in
              rw failed (refl, laws.closed fd w before kept, flags.on_close fd w ∙ set)
        ]

    -- CreateTcpConnector, under the laws of the socket calls, keeps no socket open but the one that it
    -- returns, where no connect was refused before: a valid socket that it has opened, and no connect
    -- was refused; or INVALID_SOCKET, with the open sockets as before, and no connect was refused; or
    -- 0, with the open sockets as before, and one was. So the result is 0, and not INVALID_SOCKET,
    -- just when a connect is refused.
    pub create_tcp_connector-Created :
        (nonblock ipv6 : Bool) (w : W)
        → flag w ≡ false
        → Created held
            (held w)
            (λ fd v. flag v ≡ false)
            (λ v. flag v ≡ false)
            (λ v. flag v ≡ true)
            (create_tcp_connector c nonblock ipv6 w)
    unfolding create_tcp_connector connector_setup
    create_tcp_connector-Created nonblock ipv6 w clear =
        create-Created c held listening laws (λ _ v. Clear v) Clear Set clear_calm (held w)
          (connector_setup c nonblock) _ (laws.resolve_keeps _ _ w _ refl)
          (flags.on_resolve _ w ∙ clear) (λ fd v q. flags.on_free v ∙ q)
          λ info fd v valid start n.
            or_give_up-Ok c held listening laws (λ _ v. Clear v) Clear Set clear_calm (held w) fd _
              _
              (if_nonblock-held c held listening laws (λ _ v. Clear v) Clear Set clear_calm (held w)
                  fd nonblock v
                ∙ start)
              (if_nonblock-calm c held listening laws (λ _ v. Clear v) Clear Set clear_calm (held w)
                fd nonblock v n)
              λ v' _ kept n'.
                connected-Ok (held w) fd (c.connect fd info.addr v') valid
                  (laws.connect_keeps fd info.addr _ v' _ refl ∙ kept)
                  (flags.on_connect fd info.addr v'
                    ∙ ap (λ b. b || refuses c (c.connect fd info.addr v')) n')
