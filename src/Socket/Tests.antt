-- ===== src/Socket/Tests.antt =====
-- The socket theorems at inputs: a stream of single bytes, and a process that always gets socket 7.
use mathlib.Core.List.{append-nil}
use winsock_tut.Base.{
  ap, sym, ◌∙◌, Bool, ◌||◌, ℕ, zero, suc, ◌≤◌, ◌<◌, ◌≡◌, ◌↔◌, refl, take, true, false, List, [],
  ◌∷◌, ◌++◌, some, arith, length,
}
use winsock_tut.Winsock.{wsaewouldblock, af_inet}
use winsock_tut.Socket.Transfer.{
  Count, Received, got, recv_failed, Sent, took, send_failed, read_some, write_some,
}
use winsock_tut.Socket.Transfer.Read.{IsStream, HasRead, read_some-HasRead}
use winsock_tut.Socket.Transfer.Write.{IsSink, HasWritten, write_some-HasWritten}
use winsock_tut.Socket.Address.{SockAddr, is_self_connection, IsSelf, is_self_connection_iff}
use winsock_tut.Socket.Calls.{success, socket_error, Calls, Laws}
use winsock_tut.Socket.Create.{create_tcp_acceptor, create_tcp_connector}
use winsock_tut.Socket.Create.Kept.{Created}
use winsock_tut.Socket.Create.Held.{
  Flags, create_tcp_acceptor-Created, create_tcp_connector-Created,
}

-- A stream that gives a byte at a time, and has nothing to give when it is empty.
abbrev bytewise : ℕ → List ℕ → Received × List ℕ
bytewise zero w = (got [], w)
bytewise (suc n) [] = (recv_failed wsaewouldblock, [])
bytewise (suc n) (x ∷ w) = (got (x ∷ []), w)

bytewise-IsStream : IsStream bytewise (λ w. w)
bytewise-IsStream = record { bounded = bounded; next = next; idle = idle }
  where
    bounded :
        (n : ℕ) (w w' : List ℕ) (bytes : List ℕ) → bytewise n w ≡ (got bytes, w') → length bytes ≤ n
    bounded zero w w' bytes e = ground arith
    bounded (suc n) [] w' bytes e = absurd (ground arith)
    bounded (suc n) (x ∷ w) w' bytes e = ground arith

    next :
        (n : ℕ) (w w' : List ℕ) (bytes : List ℕ) → bytewise n w ≡ (got bytes, w') → w ≡ bytes ++ w'
    next zero w w' bytes e = ground arith
    next (suc n) [] w' bytes e = absurd (ground arith)
    next (suc n) (x ∷ w) w' bytes e = ground arith

    idle : (n err : ℕ) (w w' : List ℕ) → bytewise n w ≡ (recv_failed err, w') → w ≡ w'
    idle zero err w w' e = absurd (ground arith)
    idle (suc n) err [] w' e = ground arith
    idle (suc n) err (x ∷ w) w' e = absurd (ground arith)

read_some-HasRead_example :
    (r : Count × List ℕ × List ℕ) × (read_some bytewise 4 (1 ∷ 2 ∷ 3 ∷ []) ≡ some r)
    × HasRead bytewise (λ w. w) 4 (1 ∷ 2 ∷ 3 ∷ []) r
read_some-HasRead_example = read_some-HasRead bytewise (λ w. w) bytewise-IsStream 4 (1 ∷ 2 ∷ 3 ∷ [])

-- A sink that takes a byte at a time.
abbrev sink : List ℕ → List ℕ → Sent × List ℕ
sink [] w = (took 0, w)
sink (x ∷ xs) w = (took 1, w ++ x ∷ [])

amount : Sent × List ℕ → ℕ
amount (took n, w) = n
amount (send_failed err, w) = 0

sink-IsSink : IsSink sink (λ w. w)
unfolding amount
sink-IsSink = record { some_taken = some_taken; next = next; refused = refused }
  where
    some_taken :
        (buf w w' : List ℕ) (n : ℕ)
        → 0 < length buf
        → sink buf w ≡ (took n, w')
        → (0 < n) × (n ≤ length buf)
    some_taken [] w w' n h e = absurd (omega arith)
    some_taken (x ∷ xs) w w' n h e = ground arith

    next : (buf w w' : List ℕ) (n : ℕ) → sink buf w ≡ (took n, w') → w' ≡ w ++ take n buf
    next [] w w' n e = rw⁻¹ (ap amount e, ap (λ r. r.1) e) (sym (append-nil w))
    next (x ∷ xs) w w' n e = rw⁻¹ (ap amount e, ap (λ r. r.1) e) refl

    refused : (buf w w' : List ℕ) (err : ℕ) → sink buf w ≡ (send_failed err, w') → w' ≡ w
    refused [] w w' err e = absurd (ground arith)
    refused (x ∷ xs) w w' err e = absurd (ground arith)

write_some-HasWritten_example :
    (r : Count × List ℕ) × (write_some sink (1 ∷ 2 ∷ []) [] ≡ some r)
    × HasWritten sink (λ w. w) (1 ∷ 2 ∷ []) [] r
write_some-HasWritten_example = write_some-HasWritten sink (λ w. w) sink-IsSink (1 ∷ 2 ∷ []) []

abbrev home : SockAddr
home = record { family = af_inet; port = 80; addr4 = 5; addr6 = [] }

is_self_connection_iff_example :
    (is_self_connection (some home) (some home) ≡ true) ↔ IsSelf (some home) (some home)
is_self_connection_iff_example = is_self_connection_iff (some home) (some home)

-- The open sockets of a process, whose calls succeed but for connect.
abbrev close_last : ℕ → List ℕ → List ℕ
close_last fd [] = []
close_last fd (x ∷ w) = w

abbrev process : Calls (List ℕ)
process = record {
  socket = λ f w. (7, 7 ∷ w);
  bind = λ fd a w. (success, w);
  ioctl = λ fd v w. (success, w);
  listen = λ fd w. (success, w);
  connect = λ fd a w. (socket_error, w);
  update_context = λ fd w. (success, w);
  closesocket = close_last;
  last_error = λ w. 10061;
  getaddrinfo = λ f w. (some (record { family = f; addr = home } ∷ []), w);
  freeaddrinfo = λ w. w;
}

process-Laws : Laws process (λ w. w) (λ w fd. true)
process-Laws = record {
  opened = λ f fd w w' e h. ground arith;
  not_opened = λ f fd w w' e h. absurd (ground arith);
  bind_keeps = λ fd a r w w' e. ground arith;
  ioctl_keeps = λ fd v r w w' e. ground arith;
  listen_keeps = λ fd r w w' e. ground arith;
  listens = λ fd w w' e. refl;
  connect_keeps = λ fd a r w w' e. ground arith;
  closed = λ fd w rest e. rw e refl;
  resolve_keeps = λ r f w w' e. ground arith;
  free_keeps = λ w. refl;
  free_listening = λ w fd. refl;
}

create_tcp_acceptor-Created_example :
    Created
      (λ w. w)
      (3 ∷ [])
      (λ fd v. true ≡ true)
      (λ v. Unit {0})
      (λ v. ⊥)
      (create_tcp_acceptor process true false (3 ∷ []))
create_tcp_acceptor-Created_example =
    create_tcp_acceptor-Created process (λ w. w) (λ w fd. true) process-Laws true false (3 ∷ [])

-- The process with a flag that says whether a connect was refused, as each is.
abbrev watched : Calls (List ℕ × Bool)
watched = record {
  socket = λ f w. (7, (7 ∷ w.0, w.1));
  bind = λ fd a w. (success, w);
  ioctl = λ fd v w. (success, w);
  listen = λ fd w. (success, w);
  connect = λ fd a w. (socket_error, (w.0, true));
  update_context = λ fd w. (success, w);
  closesocket = λ fd w. (close_last fd w.0, w.1);
  last_error = λ w. 10061;
  getaddrinfo = λ f w. (some (record { family = f; addr = home } ∷ []), w);
  freeaddrinfo = λ w. w;
}

watched-Laws : Laws watched (λ w. w.0) (λ w fd. true)
watched-Laws = record {
  opened = λ f fd w w' e h. ap (λ r. r.1.0) (sym e) ∙ ap (λ r. r.0 ∷ w.0) e;
  not_opened = λ f fd w w' e h. absurd (ground (arith, ap (λ r. r.0) e));
  bind_keeps = λ fd a r w w' e. ap (λ x. x.1.0) (sym e);
  ioctl_keeps = λ fd v r w w' e. ap (λ x. x.1.0) (sym e);
  listen_keeps = λ fd r w w' e. ap (λ x. x.1.0) (sym e);
  listens = λ fd w w' e. refl;
  connect_keeps = λ fd a r w w' e. ap (λ x. x.1.0) (sym e);
  closed = λ fd w rest e. rw e refl;
  resolve_keeps = λ r f w w' e. ap (λ x. x.1.0) (sym e);
  free_keeps = λ w. refl;
  free_listening = λ w fd. refl;
}

or_true : (b : Bool) → true ≡ (b || true)
or_true true = refl
or_true false = refl

watched-Flags : Flags watched (λ w. w.1)
watched-Flags = record {
  on_socket = λ f w. refl;
  on_ioctl = λ fd v w. refl;
  on_connect = λ fd a w. or_true w.1;
  on_close = λ fd w. refl;
  on_resolve = λ f w. refl;
  on_free = λ w. refl;
}

create_tcp_connector-Created_example :
    Created
      (λ (w : List ℕ × Bool). w.0)
      (3 ∷ [])
      (λ fd v. v.1 ≡ false)
      (λ v. v.1 ≡ false)
      (λ v. v.1 ≡ true)
      (create_tcp_connector watched true false (3 ∷ [], false))
create_tcp_connector-Created_example =
    create_tcp_connector-Created watched (λ w. w.0) (λ w fd. true) watched-Laws (λ w. w.1)
      watched-Flags true false (3 ∷ [], false) refl
