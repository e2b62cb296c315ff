-- ===== src/WsaExt.antt =====
-- src/WsaExt.cpp: the pointers to the extension functions of Winsock.
--
-- The static members are a record; `ioctl` is WSAIoctl for the pointer to one of the functions, none
-- for SOCKET_ERROR, and a pointer is a number with 0 for the null pointer.
use winsock_tut.Base.{ℕ, Bool, true, false, Option, none, some, ◌==◌, if◌then◌else◌}
use winsock_tut.Winsock.{invalid_socket, af_inet}
use winsock_tut.Outcome.{Outcome, ok, check_failed, ◌>>=◌}

-- WSAID_CONNECTEX, WSAID_ACCEPTEX, WSAID_DISCONNECTEX and WSAID_GETACCEPTEXSOCKADDRS
pub data Extension : Type 0 where
  connect_ex accept_ex disconnect_ex get_accept_ex_sockaddrs : Extension

pub record WsaExt (W : Type 0) : Type 0 where
  pub initialized : Bool
  pub pointers : Extension → ℕ
  pub world : W

abbrev pub uninitialized : {W : Type 0} → W → WsaExt W
uninitialized w = record { initialized = false; pointers = λ x. 0; world = w }

pub record Outside (W : Type 0) : Type 0 where
  pub socket : ℕ → W → ℕ × W
  pub ioctl : ℕ → Extension → W → Option ℕ × W
  pub closesocket : ℕ → W → W

-- `&ConnectEx` and the other members
abbrev pub same_member : Extension → Extension → Bool
same_member connect_ex connect_ex = true
same_member accept_ex accept_ex = true
same_member disconnect_ex disconnect_ex = true
same_member get_accept_ex_sockaddrs get_accept_ex_sockaddrs = true
same_member x y = false

module _ {W : Type 0} (env : Outside W) where
  -- One call of WSAIoctl with its CHECK.
  pub fetched : Extension → WsaExt W → Option ℕ × W → Outcome (WsaExt W)
  fetched x s (none, w) = check_failed
  fetched x s (some f, w) =
      ok record s { pointers = λ y. if same_member x y then f else s.pointers y; world = w }

  pub fetch : ℕ → Extension → WsaExt W → Outcome (WsaExt W)
  fetch fd x s = fetched x s (env.ioctl fd x s.world)

  -- Init from the socket that is asked.
  pub fetch_all : ℕ → Bool → WsaExt W → Outcome (WsaExt W)
  fetch_all fd should_close s = do
    t ← fetch fd connect_ex s
    u ← fetch fd accept_ex t
    v ← fetch fd disconnect_ex u
    x ← fetch fd get_accept_ex_sockaddrs v
    ok record x {
      initialized = true;
      world = if should_close then env.closesocket fd x.world else x.world;
    }

  pub init : ℕ → WsaExt W → Outcome (WsaExt W)
  init fd s =
      let (made, w) = env.socket af_inet s.world in
      if s.initialized
      then ok s
      else if fd == invalid_socket
      then fetch_all made true (record s { world = w })
      else fetch_all fd false s
