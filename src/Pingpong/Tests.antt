-- ===== src/Pingpong/Tests.antt =====
-- The theorems on the pingpong example at inputs, with the completion port service.
use mathlib.Core.Path.{subst}
use winsock_tut.Base.{some_eq, inl, ℕ, ◌+◌, ◌≡◌, refl, true, false, [], ◌∷◌, some, arith}
use winsock_tut.Timer.{new_sched}
use winsock_tut.Socket.Calls.{AddrInfo, Calls, success}
use winsock_tut.Heap.{read, fresh}
use winsock_tut.Table.{find_entry}
use winsock_tut.Service.Contexts.{OverlapContext, new_context, status_code, transferred_bytes}
use winsock_tut.Service.Requests.{Requests}
use winsock_tut.Service.Completion.{CompletionPortService, Outside}
use winsock_tut.Outcome.{ok}
use winsock_tut.Pingpong.{ServiceApi, Layout, Io, zeros, resize}
use winsock_tut.Service.Overlapped
use winsock_tut.Pingpong.Services.{IsService}
use winsock_tut.Pingpong.Overlapped.{overlapped_api}
use winsock_tut.Pingpong.Overlapped.Laws.{overlapped-IsService}
use winsock_tut.Pingpong.Port.{port_api}
use winsock_tut.Pingpong.Port.Laws.{port-IsService, port-IsConnector}
use winsock_tut.Pingpong.Client.{Client, new_client, connect}
use winsock_tut.Pingpong.Client.Connect.{IsRequested, AllInet, connect_lem}
use winsock_tut.Pingpong.Server.{Session, Server, on_accept, on_read}
use winsock_tut.Pingpong.Server.Sessions.{IsTracked}
use winsock_tut.Pingpong.Server.Close.{IsClosed, close_lem}
use winsock_tut.Pingpong.Server.Accept.{IsAnswered, more, more-IsTracked, on_accept_lem}
use winsock_tut.Pingpong.Server.Reply.{next, on_read_lem, IsReplied}

abbrev peer : AddrInfo
peer = record { family = 2; addr = record { family = 2; port = 80; addr4 = 1; addr6 = [] } }

-- A world that counts the sockets it has opened, and calls that succeed.
abbrev calls : Calls ℕ
calls = record {
  socket = λ f w. (w, w + 1);
  bind = λ fd a w. (success, w);
  ioctl = λ fd v w. (success, w);
  listen = λ fd w. (success, w);
  connect = λ fd a w. (success, w);
  update_context = λ fd w. (success, w);
  closesocket = λ fd w. w;
  last_error = λ w. 0;
  getaddrinfo = λ f w. (some (peer ∷ []), w);
  freeaddrinfo = λ w. w;
}

abbrev requests : Requests ℕ
requests = record {
  connect_ex = λ fd a k w. (true, w);
  accept_ex = λ l fd b k w. (true, w);
  recv = λ fd b n k w. (success, w);
  send = λ fd b n k w. (success, w);
  any4 = record { family = 2; port = 0; addr4 = 0; addr6 = [] };
  any6 = record { family = 23; port = 0; addr4 = 0; addr6 = [] };
}

abbrev outside : Outside ℕ
outside = record {
  on_complete = λ k p. p;
  on_timeout = λ k p. p;
  associate = λ fd port w. (port, w);
  cancel_io = λ fd w. w;
  get_status = λ port timeout s. (record { success = false; overlap = 0; error = 258 }, s);
}

abbrev api : ServiceApi (CompletionPortService ℕ)
api = port_api outside calls requests 1000

abbrev layout : Layout
layout = record { bound = λ m a k. k; recv_storage = λ a. a; accept_info_size = 4 }

-- The context of the acceptor, with the new socket 60 in it.
abbrev listener : OverlapContext
listener = record new_context { fd = 50; udata = 60 }

-- The context of a session, whose request is done with two bytes.
abbrev receiver : OverlapContext
receiver = record new_context { fd = 60; internal_high = 2 }

abbrev service : CompletionPortService ℕ
service = record {
  timers = new_sched;
  completion_port = 7;
  store = record { heap = (1, listener) ∷ (2, receiver) ∷ []; world = 100 };
}

abbrev io : Io (CompletionPortService ℕ)
io = record { service = service; arrays = [] }

abbrev idle : Server (CompletionPortService ℕ)
idle = record { ctx = 1; acceptor = 50; counter = 2001; sessions = []; heap = []; io = io }

idle-IsTracked : IsTracked idle
unfolding find_entry read
idle-IsTracked = record {
  owned = λ sid e at. absurd (ground arith);
  listed = λ a session at. absurd (ground arith);
  small = omega arith;
  started = omega arith;
}

on_accept_lem_example :
    IsAnswered idle idle-IsTracked
      (omega arith)
      api
      (port-IsService outside calls requests 1000)
      layout
      9
      60
      (on_accept api layout 9 1 idle)
unfolding read
on_accept_lem_example =
    on_accept_lem idle idle-IsTracked (omega arith) api (port-IsService outside calls requests 1000)
      layout 9 listener refl (inl refl)

-- A session with three bytes in its buffer, and the server that has it.
abbrev talking : Session
talking = record { id = 2001; fd = 60; recv_ctx = 2; recv_buf = 5 ∷ 6 ∷ 7 ∷ []; recv_count = 0 }

abbrev busy : Server (CompletionPortService ℕ)
busy = more idle idle-IsTracked (omega arith) talking io

busy-IsTracked : IsTracked busy
busy-IsTracked = more-IsTracked idle idle-IsTracked (omega arith) talking io refl

found-talking : read 1 busy.heap ≡ some talking
unfolding read fresh
found-talking = refl

close_lem_example :
    (t : CompletionPortService ℕ) × IsClosed busy busy-IsTracked 1 talking found-talking api
      (port-IsService outside calls requests 1000)
      layout
      9
      0
      t
unfolding read
close_lem_example =
    close_lem busy busy-IsTracked 1 talking found-talking api
      (port-IsService outside calls requests 1000) layout 9 0 receiver refl

on_read_lem_example :
    let bytes = resize (transferred_bytes receiver) talking.recv_buf in
    (io' : Io (CompletionPortService ℕ)) × (on_read api layout 9 0 1 2 busy
      ≡ ok (
          next busy busy-IsTracked 1 talking found-talking api
            (port-IsService outside calls requests 1000)
            layout
            9
            bytes
            io'))
    × IsTracked (
        next busy busy-IsTracked 1 talking found-talking api
          (port-IsService outside calls requests 1000)
          layout
          9
          bytes
          io')
    × IsReplied busy busy-IsTracked 1 talking found-talking api
        (port-IsService outside calls requests 1000)
        layout
        9
        bytes
        io'
unfolding read status_code transferred_bytes
on_read_lem_example =
    on_read_lem busy busy-IsTracked 1 talking found-talking api
      (port-IsService outside calls requests 1000) layout 9 0 receiver refl refl refl

-- The bytes that the session sends back.
reply : resize (transferred_bytes receiver) talking.recv_buf ≡ 5 ∷ 6 ∷ []
unfolding resize transferred_bytes zeros
reply = refl

connect_lem_example :
    (t : Client (CompletionPortService ℕ)) × (n : ℕ) × (connect api layout 9 (new_client io)
      ≡ ok (t, n))
    × IsRequested api layout 9 service 0 t
connect_lem_example =
    connect_lem api layout 9 (port-IsService outside calls requests 1000)
      (port-IsConnector outside calls requests 1000) (new_client io)
      (λ infos e. subst AllInet (some_eq (peer ∷ []) infos e) (refl, tt))

abbrev events : Overlapped.Outside ℕ
events = record {
  on_complete = λ k p. p;
  on_timeout = λ k p. p;
  create_event = λ w. (w, w + 1);
  close_event = λ h w. w;
  wait = λ es ms w. (258, w);
  get_overlapped_result = λ fd a s. s;
  sleep = λ ms w. w;
}

overlapped-IsService_example : IsService (overlapped_api events calls requests 1000)
overlapped-IsService_example = overlapped-IsService events calls requests 1000
