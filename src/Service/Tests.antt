-- ===== src/Service/Tests.antt =====
-- The theorems of the services at inputs.
use Prim.Native.Nat.{bit_and}
use winsock_tut.Base.{ℕ, ◌+◌, ◌≡◌, ◌≢◌, ◌⊎◌, refl, Bool, true, false, List, [], ◌∷◌, some, arith}
use winsock_tut.Winsock.{af_inet}
use winsock_tut.Timer.{new_sched}
use winsock_tut.Socket.Address.{SockAddr}
use winsock_tut.Socket.Calls.{success, Calls, Laws}
use winsock_tut.Outcome.{ok, bad_pointer}
use winsock_tut.Table.{update_entry}
use winsock_tut.Heap.{read, delete}
use winsock_tut.Service.Contexts.{OverlapContext, new_context, Store, flag_lazy_delete}
use winsock_tut.Service.Requests.{Requests, async_accept}
use winsock_tut.Service.Requests.Accept.{IsSettled, async_accept-IsSettled}
use winsock_tut.Service.Overlapped
use winsock_tut.Service.Completion
use winsock_tut.Service.Completion.Lifetime.{
  marked, free_context-alloc_context, dispatch-free_overlap_ctx,
}

-- A context at address 4, with a callback.
abbrev four : ℕ → OverlapContext
four flags = record new_context { fd = 5; h_event = 11; flags = flags; cb = some 1 }

-- A world that counts what it is asked for.
abbrev counting : Overlapped.Outside ℕ
counting = record {
  on_complete = λ k p. p;
  on_timeout = λ k p. p;
  create_event = λ w. (w + 20, w + 1);
  close_event = λ h w. w + 1;
  wait = λ events ms w. (0, w);
  get_overlapped_result = λ fd a s. s;
  sleep = λ ms w. w;
}

abbrev overlapped_four : Overlapped.OverlappedService ℕ
overlapped_four = record {
  timers = new_sched;
  events = [];
  fds = (11, 4) ∷ [];
  store = record { heap = (4, four 0) ∷ []; world = 0 };
}

abbrev completion_four : ℕ → Completion.CompletionPortService ℕ
completion_four flags = record {
  timers = new_sched;
  completion_port = 77;
  store = record { heap = (4, four flags) ∷ []; world = 0 };
}

-- The callback frees the context at address 4, which stays in the heap for its flags.
abbrev freeing : Completion.Outside ℕ
freeing = record {
  on_complete = λ k p. record p { store = record { heap = (4, marked (four 3)) ∷ []; world = 1 } };
  on_timeout = λ k p. p;
  associate = λ fd port w. (port, w);
  cancel_io = λ fd w. w + 1;
  get_status = λ port ms s. (record { success = true; overlap = 4; error = 0 }, s);
}

free_context-alloc_context_example :
    (q : Completion.CompletionPortService ℕ) × (a : ℕ) × (Completion.alloc_overlap_ctx freeing 6 3
        (completion_four 3)
      ≡ ok (q, a))
    × ((a ≡ 0) × (q ≡ completion_four 3)
        ⊎ (Completion.free_overlap_ctx freeing a q ≡ ok (completion_four 3)))
free_context-alloc_context_example = free_context-alloc_context freeing (completion_four 3) 6 3

dispatch-free_overlap_ctx_example :
    (bit_and (four 3).flags flag_lazy_delete ≡ 0
      → Completion.dispatch freeing 4 (completion_four 3) ≡ bad_pointer)
    × (bit_and (four 3).flags flag_lazy_delete ≢ 0
        → (Completion.dispatch freeing 4 (completion_four 3)
            ≡ ok (
              record (freeing.on_complete 1 (completion_four 3)) {
                store = record { heap = delete 4 (completion_four 3).store.heap; world = 1 };
              },
              0,
            )))
unfolding read Completion.free_overlap_ctx Completion.release Completion.cancelled update_entry
dispatch-free_overlap_ctx_example =
    dispatch-free_overlap_ctx freeing (completion_four 3) 4 1 (four 3) refl refl refl

abbrev home : SockAddr
home = record { family = af_inet; port = 80; addr4 = 5; addr6 = [] }

-- The open sockets of a process.
abbrev close_last : ℕ → List ℕ → List ℕ
close_last fd [] = []
close_last fd (x ∷ w) = w

abbrev process : Calls (List ℕ)
process = record {
  socket = λ f w. (7, 7 ∷ w);
  bind = λ fd a w. (success, w);
  ioctl = λ fd v w. (success, w);
  listen = λ fd w. (success, w);
  connect = λ fd a w. (success, w);
  update_context = λ fd w. (success, w);
  closesocket = close_last;
  last_error = λ w. 10038;
  getaddrinfo = λ f w. (some [], w);
  freeaddrinfo = λ w. w;
}

process-Laws : Laws process (λ w. w) (λ w fd. true)
process-Laws = record {
  opened = λ f fd w w' e h. ground arith;
  not_opened = λ f fd w w' e h. absurd (ground arith);
  bind_keeps = λ fd a r w w' e. ground arith;
  ioctl_keeps = λ fd v r w w' e. ground arith;
  listen_keeps = λ fd r w w' e. ground arith;
  listens = λ fd w w' e. refl;
  connect_keeps = λ fd a r w w' e. ground arith;
  closed = λ fd w rest e. rw e refl;
  resolve_keeps = λ r f w w' e. ground arith;
  free_keeps = λ w. refl;
  free_listening = λ w fd. refl;
}

-- AcceptEx fails.
abbrev requests : Requests (List ℕ)
requests = record {
  connect_ex = λ fd addr a w. (true, w);
  accept_ex = λ l fd b a w. (false, w);
  recv = λ fd b n a w. (success, w);
  send = λ fd b n a w. (success, w);
  any4 = home;
  any6 = home;
}

accept_keeps :
    (l fd b a : ℕ) (r : Bool) (w w' : List ℕ) → requests.accept_ex l fd b a w ≡ (r, w') → w' ≡ w
accept_keeps l fd b a r w w' e = ground arith

failure_known :
    (l fd b a : ℕ) (w w' : List ℕ)
    → requests.accept_ex l fd b a w ≡ (false, w')
    → process.last_error w' ≢ 0
failure_known l fd b a w w' e = omega arith

abbrev listener : Store (List ℕ)
listener = record { heap = (4, four 0) ∷ []; world = 3 ∷ [] }

async_accept-IsSettled_example :
    (r : Store (List ℕ) × ℕ) × (async_accept process requests 4 listener ≡ ok r)
    × IsSettled process requests
        (λ w. w)
        (λ w fd. true)
        process-Laws
        accept_keeps
        failure_known
        4
        listener
        r
unfolding read
async_accept-IsSettled_example =
    async_accept-IsSettled process requests (λ w. w) (λ w fd. true) process-Laws accept_keeps
      failure_known 4 (four 0) listener refl
