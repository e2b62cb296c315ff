-- ===== src/Pingpong.antt =====
-- The pingpong example, examples/pingpong: the service that it runs on, and the memory that its
-- requests share with the system.
pub mod Server
pub mod Client
pub mod Services
pub mod Requests
pub mod Port
pub mod Program
pub mod Overlapped
mod Tests
use winsock_tut.Base.{
  ℕ, zero, suc, ◌-◌, ◌<◌, ◌≡◌, ◌≢◌, Bool, List, [], ◌∷◌, ◌++◌, Option, none, some, ◌==◌,
  if◌then◌else◌, length, take,
}
use winsock_tut.Outcome.{Outcome, ok, ◌>>=◌}
use winsock_tut.Socket.Calls.{AddrInfo}
use winsock_tut.Heap.{Heap, found, fresh, read, delete}
use winsock_tut.Poller.Bits.{set_flags}
use winsock_tut.Service.Contexts.{OverlapContext, flag_lazy_delete, set_buffer}

-- The interface of IOServiceBase in src/IOServiceBase.h, over the service and all that is outside
-- of the example, `S`: the reads and writes of a context through its pointer, the operations of the
-- service, and the calls of sockets that the example makes by itself. The null pointer is 0.
pub record ServiceApi (S : Type 0) : Type 0 where
  pub get : ℕ → S → Option OverlapContext
  pub set : ℕ → (OverlapContext → OverlapContext) → S → S
  pub alloc_overlap_ctx : ℕ → ℕ → S → Outcome (S × ℕ)
  pub free_overlap_ctx : ℕ → S → Outcome S
  pub async_connect : ℕ → AddrInfo → S → Outcome (S × ℕ)
  pub async_accept : ℕ → S → Outcome (S × ℕ)
  pub async_read : ℕ → S → Outcome (S × ℕ)
  pub async_write : ℕ → S → Outcome (S × ℕ)
  pub add_timer : ℕ → ℕ → S → S
  pub create_tcp_acceptor : S → ℕ × S
  pub getaddrinfo : S → Option (List AddrInfo) × S
  pub freeaddrinfo : S → S
  pub socket : AddrInfo → S → ℕ × S
  pub closesocket : ℕ → S → S

-- The methods that are bound as callbacks.
pub data Method : Type 0 where
  session_read session_written server_accept client_connect client_read client_written : Method

-- `std::bind` of a method to an object and a context, as a number; where the elements of the
-- vector recv_buf_ of an object stand; and the size of an AcceptInfo.
pub record Layout : Type 0 where
  pub bound : Method → ℕ → ℕ → ℕ
  pub recv_storage : ℕ → ℕ
  pub accept_info_size : ℕ

-- The service, and the arrays of bytes that the example makes by `new`.
pub record Io (S : Type 0) : Type 0 where
  pub service : S
  pub arrays : Heap (List ℕ)

unfoldable pub zeros : ℕ → List ℕ
zeros zero = []
zeros (suc n) = 0 ∷ zeros n

-- `recv_buf_.resize(n)`
unfoldable pub resize : ℕ → List ℕ → List ℕ
resize n bytes = take n (bytes ++ zeros (n - length bytes))

-- `ctx->flags |= FLAG_LAZY_DELETE`
abbrev pub lazy : OverlapContext → OverlapContext
lazy ctx = record ctx { flags = set_flags ctx.flags flag_lazy_delete }

-- `ctx->buf.buf = NULL; ctx->buf.len = 0; ctx->flags |= FLAG_LAZY_DELETE`
abbrev pub unbuffered : OverlapContext → OverlapContext
unbuffered ctx = lazy (set_buffer 0 0 ctx)

-- `delete ctx->buf.buf`, which does nothing for the null pointer.
unfoldable pub delete_array : {S : Type 0} → ℕ → Io S → Outcome (Io S)
delete_array b io =
    if b == 0
    then ok io
    else (found (read b io.arrays) >>= λ bytes. ok (record io { arrays = delete b io.arrays }))

module _ {S : Type 0} (api : ServiceApi S) where
  -- A write through a pointer to a context.
  unfoldable pub set_ctx : ℕ → (OverlapContext → OverlapContext) → Io S → Outcome (Io S)
  set_ctx a f io = do
    ctx ← found (api.get a io.service)
    ok (record io { service = api.set a f io.service })

  -- An operation of the service whose result is not looked at.
  unfoldable pub request : (S → Outcome (S × ℕ)) → Io S → Outcome (Io S)
  request f io = f io.service >>= λ r. ok (record io { service = r.0 })

  -- FreeOverlapCtx
  unfoldable pub free_ctx : ℕ → Io S → Outcome (Io S)
  free_ctx a io = api.free_overlap_ctx a io.service >>= λ s. ok (record io { service = s })

  -- Session::Write and Client::Write after AllocOverlapCtx: the data is copied to a new array.
  unfoldable pub written : (ℕ → ℕ) → List ℕ → Heap (List ℕ) → S × ℕ → Outcome (Io S)
  written cb bytes arrays (s, a) =
      let b : ℕ = fresh arrays in
      let io : Io S = record { service = s; arrays = arrays } in
      if a == 0
      then ok io
      else (set_ctx a (λ x. record (set_buffer b (length bytes) x) { cb = some (cb a) })
            record { service = s; arrays = arrays ++ (b, bytes) ∷ [] }
          >>= request (api.async_write a))

  -- Session::Write and Client::Write, whose result is not looked at.
  unfoldable pub write : (ℕ → ℕ) → ℕ → List ℕ → Io S → Outcome (Io S)
  write cb fd bytes io = api.alloc_overlap_ctx fd 0 io.service >>= written cb bytes io.arrays

  -- The end of Session::OnWritten and Client::OnWritten.
  unfoldable pub discard : ℕ → Io S → Outcome (Io S)
  discard a io = do
    ctx ← found (api.get a io.service)
    t ← delete_array ctx.buf io
    u ← set_ctx a unbuffered t
    free_ctx a u

  -- Session::StartRead and Client::StartRead, on an object whose vector stands at `storage` and has
  -- been resized.
  unfoldable pub start_read : (ℕ → ℕ) → ℕ → ℕ → Io S → Outcome (Io S)
  start_read cb storage a io = do
    t ← set_ctx a (λ x. record (set_buffer storage 1024 x) { cb = some (cb a) }) io
    request (api.async_read a) t
