-- ===== src/Pingpong/Services.antt =====
-- What the pingpong example relies on in a service.
use winsock_tut.Base.{ℕ, ◌≡◌, ◌≢◌, ◌⊎◌, none, some}
use winsock_tut.Outcome.{ok}
use winsock_tut.Winsock.{af_inet}
use winsock_tut.Socket.Calls.{AddrInfo}
use winsock_tut.Service.Contexts.{OverlapContext}
use winsock_tut.Pingpong.{ServiceApi}

-- The contexts that a request or an operation on the context `a` leaves alone.
abbrev pub Spares : {S : Type 0} → ServiceApi S → ℕ → S → S → Type 0
Spares api a s t = (k : ℕ) → k ≢ a → api.get k t ≡ api.get k s

-- A context is there.
abbrev pub Has : {S : Type 0} → ServiceApi S → ℕ → S → Type 0
Has api a s = (x : OverlapContext) × (api.get a s ≡ some x)

-- The laws of a service: a write through a pointer changes that context alone; FreeOverlapCtx and
-- the requests return on a context that is there, and touch no other, a context without flags is gone
-- after FreeOverlapCtx, and AsyncWrite keeps the buffer
-- and the callback; AllocOverlapCtx returns the
-- null pointer, or a context that was not there before, for the socket that it is given.
pub record IsService {S : Type 0} (api : ServiceApi S) : Type 0 where
  pub closed : (fd k : ℕ) (s : S) → api.get k (api.closesocket fd s) ≡ api.get k s
  pub set_self :
      (a : ℕ) (f : OverlapContext → OverlapContext) (s : S) (x : OverlapContext)
      → api.get a s ≡ some x
      → api.get a (api.set a f s) ≡ some (f x)
  pub set_other :
      (a : ℕ) (f : OverlapContext → OverlapContext) (s : S) → Spares api a s (api.set a f s)
  pub frees :
      (a : ℕ) (s : S)
      → Has api a s
      → (t : S) × (api.free_overlap_ctx a s ≡ ok t)
        × Spares api a s t
        × ((x : OverlapContext) → api.get a s ≡ some x → x.flags ≡ 0 → api.get a t ≡ none)
  pub allocates :
      (fd flags : ℕ) (s : S)
      → (t : S) × (a : ℕ) × (api.alloc_overlap_ctx fd flags s ≡ ok (t, a))
        × ((a ≡ 0) × ((k : ℕ) → api.get k t ≡ api.get k s)
            ⊎ (a ≢ 0)
              × (api.get a s ≡ none)
              × ((x : OverlapContext) × (api.get a t ≡ some x) × (x.fd ≡ fd) × (x.flags ≡ 0))
              × Spares api a s t)
  pub reads :
      (a : ℕ) (s : S)
      → Has api a s
      → (t : S) × (r : ℕ) × (api.async_read a s ≡ ok (t, r)) × Spares api a s t
  pub accepts :
      (a : ℕ) (s : S)
      → Has api a s
      → (t : S) × (r : ℕ) × (api.async_accept a s ≡ ok (t, r)) × Spares api a s t
  pub writes :
      (a : ℕ) (s : S) (x : OverlapContext)
      → api.get a s ≡ some x
      → (t : S) × (r : ℕ) × (api.async_write a s ≡ ok (t, r))
        × Spares api a s t
        × ((y : OverlapContext) × (api.get a t ≡ some y)
            × (y.buf ≡ x.buf)
            × (y.len ≡ x.len)
            × (y.cb ≡ x.cb))

-- The laws of the calls that a client connects by: getaddrinfo, freeaddrinfo and socket touch no
-- context, and AsyncConnect to an IPv4 address returns on a context that is there, touches no other,
-- and keeps the callback and the flags.
pub record IsConnector {S : Type 0} (api : ServiceApi S) : Type 0 where
  pub resolves : (k : ℕ) (s : S) → api.get k (api.getaddrinfo s).1 ≡ api.get k s
  pub infos_freed : (k : ℕ) (s : S) → api.get k (api.freeaddrinfo s) ≡ api.get k s
  pub opens : (info : AddrInfo) (k : ℕ) (s : S) → api.get k (api.socket info s).1 ≡ api.get k s
  pub connects :
      (a : ℕ) (info : AddrInfo) (s : S) (x : OverlapContext)
      → info.family ≡ af_inet
      → api.get a s ≡ some x
      → (t : S) × (r : ℕ) × (api.async_connect a info s ≡ ok (t, r))
        × Spares api a s t
        × ((y : OverlapContext) × (api.get a t ≡ some y) × (y.cb ≡ x.cb) × (y.flags ≡ x.flags))
