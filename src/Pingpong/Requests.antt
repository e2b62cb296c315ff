-- ===== src/Pingpong/Requests.antt =====
-- The requests of the pingpong example on a service that keeps the laws.
use winsock_tut.Base.{
  ℕ, ◌≡◌, ◌≢◌, inl, inr, refl, sym, ap, ◌∙◌, false, List, [], ◌∷◌, ◌++◌, none, some, arith, ◌==◌,
  length,
}
use winsock_tut.Outcome.{ok}
use winsock_tut.Heap.{fresh}
use winsock_tut.Service.Contexts.{OverlapContext, set_buffer}
use winsock_tut.Pingpong.{ServiceApi, Io, set_ctx, request, written}
use winsock_tut.Pingpong
use winsock_tut.Pingpong.Services.{IsService, Spares, Has}

-- What StartRead writes into the context `k`.
abbrev pub read_into : (ℕ → ℕ) → ℕ → ℕ → OverlapContext → OverlapContext
read_into cb storage k y = record (set_buffer storage 1024 y) { cb = some (cb k) }

module _ {S : Type 0} (api : ServiceApi S) (laws : IsService api) where
  -- StartRead of a session on its context is AsyncRead after the context is filled in.
  pub start_read_lem :
      (cb : ℕ → ℕ) (storage k : ℕ) (io : Io S)
      → Has api k io.service
      → (t : S) × (Pingpong.start_read api cb storage k io ≡ ok (record io { service = t }))
        × Spares api k io.service t
        × ((r : ℕ) × (api.async_read k (api.set k (read_into cb storage k) io.service) ≡ ok (t, r)))
  unfolding Pingpong.start_read set_ctx request
  start_read_lem cb storage k io (x, here) =
      let f = read_into cb storage k in
      let (t, r, reads, spares) =
        laws.reads k (api.set k f io.service) (_, laws.set_self k f io.service x here) in
      (
        t,
        rw (here, reads) refl,
        (λ j other. spares j other ∙ laws.set_other k f io.service j other),
        (r, reads),
      )

  -- What Write leaves: AllocOverlapCtx gave no context, and nothing else was asked of the service; or
  -- there is a new context for the socket, and a new array with exactly the bytes, and the last call
  -- of the service was AsyncWrite of that context, whose buffer was the array with its length, and whose
  -- callback was OnWritten.
  pub data IsSent (cb : ℕ → ℕ) (fd : ℕ) (bytes : List ℕ) (io io' : Io S) : Type 0 where
    unsent :
        api.alloc_overlap_ctx fd 0 io.service ≡ ok (io'.service, 0)
        → io'.arrays ≡ io.arrays
        → IsSent cb fd bytes io io'
    sent :
        (k r : ℕ) (u : S) (x y : OverlapContext)
        → api.get k io.service ≡ none
        → api.get k u ≡ some x
        → x.fd ≡ fd
        → x.buf ≡ fresh io.arrays
        → x.len ≡ length bytes
        → x.cb ≡ some (cb k)
        → api.async_write k u ≡ ok (io'.service, r)
        → api.get k io'.service ≡ some y
        → y.buf ≡ x.buf
        → y.cb ≡ x.cb
        → io'.arrays ≡ io.arrays ++ (fresh io.arrays, bytes) ∷ []
        → IsSent cb fd bytes io io'

  pub some-ne-none : (x : OverlapContext) → some x ≢ none
  some-ne-none x e = cc

  -- Write returns, and leaves the contexts alone that were there.
  pub write_lem :
      (cb : ℕ → ℕ) (fd : ℕ) (bytes : List ℕ) (io : Io S)
      → (io' : Io S) × (Pingpong.write api cb fd bytes io ≡ ok io')
        × IsSent cb fd bytes io io'
        × ((j : ℕ) → Has api j io.service → api.get j io'.service ≡ api.get j io.service)
  unfolding Pingpong.write written set_ctx request set_buffer
  write_lem cb fd bytes io =
      let (s, k, allocates, outcome) = laws.allocates fd 0 io.service in
      let b = fresh io.arrays in
      let f : OverlapContext → OverlapContext =
        λ x. record (set_buffer b (length bytes) x) { cb = some (cb k) } in
      elim outcome [
        | inl (null, same) ↦ (
          record io { service = s },
          rw (allocates, null) refl,
          unsent (allocates ∙ ap (λ i. ok (s, i)) null) refl,
          λ j has. same j,
        )
        | inr (valid, unseen, (x, there, its, _), spares) ↦
            let at = laws.set_self k f s x there in
            let (t, r, writes, keeps, (y, there', buf', len', cb')) =
              laws.writes k (api.set k f s) (f x) at in
            let other : (k == 0) ≡ false = ground arith in
            (
              record { service = t; arrays = io.arrays ++ (b, bytes) ∷ [] },
              rw (allocates, other, there, writes) refl,
              sent k r (api.set k f s) (f x) y unseen at its refl refl refl writes there' buf' cb'
                  refl,
              λ j (z, has).
                  let apart : j ≢ k =
                    λ e. some-ne-none z (sym has ∙ ap (λ i. api.get i io.service) e ∙ unseen) in
                  keeps j apart ∙ laws.set_other k f s j apart ∙ spares j apart,
            )
      ]
