-- ===== src/Socket/Transfer/Read.antt =====
-- ReadSome of src/SocketOpts.cpp returns, and what it returns.
use mathlib.Core.List.{append-nil, append_assoc}
use winsock_tut.Base.{
  ℕ, zero, suc, ◌+◌, ◌-◌, ◌≤◌, ◌<◌, ◌≡◌, ◌≢◌, ◌⊎◌, refl, sym, ap, ◌∙◌, inl, inr, List, [], ◌∷◌,
  ◌++◌, some, arith, ltb, ◌==◌, if◌then◌else◌, length, length-append, Bool-cases, ltb→lt, ltb→le,
}
use winsock_tut.Winsock.{wsaewouldblock}
use winsock_tut.Socket.Transfer.{
  Count, minus_one, count, Received, got, recv_failed, read_round, read_loop, read_some,
}

-- The documented behaviour of recv on a stream: it stores no more than there is room for, and what
-- it stores are the next bytes that arrive; `incoming` are all that will.
pub record IsStream {W : Type 0} (recv : ℕ → W → Received × W) (incoming : W → List ℕ)
    : Type 0 where
  pub bounded : (n : ℕ) (w w' : W) (bytes : List ℕ) → recv n w ≡ (got bytes, w') → length bytes ≤ n
  pub next :
      (n : ℕ) (w w' : W) (bytes : List ℕ)
      → recv n w ≡ (got bytes, w')
      → incoming w ≡ bytes ++ incoming w'
  pub idle : (n err : ℕ) (w w' : W) → recv n w ≡ (recv_failed err, w') → incoming w ≡ incoming w'

-- A result of ReadSome into `size` bytes: the bytes stored and those still to come are those that
-- were to come, and they fit. The last recv found the end of the stream, for -1, or failed: with
-- WSAEWOULDBLOCK the result is the number of bytes, and with another code -1.
pub record HasRead {W : Type 0} (recv : ℕ → W → Received × W) (incoming : W → List ℕ) (size : ℕ)
    (w : W) (r : Count × List ℕ × W) : Type 0 where
  pub fits : length r.1 ≤ size
  pub whole : r.1 ++ incoming r.2 ≡ incoming w
  pub ended :
      (v : W) × ((r.0 ≡ minus_one) × (recv (size - length r.1) v ≡ (got [], r.2))
        ⊎ ((err : ℕ) × (recv (size - length r.1) v ≡ (recv_failed err, r.2))
            × (r.0 ≡ (if err == wsaewouldblock then count (length r.1) else minus_one))))

nil_of_length : (xs : List ℕ) → length xs ≤ 0 → xs ≡ []
nil_of_length [] h = refl
nil_of_length (x ∷ xs) h = absurd (omega arith)

Received-cases :
    {W : Type 0} (r : Received × W)
    → ((bytes : List ℕ) × (w' : W) × (r ≡ (got bytes, w')))
      ⊎ ((err : ℕ) × (w' : W) × (r ≡ (recv_failed err, w')))
Received-cases (got bytes, w') = inl (bytes, w', refl)
Received-cases (recv_failed err, w') = inr (err, w', refl)

module _ {W : Type 0} (recv : ℕ → W → Received × W) (incoming : W → List ℕ)
    (stream : IsStream recv incoming) (size : ℕ) (start : W) where
  read_loop-HasRead :
      (fuel : ℕ) (buf : List ℕ) (w : W)
      → length buf ≤ size
      → size - length buf < fuel
      → buf ++ incoming w ≡ incoming start
      → (r : Count × List ℕ × W) × (read_loop recv fuel size buf w ≡ some r)
        × HasRead recv incoming size start r
  unfolding read_loop read_round
  read_loop-HasRead zero buf w fit enough whole = absurd (omega arith)
  read_loop-HasRead (suc fuel) buf w fit enough whole =
      elim (Received-cases (recv (size - length buf) w)) [
        | inl (bytes, w', e) ↦
            let short = stream.bounded _ w w' bytes e in
            let joined : (buf ++ bytes) ++ incoming w' ≡ incoming start =
              append_assoc buf bytes (incoming w')
              ∙ ap (◌++◌ buf) (sym (stream.next _ w w' bytes e))
              ∙ whole in
            elim (Bool-cases (ltb 0 (length bytes))) [
              | inl more ↦ rw e (
                  rw more (
                    read_loop-HasRead fuel (buf ++ bytes) w'
                      (omega (arith, length-append buf bytes))
                      (omega (arith, length-append buf bytes, ltb→lt 0 (length bytes) more))
                      joined))
              | inr eof ↦
                  let empty : bytes ≡ [] = nil_of_length bytes (ltb→le 0 (length bytes) eof) in
                  (
                    (minus_one, buf, w'),
                    rw e (rw eof refl),
                    record {
                      fits = fit;
                      whole = rw (empty, append-nil buf) at joined;
                      ended = (w, inl (refl, rw empty at e));
                    },
                  )
            ]
        | inr (err, w', e) ↦
            let whole' : buf ++ incoming w' ≡ incoming start =
              ap (◌++◌ buf) (sym (stream.idle _ err w w' e)) ∙ whole in
            elim (Bool-cases (err == wsaewouldblock)) [
              | inl block ↦ (
                (count (length buf), buf, w'),
                rw e (rw block refl),
                record { fits = fit; whole = whole'; ended = (w, inr (err, e, rw block refl)) },
              )
              | inr broken ↦ (
                (minus_one, buf, w'),
                rw e (rw broken refl),
                record { fits = fit; whole = whole'; ended = (w, inr (err, e, rw broken refl)) },
              )
            ]
      ]

-- ReadSome, with a recv that reads a stream, into a buffer of `size` bytes returns in `size + 1`
-- rounds. No byte is lost or moved: those stored and those still to come are those that were to
-- come, and they fit. It ends with a recv for the rest of the buffer that stores nothing, for -1,
-- or fails: the result is the number of bytes stored for WSAEWOULDBLOCK and -1 for another code.
pub read_some-HasRead :
    {W : Type 0} (recv : ℕ → W → Received × W) (incoming : W → List ℕ)
    → IsStream recv incoming
    → (size : ℕ) (w : W)
    → (r : Count × List ℕ × W) × (read_some recv size w ≡ some r) × HasRead recv incoming size w r
unfolding read_some
read_some-HasRead recv incoming stream size w =
    read_loop-HasRead recv incoming stream size w (size + 1) [] w (omega arith) (omega arith) refl

module _ {W : Type 0} (recv : ℕ → W → Received × W) (empty_read : (w : W) → recv 0 w ≡ (got [], w))
    (size : ℕ) where
  read_loop-ne-size :
      (fuel : ℕ) (buf : List ℕ) (w w' : W) (out : List ℕ)
      → read_loop recv fuel size buf w ≢ some (count size, out, w')
  unfolding read_loop read_round
  read_loop-ne-size zero buf w w' out e = cc
  read_loop-ne-size (suc fuel) buf w w' out e = elim (Received-cases (recv (size - length buf) w)) [
    | inl (bytes, v, r) ↦ elim (Bool-cases (ltb 0 (length bytes))) [
      | inl more ↦ read_loop-ne-size fuel (buf ++ bytes) v w' out (rw more at (rw r at e))
      | inr eof ↦ cc (rw eof at (rw r at e))
    ]
    | inr (err, v, r) ↦ elim (Bool-cases (err == wsaewouldblock)) [
      | inl block ↦
          let same = rw block at (rw r at e) in
          let full : length buf ≡ size = cc same in
          let none_left : size - length buf ≡ 0 = omega (arith, full) in
          cc (rw none_left at r, empty_read w)
      | inr broken ↦ cc (rw broken at (rw r at e))
    ]
  ]

-- If recv with no room left returns 0, as a stream's does, ReadSome never returns `size`: when the
-- bytes that arrive fill the buffer, it reads the 0 as the end of the stream and returns -1.
read_some-ne-size :
    {W : Type 0} (recv : ℕ → W → Received × W)
    → ((w : W) → recv 0 w ≡ (got [], w))
    → (size : ℕ) (w w' : W) (out : List ℕ) → read_some recv size w ≢ some (count size, out, w')
unfolding read_some
read_some-ne-size recv empty_read size w w' out =
    read_loop-ne-size recv empty_read size (size + 1) [] w w' out
