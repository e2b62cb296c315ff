-- ===== src/Socket/Transfer/Write.antt =====
-- WriteSome of src/SocketOpts.cpp returns, and what it returns.
use mathlib.Core.List.{append-nil, append_assoc}
use native.Mathlib.Nat.{zero-add, suc-add}
use winsock_tut.Base.{
  ℕ, zero, suc, ◌+◌, ◌-◌, ◌≤◌, ◌<◌, ◌≡◌, ◌⊎◌, refl, sym, ap, ◌∙◌, inl, inr, List, [], ◌∷◌, ◌++◌,
  some, arith, ltb, ◌==◌, if◌then◌else◌, length, Bool-cases, ltb→lt, ltb→le, take, drop,
  length-drop,
}
use winsock_tut.Winsock.{wsaewouldblock}
use winsock_tut.Socket.Transfer.{
  Count, minus_one, count, Sent, took, send_failed, write_round, write_loop, write_some,
}

-- The documented behaviour of send on a stream: of a buffer that is not empty it takes some bytes
-- from the front, which are the next to leave; `outgoing` are all that have left.
pub record IsSink {W : Type 0} (send : List ℕ → W → Sent × W) (outgoing : W → List ℕ) : Type 0 where
  pub some_taken :
      (buf : List ℕ) (w w' : W) (n : ℕ)
      → 0 < length buf
      → send buf w ≡ (took n, w')
      → (0 < n) × (n ≤ length buf)
  pub next :
      (buf : List ℕ) (w w' : W) (n : ℕ)
      → send buf w ≡ (took n, w')
      → outgoing w' ≡ outgoing w ++ take n buf
  pub refused :
      (buf : List ℕ) (w w' : W) (err : ℕ)
      → send buf w ≡ (send_failed err, w')
      → outgoing w' ≡ outgoing w

-- A result of WriteSome: a front part of the buffer has left. It is the whole buffer, and the result
-- its length, or the send of the rest failed: with WSAEWOULDBLOCK the result is the length of the
-- part, and with another code -1.
pub record HasWritten {W : Type 0} (send : List ℕ → W → Sent × W) (outgoing : W → List ℕ)
    (buf : List ℕ) (w : W) (r : Count × W) : Type 0 where
  pub sent : ℕ
  pub fits : sent ≤ length buf
  pub left : outgoing r.1 ≡ outgoing w ++ take sent buf
  pub ended :
      (sent ≡ length buf) × (r.0 ≡ count sent)
      ⊎ ((v : W) × (err : ℕ) × (send (drop sent buf) v ≡ (send_failed err, r.1))
          × (r.0 ≡ (if err == wsaewouldblock then count sent else minus_one)))

pub Sent-cases :
    {W : Type 0} (r : Sent × W)
    → ((n : ℕ) × (w' : W) × (r ≡ (took n, w')))
      ⊎ ((err : ℕ) × (w' : W) × (r ≡ (send_failed err, w')))
Sent-cases (took n, w') = inl (n, w', refl)
Sent-cases (send_failed err, w') = inr (err, w', refl)

take-nil : (n : ℕ) → take {A = ℕ} n [] ≡ []
take-nil zero = refl
take-nil (suc n) = refl

take-add : (n m : ℕ) (xs : List ℕ) → take n xs ++ take m (drop n xs) ≡ take (n + m) xs
take-add zero m xs = rw zero-add
take-add (suc n) m [] = rw (take-nil m, suc-add) refl
take-add (suc n) m (x ∷ xs) = rw suc-add (ap (◌∷◌ x) (take-add n m xs))

module _ {W : Type 0} (send : List ℕ → W → Sent × W) (outgoing : W → List ℕ)
    (sink : IsSink send outgoing) (buf : List ℕ) (start : W) where
  write_loop-HasWritten :
      (fuel nbytes : ℕ) (w : W)
      → nbytes ≤ length buf
      → length buf - nbytes < fuel
      → outgoing w ≡ outgoing start ++ take nbytes buf
      → (r : Count × W) × (write_loop send fuel buf nbytes w ≡ some r)
        × HasWritten send outgoing buf start r
  unfolding write_loop write_round
  write_loop-HasWritten zero nbytes w fit enough so_far = absurd (omega arith)
  write_loop-HasWritten (suc fuel) nbytes w fit enough so_far =
      elim (Bool-cases (ltb nbytes (length buf))) [
        | inr all ↦ (
          (count nbytes, w),
          rw all refl,
          record {
            sent = nbytes;
            fits = fit;
            left = so_far;
            ended = inl (omega (arith, ltb→le nbytes (length buf) all), refl);
          },
        )
        | inl more ↦
            let room = ltb→lt nbytes (length buf) more in
            elim (Sent-cases (send (drop nbytes buf) w)) [
              | inl (n, w', e) ↦
                  let step =
                    sink.some_taken (drop nbytes buf) w w' n (omega (arith, length-drop nbytes buf))
                      e in
                  rw (more, e)
                    (write_loop-HasWritten fuel (nbytes + n) w'
                      (omega (arith, length-drop nbytes buf)) (omega arith)
                      (sink.next (drop nbytes buf) w w' n e
                        ∙ ap (λ o. o ++ take n (drop nbytes buf)) so_far
                        ∙ append_assoc (outgoing start) (take nbytes buf) (take n (drop nbytes buf))
                        ∙ ap (◌++◌ (outgoing start)) (take-add nbytes n buf)))
              | inr (err, w', e) ↦
                  let kept = sink.refused (drop nbytes buf) w w' err e ∙ so_far in
                  elim (Bool-cases (err == wsaewouldblock)) [
                    | inl block ↦ (
                      (count nbytes, w'),
                      rw (more, e, block) refl,
                      record {
                        sent = nbytes;
                        fits = fit;
                        left = kept;
                        ended = inr (w, err, e, rw block refl);
                      },
                    )
                    | inr broken ↦ (
                      (minus_one, w'),
                      rw (more, e, broken) refl,
                      record {
                        sent = nbytes;
                        fits = fit;
                        left = kept;
                        ended = inr (w, err, e, rw broken refl);
                      },
                    )
                  ]
            ]
      ]

-- WriteSome, with a send that takes bytes from the front, returns in a round more than the buffer
-- has bytes. A front part of the buffer has left, in order: all of it, for its length, or what is
-- left until the send of the rest fails. Then the result is the length of the part for
-- WSAEWOULDBLOCK and -1 for another code.
pub write_some-HasWritten :
    {W : Type 0} (send : List ℕ → W → Sent × W) (outgoing : W → List ℕ)
    → IsSink send outgoing
    → (buf : List ℕ) (w : W)
    → (r : Count × W) × (write_some send buf w ≡ some r) × HasWritten send outgoing buf w r
unfolding write_some
write_some-HasWritten send outgoing sink buf w =
    write_loop-HasWritten send outgoing sink buf w (length buf + 1) 0 w (omega arith) (omega arith)
      (sym (append-nil (outgoing w)))
