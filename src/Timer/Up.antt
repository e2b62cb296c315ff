-- ===== src/Timer/Up.antt =====
-- siftup of src/TimerSched.cpp restores the heap order above the item that it moves.
use winsock_tut.Base.{
  ℕ, zero, suc, ◌≤◌, ◌<◌, ◌≡◌, ◌≢◌, not, ◌||◌, List, arith, ◌==◌, length, Bool-cases, inl, inr,
}
use winsock_tut.Timer.{TimerEntry, item_less, exchange, siftup_loop, siftup}
use winsock_tut.Timer.Sift.{
  parent, key, IsHeap, Sifted, Sifted-refl, Sifted-trans, slot-exchange, exchange-Sifted,
}

-- Only the edge above `j` may be out of order.
pub record IsRising (n : ℕ) (h : List TimerEntry) (j : ℕ) : Type 0 where
  pub room : n ≤ length h
  pub inside : j < n
  pub edges : (c : ℕ) → 0 < c → c < n → c ≢ j → key h (parent c) ≤ key h c
  pub bridged : (c : ℕ) → 0 < c → c < n → parent c ≡ j → 0 < j → key h (parent j) ≤ key h c

exchange-IsRising :
    (n : ℕ) (h : List TimerEntry) (j : ℕ)
    → IsRising n h j
    → parent j ≢ j
    → key h j < key h (parent j)
    → IsRising n (exchange h (parent j) j) (parent j)
exchange-IsRising n h j v up below =
    let at =
      slot-exchange h (parent j) j (omega (arith, v.inside, v.room))
        (omega (arith, v.inside, v.room)) in
    let sifted = exchange-Sifted n h (parent j) j v.room (omega (arith, v.inside)) v.inside in
    record {
      room = omega (arith, v.room, sifted.size);
      inside = omega (arith, v.inside);
      edges = λ c p q r. ground (arith, at c, at (parent c), v.edges c, v.bridged c);
      bridged =
          λ c p q r s. ground (arith, at c, at (parent (parent j)), v.edges c, v.edges (parent j));
    }

pub siftup_loop_lem :
    (fuel n : ℕ) (h : List TimerEntry) (j : ℕ)
    → j < fuel
    → IsRising n h j
    → IsHeap n (siftup_loop fuel h j) × Sifted n h (siftup_loop fuel h j)
unfolding siftup_loop
siftup_loop_lem zero n h j f v = absurd (omega arith)
siftup_loop_lem (suc fuel) n h j f v =
    elim (Bool-cases (parent j == j || not (item_less h j (parent j)))) [
      | inl stop ↦ rw stop ((λ c p q. ground (arith, v.edges c)), Sifted-refl n h)
      | inr go ↦
          let up : parent j ≢ j = ground arith in
          let below : key h j < key h (parent j) = ground arith in
          let h' = exchange h (parent j) j in
          let (heap, sifted) =
            siftup_loop_lem fuel n h' (parent j) (omega arith)
              (exchange-IsRising n h j v up below) in
          rw go (
            heap,
            Sifted-trans
                (exchange-Sifted n h (parent j) j v.room (omega (arith, v.inside)) v.inside) sifted,
          )
    ]

-- siftup turns a heap with one item too low in the tree into a heap of the same timers.
pub siftup_lem :
    (n : ℕ) (h : List TimerEntry) (j : ℕ)
    → IsRising n h j
    → IsHeap n (siftup h j) × Sifted n h (siftup h j)
unfolding siftup
siftup_lem n h j v = siftup_loop_lem (suc j) n h j (omega arith) v
