-- ===== src/Timer/Down.antt =====
-- siftdown of src/TimerSched.cpp restores the heap order below the item that it moves.
use winsock_tut.Base.{
  ℕ, zero, suc, ◌+◌, ◌-◌, ◌*◌, ◌%◌, ◌^◌, ◌≤◌, ◌<◌, ◌≡◌, ◌≢◌, ◌⊎◌, refl, ◌||◌, List, arith, ltb, leb,
  length, Bool-cases, inl, inr, i32_negative,
}
use winsock_tut.Timer.{TimerEntry, item_less, exchange, smaller_child, siftdown_loop, siftdown}
use winsock_tut.Timer.Sift.{
  parent, key, IsHeap, Sifted, Sifted-refl, Sifted-trans, slot-exchange, exchange-Sifted,
}

-- The loop was started at `x` and is now at `i`: only the edges below `i`, and the edge above
-- `x` as long as it is still there, may be out of order.
pub record IsSinking (x n : ℕ) (h : List TimerEntry) (i : ℕ) : Type 0 where
  pub room : n ≤ length h
  pub small : n ≤ 2 ^ 31
  pub start : x ≤ i
  pub inside : i < n
  pub edges : (c : ℕ) → 0 < c → c < n → parent c ≢ i → (c ≡ i → x < i) → key h (parent c) ≤ key h c
  pub bridged : (c : ℕ) → 0 < c → c < n → parent c ≡ i → 0 < i → key h (parent i) ≤ key h c

-- `j` is the child of `i` that is due first.
record IsFirstChild (n : ℕ) (h : List TimerEntry) (i j : ℕ) : Type 0 where
  inside : j < n
  child : (j ≡ 2 * i + 1) ⊎ (j ≡ 2 * i + 2)
  first : (c : ℕ) → 0 < c → c < n → parent c ≡ i → key h j ≤ key h c

smaller_child-IsFirstChild :
    (n : ℕ) (h : List TimerEntry) (i : ℕ)
    → 2 * i + 1 < n
    → IsFirstChild n h i (smaller_child h n (2 * i + 1))
unfolding smaller_child
smaller_child-IsFirstChild n h i inside = grind arith

exchange-IsSinking :
    (x n : ℕ) (h : List TimerEntry) (i j : ℕ)
    → IsSinking x n h i
    → IsFirstChild n h i j
    → key h j < key h i
    → IsSinking x n (exchange h i j) j
exchange-IsSinking x n h i j v s below =
    let room = v.room in
    let inside = v.inside in
    let inside' = s.inside in
    let at = slot-exchange h i j (omega arith) (omega arith) in
    let sifted = exchange-Sifted n h i j v.room v.inside s.inside in
    record {
      room = omega (arith, v.room, sifted.size);
      small = v.small;
      start = omega (arith, v.start, s.child);
      inside = s.inside;
      edges = λ c p q r t.
          ground (arith, at c, at (parent c), v.edges c, v.bridged j, s.first c, s.child, v.start);
      bridged = λ c p q r t. ground (arith, at c, at (parent j), v.edges c, s.child, v.start);
    }

-- What the loop leaves when it is entered at `i` and stops at `i'`.
pub record Sunk (x n i : ℕ) (h h' : List TimerEntry) (i' : ℕ) : Type 0 where
  pub sifted : Sifted n h h'
  pub stop : i ≤ i'
  pub moved : x < i' → IsHeap n h'
  pub still : i' ≡ x → h' ≡ h
  pub below : i' ≡ x → (c : ℕ) → 0 < c → c < n → c ≢ x → key h (parent c) ≤ key h c

Sunk-stop :
    (x n : ℕ) (h : List TimerEntry) (i : ℕ)
    → IsSinking x n h i
    → ((c : ℕ) → 0 < c → c < n → parent c ≡ i → key h i ≤ key h c)
    → Sunk x n i h h i
Sunk-stop x n h i v settled = record {
  sifted = Sifted-refl n h;
  stop = omega arith;
  moved = λ p c q r. ground (arith, v.edges c, settled c);
  still = λ e. refl;
  below = λ e c q r s. ground (arith, v.edges c, settled c);
}

Sunk-step :
    (x n : ℕ) (h : List TimerEntry) (i j : ℕ) {h' : List TimerEntry} {i' : ℕ}
    → IsSinking x n h i
    → i < j
    → j < n
    → Sunk x n j (exchange h i j) h' i'
    → Sunk x n i h h' i'
Sunk-step x n h i j v down inside s = record {
  sifted = Sifted-trans (exchange-Sifted n h i j v.room v.inside inside) s.sifted;
  stop = omega (arith, s.stop);
  moved = s.moved;
  still = λ e. absurd (omega (arith, s.stop, v.start));
  below = λ e. absurd (omega (arith, s.stop, v.start));
}

siftdown_loop_lem :
    (fuel x n : ℕ) (h : List TimerEntry) (i : ℕ)
    → n - i < fuel
    → IsSinking x n h i
    → Sunk x n i h (siftdown_loop fuel h n i).0 (siftdown_loop fuel h n i).1
unfolding siftdown_loop
siftdown_loop_lem zero x n h i f v = absurd (omega arith)
siftdown_loop_lem (suc fuel) x n h i f v =
    let small = v.small in
    let inside = v.inside in
    let j1 = (2 * i + 1) % 2 ^ 32 in
    elim (Bool-cases (leb n j1 || i32_negative j1)) [
      | inl leaf ↦ rw leaf (Sunk-stop x n h i v λ c p q r. absurd (ground arith))
      | inr branch ↦
          let exact : j1 ≡ 2 * i + 1 = omega arith in
          let left : 2 * i + 1 < n = ground arith in
          let s = smaller_child-IsFirstChild n h i left in
          let j = smaller_child h n (2 * i + 1) in
          let lower = s.child in
          elim (Bool-cases (item_less h j i)) [
            | inl below ↦
                rw (branch, exact, below)
                  (Sunk-step x n h i j v (omega arith) s.inside (
                    siftdown_loop_lem fuel x n (exchange h i j) j (omega arith)
                      (exchange-IsSinking x n h i j v s (ground arith))))
            | inr settled ↦
                rw (branch, exact, settled)
                  (Sunk-stop x n h i v λ c p q r. ground (arith, s.first c))
          ]
    ]

-- siftdown puts a heap in order below `x`; if it moves nothing, only the edge above `x` is open.
pub siftdown_lem :
    (x n : ℕ) (h : List TimerEntry)
    → IsSinking x n h x
    → (i' : ℕ) × Sunk x n x h (siftdown h x n).0 i' × ((siftdown h x n).1 ≡ ltb x i')
unfolding siftdown
siftdown_lem x n h v =
    ((siftdown_loop (suc n) h n x).1, siftdown_loop_lem (suc n) x n h x (omega arith) v, refl)

-- From the root there is no edge above: the whole heap is in order.
pub siftdown_root :
    (n : ℕ) (h : List TimerEntry)
    → IsSinking 0 n h 0
    → IsHeap n (siftdown h 0 n).0 × Sifted n h (siftdown h 0 n).0
siftdown_root n h v =
    let (i', s, done) = siftdown_lem 0 n h v in
    let ordered : IsHeap n (siftdown h 0 n).0 = elim (Bool-cases (ltb 0 i')) [
      | inl moved ↦ s.moved (ground arith)
      | inr stays ↦
          let e : i' ≡ 0 = ground arith in rw (s.still e) (λ c p q. s.below e c p q (omega arith))
    ] in
    (ordered, s.sifted)
