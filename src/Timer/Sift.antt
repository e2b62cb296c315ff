-- ===== src/Timer/Sift.antt =====
-- What the two loops of TimerSched.cpp keep: the entries, and their index fields.
use mathlib.Core.List.Perm
use winsock_tut.Base.{
  ℕ, zero, suc, ◌-◌, ◌/◌, ◌≤◌, ◌<◌, ◌≡◌, refl, ap, ◌∙◌, Option, List, [], ◌∷◌, map, Perm, arith,
  ◌==◌, if◌then◌else◌, length, get_or, set, length-set, get_or-set, perm-set,
}
use winsock_tut.Timer.{TimerEntry, blank_entry, slot, due_at, swap, set_index, exchange}

-- A timer without its place in the heap.
pub record Timer : Type 0 where
  pub id : ℕ
  pub expire : ℕ
  pub sink : Option ℕ

abbrev pub timer_of : TimerEntry → Timer
timer_of e = record { id = e.id; expire = e.expire; sink = e.sink }

abbrev pub timers : List TimerEntry → List Timer
timers h = map timer_of h

abbrev pub parent : ℕ → ℕ
parent c = (c - 1) / 2

-- The time at which the entry in slot `i` is due.
abbrev pub key : List TimerEntry → ℕ → ℕ
key h i = due_at (slot h i)

-- The first `n` entries know their slots.
abbrev pub IsPlaced : ℕ → List TimerEntry → Type 0
IsPlaced n h = (k : ℕ) → k < n → (slot h k).index ≡ k

-- The first `n` entries are in heap order.
abbrev pub IsHeap : ℕ → List TimerEntry → Type 0
IsHeap n h = (c : ℕ) → 0 < c → c < n → key h (parent c) ≤ key h c

-- `b` holds the timers of `a`; only the first `n` slots were touched, and they are still placed.
pub record Sifted (n : ℕ) (a b : List TimerEntry) : Type 0 where
  pub size : length b ≡ length a
  pub same : Perm (timers b) (timers a)
  pub placed : IsPlaced n a → IsPlaced n b
  pub frame : (k : ℕ) → n ≤ k → slot b k ≡ slot a k

pub Sifted-refl : (n : ℕ) (a : List TimerEntry) → Sifted n a a
Sifted-refl n a = record { size = refl; same = Perm.rfl; placed = λ p. p; frame = λ k h. refl }

pub Sifted-trans : {n : ℕ} {a b c : List TimerEntry} → Sifted n a b → Sifted n b c → Sifted n a c
Sifted-trans s t = record {
  size = t.size ∙ s.size;
  same = Perm.trans t.same s.same;
  placed = λ p. t.placed (s.placed p);
  frame = λ k h. t.frame k h ∙ s.frame k h;
}

pub length-swap : (h : List TimerEntry) (i j : ℕ) → length (swap h i j) ≡ length h
unfolding swap
length-swap h i j = simp length-set

pub length-set_index : (h : List TimerEntry) (i k : ℕ) → length (set_index h i k) ≡ length h
unfolding set_index
length-set_index h i k = length-set h i _

pub length-exchange : (h : List TimerEntry) (i j : ℕ) → length (exchange h i j) ≡ length h
unfolding exchange
length-exchange h i j = simp length-set

pub slot-set_index :
    (h : List TimerEntry) (i k c : ℕ)
    → i < length h
    → slot (set_index h i k) c ≡ (if i == c then record (slot h i) { index = k } else slot h c)
unfolding set_index
slot-set_index h i k c hi = get_or-set h i c _ blank_entry hi

module _ (h : List TimerEntry) (i j : ℕ) (hi : i < length h) (hj : j < length h) where
  pub slot-swap :
      (c : ℕ)
      → slot (swap h i j) c ≡ (if j == c then slot h i else if i == c then slot h j else slot h c)
  unfolding swap
  slot-swap c = ground (
    arith,
    get_or-set (set h i (slot h j)) j c (slot h i) blank_entry,
    get_or-set h i c (slot h j) blank_entry,
    length-set h i (slot h j),
  )

  pub slot-exchange :
      (c : ℕ)
      → slot (exchange h i j) c ≡ (
          if j == c
          then record (slot h i) { index = j }
          else if i == c
          then record (slot h j) { index = i }
          else slot h c)
  unfolding exchange
  slot-exchange c =
      let b = swap h i j in
      let b' = set_index b i i in
      let size : length b ≡ length h = length-swap h i j in
      let size' : length b' ≡ length h = length-set_index b i i ∙ size in
      ground (
        arith,
        slot-set_index b' j j c,
        slot-set_index b i i c,
        slot-set_index b i i j,
        slot-swap c,
        slot-swap i,
        slot-swap j,
      )

pub timers-set_index : (h : List TimerEntry) (i k : ℕ) → timers (set_index h i k) ≡ timers h
unfolding set_index get_or
timers-set_index [] i k = refl
timers-set_index (x ∷ h) zero k = refl
timers-set_index (x ∷ h) (suc i) k = ap (◌∷◌ (timer_of x)) (timers-set_index h i k)

pub swap-perm : (h : List TimerEntry) (i j : ℕ) → i < length h → j < length h → Perm (swap h i j) h
unfolding swap
swap-perm h i j hi hj =
    let b = set h i (slot h j) in
    let kept : slot b j ≡ slot h j = ground (arith, get_or-set h i j (slot h j) blank_entry) in
    let second =
      rw kept at (perm-set b j (slot h i) blank_entry (rw (length-set h i (slot h j)) hj)) in
    Perm.cons_inv (Perm.trans second (perm-set h i (slot h j) blank_entry hi))

pub timers-swap :
    (h : List TimerEntry) (i j : ℕ)
    → i < length h
    → j < length h
    → Perm (timers (swap h i j)) (timers h)
timers-swap h i j hi hj = Perm.map timer_of (swap-perm h i j hi hj)

pub timers-exchange :
    (h : List TimerEntry) (i j : ℕ)
    → i < length h
    → j < length h
    → Perm (timers (exchange h i j)) (timers h)
unfolding exchange
timers-exchange h i j hi hj =
    rw (timers-set_index (set_index (swap h i j) i i) j j, timers-set_index (swap h i j) i i)
      (timers-swap h i j hi hj)

pub exchange-Sifted :
    (n : ℕ) (h : List TimerEntry) (i j : ℕ)
    → n ≤ length h
    → i < n
    → j < n
    → Sifted n h (exchange h i j)
exchange-Sifted n h i j room hi hj = record {
  size = length-exchange h i j;
  same = timers-exchange h i j (omega arith) (omega arith);
  placed = λ p k hk. ground (arith, slot-exchange h i j (omega arith) (omega arith) k, p k);
  frame = λ k hk. ground (arith, slot-exchange h i j (omega arith) (omega arith) k);
}

-- The root of a heap is due first.
root_first_below :
    (f n : ℕ) (h : List TimerEntry) (c : ℕ) → IsHeap n h → c < f → c < n → key h 0 ≤ key h c
root_first_below zero n h c v hf hc = absurd (omega arith)
root_first_below (suc f) n h zero v hf hc = omega arith
root_first_below (suc f) n h (suc c) v hf hc = omega (
  arith,
  v (suc c) (omega arith) hc,
  root_first_below f n h (parent (suc c)) v (omega arith) (omega arith),
)

pub root_first : (n : ℕ) (h : List TimerEntry) (c : ℕ) → IsHeap n h → c < n → key h 0 ≤ key h c
root_first n h c v hc = root_first_below (suc c) n h c v (omega arith) hc
