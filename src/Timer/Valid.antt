-- ===== src/Timer/Valid.antt =====
-- The invariant of TimerSched, and its bookkeeping of ids.
use mathlib.Core.Path.{subst}
use mathlib.Core.List.{
  Mem, Nodup, Nodup-nil, Nodup-cons, mem-cons, not-mem-nil, mem-cons_self, mem-cons_of_mem,
}
use mathlib.Core.Logic.Or
use mathlib.Core.List.Perm
use winsock_tut.Base.{
  ℕ, suc, ◌^◌, ◌≤◌, ◌<◌, ◌≡◌, ◌≢◌, refl, true, false, List, [], ◌∷◌, map, none, some, arith, ◌==◌,
  length, get_or, length-map, length-perm, Bool-cases, inl, inr,
}
use winsock_tut.Timer.{TimerEntry, TimerSched, new_sched, slot, erase, contains, find_entry}
use winsock_tut.Timer.Sift.{Timer, timer_of, timers, IsHeap, IsPlaced}
use winsock_tut.Timer.Cut.{Without}

abbrev pub id_of : Timer → ℕ
id_of t = t.id

abbrev pub ids : List TimerEntry → List ℕ
ids h = map id_of (timers h)

-- The heap is in order and knows its slots, the ids are distinct and not yet to be given, and
-- ref_ has a pointer for each. It may hold more: pointers to entries that have been freed.
pub record IsValid (s : TimerSched) : Type 0 where
  pub heap : IsHeap (length s.heap) s.heap
  pub placed : IsPlaced (length s.heap) s.heap
  pub small : length s.heap ≤ 2 ^ 31
  pub positive : s.next_id < 2 ^ 31
  pub fresh : (k : ℕ) → Mem k (ids s.heap) → k < s.next_id
  pub distinct : Nodup (ids s.heap)
  pub known : (k : ℕ) → Mem k (ids s.heap) → contains k s.ref ≡ true

-- The scheduler that the constructor makes.
pub new_sched-IsValid : IsValid new_sched
new_sched-IsValid = record {
  heap = λ c p q. absurd (omega arith);
  placed = λ k q. absurd (omega arith);
  small = omega arith;
  positive = omega arith;
  fresh = λ k m. absurd (not-mem-nil m);
  distinct = Nodup-nil;
  known = λ k m. absurd (not-mem-nil m);
}

pub contains-erase_ne : (k j : ℕ) (ks : List ℕ) → j ≢ k → contains k (erase j ks) ≡ contains k ks
unfolding contains erase
contains-erase_ne k j [] h = refl
contains-erase_ne k j (x ∷ ks) h = ground (arith, contains-erase_ne k j ks h)

pub contains-erase_self : (k : ℕ) (ks : List ℕ) → contains k (erase k ks) ≡ false
unfolding contains erase
contains-erase_self k [] = refl
contains-erase_self k (x ∷ ks) = ground (arith, contains-erase_self k ks)

pub find_entry-none : (k : ℕ) (h : List TimerEntry) → find_entry k h ≡ none → ¬ Mem k (ids h)
unfolding find_entry
find_entry-none k [] e m = not-mem-nil m
find_entry-none k (x ∷ h) e m =
    Or.elim (λ a. elim a [ ]) (mem-cons.0 m) (λ hit. ground arith)
      (find_entry-none k h (ground arith))

pub find_entry_gone : (k : ℕ) (h : List TimerEntry) → ¬ Mem k (ids h) → find_entry k h ≡ none
unfolding find_entry
find_entry_gone k [] gone = refl
find_entry_gone k (x ∷ h) gone = elim (Bool-cases (x.id == k)) [
  | inl hit ↦
      let e : x.id ≡ k = ground arith in
      absurd (gone (subst (λ j. Mem j (ids (x ∷ h))) e mem-cons_self))
  | inr miss ↦ rw miss (find_entry_gone k h (λ m. gone (mem-cons_of_mem x.id m)))
]

pub find_entry-some :
    (k : ℕ) (h : List TimerEntry) (e : TimerEntry)
    → find_entry k h ≡ some e
    → (i : ℕ) × (i < length h) × (slot h i ≡ e) × (e.id ≡ k)
unfolding find_entry get_or
find_entry-some k [] e found = cc
find_entry-some k (x ∷ h) e found = elim (Bool-cases (x.id == k)) [
  | inl hit ↦ (0, omega arith, ground arith, ground arith)
  | inr miss ↦
      let (i, inside, at, same) = find_entry-some k h e (ground arith) in
      (suc i, omega arith, at, same)
]

-- What is left of a valid scheduler when a timer is taken out of its heap.
pub Without-IsValid :
    (s : TimerSched) (t : Timer) (b : List TimerEntry) (ref : List ℕ)
    → IsValid s
    → Without t s.heap b
    → ((k : ℕ) → k ≢ t.id → contains k s.ref ≡ true → contains k ref ≡ true)
    → IsValid (record s { heap = b; ref = ref }) × (¬ Mem t.id (ids b))
Without-IsValid s t b ref v w keeps =
    let same = Perm.map id_of w.rest in
    let size : suc (length b) ≡ length s.heap =
      rw (length-map timer_of b, length-map timer_of s.heap) at (length-perm w.rest) in
    let apart = Nodup-cons.0 (Perm.nodup (Perm.symm same) v.distinct) in
    let old = λ (k : ℕ) (m : Mem k (ids b)). (Perm.mem_iff same).0 (mem-cons_of_mem t.id m) in
    (
      record {
        heap = w.heap;
        placed = w.placed;
        small = omega (arith, v.small);
        positive = v.positive;
        fresh = λ k m. v.fresh k (old k m);
        distinct = apart.1;
        known =
            λ k m. keeps k (λ e. apart.0 (subst (λ j. Mem j (ids b)) e m)) (v.known k (old k m));
      },
      apart.0,
    )
