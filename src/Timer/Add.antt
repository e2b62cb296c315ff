-- ===== src/Timer/Add.antt =====
-- AddTimer of src/TimerSched.cpp.
use mathlib.Core.List.{mem-cons, Nodup-cons, map-append, perm_middle, append-nil}
use mathlib.Core.Logic.Or
use mathlib.Core.List.Perm
use native.Mathlib.Bridge.{le_prop}
use winsock_tut.Base.{
  ℕ, suc, ◌+◌, ◌-◌, ◌%◌, ◌^◌, ◌<◌, ◌≡◌, ◌⊎◌, refl, sym, ◌∙◌, true, List, [], ◌∷◌, ◌++◌, Perm,
  Option, arith, ◌==◌, length, length-append, get_or-append, get_or-append_last, Bool-cases, inl,
  inr, i32_extend,
}
use winsock_tut.Timer.{TimerEntry, TimerSched, blank_entry, contains, add_timer}
use winsock_tut.Timer.Sift.{Timer, timer_of, timers, parent, IsHeap, IsPlaced, Sifted}
use winsock_tut.Timer.Up.{IsRising, siftup_lem}
use winsock_tut.Timer.Valid.{IsValid, id_of, ids, contains-erase_ne}

-- The vector with a new entry at its end, whose only open edge is the last.
grown-IsRising :
    (h : List TimerEntry) (e : TimerEntry)
    → IsHeap (length h) h
    → IsRising (suc (length h)) (h ++ e ∷ []) (length h)
grown-IsRising h e heap = record {
  room = omega (arith, length-append h (e ∷ []));
  inside = omega arith;
  edges = λ c p q r. ground (
    arith,
    heap c,
    get_or-append h (e ∷ []) c blank_entry,
    get_or-append h (e ∷ []) (parent c) blank_entry,
  );
  bridged = λ c p q r t. absurd (omega arith);
}

grown-IsPlaced :
    (h : List TimerEntry) (e : TimerEntry)
    → IsPlaced (length h) h
    → e.index ≡ length h
    → IsPlaced (suc (length h)) (h ++ e ∷ [])
grown-IsPlaced h e placed at k hk = elim (Bool-cases (k == length h)) [
  | inl last ↦
      let same : k ≡ length h = ground arith in rw (same, get_or-append_last h e blank_entry) at
  | inr other ↦ rw (get_or-append h (e ∷ []) k blank_entry (ground arith)) (placed k (ground arith))
]

-- What a call with these arguments adds to the timers.
abbrev pub added : ℕ → ℕ → Option ℕ → TimerSched → Timer
added tick millsec event s = record {
  id = s.next_id;
  expire = (tick + i32_extend millsec) % 2 ^ 64;
  sink = event;
}

module _ (tick millsec : ℕ) (event : Option ℕ) (s : TimerSched) (v : IsValid s)
    (room : length s.heap < 2 ^ 31) (left : s.next_id + 1 < 2 ^ 31) where
  abbrev after : TimerSched
  after = (add_timer tick millsec event s).0

  abbrev entry : TimerEntry
  entry = record {
    index = length s.heap % 2 ^ 32;
    id = s.next_id;
    expire = (tick + i32_extend millsec) % 2 ^ 64;
    sink = event;
  }

  abbrev grown : List TimerEntry
  grown = s.heap ++ entry ∷ []

  grown-size : length grown ≡ suc (length s.heap)
  grown-size = omega (arith, length-append s.heap (entry ∷ []))

  raised : IsHeap (suc (length s.heap)) after.heap × Sifted (suc (length s.heap)) grown after.heap
  unfolding add_timer
  raised =
      let at : length grown - 1 ≡ length s.heap = omega (arith, grown-size) in
      rw at (
        siftup_lem (suc (length s.heap)) grown (length s.heap) (grown-IsRising s.heap entry v.heap))

  gained : Perm (timers after.heap) (added tick millsec event s ∷ timers s.heap)
  gained = Perm.trans raised.1.same (
      rw (sym (map-append timer_of s.heap (entry ∷ []))) at
        (rw (append-nil (timers s.heap)) at (perm_middle {a = timer_of entry} (timers s.heap) [])))

  gained-ids : Perm (ids after.heap) (s.next_id ∷ ids s.heap)
  gained-ids = Perm.map id_of gained

  grown-known : (k : ℕ) → (k ≡ s.next_id) ⊎ (contains k s.ref ≡ true) → contains k after.ref ≡ true
  unfolding add_timer contains
  grown-known k (inl e) = ground arith
  grown-known k (inr h) = ground (arith, contains-erase_ne k s.next_id s.ref)

  after-IsValid : IsValid after
  after-IsValid =
      let sifted = raised.1 in
      let size : length after.heap ≡ suc (length s.heap) = sifted.size ∙ grown-size in
      record {
        heap = rw size raised.0;
        placed = rw size (sifted.placed (grown-IsPlaced s.heap entry v.placed (omega arith)));
        small = omega arith;
        positive = unfold add_timer in omega arith;
        fresh = λ k m.
            Or.elim le_prop (mem-cons.0 ((Perm.mem_iff gained-ids).0 m))
              (λ e. unfold add_timer in omega (arith, e))
              (λ old. unfold add_timer in omega (arith, v.fresh k old));
        distinct =
            Perm.nodup (Perm.symm gained-ids)
              (Nodup-cons.1 ((λ m. absurd (omega (arith, v.fresh s.next_id m))), v.distinct));
        known = λ k m.
            Or.elim (hlevel) (mem-cons.0 ((Perm.mem_iff gained-ids).0 m))
              (λ e. grown-known k (inl e)) (λ old. grown-known k (inr (v.known k old)));
      }

  -- AddTimer on a valid scheduler with room in its heap and an id left keeps it valid, returns the
  -- next id, and adds exactly one timer: it has that id, the callback object, and the tick count
  -- plus the sign-extended delay as its time.
  pub add_timer_lem :
      IsValid after
      × ((add_timer tick millsec event s).1 ≡ s.next_id)
      × Perm (timers after.heap) (added tick millsec event s ∷ timers s.heap)
  add_timer_lem = (after-IsValid, unfold add_timer in refl, gained)
