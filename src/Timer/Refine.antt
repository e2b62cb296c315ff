-- ===== src/Timer/Refine.antt =====
-- The scheduler of src/TimerSched.cpp as an agenda: the timers without an order, and the next id.
-- What the heap, its back references and ref_ are for is not seen.
use mathlib.Core.List.{Mem, filter, mem-cons, mem-map_of_mem, not-mem-nil}
use mathlib.Core.List.Perm
use mathlib.Core.Logic.Dec
use mathlib.Core.Logic.Or
use native.Mathlib.Bridge.{le_prop}
use native.Mathlib.Nat.{ℕ_set}
use mathlib.Core.Option
use native.Mathlib.Decide.{dec_le, ℕ_discrete}
use winsock_tut.Base.{
  ℕ, suc, ◌+◌, ◌%◌, ◌^◌, ◌≤◌, ◌<◌, ◌≡◌, refl, sym, ap, ◌∙◌, List, [], ◌∷◌, ◌++◌, Perm, Option, none,
  some, map, arith, filter_parts, filter_rest, length, length-map, length-perm, i64_rank,
  i32_extend,
}
use winsock_tut.Timer.{TimerEntry, TimerSched, add_timer, cancel_timer, update_timer, alone}
use winsock_tut.Timer.Sift.{Timer, timer_of, timers}
use winsock_tut.Timer.Valid.{IsValid, id_of}
use winsock_tut.Timer.Update.{rank}
use winsock_tut.Timer.Add.{add_timer_lem}
use winsock_tut.Timer.Cancel.{Cancelled, cancel_timer_lem}
use winsock_tut.Timer.Expiry.{Expired, AllDue, update_timer_lem}

pub record Agenda : Type 0 where
  pub next_id : ℕ
  pub pending : List Timer

-- A call of the scheduler, with what it reads: AddTimer, CancelTimer, and UpdateTimer.
pub data Call : Type 0 where
  schedule : ℕ → ℕ → Option ℕ → Call
  cancel : ℕ → Call
  advance : ℕ → Call

-- A timer is due at a tick count.
abbrev pub is_due : (tick : ℕ) (t : Timer) → Dec (rank t ≤ i64_rank (tick % 2 ^ 64))
is_due tick t = dec_le (rank t) (i64_rank (tick % 2 ^ 64))

abbrev pub has_id : (id : ℕ) (t : Timer) → Dec (t.id ≡ id)
has_id id t = ℕ_discrete t.id id

-- What a call comes to for the agenda, with the timers that are fired.
abbrev pub plan : Call → Agenda → Agenda × List Timer
plan (schedule tick millsec event) g = (
  record {
    next_id = g.next_id + 1;
    pending =
        record { id = g.next_id; expire = (tick + i32_extend millsec) % 2 ^ 64; sink = event }
        ∷ g.pending;
  },
  [],
)
plan (cancel id) g = (record g { pending = filter (λ t. Dec.not (has_id id t)) g.pending }, [])
plan (advance tick) g = (
  record g { pending = filter (λ t. Dec.not (is_due tick t)) g.pending },
  filter (is_due tick) g.pending,
)

-- The same call of the scheduler, whose callbacks do nothing.
unfoldable pub perform : Call → TimerSched → Option (TimerSched × List Timer)
perform (schedule tick millsec event) s = some ((add_timer tick millsec event s).0, [])
perform (cancel id) s = Option.map (λ s'. (s', [])) (cancel_timer id s)
perform (advance tick) s =
    Option.map (λ r. (r.0, timers r.1)) (update_timer alone (λ k s. s) (suc (length s.heap)) tick s)

-- A sequence of calls for the agenda, with the timers that were fired before.
abbrev pub plans : List Call → Agenda → List Timer → Agenda × List Timer
plans [] g out = (g, out)
plans (c ∷ cs) g out = plans cs (plan c g).0 (out ++ (plan c g).1)

-- A sequence of calls, with the timers that were fired before.
unfoldable pub performs : List Call → TimerSched → List Timer → Option (TimerSched × List Timer)
performs [] s out = some (s, out)
performs (c ∷ cs) s out = elim (perform c s) [ none ↦ none | some r ↦ performs cs r.0 (out ++ r.1) ]

-- What a call needs: an id and room for a new timer, and a timer that is pending to cancel it.
abbrev pub Permits : Call → Agenda → Type 0
Permits (schedule tick millsec event) g = (length g.pending < 2 ^ 31) × (g.next_id + 1 < 2 ^ 31)
Permits (cancel id) g = Mem id (map id_of g.pending)
Permits (advance tick) g = Unit {0}

abbrev pub PermitsAll : List Call → Agenda → Type 0
PermitsAll [] g = Unit {0}
PermitsAll (c ∷ cs) g = Permits c g × PermitsAll cs (plan c g).0

-- A valid scheduler that holds the timers of the agenda.
pub record Simulates (s : TimerSched) (g : Agenda) : Type 0 where
  pub valid : IsValid s
  pub next_id : s.next_id ≡ g.next_id
  pub pending : Perm (timers s.heap) g.pending

-- What a call of the scheduler must come to for the one of the agenda.
pub record Follows (r : TimerSched × List Timer) (p : Agenda × List Timer) : Type 0 where
  pub state : Simulates r.0 p.0
  pub fired : Perm r.1 p.1

AllDue-mem :
    (now : ℕ) (es : List TimerEntry)
    → AllDue now es
    → (t : Timer) → Mem t (timers es)
    → rank t ≤ i64_rank now
AllDue-mem now [] all t m = absurd (not-mem-nil m)
AllDue-mem now (e ∷ es) (due, all) t m =
    Or.elim le_prop (mem-cons.0 m) (λ same. rw same due) (λ old. AllDue-mem now es all t old)

module _ (s : TimerSched) (g : Agenda) (sim : Simulates s g) where
  schedule-Follows :
      (tick millsec : ℕ) (event : Option ℕ)
      → Permits (schedule tick millsec event) g
      → Follows ((add_timer tick millsec event s).0, []) (plan (schedule tick millsec event) g)
  schedule-Follows tick millsec event (room, left) =
      let size : length s.heap < 2 ^ 31 =
        omega (arith, length-perm sim.pending, length-map timer_of s.heap) in
      let (valid, _, gained) =
        add_timer_lem tick millsec event s sim.valid size (omega (arith, sim.next_id)) in
      record {
        state = record {
          valid = valid;
          next_id = unfold add_timer in omega (arith, sim.next_id);
          pending = Perm.trans gained (rw sim.next_id (Perm.cons _ sim.pending));
        };
        fired = Perm.rfl;
      }

  cancel-Follows :
      (id : ℕ) (s' : TimerSched) (t : Timer)
      → t.id ≡ id
      → Cancelled s s' t
      → Follows (s', []) (plan (cancel id) g)
  cancel-Follows id s' t same w =
      let others =
        filter_rest (λ x. Dec.not (has_id id x)) (t ∷ []) (timers s'.heap)
          (λ x m differs. differs rw (sym same) (
            Or.elim (ℕ_set x.id t.id) (mem-cons.0 m) (λ e. ap id_of e)
              (λ z. absurd (not-mem-nil z))))
          (λ x m e. w.gone (rw (same ∙ sym e) (mem-map_of_mem id_of m))) in
      record {
        state = record {
          valid = w.valid;
          next_id = w.count ∙ sim.next_id;
          pending =
              rw others at
                (Perm.filter (λ x. Dec.not (has_id id x)) (Perm.trans w.rest sim.pending));
        };
        fired = Perm.rfl;
      }

  advance-Follows :
      (tick : ℕ) (s' : TimerSched) (fired : List TimerEntry)
      → Expired (tick % 2 ^ 64) 0 s s' fired
      → Follows (s', timers fired) (plan (advance tick) g)
  advance-Follows tick s' fired x =
      let ripe = AllDue-mem (tick % 2 ^ 64) fired x.ripe in
      let rest : (t : Timer) → Mem t (timers s'.heap) → ¬ (rank t ≤ i64_rank (tick % 2 ^ 64)) =
        λ t m due. omega (arith, x.rest t m, due) in
      let whole = Perm.trans x.same sim.pending in
      record {
        state = record {
          valid = x.valid;
          next_id = x.count ∙ sim.next_id;
          pending =
              rw
                (filter_rest (λ t. Dec.not (is_due tick t)) (timers fired) (timers s'.heap)
                  (λ t m late. late (ripe t m)) rest)
                at (Perm.filter (λ t. Dec.not (is_due tick t)) whole);
        };
        fired =
            rw (filter_parts (is_due tick) (timers fired) (timers s'.heap) ripe rest) at
              (Perm.filter (is_due tick) whole);
      }

perform-plan :
    (c : Call) (s : TimerSched) (g : Agenda)
    → Simulates s g
    → Permits c g
    → (r : TimerSched × List Timer) × (perform c s ≡ some r) × Follows r (plan c g)
unfolding perform
perform-plan (schedule tick millsec event) s g sim permits =
    (_, refl, schedule-Follows s g sim tick millsec event permits)
perform-plan (cancel id) s g sim m =
    let known = (Perm.mem_iff (Perm.map id_of sim.pending)).1 m in
    let (s', t, runs, same, w) = cancel_timer_lem id s sim.valid known in
    (_, rw runs refl, cancel-Follows s g sim id s' t same w)
perform-plan (advance tick) s g sim permits =
    let (s', fired, runs, x) =
      update_timer_lem alone (λ k s. s) (λ k r. refl) (suc (length s.heap)) tick s (omega arith)
        sim.valid in
    (_, rw runs refl, advance-Follows s g sim tick s' fired x)

-- From a valid scheduler that holds the timers of an agenda, a sequence of calls that the agenda
-- permits, with callbacks that do nothing, returns: it ends in a valid scheduler that holds the
-- timers of the agenda after the same calls, and what it has fired on top of `out` is, up to the
-- order, what the agenda has fired on top of `fired`, if the two start equal up to the order.
pub performs-plans :
    (cs : List Call) (s : TimerSched) (g : Agenda) (out fired : List Timer)
    → Simulates s g
    → PermitsAll cs g
    → Perm out fired
    → (r : TimerSched × List Timer) × (performs cs s out ≡ some r) × Follows r (plans cs g fired)
unfolding performs
performs-plans [] s g out fired sim permits same =
    ((s, out), refl, record { state = sim; fired = same })
performs-plans (c ∷ cs) s g out fired sim (permits, later) same =
    let (r, runs, follows) = perform-plan c s g sim permits in
    rw (performs, runs)
      (performs-plans cs r.0 (plan c g).0 (out ++ r.1) (fired ++ (plan c g).1) follows.state later
        (Perm.append same follows.fired))
