-- ===== src/Timer.antt =====
-- src/TimerSched.h and src/TimerSched.cpp: timers in a binary min-heap with back references.
--
-- The vector heap_ of pointers is a list of the entries that they point to: each entry is owned by
-- one slot. The map ref_ from ids to pointers is the list of its keys: the pointer under a key is
-- that of the entry with the key as its id, allocated in the same call, and it dangles once that
-- entry has left the heap. GetTickCount64 is an argument of the calls that read the clock.
-- An int or int64_t is its bit pattern. Indices are positions of a heap below 2 ^ 31 entries.
pub mod Sift
pub mod Down
pub mod Cut
pub mod Valid
pub mod Add
pub mod Cancel
pub mod Update
pub mod Expiry
pub mod Callbacks
pub mod Refine
pub mod Frame
mod Tests
pub mod Up
use winsock_tut.Base.{
  ℕ, zero, suc, ◌+◌, ◌-◌, ◌*◌, ◌/◌, ◌%◌, ◌^◌, ◌≡◌, refl, Bool, false, not, ◌&&◌, ◌||◌, List, [],
  ◌∷◌, ◌++◌, Option, none, some, ltb, leb, ◌==◌, if◌then◌else◌, length, get_or, set, take, i64_rank,
  i32_rank, i32_extend, i32_negative,
}

-- `sink` is a pointer to the callback object, none for the null pointer.
pub record TimerEntry : Type 0 where
  pub index : ℕ
  pub id : ℕ
  pub expire : ℕ
  pub sink : Option ℕ

-- What the constructor of an entry makes.
abbrev pub blank_entry : TimerEntry
blank_entry = record { index = 0; id = 0; expire = 0; sink = none }

pub record TimerSched : Type 0 where
  pub next_id : ℕ
  pub heap : List TimerEntry
  pub ref : List ℕ

abbrev pub new_sched : TimerSched
new_sched = record { next_id = 100; heap = []; ref = [] }

-- `heap_[i]`
abbrev pub slot : List TimerEntry → ℕ → TimerEntry
slot h i = get_or h i blank_entry

-- The expire time as a number that is ordered like the int64_t.
abbrev pub due_at : TimerEntry → ℕ
due_at e = i64_rank e.expire

-- HEAP_ITEM_LESS
abbrev pub item_less : List TimerEntry → ℕ → ℕ → Bool
item_less h i j = ltb (due_at (slot h i)) (due_at (slot h j))

-- `std::swap(heap_[i], heap_[j])`
pub swap : List TimerEntry → ℕ → ℕ → List TimerEntry
swap h i j = set (set h i (slot h j)) j (slot h i)

-- `heap_[i]->index = k`
pub set_index : List TimerEntry → ℕ → ℕ → List TimerEntry
set_index h i k = set h i (record (slot h i) { index = k })

-- The three statements with which both loops move an item.
pub exchange : List TimerEntry → ℕ → ℕ → List TimerEntry
unfolding swap set_index
exchange h i j = set_index (set_index (swap h i j) i i) j j

-- The child that the item at `i` is compared with; `j1 + 1` does not overflow where it is compared.
pub smaller_child : List TimerEntry → ℕ → ℕ → ℕ
smaller_child h n j1 = let j2 = j1 + 1 in if ltb j2 n && not (item_less h j1 j2) then j2 else j1

-- The loop of siftdown from `i`, with the last value of `i`.
pub siftdown_loop : ℕ → List TimerEntry → ℕ → ℕ → List TimerEntry × ℕ
siftdown_loop zero h n i = (h, i)
siftdown_loop (suc fuel) h n i =
    let j1 = (2 * i + 1) % 2 ^ 32 in
    let j = smaller_child h n j1 in
    let next = siftdown_loop fuel (exchange h i j) n j in
    if leb n j1 || i32_negative j1 then (h, i) else if not (item_less h j i) then (h, i) else next

-- Each round at least doubles `i`, so `n` rounds are enough.
unfoldable pub siftdown : List TimerEntry → ℕ → ℕ → List TimerEntry × Bool
unfolding siftdown_loop smaller_child exchange
siftdown h x n = let (h', i) = siftdown_loop (suc n) h n x in (h', ltb x i)

-- `(j - 1) / 2` is 0 for `j = 0`, in the source as here.
pub siftup_loop : ℕ → List TimerEntry → ℕ → List TimerEntry
siftup_loop zero h j = h
siftup_loop (suc fuel) h j =
    let i = (j - 1) / 2 in
    let next = siftup_loop fuel (exchange h i j) i in
    if i == j || not (item_less h j i) then h else next

unfoldable pub siftup : List TimerEntry → ℕ → List TimerEntry
unfolding siftup_loop exchange
siftup h j = siftup_loop (suc j) h j

-- The map's keys: `ref_[id] = entry`, `ref_.erase(id)` and `ref_.find(id) != ref_.end()`.
unfoldable pub erase : ℕ → List ℕ → List ℕ
erase k [] = []
erase k (j ∷ ks) = if j == k then erase k ks else j ∷ erase k ks

unfoldable pub contains : ℕ → List ℕ → Bool
contains k [] = false
contains k (j ∷ ks) = j == k || contains k ks

-- The entry with this id, none if it has been freed.
unfoldable pub find_entry : ℕ → List TimerEntry → Option TimerEntry
find_entry k [] = none
find_entry k (e ∷ es) = if e.id == k then some e else find_entry k es

-- AddTimer, with the tick count that it reads, and the id that it returns.
unfoldable pub add_timer : ℕ → ℕ → Option ℕ → TimerSched → TimerSched × ℕ
add_timer tick millsec event s =
    let entry : TimerEntry = record {
      index = length s.heap % 2 ^ 32;
      id = s.next_id;
      expire = (tick + i32_extend millsec) % 2 ^ 64;
      sink = event;
    } in
    let grown = s.heap ++ entry ∷ [] in
    let s' : TimerSched = record {
      next_id = (s.next_id + 1) % 2 ^ 32;
      heap = siftup grown (length grown - 1);
      ref = entry.id ∷ erase entry.id s.ref;
    } in
    (s', entry.id)

-- The heap that CancelTimer leaves when it takes out the entry at `i`; `n` is the last index.
unfoldable pub cut_out : List TimerEntry → ℕ → ℕ → List TimerEntry
cut_out h i n =
    let moved = set_index (swap h i n) i i in
    let (sunk, done) = siftdown moved i n in
    let settled = if done then sunk else siftup sunk i in take n (if i == n then h else settled)

-- CancelTimer. None: the pointer in ref_ dangles, and the freed entry is read.
unfoldable pub cancel_timer : ℕ → TimerSched → Option TimerSched
cancel_timer id s = if not (contains id s.ref) then some s else elim (find_entry id s.heap) [
  | none ↦ none
  | some entry ↦ some (record s { heap = cut_out s.heap entry.index (length s.heap - 1) })
]

-- UpdateTimer, lines 121 to 126: the root leaves the heap.
unfoldable pub pop_root : TimerSched → TimerSched
pop_root s =
    let n = length s.heap - 1 in
    let moved = set_index (swap s.heap 0 n) 0 0 in
    record s { heap = take n (siftdown moved 0 n).0; ref = erase (slot s.heap 0).id s.ref }

-- An object that has a TimerSched for its base class: the scheduler in it.
pub record Host (S : Type 0) : Type 0 where
  pub sched : S → TimerSched
  pub with_sched : TimerSched → S → S
  pub sched-with_sched : (t : TimerSched) (s : S) → sched (with_sched t s) ≡ t

-- `if (entry->sink) entry->sink->OnTimeout()`, the callback being any change of the object.
unfoldable pub notify : {S : Type 0} → (ℕ → S → S) → Option ℕ → S → S
notify on_timeout none s = s
notify on_timeout (some k) s = on_timeout k s

-- The loop of UpdateTimer with the entries that it has taken out so far. None: out of fuel.
-- The `continue` for an id above `last_id` starts the next round with nothing changed.
unfoldable pub update_loop :
    {S : Type 0}
    → Host S
    → (ℕ → S → S)
    → ℕ
    → ℕ
    → ℕ
    → S
    → List TimerEntry
    → Option (S × List TimerEntry)
update_loop host on_timeout zero now last_id s out = none
update_loop host on_timeout (suc fuel) now last_id s out =
    let t = host.sched s in
    let entry = slot t.heap 0 in
    let spin = update_loop host on_timeout fuel now last_id s out in
    let next =
      update_loop host on_timeout fuel now last_id
        (notify on_timeout entry.sink (host.with_sched (pop_root t) s)) (out ++ entry ∷ []) in
    if length t.heap == 0
    then some (s, out)
    else if ltb (i64_rank now) (due_at entry)
    then some (s, out)
    else if ltb (i32_rank last_id) (i32_rank entry.id)
    then spin
    else next

-- UpdateTimer, with the tick count that it reads.
unfoldable pub update_timer :
    {S : Type 0} → Host S → (ℕ → S → S) → ℕ → ℕ → S → Option (S × List TimerEntry)
update_timer host on_timeout fuel tick s =
    update_loop host on_timeout fuel (tick % 2 ^ 64) (host.sched s).next_id s []

-- The scheduler by itself.
abbrev pub alone : Host TimerSched
alone = record { sched = λ s. s; with_sched = λ t s. t; sched-with_sched = λ t s. refl }
