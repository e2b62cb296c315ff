-- ===== src/Poller/Select/Dispatch.antt =====
-- The calls that Poll of src/SelectPoller.cpp makes.
use mathlib.Core.Path.{ap₂}
use native.Mathlib.Nat.{zero-add}
use winsock_tut.Base.{
  ℕ, zero, suc, ◌+◌, ◌-◌, ◌<◌, ◌≡◌, ◌≢◌, ◌⊎◌, inl, inr, refl, sym, ap, ◌∙◌, Bool, true, false, List,
  [], ◌∷◌, ◌++◌, none, some, arith, ltb, ◌==◌, if◌then◌else◌, length, length-append, get_elem?,
  drop, drop-cons, drop-nil, ltb→lt, ltb→le, Bool-cases, ==_refl,
}
use winsock_tut.Winsock.{invalid_socket}
use winsock_tut.Poller.Events.{Event, readable, writable}
use winsock_tut.Outcome.{ok, bad_pointer}
use winsock_tut.Table.{update_entry, has_entry}
use winsock_tut.Poller.Select.{
  FdEntry, FdSets, SelectPoller, Triple, Outside, sink_at, call, visit_event, visit, fd_at,
  dispatch, remove_fd,
}
use winsock_tut.Poller.Select.Retire.{IsPaired, AllPaired}

abbrev pub one : Event → ℕ → Bool → List (Event × ℕ)
one ev k ready = if ready then (ev, k) ∷ [] else []

module _ {F W : Type 0} (sets : FdSets F) (env : Outside F W) (t : Triple F) where
  -- The calls for an entry, in order: for an error first, then write, then read.
  abbrev pub calls_of : FdEntry → List (Event × ℕ)
  calls_of e = if e.fd == invalid_socket then [] else elim e.sink [
    | none ↦ []
    | some k ↦
        one readable k (sets.fd_isset e.fd t.ex)
        ++ (one writable k (sets.fd_isset e.fd t.wr) ++ one readable k (sets.fd_isset e.fd t.rd))
  ]

  abbrev pub all_calls : List FdEntry → List (Event × ℕ)
  all_calls [] = []
  all_calls (e ∷ es) = calls_of e ++ all_calls es

  -- The poller after these calls.
  abbrev pub run_calls : List (Event × ℕ) → SelectPoller F W → SelectPoller F W
  run_calls [] p = p
  run_calls ((ev, k) ∷ cs) p = run_calls cs (env.on_event ev k p)

  sink_at_lem :
      (i : ℕ) (e : FdEntry) (p : SelectPoller F W)
      → get_elem? p.fds i ≡ some e
      → sink_at sets env i p ≡ e.sink
  unfolding sink_at
  sink_at_lem i e p at = rw (at, sink_at)

  fd_at_lem :
      (i : ℕ) (e : FdEntry) (p : SelectPoller F W)
      → get_elem? p.fds i ≡ some e
      → fd_at sets env i p ≡ e.fd
  unfolding fd_at
  fd_at_lem i e p at = rw (at, fd_at)

  at_entry : (as' es : List FdEntry) (e : FdEntry) → get_elem? (as' ++ e ∷ es) (length as') ≡ some e
  at_entry [] es e = refl
  at_entry (x ∷ as') es e = at_entry as' es e

  retired_entry :
      (as' es : List FdEntry) (e : FdEntry)
      → has_entry (λ (x : FdEntry). x.fd) e.fd as' ≡ false
      → get_elem?
          (update_entry
            (λ x. x.fd)
            e.fd
            (λ x. record { fd = invalid_socket; sink = none })
            (as' ++ e ∷ es))
          (length as')
        ≡ some (record { fd = invalid_socket; sink = none })
  unfolding update_entry has_entry
  retired_entry [] es e first = let same : (e.fd == e.fd) ≡ true = ==_refl e.fd in rw same refl
  retired_entry (x ∷ as') es e first =
      let other : (x.fd == e.fd) ≡ false = ground arith in
      rw other (retired_entry as' es e (rw other at first))

  sink_removed :
      (as' es : List FdEntry) (e : FdEntry) (p : SelectPoller F W)
      → p.fds ≡ as' ++ e ∷ es
      → has_entry (λ (x : FdEntry). x.fd) e.fd as' ≡ false
      → sink_at sets env (length as') (remove_fd sets e.fd p) ≡ none
  unfolding sink_at remove_fd
  sink_removed as' es e p table first = rw (table, sink_at, retired_entry as' es e first) refl

  module _
      (steady : (ev : Event) (k : ℕ) (p : SelectPoller F W)
        → (env.on_event ev k p).fds ≡ p.fds) where
    run_calls-fds : (cs : List (Event × ℕ)) (p : SelectPoller F W) → (run_calls cs p).fds ≡ p.fds
    run_calls-fds [] p = refl
    run_calls-fds ((ev, k) ∷ cs) p = run_calls-fds cs (env.on_event ev k p) ∙ steady ev k p

    run_calls-append :
        (as' bs : List (Event × ℕ)) (p : SelectPoller F W)
        → run_calls (as' ++ bs) p ≡ run_calls bs (run_calls as' p)
    run_calls-append [] bs p = refl
    run_calls-append ((ev, k) ∷ as') bs p = run_calls-append as' bs (env.on_event ev k p)

    visit_event_lem :
        (ev : Event) (b : Bool) (i k : ℕ) (e : FdEntry) (p : SelectPoller F W) (n : ℕ)
        → get_elem? p.fds i ≡ some e
        → e.sink ≡ some k
        → visit_event sets env ev b i (p, n)
          ≡ ok (run_calls (one ev k b) p, n + length (one ev k b))
    unfolding visit_event call
    visit_event_lem ev true i k e p n at has = rw (sink_at_lem i e p at ∙ has) refl
    visit_event_lem ev false i k e p n at has = ap (λ m. ok (p, m)) (omega arith)

    visit_lem :
        (i : ℕ) (e : FdEntry) (p : SelectPoller F W) (n : ℕ)
        → IsPaired e
        → get_elem? p.fds i ≡ some e
        → visit sets env t i e.fd (p, n) ≡ ok (run_calls (calls_of e) p, n + length (calls_of e))
    unfolding visit
    visit_lem i e p n (inl (retired, none_left)) at =
        let same : (e.fd == invalid_socket) ≡ true = ground arith in
        rw same (ap (λ m. ok (p, m)) (omega arith))
    visit_lem i e p n (inr (valid, (k, has))) at =
        let other : (e.fd == invalid_socket) ≡ false = ground arith in
        let cx = one readable k (sets.fd_isset e.fd t.ex) in
        let cw = one writable k (sets.fd_isset e.fd t.wr) in
        let cr = one readable k (sets.fd_isset e.fd t.rd) in
        let p1 = run_calls cx p in
        let p2 = run_calls cw p1 in
        let at1 = run_calls-fds cx p in
        let at2 = run_calls-fds cw p1 ∙ at1 in
        let step1 = visit_event_lem readable (sets.fd_isset e.fd t.ex) i k e p n at has in
        let step2 =
          visit_event_lem writable (sets.fd_isset e.fd t.wr) i k e p1 (n + length cx)
            (ap (λ (l : List FdEntry). get_elem? l i) at1 ∙ at) has in
        let step3 =
          visit_event_lem readable (sets.fd_isset e.fd t.rd) i k e p2 (n + length cx + length cw)
            (ap (λ (l : List FdEntry). get_elem? l i) at2 ∙ at) has in
        let calls = run_calls-append cx (cw ++ cr) p ∙ run_calls-append cw cr p1 in
        let count : n + length cx + length cw + length cr ≡ n + length (cx ++ (cw ++ cr)) =
          omega (arith, length-append cx (cw ++ cr), length-append cw cr) in
        rw (other, has, step1, step2, step3) (ap₂ (λ q m. ok (q, m)) (sym calls) count)

    dispatch_from :
        (fuel i : ℕ) (p : SelectPoller F W) (n : ℕ)
        → AllPaired (drop i p.fds)
        → length p.fds - i < fuel
        → dispatch sets env fuel t i (p, n)
          ≡ ok (run_calls (all_calls (drop i p.fds)) p, n + length (all_calls (drop i p.fds)))
    unfolding dispatch
    dispatch_from zero i p n paired enough = absurd (omega arith)
    dispatch_from (suc fuel) i p n paired enough = elim (Bool-cases (ltb i (length p.fds))) [
      | inr end ↦
          rw (end, drop-nil i p.fds (ltb→le i (length p.fds) end))
            (ap (λ m. ok (p, m)) (omega arith))
      | inl inside ↦
          let (e, at, split) = drop-cons i p.fds (ltb→lt i (length p.fds) inside) in
          let (pair, rest) = rw split at paired in
          let here : fd_at sets env i p ≡ e.fd = fd_at_lem i e p at in
          let cs = calls_of e in
          let q = run_calls cs p in
          let same = run_calls-fds cs p in
          let later =
            dispatch_from fuel (suc i) q (n + length cs) (rw same rest)
              (rw same (omega (arith, ltb→lt i (length p.fds) inside))) in
          let calls = run_calls-append cs (all_calls (drop (suc i) p.fds)) p in
          let count : n + length cs + length (all_calls (drop (suc i) p.fds))
              ≡ n + length (cs ++ all_calls (drop (suc i) p.fds)) =
            omega (arith, length-append cs (all_calls (drop (suc i) p.fds))) in
          rw (inside, here, visit_lem i e p n pair at, split)
            ((rw same at later) ∙ ap₂ (λ q m. ok (q, m)) (sym calls) count)
    ]

    -- For a table whose entries are retired or have a callback object, with callbacks that leave
    -- the table alone, and more rounds than it has entries, the loop of Poll returns: it makes,
    -- for each entry in turn that is not retired, the calls for an error, for write and for read
    -- that select reported, and counts them.
    pub dispatch_lem :
        (fuel : ℕ) (p : SelectPoller F W)
        → AllPaired p.fds
        → length p.fds < fuel
        → dispatch sets env fuel t 0 (p, 0)
          ≡ ok (run_calls (all_calls p.fds) p, length (all_calls p.fds))
    dispatch_lem fuel p paired enough =
        dispatch_from fuel 0 p 0 paired (omega arith)
        ∙ ap (λ m. ok (run_calls (all_calls p.fds) p, m)) (zero-add (length (all_calls p.fds)))

  -- Two events of an entry are reported: an error and write, an error and read, or write and read.
  abbrev pub TwoReported : FdEntry → Type 0
  TwoReported e =
      (sets.fd_isset e.fd t.ex ≡ true) × (sets.fd_isset e.fd t.wr ≡ true)
      ⊎ (sets.fd_isset e.fd t.ex ≡ true)
        × (sets.fd_isset e.fd t.wr ≡ false)
        × (sets.fd_isset e.fd t.rd ≡ true)
      ⊎ (sets.fd_isset e.fd t.ex ≡ false)
        × (sets.fd_isset e.fd t.wr ≡ true)
        × (sets.fd_isset e.fd t.rd ≡ true)

  -- When the loop has come to an entry, at any place of the table, that is the first one of its
  -- descriptor and for which select has reported two events, and the callback of its sink is then, for
  -- each event, RemoveFd of that descriptor, the loop makes a call through a null pointer for the
  -- second one.
  pub dispatch_after_remove :
      (fuel k n : ℕ) (as' es : List FdEntry) (e : FdEntry) (p : SelectPoller F W)
      → p.fds ≡ as' ++ e ∷ es
      → has_entry (λ (x : FdEntry). x.fd) e.fd as' ≡ false
      → e.fd ≢ invalid_socket
      → e.sink ≡ some k
      → TwoReported e
      → ((ev : Event) → env.on_event ev k p ≡ remove_fd sets e.fd p)
      → dispatch sets env (suc fuel) t (length as') (p, n) ≡ bad_pointer
  unfolding dispatch visit visit_event call
  dispatch_after_remove fuel k n as' es e p table first valid has two removes =
      let inside : ltb (length as') (length p.fds) ≡ true =
        rw table (ground (arith, length-append as' (e ∷ es))) in
      let other : (e.fd == invalid_socket) ≡ false = ground arith in
      let at : get_elem? p.fds (length as') ≡ some e = rw table (at_entry as' es e) in
      let here : fd_at sets env (length as') p ≡ e.fd = fd_at_lem (length as') e p at in
      let sink : sink_at sets env (length as') p ≡ some k = sink_at_lem (length as') e p at ∙ has in
      let gone = sink_removed as' es e p table first in
      elim two [
        | inl (ex, wr) ↦ rw (inside, here, other, ex, sink, removes readable, wr, gone) refl
        | inr (inl (ex, wr, rd)) ↦
            rw (inside, here, other, ex, sink, removes readable, wr, rd, gone) refl
        | inr (inr (ex, wr, rd)) ↦
            rw (inside, here, other, ex, wr, sink, removes writable, rd, gone) refl
      ]
