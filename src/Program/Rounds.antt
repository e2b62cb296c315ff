-- ===== src/Program/Rounds.antt =====
-- The loop of main as a sequence of rounds.
use winsock_tut.Base.{
  ℕ, zero, suc, ◌≡◌, refl, true, false, some, Bool-cases, inl, inr, List, [], ◌==◌, arith, length,
  get_or, ◌≢◌,
}
use winsock_tut.Outcome.{ok, bind_ok, ok_eq}
use mathlib.Core.Path.{subst}
use winsock_tut.Program.{
  Example, started, created, opened, poll_loop, finish, run, main, atoi, server_text, same_text,
}

module _ {S : Type 0} (ex : Example S) where
  -- Rounds from one state to another, each while g_stop is not set.
  pub data Rounds : S → S → Type 0 where
    stay : {s : S} → Rounds s s
    next : {s t u : S} → ex.stopped s ≡ false → ex.round s ≡ ok t → Rounds t u → Rounds s u

  -- What a round keeps holds after the loop, which ends as soon as g_stop is set.
  pub poll_loop-keeps :
      (I : S → Type 0)
      → ((s t : S) → I s → ex.round s ≡ ok t → I t)
      → (fuel : ℕ) (s t : S) → poll_loop ex fuel s ≡ ok t
      → I s
      → I t × (ex.stopped t ≡ true)
  unfolding poll_loop
  poll_loop-keeps I keeps zero s t e i = cc
  poll_loop-keeps I keeps (suc fuel) s t e i = elim (Bool-cases (ex.stopped s)) [
    | inl stop ↦
        let same : s ≡ t = ok_eq s t (rw stop at e) in
        subst (λ x. I x × (ex.stopped x ≡ true)) same (i, stop)
    | inr runs ↦
        let (u, round, rest) = bind_ok (ex.round s) (poll_loop ex fuel) t (rw runs at e) in
        poll_loop-keeps I keeps fuel u t rest (keeps s u i round)
  ]

  -- The loop returns what its rounds reach when g_stop is set, with a round of fuel more.
  pub poll_loop_lem :
      (s t : S) → Rounds s t → ex.stopped t ≡ true → (fuel : ℕ) × (poll_loop ex fuel s ≡ ok t)
  unfolding poll_loop
  poll_loop_lem s t stay stop = (1, rw stop refl)
  poll_loop_lem s t (next runs round rest) stop =
      let (fuel, e) = poll_loop_lem _ t rest stop in (suc fuel, rw (runs, round) e)

  -- main with five arguments, where the start succeeds and the signal comes after some rounds, ends as
  -- the objects do after these rounds, with fuel for a round more.
  pub main_lem :
      (args : List (List ℕ)) (s t u v w : S)
      → length args ≡ 5
      → started ex s ≡ ok t
      → ex.create (atoi (get_or args 4 [])) t ≡ some u
      → opened ex (get_or args 1 []) u ≡ ok v
      → Rounds v w
      → ex.stopped w ≡ true
      → (fuel : ℕ) × (main ex fuel args s ≡ finish ex w)
  unfolding main run created
  main_lem args s t u v w five start made ready rounds stop =
      let (fuel, loop) = poll_loop_lem v w rounds stop in
      let count : (length args == 5) ≡ true = ground arith in
      (fuel, rw (count, start, made, ready, loop) refl)

  -- main as a server never returns, if its server has a property from its start, which the rounds keep,
  -- and with which the end of main does not return.
  pub main-serve :
      (I : S → Type 0)
      → ((s t : S) → ex.serve s ≡ ok t → I t)
      → ((s t : S) → I s → ex.round s ≡ ok t → I t)
      → ((s : S) (x : ℕ × S) → I s → finish ex s ≢ ok x)
      → (fuel : ℕ) (args : List (List ℕ)) (s : S) (x : ℕ × S) → length args ≡ 5
      → get_or args 1 [] ≡ server_text
      → main ex fuel args s ≢ ok x
  unfolding main run opened same_text
  main-serve I begins keeps ends fuel args s x five serves e =
      let count : (length args == 5) ≡ true = ground arith in
      let e1 = rw (count, serves) at e in
      let (t, starts, e2) = bind_ok (started ex s) _ x e1 in
      let (u, makes, e3) = bind_ok (created ex (ex.create (atoi (get_or args 4 [])) t)) _ x e2 in
      let (v, serves', e4) = bind_ok (ex.serve u) _ x e3 in
      let (w, loops, e5) = bind_ok (poll_loop ex fuel v) _ x e4 in
      ends w x (poll_loop-keeps I keeps fuel v w loops (begins u v serves')).0 e5
