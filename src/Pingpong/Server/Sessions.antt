-- ===== src/Pingpong/Server/Sessions.antt =====
-- The sessions of the pingpong server: what its map and its heap promise.
use winsock_tut.Base.{
  some_eq, ℕ, ◌^◌, ◌<◌, ◌≡◌, ◌≢◌, inl, inr, sym, ap, ◌∙◌, some, arith, ◌==◌, Bool-cases,
}
use winsock_tut.Table.{find_entry, remove_all, find_entry-remove_all, find_entry-remove_all_self}
use winsock_tut.Heap.{read, write, delete, read-delete, read-delete_ne, read-write, read-write_ne}
use winsock_tut.Pingpong.{Io}
use winsock_tut.Pingpong.Server.{Session, Server, id_of}

-- Each entry of the map leads to the session with its id; each session has an entry, and its id is
-- positive and below the counter, which is a positive int.
pub record IsTracked {S : Type 0} (s : Server S) : Type 0 where
  pub owned :
      (sid : ℕ) (e : ℕ × ℕ)
      → find_entry id_of sid s.sessions ≡ some e
      → (session : Session) × (read e.1 s.heap ≡ some session) × (session.id ≡ sid)
  pub listed :
      (a : ℕ) (session : Session)
      → read a s.heap ≡ some session
      → (find_entry id_of session.id s.sessions ≡ some (session.id, a))
        × (0 < session.id)
        × (session.id < s.counter)
  pub small : s.counter < 2 ^ 31
  pub started : 0 < s.counter

module _ {S : Type 0} (s : Server S) (v : IsTracked s) (a : ℕ) (session : Session)
    (here : read a s.heap ≡ some session) where
  -- A write to the session that keeps its id.
  pub write-IsTracked :
      (f : Session → Session)
      → ((x : Session) → (f x).id ≡ x.id)
      → (io : Io S) → IsTracked (record s { heap = write a f s.heap; io = io })
  write-IsTracked f keeps io = record {
    owned = owned;
    listed = listed;
    small = v.small;
    started = v.started;
  }
    where
      owned :
          (sid : ℕ) (e : ℕ × ℕ)
          → find_entry id_of sid s.sessions ≡ some e
          → (x : Session) × (read e.1 (write a f s.heap) ≡ some x) × (x.id ≡ sid)
      owned sid e at =
          let (x, there, its) = v.owned sid e at in
          elim (Bool-cases (e.1 == a)) [
            | inl same ↦
                let q : e.1 ≡ a = ground arith in
                let there' : read a s.heap ≡ some x = ap (λ k. read k s.heap) (sym q) ∙ there in
                (
                  f x,
                  ap (λ k. read k (write a f s.heap)) q ∙ read-write a f x s.heap there',
                  keeps x ∙ its,
                )
            | inr other ↦ (x, read-write_ne a e.1 f s.heap (ground arith) ∙ there, its)
          ]

      listed :
          (b : ℕ) (x : Session)
          → read b (write a f s.heap) ≡ some x
          → (find_entry id_of x.id s.sessions ≡ some (x.id, b)) × (0 < x.id) × (x.id < s.counter)
      listed b x at = elim (Bool-cases (b == a)) [
        | inl same ↦
            let q : b ≡ a = ground arith in
            let at' : read a (write a f s.heap) ≡ some x =
              ap (λ k. read k (write a f s.heap)) (sym q) ∙ at in
            let one : f session ≡ x =
              some_eq (f session) x (sym (read-write a f session s.heap here) ∙ at') in
            let its : session.id ≡ x.id = sym (keeps session) ∙ ap (λ (y : Session). y.id) one in
            let (entry, positive, below) = v.listed a session here in
            (ground (arith, entry, its, q), omega (arith, its, positive), omega (arith, its, below))
        | inr other ↦ v.listed b x (sym (read-write_ne a b f s.heap (ground arith)) ∙ at)
      ]

  -- The server without a session, over another state of the service.
  abbrev pub without : Io S → Server S
  without io = record s {
    sessions = remove_all id_of session.id s.sessions;
    heap = delete a s.heap;
    io = io;
  }

  pub without-IsTracked : (io : Io S) → IsTracked (without io)
  without-IsTracked io = record {
    owned = owned;
    listed = listed;
    small = v.small;
    started = v.started;
  }
    where
      owned :
          (sid : ℕ) (e : ℕ × ℕ)
          → find_entry id_of sid (remove_all id_of session.id s.sessions) ≡ some e
          → (x : Session) × (read e.1 (delete a s.heap) ≡ some x) × (x.id ≡ sid)
      owned sid e at = elim (Bool-cases (sid == session.id)) [
        | inl same ↦ absurd (ground (arith, find_entry-remove_all_self id_of session.id s.sessions))
        | inr other ↦
            let old : find_entry id_of sid s.sessions ≡ some e =
              sym (find_entry-remove_all id_of session.id sid s.sessions (ground arith)) ∙ at in
            let (x, there, its) = v.owned sid e old in
            let apart : e.1 ≢ a = λ q.
              let one : x ≡ session =
                some_eq x session (sym there ∙ ap (λ k. read k s.heap) q ∙ here) in
              ground (arith, ap (λ (y : Session). y.id) one) in
            (x, read-delete_ne a e.1 s.heap apart ∙ there, its)
      ]

      listed :
          (b : ℕ) (x : Session)
          → read b (delete a s.heap) ≡ some x
          → (find_entry id_of x.id (remove_all id_of session.id s.sessions) ≡ some (x.id, b))
            × (0 < x.id)
            × (x.id < s.counter)
      listed b x at =
          let apart : b ≢ a = λ q. ground (arith, read-delete a s.heap, q) in
          let (entry, positive, below) =
            v.listed b x (sym (read-delete_ne a b s.heap apart) ∙ at) in
          let other : x.id ≢ session.id = λ q.
            let entry' = (v.listed a session here).0 in apart (ground (arith, entry, entry', q)) in
          (find_entry-remove_all id_of session.id x.id s.sessions other ∙ entry, positive, below)
