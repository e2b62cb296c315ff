-- ===== src/Poller/AsyncSelect/Poll.antt =====
-- Poll of src/AsyncSelectPoller.cpp, with timers and callbacks that add and remove descriptors.
use winsock_tut.Base.{
  ℕ, suc, ◌+◌, ◌%◌, ◌^◌, ◌≤◌, ◌<◌, ◌≡◌, false, List, [], ◌∷◌, ◌++◌, none, some, ◌==◌, if◌then◌else◌,
  length,
}
use winsock_tut.Winsock.{invalid_socket, fd_setsize}
use winsock_tut.Table.{has_entry}
use winsock_tut.Timer.Sift.{timers}
use winsock_tut.Timer.Valid.{IsValid}
use winsock_tut.Timer.Callbacks.{IsTame, pending}
use winsock_tut.Poller.Events.{Event}
use winsock_tut.Poller.AsyncSelect.{fd_of, AsyncSelectPoller, Outside, Message, wm_socket, host}

-- The table fits, and a retired entry is announced.
pub record IsTidy {W : Type 0} (p : AsyncSelectPoller W) : Type 0 where
  pub fits : length p.fds ≤ fd_setsize
  pub announced : p.has_retired ≡ false → has_entry fd_of invalid_socket p.fds ≡ false

-- Tidy, with timers that UpdateTimer can be called for.
abbrev pub IsReady : {W : Type 0} → Outside W → ℕ → ℕ → AsyncSelectPoller W → Type 0
IsReady env fuel tick p =
    IsTidy p
    × IsValid p.timers
    × IsTame host (tick % 2 ^ 64) p.timers.next_id env.on_timeout
    × (pending (tick % 2 ^ 64) (timers p.timers.heap) < fuel)

-- From one world to another, messages are posted behind those that wait, and the budget for messages
-- that are still to come pays for them.
abbrev pub Posts : {W : Type 0} → (W → List Message) → (W → ℕ) → W → List Message → W → Type 0
Posts queue budget w ms w' =
    (posted : List Message) × (queue w' ≡ ms ++ posted) × (length posted + budget w' ≤ budget w)

-- What Poll relies on, for the messages that wait and a budget for those to come: PeekMessage takes
-- them in their order; what it, DispatchMessage and the callbacks post stands behind them and is within
-- the budget; the callbacks keep the table and the timers in order.
pub record IsSteady {W : Type 0} (env : Outside W) (queue : W → List Message) (budget : W → ℕ)
    (fuel tick : ℕ) : Type 0 where
  pub peeks_none :
      (h : ℕ) (w : W)
      → queue w ≡ []
      → ((env.peek_message h w).0 ≡ none) × (queue (env.peek_message h w).1 ≡ [])
  pub peeks_some :
      (h : ℕ) (w : W) (m : Message) (ms : List Message)
      → queue w ≡ m ∷ ms
      → ((env.peek_message h w).0 ≡ some m) × Posts queue budget w ms (env.peek_message h w).1
  pub dispatched : (m : Message) (w : W) → Posts queue budget w (queue w) (env.dispatch_message m w)
  pub posted :
      (ev : Event) (k : ℕ) (p : AsyncSelectPoller W)
      → IsReady env fuel tick p
      → Posts queue budget p.world (queue p.world) (env.on_event ev k p).world
  pub called :
      (ev : Event) (k : ℕ) (p : AsyncSelectPoller W)
      → IsReady env fuel tick p
      → IsReady env fuel tick (env.on_event ev k p)
  pub timed : (k : ℕ) (p : AsyncSelectPoller W) → IsTidy p → IsTidy (env.on_timeout k p)

-- How many of the messages are for a socket.
abbrev pub for_sockets : List Message → ℕ
for_sockets [] = 0
for_sockets (m ∷ ms) = if m.message == wm_socket then suc (for_sockets ms) else for_sockets ms

module _ {W : Type 0} (env : Outside W) (queue : W → List Message) (budget : W → ℕ) (fuel tick : ℕ)
    (steady : IsSteady env queue budget fuel tick) where
  -- Ready, with these messages in the queue and those posted since the world `w`.
  abbrev Holds : W → List Message → AsyncSelectPoller W → Type 0
  Holds w ms p = IsReady env fuel tick p × Posts queue budget w ms p.world
