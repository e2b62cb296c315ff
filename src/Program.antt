-- ===== src/Program.antt =====
-- The command lines of the examples, examples/echo/main.cpp and examples/pingpong/main.cpp, over the
-- objects that an example makes.
--
-- An argument is the list of its characters. The state `S` has the objects, g_stop, which the handler
-- of the signal sets, and all that is outside. Output to the streams is left out.
pub mod Rounds
use winsock_tut.Base.{
  ℕ, zero, suc, ◌+◌, ◌-◌, ◌*◌, ◌^◌, Bool, true, false, ◌&&◌, ◌||◌, List, [], ◌∷◌, Option, none,
  some, ltb, leb, ◌==◌, if◌then◌else◌, length, get_or,
}
use winsock_tut.Outcome.{Outcome, ok, check_failed, out_of_fuel, ◌>>=◌}

-- What main calls: WSAStartup and the constructor of WsaExt in the constructor of WinsockAutoInit,
-- CreatePoller or CreateIOService, the constructor and Start of the server and of the client, Poll or
-- Run for 50 ms, the delete of the poller or the service, the destructors that the shared_ptrs run at
-- the end, and WSACleanup in the destructor of WinsockAutoInit.
pub record Example (S : Type 0) : Type 0 where
  pub wsa_startup : S → Bool × S
  pub wsa_ext : S → Outcome S
  pub create : ℕ → S → Option S
  pub serve : S → Outcome S
  pub join : S → Outcome S
  pub stopped : S → Bool
  pub round : S → Outcome S
  pub delete : S → S
  pub destroy : S → Outcome S
  pub wsa_cleanup : S → S

-- `operator==` of std::string
unfoldable pub same_text : List ℕ → List ℕ → Bool
same_text [] [] = true
same_text [] (y ∷ ys) = false
same_text (x ∷ xs) [] = false
same_text (x ∷ xs) (y ∷ ys) = x == y && same_text xs ys

abbrev pub server_text : List ℕ
server_text = 115 ∷ 101 ∷ 114 ∷ 118 ∷ 101 ∷ 114 ∷ []

abbrev pub client_text : List ℕ
client_text = 99 ∷ 108 ∷ 105 ∷ 101 ∷ 110 ∷ 116 ∷ []

-- atoi, whose result is at most the largest int.
unfoldable pub digits : ℕ → List ℕ → ℕ
digits n [] = n
digits n (x ∷ xs) =
    let rest = digits (if ltb n (2 ^ 31) then n * 10 + (x - 48) else n) xs in
    if leb 48 x && leb x 57 then rest else n

unfoldable pub atoi : List ℕ → ℕ
atoi [] = 0
atoi (x ∷ xs) =
    let skipped = atoi xs in
    let value = digits 0 (x ∷ xs) in
    let plus = digits 0 xs in
    if x == 32 || (leb 9 x && leb x 13)
    then skipped
    else if x == 43
    then (if leb (2 ^ 31) plus then 2 ^ 31 - 1 else plus)
    else if x == 45
    then (if plus == 0 then 0 else if leb (2 ^ 31) plus then 2 ^ 31 else 2 ^ 32 - plus)
    else if leb (2 ^ 31) value
    then 2 ^ 31 - 1
    else value

module _ {S : Type 0} (ex : Example S) where
  -- The constructor of WinsockAutoInit.
  unfoldable pub started : S → Outcome S
  started s = let (good, t) = ex.wsa_startup s in if good then ex.wsa_ext t else check_failed

  unfoldable pub created : Option S → Outcome S
  created none = check_failed
  created (some s) = ok s

  -- The server or the client that is asked for, or neither.
  unfoldable pub opened : List ℕ → S → Outcome S
  opened type' s =
      if same_text type' server_text
      then ex.serve s
      else if same_text type' client_text
      then ex.join s
      else ok s

  -- `while (!g_stop)`
  unfoldable pub poll_loop : ℕ → S → Outcome S
  poll_loop zero s = out_of_fuel
  poll_loop (suc fuel) s =
      let rest = poll_loop fuel in if ex.stopped s then ok s else (ex.round s >>= rest)

  -- The end of main.
  unfoldable pub finish : S → Outcome (ℕ × S)
  finish s = do t ← ex.destroy (ex.delete s); ok (0, ex.wsa_cleanup t)

  -- main for the five arguments.
  unfoldable pub run : ℕ → List ℕ → ℕ → S → Outcome (ℕ × S)
  run fuel type' mode s = do
    t ← started s
    u ← created (ex.create mode t)
    v ← opened type' u
    w ← poll_loop fuel v
    finish w

  unfoldable pub main : ℕ → List (List ℕ) → S → Outcome (ℕ × S)
  main fuel args s =
      if length args == 5
      then run fuel (get_or args 1 []) (atoi (get_or args 4 [])) s
      else ok (1, s)
