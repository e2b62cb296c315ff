-- ===== src/Socket/Transfer.antt =====
-- ReadSome and WriteSome of src/SocketOpts.cpp.
pub mod Read
pub mod Write
use winsock_tut.Base.{
  ℕ, zero, suc, ◌+◌, ◌-◌, ◌≤◌, ◌<◌, ◌≡◌, List, [], ◌∷◌, ◌++◌, Option, none, some, ltb, ◌==◌,
  if◌then◌else◌, length, take, drop,
}
use winsock_tut.Winsock.{wsaewouldblock}

-- An int that is -1 or a number of bytes.
pub data Count : Type 0 where
  minus_one : Count
  count : ℕ → Count

-- What recv did: it stored these bytes, or failed with this code of WSAGetLastError.
pub data Received : Type 0 where
  got : List ℕ → Received
  recv_failed : ℕ → Received

-- What send did: it took this many bytes, or failed.
pub data Sent : Type 0 where
  took : ℕ → Sent
  send_failed : ℕ → Sent

-- One round of the loop of ReadSome after recv, with what the next rounds do.
unfoldable pub read_round :
    {W : Type 0}
    → (List ℕ → W → Option (Count × List ℕ × W))
    → List ℕ
    → Received × W
    → Option (Count × List ℕ × W)
read_round next buf (got bytes, w) =
    let more = next (buf ++ bytes) w in
    if ltb 0 (length bytes) then more else some (minus_one, buf, w)
read_round next buf (recv_failed err, w) =
    if err == wsaewouldblock then some (count (length buf), buf, w) else some (minus_one, buf, w)

-- One round of the loop of WriteSome after send.
unfoldable pub write_round :
    {W : Type 0} → (ℕ → W → Option (Count × W)) → ℕ → Sent × W → Option (Count × W)
write_round next nbytes (took n, w) = next (nbytes + n) w
write_round next nbytes (send_failed err, w) =
    if err == wsaewouldblock then some (count nbytes, w) else some (minus_one, w)

module _ {W : Type 0} (recv : ℕ → W → Received × W) where
  -- The loop of ReadSome for a buffer of `size` bytes: `buf` is the part that is filled, and
  -- its length is `nbytes`. None: out of fuel.
  unfoldable pub read_loop : ℕ → ℕ → List ℕ → W → Option (Count × List ℕ × W)
  read_loop zero size buf w = none
  read_loop (suc fuel) size buf w =
      read_round (read_loop fuel size) buf (recv (size - length buf) w)

  -- ReadSome. Each round but the last stores a byte, so `size + 1` rounds are enough.
  unfoldable pub read_some : ℕ → W → Option (Count × List ℕ × W)
  read_some size w = read_loop (size + 1) size [] w

module _ {W : Type 0} (send : List ℕ → W → Sent × W) where
  -- The loop of WriteSome after `nbytes` bytes of the buffer are sent.
  unfoldable pub write_loop : ℕ → List ℕ → ℕ → W → Option (Count × W)
  write_loop zero buf nbytes w = none
  write_loop (suc fuel) buf nbytes w =
      let step = write_round (write_loop fuel buf) nbytes (send (drop nbytes buf) w) in
      if ltb nbytes (length buf) then step else some (count nbytes, w)

  -- WriteSome. Each round but the last sends a byte.
  unfoldable pub write_some : List ℕ → W → Option (Count × W)
  write_some buf w = write_loop (length buf + 1) buf 0 w
