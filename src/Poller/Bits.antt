-- ===== src/Poller/Bits.antt =====
-- The flag words of the pollers of src/: network events, and the masks of src/Mask.h.
use Prim.Native.Nat.{bit_and, bit_or}
use winsock_tut.Base.{
  ℕ, zero, suc, ◌-◌, ◌^◌, ◌<◌, ◌≡◌, refl, Bool, true, false, not, ◌&&◌, ◌||◌, inl, inr, Bool-cases,
  if◌then◌else◌, arith, ◌==◌, ==_iff,
}

abbrev pub fd_read : ℕ
fd_read = 1

abbrev pub fd_write : ℕ
fd_write = 2

abbrev pub fd_accept : ℕ
fd_accept = 8

abbrev pub fd_connect : ℕ
fd_connect = 16

abbrev pub fd_close : ℕ
fd_close = 32

abbrev pub mask_readable : ℕ
mask_readable = 1

abbrev pub mask_writable : ℕ
mask_writable = 2

-- FD_READ | FD_ACCEPT | FD_CLOSE
abbrev pub in_events : ℕ
in_events = bit_or (bit_or fd_read fd_accept) fd_close

-- FD_WRITE | FD_CONNECT | FD_CLOSE
abbrev pub out_events : ℕ
out_events = bit_or (bit_or fd_write fd_connect) fd_close

-- `x |= flags`, and `x &= ~flags` for 32-bit words
unfoldable pub set_flags : ℕ → ℕ → ℕ
set_flags x flags = bit_or x flags

unfoldable pub clear_flags : ℕ → ℕ → ℕ
clear_flags x flags = bit_and x (2 ^ 32 - 1 - flags)

-- All events and masks are words below 64, so a law of them is settled by a search that finds no
-- word to fail a test.
misses : (ℕ → Bool) → ℕ → ℕ
misses test zero = 0
misses test (suc top) = if test top then misses test top else 1

passes : (test : ℕ → Bool) (top word : ℕ) → misses test top ≡ 0 → word < top → test word ≡ true
unfolding misses
passes test zero word none_fails inside = absurd (omega (arith, inside))
passes test (suc top) word none_fails inside = elim (Bool-cases (test top)) [
  | inl good ↦ ground (arith, passes test top word)
  | inr bad ↦ absurd (ground (arith, bad))
]

-- Clearing the write events takes FD_CLOSE out, also where the read events are set.
close_lost_table :
    misses
      (λ x.
        bit_and (clear_flags (set_flags (set_flags x in_events) out_events) out_events) fd_close
        == 0)
      64
    ≡ 0
unfolding misses clear_flags set_flags
close_lost_table = refl

pub close_lost :
    (x : ℕ)
    → x < 64
    → bit_and (clear_flags (set_flags (set_flags x in_events) out_events) out_events) fd_close ≡ 0
close_lost x h = (==_iff _ 0).0 (passes _ 64 x close_lost_table h)

read_kept_table :
    misses
      (λ x.
        bit_and (clear_flags (set_flags (set_flags x in_events) out_events) out_events) fd_read
        == fd_read)
      64
    ≡ 0
unfolding misses clear_flags set_flags
read_kept_table = refl

pub read_kept :
    (x : ℕ)
    → x < 64
    → bit_and (clear_flags (set_flags (set_flags x in_events) out_events) out_events) fd_read
      ≡ fd_read
read_kept x h = (==_iff _ fd_read).0 (passes _ 64 x read_kept_table h)

-- `x | flag` is never 0 for a flag that is not.
or_table :
    misses (λ x. not (bit_or x mask_readable == 0) && not (bit_or x mask_writable == 0)) 64 ≡ 0
unfolding misses
or_table = refl

pub or_readable : (x : ℕ) → x < 64 → (bit_or x mask_readable == 0) ≡ false
or_readable x h = ground (arith, passes _ 64 x or_table h)

pub or_writable : (x : ℕ) → x < 64 → (bit_or x mask_writable == 0) ≡ false
or_writable x h = ground (arith, passes _ 64 x or_table h)

-- A word with bit 1 set has a bit of 3 set.
two_table : misses (λ x. bit_and x 2 == 0 || not (bit_and x 3 == 0)) 64 ≡ 0
unfolding misses
two_table = refl

pub two_three : (x : ℕ) → x < 64 → (bit_and x 2 == 0) ≡ false → (bit_and x 3 == 0) ≡ false
two_three x h two = ground (arith, passes _ 64 x two_table h)
