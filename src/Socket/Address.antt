-- ===== src/Socket/Address.antt =====
-- IsSelfConnection of src/SocketOpts.cpp.
use winsock_tut.Base.{
  ℕ, ◌≡◌, refl, ◌↔◌, inl, inr, Bool, true, false, List, [], ◌∷◌, Option, none, some, arith, ◌==◌,
  ◌&&◌, if◌then◌else◌, Bool-cases,
}
use winsock_tut.Winsock.{af_inet, af_inet6}

-- A sockaddr_storage: the family, the port, which sin_port and sin6_port share, and the address in
-- the form of each family, of which the other is not meant to be read.
pub record SockAddr : Type 0 where
  pub family : ℕ
  pub port : ℕ
  pub addr4 : ℕ
  pub addr6 : List ℕ

-- memcmp over two addresses of one length
pub same_bytes : List ℕ → List ℕ → Bool
same_bytes [] [] = true
same_bytes (a ∷ as') (b ∷ bs) = a == b && same_bytes as' bs
same_bytes _ _ = false

-- The switch of IsSelfConnection on the family of the local address.
pub same_endpoint : SockAddr → SockAddr → Bool
unfolding same_bytes
same_endpoint local' peer =
    if local'.family == af_inet
    then (if local'.port == peer.port then local'.addr4 == peer.addr4 else false)
    else if local'.family == af_inet6
    then (if local'.port == peer.port then same_bytes local'.addr6 peer.addr6 else false)
    else false

-- IsSelfConnection, with what getsockname and getpeername report: none is SOCKET_ERROR.
pub is_self_connection : Option SockAddr → Option SockAddr → Bool
is_self_connection none peer = false
is_self_connection (some local') none = false
is_self_connection (some local') (some peer) = same_endpoint local' peer

-- What it means: both names are known, and the ends have one port and one address.
pub data IsSelf : Option SockAddr → Option SockAddr → Type 0 where
  self4 :
      (a b : SockAddr)
      → a.family ≡ af_inet
      → a.port ≡ b.port
      → a.addr4 ≡ b.addr4
      → IsSelf (some a) (some b)
  self6 :
      (a b : SockAddr)
      → a.family ≡ af_inet6
      → a.port ≡ b.port
      → a.addr6 ≡ b.addr6
      → IsSelf (some a) (some b)

same_bytes-eq : (xs ys : List ℕ) → same_bytes xs ys ≡ true → xs ≡ ys
unfolding same_bytes
same_bytes-eq [] [] h = refl
same_bytes-eq (x ∷ xs) (y ∷ ys) h = ground (arith, same_bytes-eq xs ys)
same_bytes-eq [] (y ∷ ys) h = cc
same_bytes-eq (x ∷ xs) [] h = cc

same_bytes_refl : (xs : List ℕ) → same_bytes xs xs ≡ true
unfolding same_bytes
same_bytes_refl [] = refl
same_bytes_refl (x ∷ xs) = ground (arith, same_bytes_refl xs)

same_endpoint-IsSelf : (a b : SockAddr) → same_endpoint a b ≡ true → IsSelf (some a) (some b)
unfolding same_endpoint
same_endpoint-IsSelf a b h = elim (Bool-cases (a.family == af_inet)) [
  | inl four ↦ self4 a b (ground arith) (ground arith) (ground arith)
  | inr other ↦
      self6 a b (ground arith) (ground arith) (same_bytes-eq a.addr6 b.addr6 (ground arith))
]

IsSelf-true :
    {local' peer : Option SockAddr} → IsSelf local' peer → is_self_connection local' peer ≡ true
unfolding is_self_connection same_endpoint
IsSelf-true (self4 a b f p q) = ground arith
IsSelf-true (self6 a b f p q) =
    let same : same_bytes a.addr6 b.addr6 ≡ true = rw q (same_bytes_refl b.addr6) in ground arith

-- IsSelfConnection answers true exactly when both names are known, the local family is IPv4 or
-- IPv6, and the two ends have one port and one address of that family.
pub is_self_connection_iff :
    (local' peer : Option SockAddr) → (is_self_connection local' peer ≡ true) ↔ IsSelf local' peer
unfolding is_self_connection
is_self_connection_iff none peer = ((λ h. cc), IsSelf-true)
is_self_connection_iff (some a) none = ((λ h. cc), IsSelf-true)
is_self_connection_iff (some a) (some b) = (same_endpoint-IsSelf a b, IsSelf-true)
