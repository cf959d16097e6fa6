-- ===== src/Network.antt =====
-- The calls that make sockets, beside those of Kernel. The options are set to 1; an address is
-- in6addr_any or INADDR_ANY, by the version, with a port.
use socket_wrapper.Prelude.{ℕ, ◌≡◌, Bool, true, false}
use socket_wrapper.Prelude.Int.{ℤ, pos, is_negative}
use socket_wrapper.BaseTypes.{IpVersion}
use socket_wrapper.Kernel.{Kernel}

pub record Network (K : Kernel) : Type 0 where
  -- `socket(family, SOCK_STREAM, IPPROTO_TCP)`
  pub socket : IpVersion → K.World → ℤ × K.World
  pub set_reuse_addr : ℤ → K.World → ℤ × K.World
  pub set_reuse_port : ℤ → K.World → ℤ × K.World
  pub bind_any : ℤ → IpVersion → ℕ → K.World → ℤ × K.World
  pub listen : ℤ → ℕ → K.World → ℤ × K.World
  pub accept : ℤ → K.World → ℤ × K.World

-- Which descriptors are open, and which are listening sockets. A socket that was made is open, and
-- stays so until it is closed; a listen that returns 0 makes a listening socket.
pub record Descriptors (K : Kernel) (N : Network K) : Type 0 where
  pub is_open : ℤ → K.World → Bool
  pub is_listening : ℤ → K.World → Bool
  pub open_socket :
      (v : IpVersion) (w : K.World)
      → is_negative (N.socket v w).0 ≡ false
      → is_open (N.socket v w).0 (N.socket v w).1 ≡ true
  pub open_reuse_addr : (g fd : ℤ) (w : K.World) → is_open g (N.set_reuse_addr fd w).1 ≡ is_open g w
  pub open_reuse_port : (g fd : ℤ) (w : K.World) → is_open g (N.set_reuse_port fd w).1 ≡ is_open g w
  pub open_bind :
      (g fd : ℤ) (v : IpVersion) (port : ℕ) (w : K.World)
      → is_open g (N.bind_any fd v port w).1 ≡ is_open g w
  pub open_listen : (g fd : ℤ) (n : ℕ) (w : K.World) → is_open g (N.listen fd n w).1 ≡ is_open g w
  pub listening :
      (fd : ℤ) (n : ℕ) (w : K.World)
      → (N.listen fd n w).0 ≡ pos 0
      → is_listening fd (N.listen fd n w).1 ≡ true
