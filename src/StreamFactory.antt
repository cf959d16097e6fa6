-- ===== src/StreamFactory.antt =====
-- include/socket_wrapper/StreamFactory.h and src/StreamFactory.cpp.
pub mod Ends
use Prim.Native.String.{String}
use socket_wrapper.Prelude.{ℕ, Bool, true, false, not, if◌then◌else◌}
use socket_wrapper.Prelude.Int.{ℤ, pos, is_negative, int_eq}
use socket_wrapper.BaseTypes.{IpVersion}
use socket_wrapper.Exception.{socket_socket, socket_connect, socket_pair}
use socket_wrapper.Exec.{
  Outcome, ok, throws, terminated, out_of_fuel, Exec, pure, raise, terminate, diverge, call,
  continue, ◌>>=◌, ◌>>◌,
}
use socket_wrapper.Kernel.{Kernel}
use socket_wrapper.Network.{Network}
use socket_wrapper.Stream.{Stream, throw_errno}
use socket_wrapper.Stream
use socket_wrapper.Stream.Ownership.{destroy}
use socket_wrapper.Listener.{check}

-- The result of socketpair, and the two descriptors.
pub record Pair : Type 0 where
  pub result : ℤ
  pub first : ℤ
  pub second : ℤ

pub record Connections (K : Kernel) : Type 0 where
  -- `socketpair(AF_LOCAL, SOCK_STREAM | SOCK_NONBLOCK, IPPROTO_IP, fds)`
  pub socketpair : K.World → Pair × K.World
  -- The address that inet_pton (IPv6) or inet_addr (IPv4) reads in a text.
  pub address : IpVersion → String → ℕ
  pub connect : ℤ → IpVersion → ℕ → ℕ → K.World → ℤ × K.World

module _ (K : Kernel) (N : Network K) (C : Connections K) where
  open K use {World}

  -- What follows the constructor of the second element of the array in `CreatePipe`: if it threw, the
  -- first element is destroyed.
  unfoldable pub after_second : Stream → Outcome Stream → Exec World (Stream × Stream)
  after_second first (ok second) = pure (first, second)
  after_second first (throws e) = destroy K first >> raise e
  after_second first terminated = terminate
  after_second first out_of_fuel = diverge

  unfoldable pub create_second : Stream → ℤ → Exec World (Stream × Stream)
  unfolding after_second
  create_second first fd w = let (r, w') = Stream.create K fd w in after_second first r w'

  unfoldable pub create_pipe : Exec World (Stream × Stream)
  create_pipe = do
    fds ← call C.socketpair
    check K N (not (int_eq fds.result (pos 0))) socket_pair
    first ← Stream.create K fds.first
    create_second first fds.second

  unfoldable pub create_tcp_stream_to_server : String → ℕ → IpVersion → Exec World Stream
  create_tcp_stream_to_server ip_address port version = do
    client_socket_fd ← call (N.socket version)
    check K N (is_negative client_socket_fd) socket_socket
    connected ← call (C.connect client_socket_fd version (C.address version ip_address) port)
    check K N (is_negative connected) socket_connect
    Stream.create K client_socket_fd
