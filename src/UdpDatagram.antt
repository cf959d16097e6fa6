-- ===== src/UdpDatagram.antt =====
-- include/socket_wrapper/UdpDatagram.h and src/UdpDatagram.cpp. The state of an operation is the
-- object and the world.
pub mod Create
pub mod Read
pub mod Multicast
pub mod Ownership
use Prim.Native.String.{String}
use socket_wrapper.Prelude.{
  ℕ, ◌<◌, ◌≤◌, ◌%◌, ◌^◌, Bool, true, false, not, List, [], ◌∷◌, length, take, leb, ltb, replicate,
  ◌==◌, ◌&&◌, if◌then◌else◌,
}
use socket_wrapper.Prelude.Int.{ℤ, pos, minus_one, is_negative, int_eq}
use socket_wrapper.Prelude.Memory.{blit}
use socket_wrapper.BaseTypes.{IpVersion, ipv4, ipv6}
use socket_wrapper.Exception.{
  ExceptionType, logic_error, runtime_error, socket_socket, socket_bind, socket_join_multicast,
  socket_poll, socket_read, socket_read_timeout, socket_receive_buffer_too_small,
  socket_termination_request, socket_write,
}
use socket_wrapper.Exec.{
  Outcome, ok, throws, Exec, pure, raise, gets, call, on_second, continue, ◌>>=◌, ◌>>◌,
}
use socket_wrapper.Kernel.{Kernel, ReadResult, read_failed, got, WriteResult, write_failed, wrote}
use socket_wrapper.Stream.{throw_errno, semaphore_value}
use socket_wrapper.Listener.{to_uint16}

-- `struct msghdr`: the arrays of its iovec, whose number is msg_iovlen, and the lengths of the name and
-- of the control data, which are null when these are 0.
pub record Msghdr : Type 0 where
  pub msg_iov : List (List ℕ)
  pub msg_namelen : ℕ
  pub msg_controllen : ℕ
  pub msg_flags : ℕ

-- The datagram, or the beginning of it that fits, and whether MSG_TRUNC is set.
pub record Received : Type 0 where
  pub result : ReadResult
  pub truncated : Bool

-- The calls on datagram sockets. An IPv4 address is a number in the host's byte order, as ntohl and
-- inet_addr make it of a text.
pub record Datagrams (K : Kernel) : Type 0 where
  -- `socket(family, SOCK_DGRAM | SO_REUSEADDR, IPPROTO_UDP)`
  pub socket : IpVersion → K.World → ℤ × K.World
  pub set_reuse_port : ℤ → K.World → ℤ × K.World
  -- bind to an IPv4 address, and to in6addr_any
  pub bind4 : ℤ → ℕ → ℕ → K.World → ℤ × K.World
  pub bind6 : ℤ → ℕ → K.World → ℤ × K.World
  pub recvmsg : ℤ → Msghdr → K.World → Received × K.World
  pub sendto : ℤ → List ℕ → ℕ → ℕ → K.World → WriteResult × K.World
  pub inet_addr : String → ℕ
  pub set_reuse_addr : ℤ → K.World → ℤ × K.World
  pub add_membership : ℤ → ℕ → K.World → ℤ × K.World

pub record UdpDatagram : Type 0 where
  pub buffer : List ℕ
  pub socket_fd : ℤ
  pub ip_version : IpVersion
  pub stop_all_operations_event_fd : ℤ

module _ (K : Kernel) (D : Datagrams K) where
  open K use {World, poll, write_u64, eventfd}

  -- The call of bind in the constructor. With IPv6 the address of the listener is not used.
  abbrev pub bind_to : IpVersion → ℤ → String → ℕ → World → ℤ × World
  bind_to ipv6 fd listener_ip_addr listener_port = D.bind6 fd listener_port
  bind_to ipv4 fd listener_ip_addr listener_port =
      D.bind4 fd (D.inet_addr listener_ip_addr) listener_port

  -- The constructor, with a buffer size that is not negative and that memory holds. The results of
  -- setsockopt are not looked at.
  unfoldable pub create : String → ℕ → IpVersion → ℕ → Exec World UdpDatagram
  create listener_ip_addr listener_port version buffer_size = do
    fd ← call (D.socket version)
    if is_negative fd then throw_errno K socket_socket else pure tt
    call (D.set_reuse_addr fd)
    call (D.set_reuse_port fd)
    bound ← call (bind_to version fd listener_ip_addr listener_port)
    if is_negative bound then throw_errno K socket_bind else pure tt
    event_fd ← call eventfd
    if int_eq event_fd minus_one
        then raise runtime_error
        else pure (record {
          buffer = replicate buffer_size 0;
          socket_fd = fd;
          ip_version = version;
          stop_all_operations_event_fd = event_fd;
        })

  -- `setMsghdrParams`, which sets every field.
  abbrev pub set_msghdr_params : UdpDatagram → Msghdr
  set_msghdr_params u = record {
    msg_iov = u.buffer ∷ [];
    msg_namelen = 0;
    msg_controllen = 0;
    msg_flags = 0;
  }

  unfoldable pub assert_recvmsg_succeeded : Received → Exec World (Unit {0})
  assert_recvmsg_succeeded received = elim received.result [
    | read_failed ↦ throw_errno K socket_read
    | got bytes ↦
        if received.truncated then throw_errno K socket_receive_buffer_too_small else pure tt
  ]

  -- What recvmsg writes to the array.
  abbrev pub written : ReadResult → List ℕ
  written read_failed = []
  written (got bytes) = bytes

  -- What `read` does when poll announces a datagram. recvmsg writes to the buffer, whose beginning is
  -- the result.
  unfoldable pub receive : Exec (UdpDatagram × World) (List ℕ)
  receive (u, w) =
      let (received, w') = D.recvmsg u.socket_fd (set_msghdr_params u) w in
      let bytes = written received.result in
      let buffer = blit 0 bytes u.buffer in
      (on_second (assert_recvmsg_succeeded received) >> pure (take (length bytes) buffer))
        (record u { buffer = buffer }, w')

  unfoldable pub read : ℤ → Exec (UdpDatagram × World) (List ℕ)
  unfolding receive
  read timeout_ms = do
    u ← gets (λ st. st.0)
    polled ← on_second (call (poll (u.socket_fd ∷ u.stop_all_operations_event_fd ∷ []) timeout_ms))
    if int_eq polled.status timeout_ms
        then on_second (throw_errno K socket_poll)
        else if not (polled.revents 0 == 0)
        then receive
        else if not (polled.revents 1 == 0)
        then on_second (throw_errno K socket_termination_request)
        else on_second (throw_errno K socket_read_timeout)

  -- The test on the result of sendto.
  abbrev check_sent : WriteResult → Exec World (Unit {0})
  check_sent write_failed = throw_errno K socket_write
  check_sent (wrote n) = pure tt

  unfoldable pub write : List ℕ → String → ℤ → UdpDatagram → Exec World (Unit {0})
  write msg_data destination_ip port u = elim u.ip_version [
    | ipv6 ↦ raise logic_error
    | ipv4 ↦
        call (D.sendto u.socket_fd msg_data (D.inet_addr destination_ip) (to_uint16 port))
        >>= check_sent
  ]

  unfoldable pub stop_reads : UdpDatagram → Exec World (Unit {0})
  stop_reads u = do call (write_u64 u.stop_all_operations_event_fd semaphore_value); pure tt

  -- The result of the first setsockopt is not looked at.
  unfoldable pub subscribe_to_multicast : String → UdpDatagram → Exec World (Unit {0})
  subscribe_to_multicast group_addr u =
      let addr_prefix = D.inet_addr group_addr in
      if leb (D.inet_addr "224.0.0.0") addr_prefix && ltb addr_prefix (D.inet_addr "240.0.0.0")
      then (do
        call (D.set_reuse_addr u.socket_fd)
        joined ← call (D.add_membership u.socket_fd addr_prefix)
        if is_negative joined then throw_errno K socket_bind else pure tt)
      else throw_errno K socket_join_multicast
