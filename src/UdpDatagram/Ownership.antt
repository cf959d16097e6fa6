-- ===== src/UdpDatagram/Ownership.antt =====
-- Moves and destruction of a UdpDatagram. A move is a function of the two objects, which are
-- different ones.
use socket_wrapper.Prelude.{
  ℕ, ◌+◌, ◌<◌, ◌≡◌, ◌≢◌, refl, true, false, List, [], ◌∷◌, length, arith, ◌==◌, if◌then◌else◌, inl,
  inr, ◌⊎◌,
}
use socket_wrapper.Prelude.Int.{ℤ, pos, minus_one, is_negative, int_eq}
use socket_wrapper.BaseTypes.{IpVersion}
use socket_wrapper.Exception.{socket_read, socket_receive_buffer_too_small}
use socket_wrapper.Exec.{Exec, pure, terminate, call, ◌>>=◌, ◌>>◌}
use socket_wrapper.Kernel.{Kernel, read_failed, got}
use socket_wrapper.Stream.{semaphore_value}
use socket_wrapper.Stream.Ownership.{then_nothing}
use socket_wrapper.UdpDatagram.{
  UdpDatagram, Datagrams, Msghdr, set_msghdr_params, read, receive, assert_recvmsg_succeeded,
}
use socket_wrapper.UdpDatagram.Read.{Throws}

abbrev pub moved_from : UdpDatagram → UdpDatagram
moved_from src = record src { socket_fd = minus_one }

-- The move constructor, which initialises neither the buffer, so that it is empty, nor the version, so
-- that it is any: the new object, and what is left of `src`.
pub move_construct : IpVersion → UdpDatagram → UdpDatagram × UdpDatagram
move_construct uninitialised src = (
  record {
    buffer = [];
    socket_fd = src.socket_fd;
    ip_version = uninitialised;
    stop_all_operations_event_fd = src.stop_all_operations_event_fd;
  },
  moved_from src,
)

-- The move assignment of `src` to `own`, which keeps its buffer and its version, and what is left of
-- `src`.
pub move_assign : UdpDatagram → UdpDatagram → UdpDatagram × UdpDatagram
move_assign own src = (
  record own {
    socket_fd = src.socket_fd;
    stop_all_operations_event_fd = src.stop_all_operations_event_fd;
  },
  moved_from src,
)

module _ (K : Kernel) where
  -- The destructor.
  pub destroy : UdpDatagram → Exec K.World (Unit {0})
  destroy u = if is_negative u.socket_fd then pure tt else (do
    call (K.write_u64 u.stop_all_operations_event_fd semaphore_value)
    closed ← call (K.close u.socket_fd)
    if int_eq closed (pos 0) then pure tt else terminate)

  -- Construct by a move, or assign by one, and destroy both objects: this has the effect that the
  -- destruction of the source alone would have had. The socket is closed once; after an assignment the
  -- target's own socket is never closed.
  pub move-destroy :
      (uninitialised : IpVersion) (own u : UdpDatagram) (w : K.World)
      → ((destroy (move_construct uninitialised u).0 >> destroy (move_construct uninitialised u).1)
            w
          ≡ destroy u w)
        × ((destroy (move_assign own u).0 >> destroy (move_assign own u).1) w ≡ destroy u w)
  unfolding destroy move_construct move_assign
  move-destroy uninitialised own u w = (
    then_nothing K (destroy u w).0 (destroy u w).1,
    then_nothing K (destroy u w).0 (destroy u w).1,
  )

-- The chars in the arrays of a msghdr.
abbrev pub room : List (List ℕ) → ℕ
room [] = 0
room (array ∷ arrays) = length array + room arrays

-- recvmsg gives no more bytes than it was given room for, and sets MSG_TRUNC when a datagram has more;
-- `next` is the datagram that is received next.
pub record Sizes (K : Kernel) (D : Datagrams K) : Type 0 where
  pub next : ℤ → K.World → List ℕ
  pub truncates :
      (fd : ℤ) (msg : Msghdr) (w : K.World)
      → room msg.msg_iov < length (next fd w)
      → ((D.recvmsg fd msg w).0.result ≡ read_failed)
        ⊎ ((bytes : List ℕ) × ((D.recvmsg fd msg w).0.result ≡ got bytes)
            × ((D.recvmsg fd msg w).0.truncated ≡ true))

module _ (K : Kernel) (D : Datagrams K) (sizes : Sizes K D) where
  -- An object that was constructed by a move has an empty buffer: when poll announces a datagram that
  -- is not empty, and did not return the number that the timeout is, `read` throws SOCKET_READ or
  -- SOCKET_RECEIVE_BUFFER_TOO_SMALL, whatever the size of the buffer was that the source had.
  pub move_construct-read :
      (uninitialised : IpVersion) (u : UdpDatagram) (timeout : ℤ) (w : K.World)
      → let polled = K.poll (u.socket_fd ∷ u.stop_all_operations_event_fd ∷ []) timeout w in
        int_eq polled.0.status timeout ≡ false
        → polled.0.revents 0 ≢ 0
        → 0 < length (sizes.next u.socket_fd polled.1)
        → Throws K D socket_read (read K D timeout ((move_construct uninitialised u).0, w)).0
          ⊎ Throws K D socket_receive_buffer_too_small
              (read K D timeout ((move_construct uninitialised u).0, w)).0
  unfolding move_construct read receive assert_recvmsg_succeeded
  move_construct-read uninitialised u timeout w differs ready some_bytes =
      let polled = K.poll (u.socket_fd ∷ u.stop_all_operations_event_fd ∷ []) timeout w in
      let announced : (polled.0.revents 0 == 0) ≡ false = ground (arith, ready) in
      elim (sizes.truncates u.socket_fd (set_msghdr_params K D (move_construct uninitialised u).0)
        polled.1 some_bytes) [
          | inl failed ↦
              rw
                (
                  differs, announced, failed, move_construct, read, receive,
                  assert_recvmsg_succeeded,
                )
                (inl (_, refl))
          | inr (bytes, some_got, cut) ↦
              rw
                (
                  differs, announced, some_got, cut, move_construct, read, receive,
                  assert_recvmsg_succeeded,
                )
                (inr (_, refl))
        ]
