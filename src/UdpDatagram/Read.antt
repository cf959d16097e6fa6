-- ===== src/UdpDatagram/Read.antt =====
-- UdpDatagram::read.
use socket_wrapper.Prelude.{
  ℕ, ◌≡◌, ◌≢◌, ◌==◌, ◌⊎◌, refl, inl, inr, Bool, true, false, List, [], ◌∷◌, length, take, ap, arith,
  Bool-cases,
}
use socket_wrapper.Prelude.Int.{ℤ, int_eq, int_eq→eq, int_eq→ne, minus_one}
use socket_wrapper.Exception.{
  ExceptionType, socket, socket_poll, socket_read, socket_read_timeout,
  socket_receive_buffer_too_small, socket_termination_request,
}
use socket_wrapper.Exec.{Outcome, ok, throws, pure, on_second, ◌>>◌}
use socket_wrapper.Kernel.{Kernel, ReadResult, read_failed, got}
use socket_wrapper.UdpDatagram.{
  UdpDatagram, Datagrams, Received, assert_recvmsg_succeeded, receive, read, set_msghdr_params,
  written,
}
use socket_wrapper.Prelude.Memory.{blit, take-blit_front}

module _ (K : Kernel) (D : Datagrams K) where
  abbrev pub Throws : {A : Type 0} → ExceptionType → Outcome A → Type 0
  Throws {A} t r =
      (c : ℤ) × (r
        ≡ throws (socket (record { exception_type = t; c_error = c; processed_bytes = minus_one })))

  -- How a datagram is received that recvmsg gave.
  abbrev pub ReceiveEnds : Received → Outcome (List ℕ) → Type 0
  ReceiveEnds received r =
      ((received.result ≡ read_failed) × Throws socket_read r)
      ⊎ ((bytes : List ℕ) × (received.result ≡ got bytes)
          × (((received.truncated ≡ true) × Throws socket_receive_buffer_too_small r)
              ⊎ ((received.truncated ≡ false) × (r ≡ ok bytes))))

  -- How `read` ends, by what poll answered.
  abbrev pub DatagramEnds : ℤ → UdpDatagram → K.World → Outcome (List ℕ) → Type 0
  DatagramEnds timeout u w r =
      let polled = K.poll (u.socket_fd ∷ u.stop_all_operations_event_fd ∷ []) timeout w in
      ((polled.0.status ≡ timeout) × Throws socket_poll r)
      ⊎ ((polled.0.status ≢ timeout)
          × (((polled.0.revents 0 ≢ 0)
                × ReceiveEnds (D.recvmsg u.socket_fd (set_msghdr_params K D u) polled.1).0 r)
              ⊎ ((polled.0.revents 0 ≡ 0)
                  × (polled.0.revents 1 ≢ 0)
                  × Throws socket_termination_request r)
              ⊎ ((polled.0.revents 0 ≡ 0)
                  × (polled.0.revents 1 ≡ 0)
                  × Throws socket_read_timeout r)))

  checked-ReceiveEnds :
      (result : ReadResult) (truncated : Bool) (u : UdpDatagram) (w : K.World)
      → let received : Received = record { result = result; truncated = truncated } in
        let buffer = blit 0 (written K D result) u.buffer in
        ReceiveEnds received
          ((on_second (assert_recvmsg_succeeded K D received)
              >> pure (take (length (written K D result)) buffer))
            (record u { buffer = buffer }, w)).0
  unfolding assert_recvmsg_succeeded
  checked-ReceiveEnds read_failed truncated u w = inl (refl, (_, refl))
  checked-ReceiveEnds (got bytes) true u w = inr (bytes, refl, inl (refl, (_, refl)))
  checked-ReceiveEnds (got bytes) false u w =
      inr (bytes, refl, inr (refl, ap ok (take-blit_front bytes u.buffer)))

  -- `read` returns a datagram that fitted into the buffer, or throws. SOCKET_POLL is thrown when poll
  -- returned the very number that the timeout is; otherwise a socket that is ready gives its datagram,
  -- SOCKET_READ or, for a datagram that was cut off, SOCKET_RECEIVE_BUFFER_TOO_SMALL, and one that is
  -- not gives SOCKET_TERMINATION_REQUEST or SOCKET_READ_TIMEOUT.
  pub read-DatagramEnds :
      (timeout : ℤ) (u : UdpDatagram) (w : K.World)
      → DatagramEnds timeout u w (read K D timeout (u, w)).0
  unfolding read receive
  read-DatagramEnds timeout u w =
      let polled = K.poll (u.socket_fd ∷ u.stop_all_operations_event_fd ∷ []) timeout w in
      let received = D.recvmsg u.socket_fd (set_msghdr_params K D u) polled.1 in
      elim (Bool-cases (int_eq polled.0.status timeout)) [
        | inl same ↦ rw (same, read) (inl (int_eq→eq _ _ same, (_, refl)))
        | inr differs ↦ elim (Bool-cases (polled.0.revents 0 == 0)) [
          | inr ready ↦
              rw (differs, ready, read, receive)
                (inr (
                  int_eq→ne _ _ differs,
                  inl (
                    ground arith,
                    checked-ReceiveEnds received.0.result received.0.truncated u received.1,
                  ),
                ))
          | inl idle ↦ elim (Bool-cases (polled.0.revents 1 == 0)) [
            | inr request ↦
                rw (differs, idle, request, read)
                  (inr (int_eq→ne _ _ differs, inr (inl (ground arith, ground arith, (_, refl)))))
            | inl quiet ↦
                rw (differs, idle, quiet, read)
                  (inr (int_eq→ne _ _ differs, inr (inr (ground arith, ground arith, (_, refl)))))
          ]
        ]
      ]
