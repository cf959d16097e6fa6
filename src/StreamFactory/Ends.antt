-- ===== src/StreamFactory/Ends.antt =====
-- How the functions of StreamFactory end.
use Prim.Native.String.{String}
use socket_wrapper.Prelude.{
  ℕ, ◌≡◌, ◌≢◌, ◌⊎◌, refl, sym, subst, ◌∙◌, inl, inr, true, false, Bool-cases,
}
use socket_wrapper.Prelude.Int.{ℤ, pos, minus_one, is_negative, int_eq, int_eq→eq, int_eq→ne}
use socket_wrapper.BaseTypes.{IpVersion}
use socket_wrapper.Exception.{runtime_error, socket_socket, socket_connect, socket_pair}
use socket_wrapper.Exec.{Outcome, ok, throws, terminated, raise, ◌>>◌}
use socket_wrapper.Kernel.{Kernel}
use socket_wrapper.Network.{Network, Descriptors}
use socket_wrapper.Stream.{Stream, throw_errno}
use socket_wrapper.Stream
use socket_wrapper.Stream.Ownership.{destroy, destroy_ends}
use socket_wrapper.StreamFactory.{
  Pair, Connections, create_second, create_pipe, create_tcp_stream_to_server,
}

abbrev on_socket : ℤ → ℤ → Stream
on_socket fd event_fd = record {
  stream_file_descriptor = fd;
  stop_all_operations_event_fd = event_fd;
}

-- connect and eventfd open no descriptor that was closed and close none.
pub record Connects (K : Kernel) (N : Network K) (C : Connections K) (fds : Descriptors K N)
    : Type 0 where
  pub open_connect :
      (g fd : ℤ) (v : IpVersion) (address port : ℕ) (w : K.World)
      → fds.is_open g (C.connect fd v address port w).1 ≡ fds.is_open g w
  pub open_eventfd :
      (g : ℤ) (w : K.World) → fds.is_open g w ≡ true → fds.is_open g (K.eventfd w).1 ≡ true

module _ (K : Kernel) (N : Network K) (C : Connections K) where
  module _ (fds : Descriptors K N) (laws : Connects K N C fds) where
    -- How `CreateTcpStreamToServer` ends, by what socket, connect and eventfd answer.
    abbrev pub TcpEnds : String → ℕ → IpVersion → K.World → Outcome Stream × K.World → Type 0
    TcpEnds ip_address port version w st =
        let made = N.socket version w in
        let connected = C.connect made.0 version (C.address version ip_address) port made.1 in
        let event = K.eventfd connected.1 in
        ((is_negative made.0 ≡ true) × (st ≡ throw_errno K socket_socket made.1))
        ⊎ ((is_negative made.0 ≡ false)
            × (fds.is_open made.0 st.1 ≡ true)
            × (((is_negative connected.0 ≡ true) × (st ≡ throw_errno K socket_connect connected.1))
                ⊎ ((is_negative connected.0 ≡ false)
                    × (event.0 ≡ minus_one)
                    × (st ≡ (throws runtime_error, event.1)))
                ⊎ ((is_negative connected.0 ≡ false)
                    × (event.0 ≢ minus_one)
                    × (st ≡ (ok (on_socket made.0 event.0), event.1)))))

    -- `CreateTcpStreamToServer` throws SOCKET_SOCKET if there is no socket, SOCKET_CONNECT if connect
    -- fails, and runtime_error if connect succeeds and eventfd fails; if all succeed, and only then, it
    -- returns a Stream on the socket. After connect was called the socket is open in all these cases, so
    -- that after a throw it is left open.
    pub create_tcp_stream_to_server-TcpEnds :
        (ip_address : String) (port : ℕ) (version : IpVersion) (w : K.World)
        → TcpEnds ip_address port version w
            (create_tcp_stream_to_server K N C ip_address port version w)
    unfolding create_tcp_stream_to_server Stream.create
    create_tcp_stream_to_server-TcpEnds ip_address port version w =
        elim (Bool-cases (is_negative made.0)) [
          | inl failed ↦ rw (failed, create_tcp_stream_to_server) (inl (refl, refl))
          | inr fine ↦
              let is_open = fds.open_socket version w fine in
              let still_open =
                laws.open_connect made.0 made.0 version address port made.1 ∙ is_open in
              elim (Bool-cases (is_negative connected.0)) [
                | inl refused ↦
                    rw (fine, refused, create_tcp_stream_to_server)
                      (inr (refl, still_open, inl (refl, refl)))
                | inr done ↦
                    let kept = laws.open_eventfd made.0 connected.1 still_open in
                    elim (Bool-cases (int_eq (K.eventfd connected.1).0 minus_one)) [
                      | inl none_left ↦
                          rw (fine, done, none_left, create_tcp_stream_to_server, Stream.create)
                            (inr (refl, kept, inr (inl (refl, int_eq→eq _ _ none_left, refl))))
                      | inr event ↦
                          rw (fine, done, event, create_tcp_stream_to_server, Stream.create)
                            (inr (refl, kept, inr (inr (refl, int_eq→ne _ _ event, refl))))
                    ]
              ]
        ]
      where
        made : ℤ × K.World
        made = N.socket version w

        address : ℕ
        address = C.address version ip_address

        connected : ℤ × K.World
        connected = C.connect made.0 version address port made.1

  -- How `CreatePipe` ends, where socketpair gave `fds` in the world `v`, by what eventfd answers.
  abbrev pub PipeEnds : Pair → K.World → Outcome (Stream × Stream) × K.World → Type 0
  PipeEnds fds v st =
      let one = K.eventfd v in
      let two = K.eventfd one.1 in
      let first = on_socket fds.first one.0 in
      ((fds.result ≢ pos 0) × (st ≡ throw_errno K socket_pair v))
      ⊎ ((fds.result ≡ pos 0)
          × (((one.0 ≡ minus_one) × (st ≡ (throws runtime_error, one.1)))
              ⊎ ((one.0 ≢ minus_one)
                  × (((two.0 ≢ minus_one) × (st ≡ (ok (first, on_socket fds.second two.0), two.1)))
                      ⊎ ((two.0 ≡ minus_one)
                          × (st.1 ≡ (destroy K first two.1).1)
                          × (((destroy K first two.1).0 ≡ ok tt) × (st.0 ≡ throws runtime_error)
                              ⊎ ((destroy K first two.1).0 ≡ terminated) × (st.0 ≡ terminated)))))))

  unwinds :
      (a : Stream) (w : K.World)
      → let st = (destroy K a >> raise {A = Stream × Stream} runtime_error) w in
        (st.1 ≡ (destroy K a w).1)
        × (((destroy K a w).0 ≡ ok tt) × (st.0 ≡ throws runtime_error)
            ⊎ ((destroy K a w).0 ≡ terminated) × (st.0 ≡ terminated))
  unwinds a w = elim (destroy_ends K a w) [
    | inl closed ↦ rw closed (refl, inl (refl, refl))
    | inr stuck ↦ rw stuck (refl, inr (refl, refl))
  ]

  -- `CreatePipe` throws SOCKET_PAIR if socketpair fails. Otherwise it returns Streams on its two
  -- descriptors, in their order, if eventfd succeeds for both, and only then. If it fails for the first
  -- Stream, the call throws runtime_error and closes nothing. If it fails for the second one, the first
  -- is destroyed, and the call throws runtime_error or, if the destructor cannot close, terminates the
  -- process.
  pub create_pipe-PipeEnds :
      (w : K.World) → PipeEnds (C.socketpair w).0 (C.socketpair w).1 (create_pipe K N C w)
  unfolding create_pipe create_second Stream.create
  create_pipe-PipeEnds w = elim (Bool-cases (int_eq fds.result (pos 0))) [
    | inr failed ↦ rw (failed, create_pipe) (inl (int_eq→ne _ _ failed, refl))
    | inl made ↦ elim (Bool-cases (int_eq (K.eventfd v).0 minus_one)) [
      | inl none_left ↦
          rw (made, none_left, create_pipe, Stream.create)
            (inr (int_eq→eq _ _ made, inl (int_eq→eq _ _ none_left, refl)))
      | inr one_left ↦ elim (Bool-cases (int_eq (K.eventfd (K.eventfd v).1).0 minus_one)) [
        | inr two_left ↦
            rw (made, one_left, two_left, create_pipe, create_second, Stream.create)
              (inr (
                int_eq→eq _ _ made,
                inr (int_eq→ne _ _ one_left, inl (int_eq→ne _ _ two_left, refl)),
              ))
        | inl no_second ↦ subst (PipeEnds fds v) (sym (fails made one_left no_second)) (
            inr (
              int_eq→eq _ _ made,
              inr (
                int_eq→ne _ _ one_left,
                inr (int_eq→eq _ _ no_second, (unwinds first _).0, (unwinds first _).1),
              ),
            ))
      ]
    ]
  ]
    where
      fds : Pair
      fds = (C.socketpair w).0

      v : K.World
      v = (C.socketpair w).1

      first : Stream
      first = record {
        stream_file_descriptor = fds.first;
        stop_all_operations_event_fd = (K.eventfd v).0;
      }

      fails :
          int_eq fds.result (pos 0) ≡ true
          → int_eq (K.eventfd v).0 minus_one ≡ false
          → int_eq (K.eventfd (K.eventfd v).1).0 minus_one ≡ true
          → create_pipe K N C w
            ≡ (destroy K first >> raise runtime_error) (K.eventfd (K.eventfd v).1).1
      fails made one_left no_second =
          rw (made, one_left, no_second, create_pipe, create_second, Stream.create) refl
