-- ===== src/Listener/Create.antt =====
-- The constructors: what they promise, and what a failure leaves behind.
use socket_wrapper.Prelude.{◌≡◌, ◌≢◌, ◌⊎◌, refl, ◌∙◌, inl, inr, Bool, true, false, Bool-cases}
use socket_wrapper.Prelude.Int.{ℤ, pos, is_negative, int_eq, int_eq→eq, int_eq→ne}
use socket_wrapper.BaseTypes.{IpVersion}
use socket_wrapper.Exception.{socket_socket, socket_bind, socket_listen, socket_set_option}
use socket_wrapper.Exec.{Outcome, ok}
use socket_wrapper.Kernel.{Kernel}
use socket_wrapper.Network.{Network, Descriptors}
use socket_wrapper.Stream.{throw_errno}
use socket_wrapper.Listener.{Listener, to_uint16, set_options, start_listening, open_socket, create}

module _ (K : Kernel) (N : Network K) (open_fds : Descriptors K N) where
  -- How a constructor ends from the call of bind on, by what bind and listen answer.
  abbrev pub StartEnds : ℤ → ℤ → ℤ → IpVersion → K.World → Outcome Listener × K.World → Type 0
  StartEnds fd end_fd port version w st =
      let bound = N.bind_any fd version (to_uint16 port) w in
      let listening = N.listen fd 5 bound.1 in
      ((bound.0 ≢ pos 0) × (st ≡ throw_errno K socket_bind bound.1))
      ⊎ ((bound.0 ≡ pos 0) × (listening.0 ≢ pos 0) × (st ≡ throw_errno K socket_listen listening.1))
      ⊎ ((bound.0 ≡ pos 0)
          × (listening.0 ≡ pos 0)
          × (open_fds.is_listening fd st.1 ≡ true)
          × (st ≡ (
            ok (record {
              listener_socket_fd = fd;
              listener_end_fd = end_fd;
              stopped_accepting = false;
            }),
            listening.1,
          )))

  -- How a constructor ends once it has the socket, which is open then.
  abbrev OpenStart : ℤ → ℤ → ℤ → IpVersion → K.World → Outcome Listener × K.World → Type 0
  OpenStart fd end_fd port version w st =
      (open_fds.is_open fd st.1 ≡ true) × StartEnds fd end_fd port version w st

  start_listening-OpenStart :
      (fd end_fd port : ℤ) (version : IpVersion) (w : K.World)
      → open_fds.is_open fd w ≡ true
      → OpenStart fd end_fd port version w (start_listening K N fd end_fd port version w)
  unfolding start_listening
  start_listening-OpenStart fd end_fd port version w h =
      let bound = N.bind_any fd version (to_uint16 port) w in
      let listening = N.listen fd 5 bound.1 in
      let after_bind = open_fds.open_bind fd fd version (to_uint16 port) w ∙ h in
      let after_listen = open_fds.open_listen fd fd 5 bound.1 ∙ after_bind in
      elim (Bool-cases (int_eq bound.0 (pos 0))) [
        | inr refused ↦
            rw (refused, start_listening) (after_bind, inl (int_eq→ne _ _ refused, refl))
        | inl done ↦ elim (Bool-cases (int_eq listening.0 (pos 0))) [
          | inr deaf ↦
              rw (done, deaf, start_listening)
                (after_listen, inr (inl (int_eq→eq _ _ done, int_eq→ne _ _ deaf, refl)))
          | inl hears ↦
              let zero_result = int_eq→eq _ _ hears in
              rw (done, hears, start_listening)
                (
                  after_listen,
                  inr (
                      inr (
                        int_eq→eq _ _ done,
                        zero_result,
                        open_fds.listening fd 5 bound.1 zero_result,
                        refl,
                      )),
                )
        ]
      ]

  -- How a constructor ends that sets the options if `reuse` says so, once it has the socket, by what
  -- setsockopt, bind and listen answer.
  abbrev pub OpenEnds : Bool → ℤ → ℤ → ℤ → IpVersion → K.World → Outcome Listener × K.World → Type 0
  OpenEnds false fd end_fd port version w st = StartEnds fd end_fd port version w st
  OpenEnds true fd end_fd port version w st =
      let addr = N.set_reuse_addr fd w in
      let port_option = N.set_reuse_port fd addr.1 in
      ((is_negative addr.0 ≡ true) × (st ≡ throw_errno K socket_set_option addr.1))
      ⊎ ((is_negative addr.0 ≡ false)
          × (is_negative port_option.0 ≡ true)
          × (st ≡ throw_errno K socket_set_option port_option.1))
      ⊎ ((is_negative addr.0 ≡ false)
          × (is_negative port_option.0 ≡ false)
          × StartEnds fd end_fd port version port_option.1 st)

  -- How the constructor of Listener ends that began in the world `w`.
  abbrev pub CreateEnds : ℤ → IpVersion → Bool → K.World → Outcome Listener × K.World → Type 0
  CreateEnds port version reuse w st =
      let end_fd = K.eventfd w in
      let made = N.socket version end_fd.1 in
      ((is_negative made.0 ≡ true) × (st ≡ throw_errno K socket_socket made.1))
      ⊎ ((is_negative made.0 ≡ false)
          × (open_fds.is_open made.0 st.1 ≡ true)
          × OpenEnds reuse made.0 end_fd.0 port version made.1 st)

  -- The constructor throws SOCKET_SOCKET if there is no socket; if options are asked for,
  -- SOCKET_SET_OPTION if setsockopt fails for one of them; then SOCKET_BIND if bind fails; and then
  -- SOCKET_LISTEN if listen fails. If all succeed, and only then, it returns a listener on the socket,
  -- which listens. Whenever there is a socket it is open at the end, so that after a throw it is left
  -- open.
  pub create-CreateEnds :
      (port : ℤ) (version : IpVersion) (reuse : Bool) (w : K.World)
      → CreateEnds port version reuse w (create K N port version reuse w)
  unfolding create open_socket set_options
  create-CreateEnds port version reuse w = elim (Bool-cases (is_negative made.0)) [
    | inl failed ↦ inl (failed, rw (failed, create, open_socket))
    | inr fine ↦ opened fine (open_fds.open_socket version (K.eventfd w).1 fine) reuse
  ]
    where
      end_fd : ℤ
      end_fd = (K.eventfd w).0

      made : ℤ × K.World
      made = N.socket version (K.eventfd w).1

      addr : ℤ × K.World
      addr = N.set_reuse_addr made.0 made.1

      port_option : ℤ × K.World
      port_option = N.set_reuse_port made.0 addr.1

      opened :
          is_negative made.0 ≡ false
          → open_fds.is_open made.0 made.1 ≡ true
          → (reuse : Bool) → CreateEnds port version reuse w (create K N port version reuse w)
      opened fine is_open false =
          let (still, ends) = start_listening-OpenStart made.0 end_fd port version made.1 is_open in
          rw (fine, create, open_socket) (inr (refl, still, ends))
      opened fine is_open true =
          let after_addr = open_fds.open_reuse_addr made.0 made.0 made.1 ∙ is_open in
          let after_port = open_fds.open_reuse_port made.0 made.0 addr.1 ∙ after_addr in
          elim (Bool-cases (is_negative addr.0)) [
            | inl no_addr ↦
                rw (fine, no_addr, create, open_socket, set_options)
                  (inr (refl, after_addr, inl (refl, refl)))
            | inr has_addr ↦ elim (Bool-cases (is_negative port_option.0)) [
              | inl no_port ↦
                  rw (fine, has_addr, no_port, create, open_socket, set_options)
                    (inr (refl, after_port, inr (inl (refl, refl, refl))))
              | inr has_port ↦
                  let (still, ends) =
                    start_listening-OpenStart made.0 end_fd port version port_option.1 after_port in
                  rw (fine, has_addr, has_port, create, open_socket, set_options)
                    (inr (refl, still, inr (inr (refl, refl, ends))))
            ]
          ]
