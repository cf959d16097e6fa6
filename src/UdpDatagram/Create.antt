-- ===== src/UdpDatagram/Create.antt =====
-- The constructor of UdpDatagram: what it promises, and what a failure leaves behind.
use Prim.Native.String.{String}
use socket_wrapper.Prelude.{
  ℕ, ◌≡◌, ◌≢◌, ◌⊎◌, refl, ◌∙◌, inl, inr, Bool, true, false, Option, some, length, length-replicate,
  Bool-cases,
}
use socket_wrapper.Prelude.Int.{ℤ, minus_one, is_negative, int_eq, int_eq→eq, int_eq→ne}
use socket_wrapper.BaseTypes.{IpVersion, ipv4, ipv6}
use socket_wrapper.Exception.{socket_socket, socket_bind, runtime_error}
use socket_wrapper.Exec.{Outcome, ok, throws}
use socket_wrapper.Kernel.{Kernel}
use socket_wrapper.Stream.{throw_errno}
use socket_wrapper.UdpDatagram.{UdpDatagram, Datagrams, bind_to, create}

-- A local address: an IPv4 address and a port, or every IPv6 address and a port.
pub data Address : Type 0 where
  address4 : ℕ → ℕ → Address
  any6 : ℕ → Address

-- A new socket is open, and only close changes that. A bind that succeeds gives the socket its local
-- address, which eventfd does not change.
pub record Sockets (K : Kernel) (D : Datagrams K) : Type 0 where
  pub is_open : ℤ → K.World → Bool
  pub bound_to : ℤ → K.World → Option Address
  pub open_socket :
      (version : IpVersion) (w : K.World)
      → is_negative (D.socket version w).0 ≡ false
      → is_open (D.socket version w).0 (D.socket version w).1 ≡ true
  pub open_reuse_addr : (g fd : ℤ) (w : K.World) → is_open g (D.set_reuse_addr fd w).1 ≡ is_open g w
  pub open_reuse_port : (g fd : ℤ) (w : K.World) → is_open g (D.set_reuse_port fd w).1 ≡ is_open g w
  pub open_bind4 :
      (g fd : ℤ) (address port : ℕ) (w : K.World)
      → is_open g (D.bind4 fd address port w).1 ≡ is_open g w
  pub open_bind6 :
      (g fd : ℤ) (port : ℕ) (w : K.World) → is_open g (D.bind6 fd port w).1 ≡ is_open g w
  pub open_eventfd : (g : ℤ) (w : K.World) → is_open g w ≡ true → is_open g (K.eventfd w).1 ≡ true
  pub bound4 :
      (fd : ℤ) (address port : ℕ) (w : K.World)
      → is_negative (D.bind4 fd address port w).0 ≡ false
      → bound_to fd (D.bind4 fd address port w).1 ≡ some (address4 address port)
  pub bound6 :
      (fd : ℤ) (port : ℕ) (w : K.World)
      → is_negative (D.bind6 fd port w).0 ≡ false
      → bound_to fd (D.bind6 fd port w).1 ≡ some (any6 port)
  pub bound_eventfd : (fd : ℤ) (w : K.World) → bound_to fd (K.eventfd w).1 ≡ bound_to fd w

module _ (K : Kernel) (D : Datagrams K) (laws : Sockets K D) where
  -- Where the object listens; with IPv6 the address that is asked for makes no difference.
  abbrev pub listens_at : IpVersion → String → ℕ → Address
  listens_at ipv4 listener_ip_addr listener_port =
      address4 (D.inet_addr listener_ip_addr) listener_port
  listens_at ipv6 listener_ip_addr listener_port = any6 listener_port

  -- How the constructor ends that began in the world `w`.
  abbrev pub SocketEnds :
      String → ℕ → IpVersion → ℕ → K.World → Outcome UdpDatagram × K.World → Type 0
  SocketEnds listener_ip_addr listener_port version buffer_size w st =
      let made = D.socket version w in
      let w1 = (D.set_reuse_port made.0 (D.set_reuse_addr made.0 made.1).1).1 in
      let bound = bind_to K D version made.0 listener_ip_addr listener_port w1 in
      let event = K.eventfd bound.1 in
      ((is_negative made.0 ≡ true) × (st ≡ throw_errno K socket_socket made.1))
      ⊎ ((is_negative made.0 ≡ false)
          × (laws.is_open made.0 st.1 ≡ true)
          × (((is_negative bound.0 ≡ true) × (st ≡ throw_errno K socket_bind bound.1))
              ⊎ ((is_negative bound.0 ≡ false)
                  × (event.0 ≡ minus_one)
                  × (st ≡ (throws runtime_error, event.1)))
              ⊎ ((is_negative bound.0 ≡ false)
                  × (event.0 ≢ minus_one)
                  × ((u : UdpDatagram) × (st ≡ (ok u, event.1))
                      × (u.socket_fd ≡ made.0)
                      × (u.stop_all_operations_event_fd ≡ event.0)
                      × (u.ip_version ≡ version)
                      × (length u.buffer ≡ buffer_size)
                      × (laws.bound_to made.0 st.1
                          ≡ some (listens_at version listener_ip_addr listener_port))))))

  open_bind_to :
      (version : IpVersion) (fd : ℤ) (listener_ip_addr : String) (listener_port : ℕ) (w : K.World)
      → laws.is_open fd (bind_to K D version fd listener_ip_addr listener_port w).1
        ≡ laws.is_open fd w
  open_bind_to ipv4 fd listener_ip_addr listener_port w =
      laws.open_bind4 fd fd (D.inet_addr listener_ip_addr) listener_port w
  open_bind_to ipv6 fd listener_ip_addr listener_port w = laws.open_bind6 fd fd listener_port w

  bound_bind_to :
      (version : IpVersion) (fd : ℤ) (listener_ip_addr : String) (listener_port : ℕ) (w : K.World)
      → is_negative (bind_to K D version fd listener_ip_addr listener_port w).0 ≡ false
      → laws.bound_to fd (bind_to K D version fd listener_ip_addr listener_port w).1
        ≡ some (listens_at version listener_ip_addr listener_port)
  bound_bind_to ipv4 fd listener_ip_addr listener_port w =
      laws.bound4 fd (D.inet_addr listener_ip_addr) listener_port w
  bound_bind_to ipv6 fd listener_ip_addr listener_port w = laws.bound6 fd listener_port w

  -- The constructor throws SOCKET_SOCKET if there is no socket, SOCKET_BIND if bind fails, and
  -- runtime_error if bind succeeds and eventfd fails. If all succeed, and only then, it returns an object
  -- on the socket, with the event descriptor, the version, a buffer of the size asked for and a socket
  -- that is bound to the port, at the address with IPv4 and at every address with IPv6. After bind was
  -- called the socket is open in all these cases, so that after a throw it is left open.
  pub create-SocketEnds :
      (listener_ip_addr : String) (listener_port : ℕ) (version : IpVersion) (buffer_size : ℕ)
      (w : K.World)
      → SocketEnds listener_ip_addr listener_port version buffer_size w
          (create K D listener_ip_addr listener_port version buffer_size w)
  unfolding create
  create-SocketEnds listener_ip_addr listener_port version buffer_size w =
      elim (Bool-cases (is_negative made.0)) [
        | inl failed ↦ rw (failed, create) (inl (refl, refl))
        | inr fine ↦
            let is_open =
              open_bind_to version made.0 listener_ip_addr listener_port w2
              ∙ laws.open_reuse_port made.0 made.0 w1
              ∙ laws.open_reuse_addr made.0 made.0 made.1
              ∙ laws.open_socket version w fine in
            elim (Bool-cases (is_negative bound.0)) [
              | inl refused ↦ rw (fine, refused, create) (inr (refl, is_open, inl (refl, refl)))
              | inr done ↦
                  let kept = laws.open_eventfd made.0 bound.1 is_open in
                  let at =
                    laws.bound_eventfd made.0 bound.1
                    ∙ bound_bind_to version made.0 listener_ip_addr listener_port w2 done in
                  elim (Bool-cases (int_eq (K.eventfd bound.1).0 minus_one)) [
                    | inl none_left ↦
                        rw (fine, done, none_left, create)
                          (inr (refl, kept, inr (inl (refl, int_eq→eq _ _ none_left, refl))))
                    | inr ready ↦
                        rw (fine, done, ready, create)
                          (inr (
                            refl,
                            kept,
                            inr (
                                inr (
                                  refl,
                                  int_eq→ne _ _ ready,
                                  (_, refl, refl, refl, refl, length-replicate buffer_size 0, at),
                                )),
                          ))
                  ]
            ]
      ]
    where
      made : ℤ × K.World
      made = D.socket version w

      w1 : K.World
      w1 = (D.set_reuse_addr made.0 made.1).1

      w2 : K.World
      w2 = (D.set_reuse_port made.0 w1).1

      bound : ℤ × K.World
      bound = bind_to K D version made.0 listener_ip_addr listener_port w2
