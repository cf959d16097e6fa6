-- ===== src/Tests/Sockets.antt =====
-- The theorem on the constructor of UdpDatagram.
use socket_wrapper.Prelude.{refl, Bool, true, false, Option, none, some, [], if◌then◌else◌}
use socket_wrapper.Prelude.Int.{pos, int_eq}
use socket_wrapper.BaseTypes.{ipv6}
use socket_wrapper.Kernel.{Kernel, got, wrote}
use socket_wrapper.UdpDatagram.{Datagrams, create}
use socket_wrapper.UdpDatagram.Create.{
  Address, address4, any6, Sockets, SocketEnds, create-SocketEnds,
}

-- The only socket is the descriptor 3.
record Machine : Type 0 where
  opened : Bool
  address : Option Address

abbrev fresh : Machine
fresh = record { opened = false; address = none }

abbrev machine : Kernel
machine = record {
  World = Machine;
  errno = λ w. pos 98;
  poll = λ fds timeout w. (record { status = pos 0; revents = λ i. 0 }, w);
  pollin = λ revents. false;
  read = λ fd n w. (got [], w);
  write = λ fd bytes w. (wrote 0, w);
  close = λ fd w. (pos 0, record w { opened = false });
  sleep_ms = λ ms w. (tt, w);
  eventfd = λ w. (pos 4, w);
  write_u64 = λ fd v w. (wrote 8, w);
  read_u64 = λ fd w. (tt, w);
}

abbrev calls : Datagrams machine
calls = record {
  socket = λ v w. (pos 3, record w { opened = true });
  set_reuse_port = λ fd w. (pos 0, w);
  bind4 = λ fd address port w. (pos 0, record w { address = some (address4 address port) });
  bind6 = λ fd port w. (pos 0, record w { address = some (any6 port) });
  recvmsg = λ fd msg w. (record { result = got []; truncated = false }, w);
  sendto = λ fd bytes address port w. (wrote 1, w);
  inet_addr = λ s. 7;
  set_reuse_addr = λ fd w. (pos 0, w);
  add_membership = λ fd address w. (pos 0, w);
}

abbrev sockets : Sockets machine calls
sockets = record {
  is_open = λ fd w. if int_eq fd (pos 3) then w.opened else false;
  bound_to = λ fd w. w.address;
  open_socket = λ version w h. refl;
  open_reuse_addr = λ g fd w. refl;
  open_reuse_port = λ g fd w. refl;
  open_bind4 = λ g fd address port w. refl;
  open_bind6 = λ g fd port w. refl;
  open_eventfd = λ g w h. h;
  bound4 = λ fd address port w h. refl;
  bound6 = λ fd port w h. refl;
  bound_eventfd = λ fd w. refl;
}

create-SocketEnds_example :
    SocketEnds machine calls sockets "10.0.0.1" 99 ipv6 16 fresh
      (create machine calls "10.0.0.1" 99 ipv6 16 fresh)
create-SocketEnds_example = create-SocketEnds machine calls sockets "10.0.0.1" 99 ipv6 16 fresh
