-- ===== src/Listener.antt =====
-- include/socket_wrapper/Listener.h and src/Listener.cpp: Listener and ListenerBase. The state of an
-- operation is the object and the world. SO_REUSEPORT is taken to be defined, as on Linux.
pub mod Create
pub mod Accept
pub mod Base
pub mod Stopping
use socket_wrapper.Prelude.{
  ℕ, zero, suc, ◌-◌, ◌%◌, ◌^◌, Bool, true, false, not, List, [], ◌∷◌, ◌==◌, if◌then◌else◌,
}
use socket_wrapper.Prelude.Int.{ℤ, pos, negsuc, minus_one, is_negative, int_eq}
use socket_wrapper.BaseTypes.{IpVersion}
use socket_wrapper.Exception.{
  foreign, ExceptionType, runtime_error, socket_socket, socket_bind, socket_listen, socket_accept,
  socket_poll, socket_set_option, socket_termination_request,
}
use socket_wrapper.Exec.{
  Outcome, ok, throws, terminated, out_of_fuel, Exec, pure, raise, diverge, call, continue, ◌>>=◌,
  ◌>>◌,
}
use socket_wrapper.Kernel.{Kernel}
use socket_wrapper.Network.{Network}
use socket_wrapper.Stream.{Stream, throw_errno, semaphore_value}
use socket_wrapper.Stream

-- The members that both classes have.
pub record Listener : Type 0 where
  pub listener_socket_fd : ℤ
  pub listener_end_fd : ℤ
  pub stopped_accepting : Bool

-- The conversion of an int to the uint16_t that `htons` takes.
abbrev pub to_uint16 : ℤ → ℕ
to_uint16 (pos n) = n % 2 ^ 16
to_uint16 (negsuc n) = 2 ^ 16 - 1 - n % 2 ^ 16

module _ (K : Kernel) (N : Network K) where
  open K use {World, poll, eventfd, write_u64, close}

  -- `if (failed) throw SocketException(t, errno);`
  abbrev pub check : Bool → ExceptionType → Exec World (Unit {0})
  check failed t = if failed then throw_errno K t else pure tt

  -- SO_REUSEADDR and SO_REUSEPORT.
  unfoldable pub set_options : ℤ → Exec World (Unit {0})
  set_options fd = do
    addr ← call (N.set_reuse_addr fd)
    check (is_negative addr) socket_set_option
    port ← call (N.set_reuse_port fd)
    check (is_negative port) socket_set_option

  -- From the call of bind to the end of a constructor.
  unfoldable pub start_listening : ℤ → ℤ → ℤ → IpVersion → Exec World Listener
  start_listening fd end_fd port version = do
    bound ← call (N.bind_any fd version (to_uint16 port))
    check (not (int_eq bound (pos 0))) socket_bind
    listening ← call (N.listen fd 5)
    check (not (int_eq listening (pos 0))) socket_listen
    pure (record { listener_socket_fd = fd; listener_end_fd = end_fd; stopped_accepting = false })

  -- From the call of socket to the end of a constructor.
  unfoldable pub open_socket : ℤ → ℤ → IpVersion → Bool → Exec World Listener
  unfolding set_options start_listening
  open_socket end_fd port version reuse = do
    fd ← call (N.socket version)
    check (is_negative fd) socket_socket
    if reuse then set_options fd else pure tt
    start_listening fd end_fd port version

  -- The constructor of Listener.
  unfoldable pub create : ℤ → IpVersion → Bool → Exec World Listener
  unfolding open_socket
  create port version reuse = do end_fd ← call eventfd; open_socket end_fd port version reuse

  -- The constructor of ListenerBase.
  unfoldable pub create_base : ℤ → IpVersion → Exec World Listener
  unfolding open_socket
  create_base port version = do
    end_fd ← call eventfd
    if int_eq end_fd minus_one then raise runtime_error else open_socket end_fd port version true

  abbrev get_fd_for_poll : Listener → ℤ
  get_fd_for_poll l = l.listener_socket_fd

  abbrev pub poll_fds : Listener → List ℤ
  poll_fds l = l.listener_socket_fd ∷ l.listener_end_fd ∷ []

  -- `Listener::accept`
  unfoldable pub accept : ℤ → Listener → Exec World Stream
  accept timeout l = do
    polled ← call (poll (poll_fds l) timeout)
    if int_eq polled.status minus_one
        then throw_errno K socket_poll
        else if not (polled.revents 0 == 0)
        then (do
          connecting_fd ← call (N.accept l.listener_socket_fd)
          if is_negative connecting_fd
              then throw_errno K socket_accept
              else Stream.create K connecting_fd)
        else if not (polled.revents 1 == 0)
        then throw_errno K socket_termination_request
        else throw_errno K socket_accept

  -- A try block whose handler for std::exception prints a message. Any other exception passes the
  -- handlers of `handleIncomingStreams`, which are all for std::exception, and leaves the thread.
  abbrev pub print_exception : Outcome (Unit {0}) → Outcome (Unit {0})
  print_exception (throws foreign) = terminated
  print_exception (throws e) = ok tt
  print_exception r = r

  abbrev pub try_print : Exec World (Unit {0}) → Exec World (Unit {0})
  try_print m w = let (r, w') = m w in (print_exception r, w')

  -- A new client of `handleIncomingStreams`, who is given to the callback `on_incoming_stream`.
  unfoldable pub handle_client : (Stream → Exec World (Unit {0})) → Listener → Exec World (Unit {0})
  handle_client on_incoming_stream l = do
    connecting_fd ← call (N.accept l.listener_socket_fd)
    if is_negative connecting_fd
        then pure tt
        else try_print (Stream.create K connecting_fd >>= on_incoming_stream)

  -- Its loop, for so many rounds.
  unfoldable pub handle_incoming_streams :
      ℕ → (Stream → Exec World (Unit {0})) → Listener → Exec World (Unit {0})
  handle_incoming_streams zero on_incoming_stream l = diverge
  handle_incoming_streams (suc rounds) on_incoming_stream l = do
    polled ← call (poll (poll_fds l) minus_one)
    let rest = handle_incoming_streams rounds on_incoming_stream l
    if int_eq polled.status minus_one
        then rest
        else if not (polled.revents 0 == 0)
        then (handle_client on_incoming_stream l >> rest)
        else if not (polled.revents 1 == 0)
        then pure tt
        else rest

  -- `Listener::stopAccepting`, which the destructor calls; that of ListenerBase, which joins a thread,
  -- is in Listener/Base.
  unfoldable pub stop_accepting : Exec (Listener × World) (Unit {0})
  stop_accepting (l, w) = if l.stopped_accepting then (ok tt, (l, w)) else (
    ok tt,
    (
      record l { stopped_accepting = true },
      (close l.listener_socket_fd (write_u64 l.listener_end_fd semaphore_value w).1).1,
    ),
  )
