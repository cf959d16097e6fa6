-- ===== src/Exception/Names.antt =====
-- The table of the exceptions' names, and `what`.
use Prim.Native.String.{String, ◌++◌ as ◌<>◌}
use text.Mathlib.Text.{◌==◌ as ◌=s=◌}
use socket_wrapper.Prelude.{◌≡◌, refl, List, [], ◌∷◌, Option, none, some, if◌then◌else◌}
use socket_wrapper.Prelude.Int.{ℤ}
use socket_wrapper.Exception.{
  ExceptionType, SocketException, socket_invalid_condition, socket_ok, socket_socket, socket_bind,
  socket_listen, socket_accept, socket_write, socket_write_partial, socket_read, socket_close,
  socket_connect, socket_pair, socket_termination_request, socket_closed, socket_read_timeout,
  socket_poll, socket_receive_buffer_too_small, socket_join_multicast, socket_set_option, name_at,
  type_names, what,
}

-- How the source spells an enumerator.
abbrev pub spelling : ExceptionType → String
spelling socket_invalid_condition = "SOCKET_INVALID_CONDITION"
spelling socket_ok = "SOCKET_OK"
spelling socket_socket = "SOCKET_SOCKET"
spelling socket_bind = "SOCKET_BIND"
spelling socket_listen = "SOCKET_LISTEN"
spelling socket_accept = "SOCKET_ACCEPT"
spelling socket_write = "SOCKET_WRITE"
spelling socket_write_partial = "SOCKET_WRITE_PARTIAL"
spelling socket_read = "SOCKET_READ"
spelling socket_close = "SOCKET_CLOSE"
spelling socket_connect = "SOCKET_CONNECT"
spelling socket_pair = "SOCKET_PAIR"
spelling socket_termination_request = "SOCKET_TERMINATION_REQUEST"
spelling socket_closed = "SOCKET_CLOSED"
spelling socket_read_timeout = "SOCKET_READ_TIMEOUT"
spelling socket_poll = "SOCKET_POLL"
spelling socket_receive_buffer_too_small = "SOCKET_RECEIVE_BUFFER_TOO_SMALL"
spelling socket_join_multicast = "SOCKET_JOIN_MULTICAST"
spelling socket_set_option = "SOCKET_SET_OPTION"

-- The first type listed under a name.
pub type_of : String → List (ExceptionType × String) → Option ExceptionType
type_of s [] = none
type_of s ((t, name) ∷ names) = if name =s= s then some t else type_of s names

name_at-spelling : (t : ExceptionType) → name_at t type_names ≡ some (spelling t)
unfolding name_at type_names
name_at-spelling socket_invalid_condition = refl
name_at-spelling _ = refl

type_of-spelling : (t : ExceptionType) → type_of (spelling t) type_names ≡ some t
unfolding type_of type_names
type_of-spelling socket_invalid_condition = refl
type_of-spelling _ = refl

-- `what` finds a name for every exception, so that `at` never throws: the spelling of its type, a
-- colon and the text of its error code. A type is found again under its name in the table, so no
-- two types have one name.
what_lem :
    (strerror : ℤ → String) (e : SocketException)
    → (what strerror e ≡ some (spelling e.exception_type <> ":" <> strerror e.c_error))
      × (type_of (spelling e.exception_type) type_names ≡ some e.exception_type)
unfolding what
what_lem strerror e =
    (rw (name_at-spelling e.exception_type, what), type_of-spelling e.exception_type)
