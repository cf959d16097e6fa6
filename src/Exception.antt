-- ===== src/Exception.antt =====
-- include/socket_wrapper/SocketException.h and src/SocketException.cpp: the exception of this
-- library, beside those of the C++ library that its code throws (whose messages are left out).
pub mod Names
use Prim.Native.String.{String, ◌++◌ as ◌<>◌}
use socket_wrapper.Prelude.{ℕ, Bool, List, [], ◌∷◌, Option, none, some, ◌==◌, if◌then◌else◌}
use socket_wrapper.Prelude.Int.{ℤ}

-- `enum Type : uint8_t`, in the order of the source.
pub data ExceptionType : Type 0 where
  socket_invalid_condition socket_ok socket_socket socket_bind socket_listen : ExceptionType
  socket_accept socket_write socket_write_partial socket_read socket_close : ExceptionType
  socket_connect socket_pair socket_termination_request socket_closed : ExceptionType
  socket_read_timeout socket_poll socket_receive_buffer_too_small : ExceptionType
  socket_join_multicast socket_set_option : ExceptionType

-- The value of an enumerator.
abbrev pub value : ExceptionType → ℕ
value socket_invalid_condition = 0
value socket_ok = 1
value socket_socket = 2
value socket_bind = 3
value socket_listen = 4
value socket_accept = 5
value socket_write = 6
value socket_write_partial = 7
value socket_read = 8
value socket_close = 9
value socket_connect = 10
value socket_pair = 11
value socket_termination_request = 12
value socket_closed = 13
value socket_read_timeout = 14
value socket_poll = 15
value socket_receive_buffer_too_small = 16
value socket_join_multicast = 17
value socket_set_option = 18

abbrev pub type_eq : ExceptionType → ExceptionType → Bool
type_eq s t = value s == value t

-- Its members that the constructor sets.
pub record SocketException : Type 0 where
  pub exception_type : ExceptionType
  pub c_error : ℤ
  pub processed_bytes : ℤ

-- `foreign` is any exception that is not derived from std::exception, as a callback may throw.
pub data Exception : Type 0 where
  socket : SocketException → Exception
  runtime_error logic_error out_of_range invalid_argument foreign : Exception

-- `SocketExceptionTypeName`, in the order of the source.
pub type_names : List (ExceptionType × String)
type_names =
    (socket_invalid_condition, "SOCKET_INVALID_CONDITION")
    ∷ (socket_ok, "SOCKET_OK")
    ∷ (socket_socket, "SOCKET_SOCKET")
    ∷ (socket_bind, "SOCKET_BIND")
    ∷ (socket_listen, "SOCKET_LISTEN")
    ∷ (socket_accept, "SOCKET_ACCEPT")
    ∷ (socket_write, "SOCKET_WRITE")
    ∷ (socket_write_partial, "SOCKET_WRITE_PARTIAL")
    ∷ (socket_read, "SOCKET_READ")
    ∷ (socket_close, "SOCKET_CLOSE")
    ∷ (socket_connect, "SOCKET_CONNECT")
    ∷ (socket_pair, "SOCKET_PAIR")
    ∷ (socket_termination_request, "SOCKET_TERMINATION_REQUEST")
    ∷ (socket_closed, "SOCKET_CLOSED")
    ∷ (socket_read_timeout, "SOCKET_READ_TIMEOUT")
    ∷ (socket_poll, "SOCKET_POLL")
    ∷ (socket_receive_buffer_too_small, "SOCKET_RECEIVE_BUFFER_TOO_SMALL")
    ∷ (socket_join_multicast, "SOCKET_JOIN_MULTICAST")
    ∷ (socket_set_option, "SOCKET_SET_OPTION")
    ∷ []

-- `std::map::at`, which throws where this is `none`.
pub name_at : ExceptionType → List (ExceptionType × String) → Option String
name_at t [] = none
name_at t ((u, name) ∷ names) = if type_eq u t then some name else name_at t names

-- `what`, over the libc function strerror.
pub what : (ℤ → String) → SocketException → Option String
unfolding name_at type_names
what strerror e = elim (name_at e.exception_type type_names) [
  | none ↦ none
  | some name ↦ some (name <> ":" <> strerror e.c_error)
]
