-- ===== src/Tests/Streams.antt =====
-- The theorems on names, streams and buffered streams.
use Prim.Native.String.{String}
use socket_wrapper.Prelude.{ℕ, refl, List, [], ◌∷◌, arith, ◌≡◌, ◌⊎◌, ◌≤◌, ◌<◌}
use socket_wrapper.Prelude.Int.{ℤ, pos, minus_one}
use socket_wrapper.Exception.{
  Exception, SocketException, socket as exception, socket_read_timeout, socket_closed, logic_error,
}
use socket_wrapper.Exec.{throws}
use socket_wrapper.Stream.{read, read_from, read_round, check_read, write}
use socket_wrapper.Stream.Read.{ReadEnds, read-ReadEnds}
use socket_wrapper.Stream.Write.{WriteEnds, write-WriteEnds}
use socket_wrapper.BufferedStream.{
  BufferedStream, create, read_available, pop_from_buffer, read_into, read_until_delimiter,
}
use socket_wrapper.BufferedStream
use socket_wrapper.BufferedStream.Read.{VectorEnds, read-VectorEnds, IntoEnds, read_into-IntoEnds}
use socket_wrapper.BufferedStream.Delimiter.{UntilEnds, read_until_delimiter-UntilEnds}
use socket_wrapper.BufferedStream.Full.{closed, read_into_full, read_until_delimiter_unsearched}
use socket_wrapper.Tests.Sim.{
  sim, sim-IsBounded, sim_history, sim_sent, Sim, start, socket, buffer, buffer-IsValid,
  full_buffer, full_buffer-IsValid,
}

abbrev peer_gone : SocketException
peer_gone = record { exception_type = socket_closed; c_error = pos 0; processed_bytes = minus_one }

abbrev strerror : ℤ → String
strerror e = "Success"

abbrev array : List ℕ
array = 0 ∷ 0 ∷ 0 ∷ 0 ∷ 0 ∷ 0 ∷ []

read-ReadEnds_example :
    ReadEnds sim sim-IsBounded sim_history socket 1 5 4 array start
      (read sim socket 1 5 4 minus_one (array, start))
read-ReadEnds_example =
    read-ReadEnds sim sim-IsBounded sim_history socket 1 5 4 minus_one array start (omega arith)
      (omega arith)

write-WriteEnds_example :
    WriteEnds sim sim-IsBounded sim_sent socket 2 array start (write sim socket array 2 start)
write-WriteEnds_example = write-WriteEnds sim sim-IsBounded sim_sent socket 2 array start

read-VectorEnds_example :
    VectorEnds sim sim-IsBounded sim_history 4 buffer start
      (BufferedStream.read sim 4 minus_one (buffer, start))
read-VectorEnds_example =
    read-VectorEnds sim sim-IsBounded sim_history 4 minus_one buffer start buffer-IsValid

read_into-IntoEnds_example :
    IntoEnds sim sim-IsBounded sim_history 3 6 buffer start
      (read_into sim 3 6 minus_one (buffer, start))
read_into-IntoEnds_example =
    read_into-IntoEnds sim sim-IsBounded sim_history 3 6 minus_one buffer start buffer-IsValid

read_until_delimiter-UntilEnds_example :
    UntilEnds sim sim-IsBounded sim_history 10 buffer start
      (read_until_delimiter sim 10 (buffer, start))
read_until_delimiter-UntilEnds_example =
    read_until_delimiter-UntilEnds sim sim-IsBounded sim_history 10 buffer start buffer-IsValid

read_into_full_example : (read_into sim 4 1 minus_one (full_buffer, start)).0 ≡ throws closed
read_into_full_example =
    read_into_full sim minus_one 4 1 full_buffer start full_buffer-IsValid refl
      (refl, (λ e. ground (arith, e)), refl)

-- The buffer holds a delimiter, but nothing more arrives.
abbrev quiet : Sim
quiet = record start { incoming = [] }

abbrev timed_out : Exception
timed_out =
    exception (record {
      exception_type = socket_read_timeout;
      c_error = pos 0;
      processed_bytes = minus_one;
    })

timed_out_lem : (read_available sim minus_one (buffer, quiet)).0 ≡ throws timed_out
unfolding read_available read read_from read_round check_read
timed_out_lem = refl

read_until_delimiter_unsearched_example :
    ((2 < 8) × ((read_until_delimiter sim 8 (buffer, quiet)).0 ≡ throws timed_out))
    ⊎ ((8 ≤ 2)
        × (read_until_delimiter sim 8 (buffer, quiet) ≡ (throws logic_error, (buffer, quiet))))
read_until_delimiter_unsearched_example =
    read_until_delimiter_unsearched sim 8 buffer quiet timed_out timed_out_lem
