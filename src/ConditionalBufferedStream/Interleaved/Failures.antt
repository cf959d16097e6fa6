-- ===== src/ConditionalBufferedStream/Interleaved/Failures.antt =====
-- A read that fails keeps the invariant.
use socket_wrapper.Prelude.{ℕ, ◌+◌, ◌≡◌, sym, ap, ◌∙◌, List, [], arith, length, append-nil, subst}
use socket_wrapper.Prelude.Int.{minus_one}
use socket_wrapper.Exec.{Outcome, throws}
use socket_wrapper.Kernel.{Kernel, IsBounded, History}
use socket_wrapper.Stream.{Stream}
use socket_wrapper.BufferedStream.{BufferedStream, read_available}
use socket_wrapper.BufferedStream.Contents.{contents}
use socket_wrapper.BufferedStream.Fill.{
  FillEnds, Grown, read_available_keeps, read_available-FillEnds,
}
use socket_wrapper.ConditionalBufferedStream.{BufferEventHandler, delimiter_condition}
use socket_wrapper.ConditionalBufferedStream.Delivered.{Semaphore}
use socket_wrapper.ConditionalBufferedStream.Interleaved.{Place, reading, failing, stopped, System}
use socket_wrapper.ConditionalBufferedStream.Interleaved.Invariant.{
  segments_of, AtPlace, IsWhole, at,
}
use socket_wrapper.Exception.{Exception, ExceptionType}
use socket_wrapper.Prelude.Find.{Lacks}

module _ (K : Kernel) (bounded : IsBounded K) (history : History K) (handler : BufferEventHandler)
    (semaphore : Semaphore K handler.fd) (d : ℕ)
    (splits : handler.condition ≡ delimiter_condition d) where
  module _ (base : List ℕ) (count : ℕ) (s : System K)
      (inv : IsWhole K bounded history handler semaphore d splits base count s) where
    -- A read that fails.
    module _ (ex : Exception) (stream : BufferedStream) (w' : K.World) (at_read : s.place ≡ reading)
        (read : read_available K minus_one (s.object.stream, s.world)
          ≡ (throws ex, (stream, w'))) where
      failed_fill : Grown K bounded history s.object.stream s.world [] stream w'
      failed_fill =
          (subst (FillEnds K bounded history s.object.stream s.world) read (
            read_available-FillEnds K bounded history minus_one s.object.stream s.world
              inv.valid)).1

      failed-IsWhole :
          (last_ex : ExceptionType) (place : Place)
          → AtPlace K bounded history handler semaphore d splits place
              (contents stream)
              (count + length (segments_of K bounded history handler semaphore d splits s))
              (semaphore.posted w')
          → IsWhole K bounded history handler semaphore d splits base count (record s {
            object = record s.object { stream = stream; last_ex = last_ex };
            world = w';
            place = place;
          })
      failed-IsWhole last_ex place at_place =
          let g = failed_fill in
          let same : contents stream ≡ contents s.object.stream =
            g.holds ∙ append-nil (contents s.object.stream) in
          record {
            valid = g.valid;
            one = inv.one;
            small = omega (arith, g.same.1, inv.small);
            lines = inv.lines;
            whole = rw same (
                inv.whole
                ∙ sym (append-nil _)
                ∙ sym g.read
                ∙ ap (λ (x : Stream). history.received x.stream_file_descriptor w') (sym g.same.0));
            at_place = at_place;
          }

      still_waits :
          Lacks d (contents stream)
          × (semaphore.posted w'
              ≡ count + length (segments_of K bounded history handler semaphore d splits s))
      still_waits =
          let (lacks, posted) =
            at K bounded history handler semaphore d splits base count s inv reading at_read in
          let same : contents stream ≡ contents s.object.stream =
            failed_fill.holds ∙ append-nil (contents s.object.stream) in
          (
            rw same lacks,
            sym (ap (λ (st : Outcome ℕ × (BufferedStream × K.World)). semaphore.posted st.1.1) read)
                ∙ read_available_keeps K semaphore.posted semaphore.polls semaphore.reads minus_one
                    s.object.stream s.world
                ∙ posted,
          )

      pub fails-IsWhole :
          (last_ex : ExceptionType)
          → IsWhole K bounded history handler semaphore d splits base count (record s {
            object = record s.object { stream = stream; last_ex = last_ex };
            world = w';
            place = failing;
          })
      fails-IsWhole last_ex = failed-IsWhole last_ex failing still_waits

      pub ends-IsWhole :
          IsWhole K bounded history handler semaphore d splits base count
            (record s { object = record s.object { stream = stream }; world = w'; place = stopped })
      ends-IsWhole =
          let (lacks, posted) = still_waits in
          failed-IsWhole s.object.last_ex stopped
            (lacks, omega (arith, posted), omega (arith, posted))
