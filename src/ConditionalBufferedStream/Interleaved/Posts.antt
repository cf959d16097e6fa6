-- ===== src/ConditionalBufferedStream/Interleaved/Posts.antt =====
-- The posts of the semaphore keep the invariant.
use socket_wrapper.Prelude.{ℕ, ◌+◌, ◌≡◌, refl, sym, ap, ◌∙◌, List, arith, length}
use socket_wrapper.Exec.{Outcome, ok}
use socket_wrapper.Kernel.{Kernel, IsBounded, History}
use socket_wrapper.BufferedStream.Contents.{contents}
use socket_wrapper.ConditionalBufferedStream.{BufferEventHandler, post, delimiter_condition}
use socket_wrapper.ConditionalBufferedStream.Delivered.{Semaphore}
use socket_wrapper.ConditionalBufferedStream.Interleaved.{
  Place, cutting, posting, failing, stopped, System,
}
use socket_wrapper.ConditionalBufferedStream.Interleaved.Invariant.{
  segments_of, AtPlace, IsWhole, at,
}

module _ (K : Kernel) (bounded : IsBounded K) (history : History K) (handler : BufferEventHandler)
    (semaphore : Semaphore K handler.fd) (d : ℕ)
    (splits : handler.condition ≡ delimiter_condition d) where
  module _ (base : List ℕ) (count : ℕ) (s : System K)
      (inv : IsWhole K bounded history handler semaphore d splits base count s) where
    -- A post counts one and changes nothing else, whatever the place is after it.
    posted-IsWhole :
        (place : Place) (w' : K.World)
        → post K handler.fd s.world ≡ (ok tt, w')
        → (semaphore.posted w' ≡ semaphore.posted s.world + 1
            → AtPlace K bounded history handler semaphore d splits place
                (contents s.object.stream)
                (count + length (segments_of K bounded history handler semaphore d splits s))
                (semaphore.posted w'))
        → IsWhole K bounded history handler semaphore d splits base count
            (record s { world = w'; place = place })
    unfolding post
    posted-IsWhole place w' h there =
        let done : post K handler.fd s.world ≡ (ok tt, (K.write_u64 handler.fd 1 s.world).1) =
          rw (semaphore.succeeds s.world, post) refl in
        let ew : (K.write_u64 handler.fd 1 s.world).1 ≡ w' =
          ap (λ (st : Outcome (Unit {0}) × K.World). st.1) (sym done ∙ h) in
        record {
          valid = inv.valid;
          one = inv.one;
          small = inv.small;
          lines = inv.lines;
          whole =
              inv.whole
              ∙ sym (history.received_write_u64 _ handler.fd 1 s.world)
              ∙ ap (history.received s.object.stream.stream.stream_file_descriptor) ew;
          at_place = there (sym (ap semaphore.posted ew) ∙ semaphore.counts s.world);
        }

    pub posts-IsWhole :
        (bytes : List ℕ) (w' : K.World)
        → s.place ≡ posting bytes
        → post K handler.fd s.world ≡ (ok tt, w')
        → IsWhole K bounded history handler semaphore d splits base count
            (record s { world = w'; place = cutting bytes })
    posts-IsWhole bytes w' e h =
        let (copy, waits) =
          at K bounded history handler semaphore d splits base count s inv (posting bytes) e in
        posted-IsWhole (cutting bytes) w' h (λ counted. (copy, omega (arith, waits, counted)))

    pub notifies-IsWhole :
        (w' : K.World)
        → s.place ≡ failing
        → post K handler.fd s.world ≡ (ok tt, w')
        → IsWhole K bounded history handler semaphore d splits base count
            (record s { world = w'; place = stopped })
    notifies-IsWhole w' e h =
        let (lacks, waits) =
          at K bounded history handler semaphore d splits base count s inv failing e in
        posted-IsWhole stopped w' h
          (λ counted. (lacks, omega (arith, waits, counted), omega (arith, waits, counted)))
