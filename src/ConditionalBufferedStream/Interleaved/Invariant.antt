-- ===== src/ConditionalBufferedStream/Interleaved/Invariant.antt =====
-- The invariant between two small steps of the worker.
use mathlib.Core.List.{flatten}
use socket_wrapper.Prelude.{
  ℕ, ◌≤◌, ◌+◌, ◌^◌, ◌<◌, ◌≡◌, ap, List, [], ◌∷◌, ◌++◌, arith, length, subst,
}
use socket_wrapper.Prelude.Find.{Lacks}
use socket_wrapper.Kernel.{Kernel, IsBounded, History}
use socket_wrapper.BufferedStream.Contents.{contents, IsValid}
use socket_wrapper.BufferedStream.Pop.{length-contents}
use socket_wrapper.ConditionalBufferedStream.{BufferEventHandler, queue, delimiter_condition}
use socket_wrapper.ConditionalBufferedStream.Delivered.{Semaphore}
use socket_wrapper.ConditionalBufferedStream.Lines.{AllLines}
use socket_wrapper.ConditionalBufferedStream.Interleaved.{
  Place, reading, cutting, posting, failing, stopped, System,
}

module _ (K : Kernel) (bounded : IsBounded K) (history : History K) (handler : BufferEventHandler)
    (semaphore : Semaphore K handler.fd) (d : ℕ)
    (splits : handler.condition ≡ delimiter_condition d) where
  -- The segments that were ever queued.
  abbrev pub segments_of : System K → List (List ℕ)
  segments_of s = s.taken ++ queue s.object.received_data_per_condition handler.fd

  -- What the worker knows at a place: while it cuts, it holds a copy of the buffer's bytes; before it
  -- posts, one segment has no post yet; before it reads and when a read has failed, the buffer has no
  -- delimiter; and at its end it may have posted once for that failure.
  abbrev pub AtPlace : Place → List ℕ → ℕ → ℕ → Type 0
  AtPlace reading held queued posted = Lacks d held × (posted ≡ queued)
  AtPlace (cutting bytes) held queued posted = (bytes ≡ held) × (posted ≡ queued)
  AtPlace (posting bytes) held queued posted = (bytes ≡ held) × (posted + 1 ≡ queued)
  AtPlace failing held queued posted = Lacks d held × (posted ≡ queued)
  AtPlace stopped held queued posted = Lacks d held × (queued ≤ posted) × (posted ≤ queued + 1)

  -- Since the descriptor had delivered `base` and the semaphore had `count` posts.
  pub record IsWhole (base : List ℕ) (count : ℕ) (s : System K) : Type 0 where
    pub valid : IsValid s.object.stream
    pub one : s.object.buffer_event_handlers ≡ handler ∷ []
    pub small : s.object.stream.stream_buffer_size < 2 ^ 31
    pub lines : AllLines d (segments_of s)
    pub whole :
        base ++ (flatten (segments_of s) ++ contents s.object.stream)
        ≡ history.received s.object.stream.stream.stream_file_descriptor s.world
    pub at_place :
        AtPlace s.place
          (contents s.object.stream)
          (count + length (segments_of s))
          (semaphore.posted s.world)

  module _ (base : List ℕ) (count : ℕ) (s : System K) (inv : IsWhole base count s) where
    pub at :
        (p : Place)
        → s.place ≡ p
        → AtPlace p
            (contents s.object.stream)
            (count + length (segments_of s))
            (semaphore.posted s.world)
    at p e =
        subst
          (λ q.
            AtPlace q (contents s.object.stream) (count + length (segments_of s))
              (semaphore.posted s.world))
          e inv.at_place

    pub reading-Lacks : s.place ≡ reading → Lacks d (contents s.object.stream)
    reading-Lacks e = (at reading e).0

    -- The worker's copy is as long as the buffer's contents.
    pub copy_small : (bytes : List ℕ) → bytes ≡ contents s.object.stream → length bytes < 2 ^ 31
    copy_small bytes e =
        omega (
          arith,
          ap length e,
          length-contents s.object.stream inv.valid,
          inv.valid.within,
          inv.small,
        )
