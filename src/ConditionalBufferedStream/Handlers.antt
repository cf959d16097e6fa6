-- ===== src/ConditionalBufferedStream/Handlers.antt =====
-- processDataSendSignals with two handlers, of which the first one takes all bytes.
use socket_wrapper.Prelude.{
  ℕ, suc, ◌≤◌, ◌<◌, ◌≡◌, refl, sym, ap, ◌∙◌, ◌==◌, false, List, [], ◌∷◌, arith, length, drop,
  drop_all, le→ltb, subst,
}
use socket_wrapper.Prelude.Int.{pos, nat_abs, is_positive}
use socket_wrapper.Exception.{out_of_range}
use socket_wrapper.Exec.{Outcome, throws, terminated, continue, ◌>>◌}
use socket_wrapper.Kernel.{Kernel, History}
use socket_wrapper.BufferedStream.{pop_from_buffer}
use socket_wrapper.BufferedStream.Contents.{contents, IsValid}
use socket_wrapper.BufferedStream.Pop.{not_popped, pop_from_buffer-PopEnds}
use socket_wrapper.ConditionalBufferedStream.{
  ConditionalBufferedStream, BufferEventHandler, deliver, handle, handle_all, process_from,
  process_data_send_signals, catch_worker,
}
use socket_wrapper.ConditionalBufferedStream.Delivered.{Semaphore, after_deliver}
use socket_wrapper.ConditionalBufferedStream.Process.{State, after_pop}

module _ (K : Kernel) (history : History K) where
  -- A condition that asks for bytes which the buffer no longer has.
  handle_stale :
      (next : List ℕ → State K → Outcome (Unit {0}) × State K) (handler : BufferEventHandler)
      (bytes : List ℕ) (c : ConditionalBufferedStream) (w : K.World)
      → IsValid c.stream
      → 0 < nat_abs (handler.condition bytes)
      → nat_abs (handler.condition bytes) ≤ length bytes
      → length (contents c.stream) < nat_abs (handler.condition bytes)
      → (handle K next handler bytes (c, w)).0 ≡ throws out_of_range
  unfolding handle
  handle_stale next handler bytes c w v some_bytes le short =
      rw (le→ltb _ _ le, not_zero, fails, handle)
    where
      fails :
          (pop_from_buffer K (nat_abs (handler.condition bytes)) (c.stream, w)).0
          ≡ throws out_of_range
      fails =
          not_popped (nat_abs (handler.condition bytes)) c.stream _ w _ _
            (pop_from_buffer-PopEnds K (nat_abs (handler.condition bytes)) c.stream w v) short

      not_zero : (nat_abs (handler.condition bytes) == 0) ≡ false
      not_zero = ground arith

  -- A condition that takes `n` bytes.
  handle_takes :
      (next : List ℕ → State K → Outcome (Unit {0}) × State K) (handler : BufferEventHandler)
      (semaphore : Semaphore K handler.fd) (bytes : List ℕ) (n : ℕ) (c : ConditionalBufferedStream)
      (w : K.World) (P : Outcome (Unit {0}) × State K → Type 0)
      → IsValid c.stream
      → contents c.stream ≡ bytes
      → handler.condition bytes ≡ pos n
      → 0 < n
      → n ≤ length bytes
      → ((c' : ConditionalBufferedStream) (w' : K.World)
          → IsValid c'.stream
          → contents c'.stream ≡ drop n bytes
          → P (next (drop n bytes) (c', w')))
      → P (handle K next handler bytes (c, w))
  unfolding handle
  handle_takes next handler semaphore bytes n c w P v holds takes some_bytes le k =
      rw (takes, le→ltb (length bytes) n le, not_zero, handle)
        (after_pop K n c w
          (λ segment. deliver K (is_positive (pos n)) handler.fd segment >> next (drop n bytes)) P v
          (subst (λ l. n ≤ length l) (sym holds) le)
          λ stream valid same e.
            after_deliver K history handler.fd semaphore (is_positive (pos n)) _
              (record c { stream = stream }) w (next (drop n bytes)) P valid
              λ c' w' d. k c' w' d.valid (d.holds ∙ e ∙ ap (drop n) holds))
    where
      not_zero : (n == 0) ≡ false
      not_zero = ground arith

  module _ (first second : BufferEventHandler) (semaphore : Semaphore K first.fd) (byte : ℕ)
      (bytes : List ℕ) (c : ConditionalBufferedStream) (w : K.World) where
    abbrev all : List ℕ
    all = byte ∷ bytes

    abbrev Throws : Outcome (Unit {0}) × State K → Type 0
    Throws st = st.0 ≡ throws out_of_range

    -- There are two handlers, the first one with a semaphore that works. When its condition takes
    -- all bytes of the buffer, of which there is one at least, the second condition is still asked
    -- about them. If it wants one to all of them, out_of_range is thrown, which the worker does
    -- not catch: the process is terminated.
    pub process_stale :
        IsValid c.stream
        → contents c.stream ≡ byte ∷ bytes
        → c.buffer_event_handlers ≡ first ∷ second ∷ []
        → first.condition (byte ∷ bytes) ≡ pos (length (byte ∷ bytes))
        → 0 < nat_abs (second.condition (byte ∷ bytes))
        → nat_abs (second.condition (byte ∷ bytes)) ≤ length (byte ∷ bytes)
        → ((process_data_send_signals K (byte ∷ bytes) (c, w)).0 ≡ throws out_of_range)
          × ((st : State K) → catch_worker K out_of_range st ≡ (terminated, st))
    unfolding process_data_send_signals process_from handle_all catch_worker
    process_stale v holds two takes some_bytes le = (
      subst
          (λ handlers.
            Throws (handle_all K (process_from K (suc (length bytes))) handlers all (c, w)))
          (sym two)
          (handle_takes (process_from K (suc (length bytes))) first semaphore all (length all) c w
            (λ st. Throws (
              continue st.0
                (λ _. handle_all K (process_from K (suc (length bytes))) (second ∷ []) all) st.1))
            v holds takes (omega arith) (omega arith)
            λ c' w' v' left. rw (drop_all (length bytes) bytes (omega arith)) (
              rw (
                handle_stale (process_from K (suc (length bytes))) second all c' w' v' some_bytes le
                  (omega (arith, ap length (left ∙ drop_all (length all) all (omega arith))))))),
      λ st. refl,
    )
