-- ===== src/ConditionalBufferedStream/Reads.antt =====
-- The callers' side: reads of the queue of a condition, until it is empty and after.
use socket_wrapper.Prelude.{
  Option, sym, subst, ℕ, zero, suc, ◌≡◌, refl, ap, ◌∙◌, ◌⊎◌, List, [], ◌∷◌, ◌++◌, none, some,
  length, inl, inr, Bool-cases, if◌then◌else◌,
}
use socket_wrapper.Prelude.Int.{ℤ, minus_one, int_eq_refl}
use socket_wrapper.Exception.{
  ExceptionType, Exception, type_eq, socket, socket_ok, socket_invalid_condition, out_of_range,
}
use socket_wrapper.Exec.{Outcome, ok, throws, Exec, pure, ◌>>=◌}
use socket_wrapper.Kernel.{Kernel}
use socket_wrapper.ConditionalBufferedStream.{ConditionalBufferedStream, Queues, queue, set_queue}
use socket_wrapper.ConditionalBufferedStream.Calls.{read, read_queue}
use socket_wrapper.ConditionalBufferedStream.Delivered.{set_queue_others, others_trans}

-- `throw SocketException(t)`
abbrev pub default_exception : ExceptionType → Exception
default_exception t =
    socket (record { exception_type = t; c_error = minus_one; processed_bytes = minus_one })

module _ (K : Kernel) where
  -- So many calls of `read` in a row.
  pub read_times : ℕ → ℤ → Exec (ConditionalBufferedStream × K.World) (List (List ℕ))
  read_times zero fd = pure []
  read_times (suc n) fd = do
    segment ← read K fd
    segments ← read_times n fd
    pure (segment ∷ segments)

  -- What `read` throws once the queue is empty.
  abbrev pub drained : ExceptionType → Exception
  drained last = if type_eq last socket_ok then out_of_range else default_exception last

  -- From `c` to `c'` only the queue of `fd` has changed, which is `segments` now.
  abbrev pub Left :
      ℤ → List (List ℕ) → ConditionalBufferedStream → ConditionalBufferedStream → Type 0
  Left fd segments c c' =
      (c'.received_data_per_condition fd ≡ some segments)
      × ((g : ℤ) → (fd ≡ g) ⊎ (c'.received_data_per_condition g ≡ c.received_data_per_condition g))
      × (c'.last_ex ≡ c.last_ex)
      × (c'.stream ≡ c.stream)
      × (c'.buffer_event_handlers ≡ c.buffer_event_handlers)

  pub read_some :
      (fd : ℤ) (segment : List ℕ) (segments : List (List ℕ)) (c : ConditionalBufferedStream)
      (w : K.World)
      → c.received_data_per_condition fd ≡ some (segment ∷ segments)
      → (c' : ConditionalBufferedStream) × (read K fd (c, w) ≡ (ok segment, (c', w)))
        × Left fd segments c c'
  unfolding read read_queue
  read_some fd segment segments c w e = (
    record c { received_data_per_condition = set_queue fd segments c.received_data_per_condition },
    rw (e, read),
    (
      rw (int_eq_refl fd),
      λ g. set_queue_others fd g _ c.received_data_per_condition,
      refl,
      refl,
      refl,
    ),
  )

  pub read_none :
      (fd : ℤ) (c : ConditionalBufferedStream) (w : K.World)
      → c.received_data_per_condition fd ≡ some []
      → read K fd (c, w) ≡ (throws (drained c.last_ex), (c, w))
  unfolding read read_queue
  read_none fd c w e =
      rw (e, read)
        (elim (Bool-cases (type_eq c.last_ex socket_ok)) [
          | inl fine ↦ rw fine
          | inr over ↦ rw over
        ])

  pub read_missing :
      (fd : ℤ) (c : ConditionalBufferedStream) (w : K.World)
      → c.received_data_per_condition fd ≡ none
      → read K fd (c, w) ≡ (throws (default_exception socket_invalid_condition), (c, w))
  unfolding read read_queue
  read_missing fd c w e = rw (e, read)

  -- What a read yields at a queue.
  abbrev pub next_read : ExceptionType → List (List ℕ) → Outcome (List ℕ)
  next_read last [] = throws (drained last)
  next_read last (segment ∷ segments) = ok segment

  read_next :
      (fd : ℤ) (segments : List (List ℕ)) (c : ConditionalBufferedStream) (w : K.World)
      → c.received_data_per_condition fd ≡ some segments
      → (read K fd (c, w)).0 ≡ next_read c.last_ex segments
  read_next fd [] c w e =
      ap (λ (st : Outcome (List ℕ) × (ConditionalBufferedStream × K.World)). st.0)
        (read_none fd c w e)
  read_next fd (segment ∷ segments) c w e =
      ap (λ (st : Outcome (List ℕ) × (ConditionalBufferedStream × K.World)). st.0)
        (read_some fd segment segments c w e).1

  -- Reads of a condition return the queued segments, each once and in the order in which they were
  -- queued. Only when none is left a read throws: out_of_range if last_ex is SOCKET_OK, and otherwise a
  -- SocketException of the type last_ex. The queues of other conditions are not touched.
  pub read_times-drains :
      (fd : ℤ) (segments rest : List (List ℕ)) (c : ConditionalBufferedStream) (w : K.World)
      → c.received_data_per_condition fd ≡ some (segments ++ rest)
      → (c' : ConditionalBufferedStream) × (read_times (length segments) fd (c, w)
          ≡ (ok segments, (c', w)))
        × Left fd rest c c'
        × ((read K fd (c', w)).0 ≡ next_read c.last_ex rest)
  unfolding read_times
  read_times-drains fd [] rest c w e =
      (c, refl, (e, λ g. inr refl, refl, refl, refl), read_next fd rest c w e)
  read_times-drains fd (segment ∷ segments) rest c w e =
      let (c', er, left) = read_some fd segment (segments ++ rest) c w e in
      let (c'', es, later, ends) = read_times-drains fd segments rest c' w left.0 in
      (
        c'',
        rw (er, es),
        (
          later.0,
          λ g. others_trans (later.1 g) (left.1 g),
          later.2 ∙ left.2,
          later.3 ∙ left.3,
          later.4 ∙ left.4,
        ),
        ends ∙ ap (λ t. next_read t rest) left.2,
      )

module _ (K : Kernel) where
  -- What a read that returned has done.
  abbrev pub Took :
      ℤ
      → List ℕ
      → ConditionalBufferedStream
      → K.World
      → ConditionalBufferedStream
      → K.World
      → Type 0
  Took fd segment c w c' w' =
      (queue c.received_data_per_condition fd ≡ segment ∷ queue c'.received_data_per_condition fd)
      × (c'.stream ≡ c.stream)
      × (c'.buffer_event_handlers ≡ c.buffer_event_handlers)
      × (w' ≡ w)

  pub read-Took :
      (fd : ℤ) (segment : List ℕ) (c c' : ConditionalBufferedStream) (w w' : K.World)
      (queued : Option (List (List ℕ)))
      → c.received_data_per_condition fd ≡ queued
      → read K fd (c, w) ≡ (ok segment, (c', w'))
      → Took fd segment c w c' w'
  read-Took fd segment c c' w w' none e h = cc (read_missing K fd c w e)
  read-Took fd segment c c' w w' (some []) e h = cc (read_none K fd c w e)
  read-Took fd segment c c' w w' (some (first ∷ segments)) e h =
      let (c'', er, left) = read_some K fd first segments c w e in
      let same = sym er ∙ h in
      let at_head : first ≡ segment = cc same in
      let took : Took fd first c w c'' w = (
        queue_some c.received_data_per_condition e
            ∙ ap (λ l. first ∷ l) (sym (queue_some c''.received_data_per_condition left.0)),
        left.3,
        left.4,
        refl,
      ) in
      subst (λ v. Took fd segment c w c' v)
        (ap (λ (st : Outcome (List ℕ) × (ConditionalBufferedStream × K.World)). st.1.1) same)
        (subst (λ x. Took fd segment c w x w)
          (ap (λ (st : Outcome (List ℕ) × (ConditionalBufferedStream × K.World)). st.1.0) same)
          (subst (λ s. Took fd s c w c'' w) at_head took))
    where
      queue_some :
          (queues : Queues) {segments : List (List ℕ)}
          → queues fd ≡ some segments
          → queue queues fd ≡ segments
      queue_some queues e = rw (e, queue)
