-- ===== src/ConditionalBufferedStream/Consumed.antt =====
-- How processDataSendSignals may end, and the bytes that it has consumed.
use socket_wrapper.Prelude.{ℕ, ◌≡◌, refl, sym, ap, ◌∙◌, List, [], ◌++◌, append_assoc}
use socket_wrapper.Exception.{Exception, socket, socket_write, logic_error, out_of_range}
use socket_wrapper.Exec.{Outcome, ok, throws, terminated, out_of_fuel, continue}
use socket_wrapper.Kernel.{Kernel}
use socket_wrapper.BufferedStream.Contents.{contents, IsValid, Same}
use socket_wrapper.ConditionalBufferedStream.{ConditionalBufferedStream}

-- The exceptions: a condition asks for more than it was shown, for more than there is, or a semaphore
-- cannot be posted.
abbrev pub IsProcessError : Exception → Type 0
IsProcessError (socket e) = e.exception_type ≡ socket_write
IsProcessError logic_error = Unit {0}
IsProcessError out_of_range = Unit {0}
IsProcessError _ = ⊥

-- Bytes were taken from the front of the buffer, and nothing else but the queues has changed.
pub record Consumed (c c' : ConditionalBufferedStream) : Type 0 where
  pub taken : List ℕ
  pub splits : contents c.stream ≡ taken ++ contents c'.stream
  pub valid : IsValid c'.stream
  pub same : Same c.stream c'.stream
  pub handlers : c'.buffer_event_handlers ≡ c.buffer_event_handlers
  pub last : c'.last_ex ≡ c.last_ex
  pub requested : c'.termination_requested ≡ c.termination_requested

pub Consumed-trans :
    (c c' c'' : ConditionalBufferedStream) → Consumed c c' → Consumed c' c'' → Consumed c c''
Consumed-trans c c' c'' a b = record {
  taken = a.taken ++ b.taken;
  splits =
      a.splits
      ∙ ap (λ l. a.taken ++ l) b.splits
      ∙ sym (append_assoc a.taken b.taken (contents c''.stream));
  valid = b.valid;
  same = (b.same.0 ∙ a.same.0, b.same.1 ∙ a.same.1);
  handlers = b.handlers ∙ a.handlers;
  last = b.last ∙ a.last;
  requested = b.requested ∙ a.requested;
}

module _ (K : Kernel) where
  abbrev pub State : Type 0
  State = ConditionalBufferedStream × K.World

  -- How it ends that began with the object `c`.
  abbrev pub ProcessEnds : ConditionalBufferedStream → Outcome (Unit {0}) × State → Type 0
  ProcessEnds c (ok _, (c', w')) = Consumed c c'
  ProcessEnds c (throws e, (c', w')) = IsProcessError e × Consumed c c'
  ProcessEnds c (terminated, st) = ⊥
  ProcessEnds c (out_of_fuel, st) = ⊥

  pub ProcessEnds-trans :
      (c c' : ConditionalBufferedStream) (r : Outcome (Unit {0})) (st : State)
      → Consumed c c'
      → ProcessEnds c' (r, st)
      → ProcessEnds c (r, st)
  ProcessEnds-trans c c' (ok _) (c'', w) a b = Consumed-trans c c' c'' a b
  ProcessEnds-trans c c' (throws e) (c'', w) a (kind, b) = (kind, Consumed-trans c c' c'' a b)
  ProcessEnds-trans c c' terminated st a h = elim h [ ]
  ProcessEnds-trans c c' out_of_fuel st a h = elim h [ ]

  pub ProcessEnds-bind :
      (c : ConditionalBufferedStream) (r : Outcome (Unit {0})) (st : State)
      (next : State → Outcome (Unit {0}) × State)
      → ProcessEnds c (r, st)
      → ((c' : ConditionalBufferedStream) (w' : K.World)
          → IsValid c'.stream
          → ProcessEnds c' (next (c', w')))
      → ProcessEnds c (continue r (λ _. next) st)
  ProcessEnds-bind c (ok _) (c', w') next a k = ProcessEnds-trans c c' _ _ a (k c' w' a.valid)
  ProcessEnds-bind c (throws e) (c', w') next a k = a
  ProcessEnds-bind c terminated st next h k = elim h [ ]
  ProcessEnds-bind c out_of_fuel st next h k = elim h [ ]

  -- The object with other queues.
  pub unchanged : (c : ConditionalBufferedStream) → IsValid c.stream → Consumed c c
  unchanged c v = record {
    taken = [];
    splits = refl;
    valid = v;
    same = (refl, refl);
    handlers = refl;
    last = refl;
    requested = refl;
  }
