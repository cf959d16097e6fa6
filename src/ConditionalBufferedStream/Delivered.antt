-- ===== src/ConditionalBufferedStream/Delivered.antt =====
-- What the delivery of segments to one condition changes.
use socket_wrapper.Prelude.{
  ℕ, ◌+◌, ◌≡◌, refl, sym, ap, ◌∙◌, ◌⊎◌, inl, inr, Bool, true, false, List, [], ◌∷◌, ◌++◌, arith,
  length, append-nil, append_assoc, length-append, Bool-cases,
}
use socket_wrapper.Prelude.Int.{ℤ, int_eq, int_eq_refl, int_eq→eq}
use socket_wrapper.Exec.{Outcome, continue}
use socket_wrapper.Kernel.{Kernel, History, wrote}
use socket_wrapper.BufferedStream.{BufferedStream}
use socket_wrapper.BufferedStream.Contents.{contents, IsValid, Same}
use socket_wrapper.ConditionalBufferedStream.{
  ConditionalBufferedStream, Queues, queue, set_queue, deliver,
}

-- An open event descriptor: a post of 1 succeeds, and its count of posts grows by one. Polls and reads
-- of sockets do not change it.
pub record Semaphore (K : Kernel) (fd : ℤ) : Type 0 where
  pub posted : K.World → ℕ
  pub succeeds : (w : K.World) → (K.write_u64 fd 1 w).0 ≡ wrote 8
  pub counts : (w : K.World) → posted (K.write_u64 fd 1 w).1 ≡ posted w + 1
  pub polls :
      (fds : List ℤ) (timeout : ℤ) (w : K.World) → posted (K.poll fds timeout w).1 ≡ posted w
  pub reads : (g : ℤ) (n : ℕ) (w : K.World) → posted (K.read g n w).1 ≡ posted w

-- The segments that a delivery adds to the queue.
abbrev pub sent_segment : Bool → List ℕ → List (List ℕ)
sent_segment true segment = segment ∷ []
sent_segment false segment = []

-- Writing one queue leaves the others alone.
pub set_queue_others :
    (fd g : ℤ) (kept : List (List ℕ)) (queues : Queues)
    → (fd ≡ g) ⊎ (set_queue fd kept queues g ≡ queues g)
set_queue_others fd g kept queues = elim (Bool-cases (int_eq fd g)) [
  | inl same ↦ inl (int_eq→eq fd g same)
  | inr other ↦ inr (rw other)
]

pub others_trans {ℓ} :
    {A : Type ℓ} {P : Type 0} {x y z : A} → P ⊎ (z ≡ y) → P ⊎ (y ≡ x) → P ⊎ (z ≡ x)
others_trans (inl p) e = inl p
others_trans (inr d) (inl p) = inl p
others_trans (inr d) (inr e) = inr (d ∙ e)

module _ (K : Kernel) (history : History K) (fd : ℤ) (semaphore : Semaphore K fd) where
  -- From `c` to `c'` the segments `delivered` went to the queue of `fd`, its semaphore was posted
  -- once for each, `rest` stays in the buffer and nothing else has changed.
  pub record Delivered (c : ConditionalBufferedStream) (w : K.World) (delivered : List (List ℕ))
      (rest : List ℕ) (c' : ConditionalBufferedStream) (w' : K.World) : Type 0 where
    pub valid : IsValid c'.stream
    pub same : Same c.stream c'.stream
    pub holds : contents c'.stream ≡ rest
    pub handlers : c'.buffer_event_handlers ≡ c.buffer_event_handlers
    pub last : c'.last_ex ≡ c.last_ex
    pub queued :
        queue c'.received_data_per_condition fd
        ≡ queue c.received_data_per_condition fd ++ delivered
    pub others :
        (g : ℤ) → (fd ≡ g) ⊎ (c'.received_data_per_condition g ≡ c.received_data_per_condition g)
    pub signals : semaphore.posted w' ≡ semaphore.posted w + length delivered
    pub unread : (g : ℤ) → history.received g w' ≡ history.received g w

  pub queue-set_queue :
      (kept : List (List ℕ)) (queues : Queues) → queue (set_queue fd kept queues) fd ≡ kept
  queue-set_queue kept queues = rw (int_eq_refl fd, queue)

  -- One segment goes to the queue.
  push-Delivered :
      (segment : List ℕ) (c : ConditionalBufferedStream) (w : K.World)
      → IsValid c.stream
      → Delivered c w
          (segment ∷ [])
          (contents c.stream)
          (record c {
            received_data_per_condition =
                set_queue fd
                  (queue c.received_data_per_condition fd ++ segment ∷ [])
                  c.received_data_per_condition;
          })
          (K.write_u64 fd 1 w).1
  push-Delivered segment c w v = record {
    valid = v;
    same = (refl, refl);
    holds = refl;
    handlers = refl;
    last = refl;
    queued = queue-set_queue _ c.received_data_per_condition;
    others = λ g. set_queue_others fd g _ c.received_data_per_condition;
    signals = omega (arith, semaphore.counts w);
    unread = λ g. history.received_write_u64 g fd 1 w;
  }

  pub Delivered-none :
      (c : ConditionalBufferedStream) (w : K.World)
      → IsValid c.stream
      → Delivered c w [] (contents c.stream) c w
  Delivered-none c w v = record {
    valid = v;
    same = (refl, refl);
    holds = refl;
    handlers = refl;
    last = refl;
    queued = sym (append-nil _);
    others = λ g. inr refl;
    signals = omega arith;
    unread = λ g. refl;
  }

  pub Delivered-trans :
      {c c' c'' : ConditionalBufferedStream} {w w' w'' : K.World} {first second : List (List ℕ)}
      {rest rest' : List ℕ}
      → Delivered c w first rest c' w'
      → Delivered c' w' second rest' c'' w''
      → Delivered c w (first ++ second) rest' c'' w''
  Delivered-trans {c} {first = first} {second = second} d e = record {
    valid = e.valid;
    same = (e.same.0 ∙ d.same.0, e.same.1 ∙ d.same.1);
    holds = e.holds;
    handlers = e.handlers ∙ d.handlers;
    last = e.last ∙ d.last;
    queued =
        e.queued
        ∙ ap (λ l. l ++ second) d.queued
        ∙ append_assoc (queue c.received_data_per_condition fd) first second;
    others = λ g. others_trans (e.others g) (d.others g);
    signals = omega (arith, d.signals, e.signals, length-append first second);
    unread = λ g. e.unread g ∙ d.unread g;
  }

  -- A change of the stream alone.
  pub Delivered-stream :
      (c : ConditionalBufferedStream) (w : K.World) (stream : BufferedStream)
      → IsValid stream
      → Same c.stream stream
      → Delivered c w [] (contents stream) (record c { stream = stream }) w
  Delivered-stream c w stream v same = record {
    valid = v;
    same = same;
    holds = refl;
    handlers = refl;
    last = refl;
    queued = sym (append-nil _);
    others = λ g. inr refl;
    signals = omega arith;
    unread = λ g. refl;
  }

  -- Delivery of a segment, and what comes after it.
  pub after_deliver :
      (positive : Bool) (segment : List ℕ) (c : ConditionalBufferedStream) (w : K.World)
      (next : ConditionalBufferedStream × K.World
        → Outcome (Unit {0}) × (ConditionalBufferedStream × K.World))
      (P : Outcome (Unit {0}) × (ConditionalBufferedStream × K.World) → Type 0)
      → IsValid c.stream
      → ((c' : ConditionalBufferedStream) (w' : K.World)
          → Delivered c w (sent_segment positive segment) (contents c.stream) c' w'
          → P (next (c', w')))
      → P (
          continue
            (deliver K positive fd segment (c, w)).0
            (λ _. next)
            (deliver K positive fd segment (c, w)).1)
  unfolding deliver
  after_deliver true segment c w next P v k =
      rw (semaphore.succeeds w) (k _ _ (push-Delivered segment c w v))
  after_deliver false segment c w next P v k = k c w (Delivered-none c w v)
