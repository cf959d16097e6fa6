-- ===== src/BufferedStream/Session.antt =====
-- A client's requests to one BufferedStream, of any kind and in any order.
use socket_wrapper.Prelude.{
  ℕ, ◌≡◌, sym, ap, ◌∙◌, subst, List, [], ◌∷◌, ◌++◌, append_assoc, inl, inr,
}
use socket_wrapper.Prelude.Int.{ℤ}
use socket_wrapper.Exec.{Outcome, ok, throws, terminated, out_of_fuel, Exec}
use socket_wrapper.Kernel.{Kernel, IsBounded, History}
use socket_wrapper.Stream.{Stream}
use socket_wrapper.BufferedStream.{BufferedStream, read, read_into, read_until_delimiter}
use socket_wrapper.BufferedStream.Contents.{contents, IsValid}
use socket_wrapper.BufferedStream.Fill.{received}
use socket_wrapper.BufferedStream.FillTo.{Grows, Grown-none}
use socket_wrapper.BufferedStream.Read.{
  Taken, VectorEnds, read-VectorEnds, IntoEnds, read_into-IntoEnds,
}
use socket_wrapper.BufferedStream.Delimiter.{UntilEnds, read_until_delimiter-UntilEnds}

-- A call of one of the three functions that read.
pub data Request : Type 0 where
  exactly : (bytes_to_read : ℕ) → ℤ → Request
  between : (max_bytes min_bytes : ℕ) → ℤ → Request
  until : (delimiter : ℕ) → Request

-- The bytes that a request takes off the stream, by what it returned: those and the delimiter.
abbrev pub used : Request → Outcome (List ℕ) → List ℕ
used (exactly n timeout) (ok result) = result
used (between m n timeout) (ok result) = result
used (until delimiter) (ok result) = result ++ delimiter ∷ []
used _ _ = []

module _ (K : Kernel) where
  abbrev pub perform : Request → Exec (BufferedStream × K.World) (List ℕ)
  perform (exactly n timeout) = read K n timeout
  perform (between m n timeout) = read_into K m n timeout
  perform (until delimiter) = read_until_delimiter K delimiter

  -- All requests, whether they return or throw, and the bytes that they took.
  pub session : List Request → BufferedStream × K.World → List ℕ × (BufferedStream × K.World)
  session [] st = ([], st)
  session (q ∷ requests) st =
      let (r, st') = perform q st in
      let (later, st'') = session requests st' in (used q r ++ later, st'')

module _ (K : Kernel) (bounded : IsBounded K) (history : History K) where
  Taken-none :
      (b b' : BufferedStream) (w w' : K.World) (new : List ℕ)
      → Grows K bounded history b w new b' w'
      → Taken K bounded history b w new [] b' w'
  Taken-none b b' w w' new g = record {
    valid = g.valid;
    same = g.same;
    splits = sym g.holds;
    read = g.read;
  }

  Taken-trans :
      (b b' b'' : BufferedStream) (w w' w'' : K.World) (new new' result result' : List ℕ)
      → Taken K bounded history b w new result b' w'
      → Taken K bounded history b' w' new' result' b'' w''
      → Taken K bounded history b w (new ++ new') (result ++ result') b'' w''
  Taken-trans b b' b'' w w' w'' new new' result result' t u = record {
    valid = u.valid;
    same = (u.same.0 ∙ t.same.0, u.same.1 ∙ t.same.1);
    splits =
        sym (append_assoc (contents b) new new')
        ∙ ap (λ l. l ++ new') t.splits
        ∙ append_assoc result (contents b') new'
        ∙ ap (λ l. result ++ l) u.splits
        ∙ sym (append_assoc result result' (contents b''));
    read =
        sym (at_stream w'')
        ∙ u.read
        ∙ ap (λ l. l ++ new') (at_stream w' ∙ t.read)
        ∙ append_assoc (received K bounded history b w) new new';
  }
    where
      at_stream : (v : K.World) → received K bounded history b' v ≡ received K bounded history b v
      at_stream v = ap (λ (s : Stream). history.received s.stream_file_descriptor v) t.same.0

  vector-Taken :
      (n : ℕ) (timeout : ℤ) (b b' : BufferedStream) (w w' : K.World) (r : Outcome (List ℕ))
      → IsValid b
      → VectorEnds K bounded history n b w (r, (b', w'))
      → (new : List ℕ) × Taken K bounded history b w new (used (exactly n timeout) r) b' w'
  vector-Taken n timeout b b' w w' (ok result) v (fits, len, taken) = taken
  vector-Taken n timeout b b' w w' (throws e) v (inl (large, ee, eb, ew)) = (
    [],
    Taken-none b b' w w' [] (
        subst (λ x. Grows K bounded history b w [] x w') (sym eb)
          (subst (Grows K bounded history b w [] b) (sym ew) (Grown-none K bounded history b w v))),
  )
  vector-Taken n timeout b b' w w' (throws e) v (inr (fits, read_error, (new, g))) =
      (new, Taken-none b b' w w' new g)
  vector-Taken n timeout b b' w w' terminated v h = elim h [ ]
  vector-Taken n timeout b b' w w' out_of_fuel v h = elim h [ ]

  into-Taken :
      (m n : ℕ) (timeout : ℤ) (b b' : BufferedStream) (w w' : K.World) (r : Outcome (List ℕ))
      → IntoEnds K bounded history m n b w (r, (b', w'))
      → (new : List ℕ) × Taken K bounded history b w new (used (between m n timeout) r) b' w'
  into-Taken m n timeout b b' w w' (ok result) (new, some_bytes, enough, len, taken) = (new, taken)
  into-Taken m n timeout b b' w w' (throws e) (read_error, (new, g)) =
      (new, Taken-none b b' w w' new g)
  into-Taken m n timeout b b' w w' terminated h = elim h [ ]
  into-Taken m n timeout b b' w w' out_of_fuel h = elim h [ ]

  until-Taken :
      (d : ℕ) (b b' : BufferedStream) (w w' : K.World) (r : Outcome (List ℕ))
      → UntilEnds K bounded history d b w (r, (b', w'))
      → (new : List ℕ) × Taken K bounded history b w new (used (until d) r) b' w'
  until-Taken d b b' w w' (ok result) (new, some_bytes, lacks, splits, delivered, valid, same) = (
    new,
    record {
      valid = valid;
      same = same;
      splits = splits ∙ sym (append_assoc result (d ∷ []) (contents b'));
      read = delivered;
    },
  )
  until-Taken d b b' w w' (throws e) (new, g, why) = (new, Taken-none b b' w w' new g)
  until-Taken d b b' w w' terminated h = elim h [ ]
  until-Taken d b b' w w' out_of_fuel h = elim h [ ]

  perform-Taken :
      (q : Request) (b : BufferedStream) (w : K.World)
      → IsValid b
      → let (r, (b', w')) = perform K q (b, w) in
        (new : List ℕ) × Taken K bounded history b w new (used q r) b' w'
  perform-Taken (exactly n timeout) b w v =
      vector-Taken n timeout b _ w _ _ v (read-VectorEnds K bounded history n timeout b w v)
  perform-Taken (between m n timeout) b w v =
      into-Taken m n timeout b _ w _ _ (read_into-IntoEnds K bounded history m n timeout b w v)
  perform-Taken (until d) b w v =
      until-Taken d b _ w _ _ (read_until_delimiter-UntilEnds K bounded history d b w v)

  -- A client makes any number of requests, of any kind and in any order, of which each may return or
  -- throw, on a valid buffer. What they took is, in order and with nothing lost or repeated, the
  -- beginning of what the buffer held and the stream delivered in the meantime; the buffer holds the
  -- rest, and stays valid and on its stream.
  pub session-Taken :
      (requests : List Request) (b : BufferedStream) (w : K.World)
      → IsValid b
      → let (taken, (b', w')) = session K requests (b, w) in
        (new : List ℕ) × Taken K bounded history b w new taken b' w'
  unfolding session
  session-Taken [] b w v = ([], Taken-none b b w w [] (Grown-none K bounded history b w v))
  session-Taken (q ∷ requests) b w v =
      let (r, (b', w')) = perform K q (b, w) in
      let (new, t) = perform-Taken q b w v in
      let (later, u) = session-Taken requests b' w' t.valid in
      (new ++ later, Taken-trans b b' _ w w' _ new later (used q r) _ t u)
