-- ===== src/BufferedStream/Ownership.antt =====
-- The move constructor and the destructor of a BufferedStream: who frees the array and who closes the
-- stream. The object is taken with the address of its array, which `calloc` gave; the two objects of a
-- move are different ones.
use socket_wrapper.Prelude.{ℕ, ◌≡◌, refl, Option, none, some}
use socket_wrapper.Exec.{Exec, pure, call, ◌>>◌}
use socket_wrapper.Kernel.{Kernel}
use socket_wrapper.Stream.Ownership
use socket_wrapper.Stream.Ownership.{then_nothing}
use socket_wrapper.BufferedStream.{BufferedStream}

-- `none` is the pointer -1, which marks an object that was moved from.
pub record Owner : Type 0 where
  pub object : BufferedStream
  pub address : Option ℕ

-- The move constructor: the new object, and what is left of `src`.
pub move_construct : Owner → Owner × Owner
move_construct src =
    let (stream, left) = Ownership.move_construct src.object.stream in
    (
      record { object = record src.object { stream = stream }; address = src.address },
      record { object = record src.object { stream = left }; address = none },
    )

module _ (K : Kernel) (free : ℕ → K.World → Unit {0} × K.World) where
  release : Option ℕ → Exec K.World (Unit {0})
  release none = pure tt
  release (some address) = call (free address)

  -- The destructor: its body, and then that of the stream.
  pub destroy : Owner → Exec K.World (Unit {0})
  unfolding release
  destroy o = release o.address >> Ownership.destroy K o.object.stream

  -- After a move both objects are destroyed, in either order, with the effect that the destruction of
  -- the source alone would have had: the array is freed once and the stream's descriptor is closed
  -- once.
  pub move_construct_destroyed :
      (o : Owner) (w : K.World)
      → ((destroy (move_construct o).0 >> destroy (move_construct o).1) w ≡ destroy o w)
        × ((destroy (move_construct o).1 >> destroy (move_construct o).0) w ≡ destroy o w)
  unfolding destroy move_construct release Ownership.destroy Ownership.move_construct
  move_construct_destroyed o w = (then_nothing K (destroy o w).0 (destroy o w).1, refl)
