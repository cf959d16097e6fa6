-- ===== src/Stream/Ownership.antt =====
-- Moves and destruction of a Stream in src/Stream.cpp: who closes a descriptor. A move is a function
-- of the two objects, which are different ones.
use socket_wrapper.Prelude.{◌⊎◌, arith, ◌≡◌, refl, if◌then◌else◌}
use socket_wrapper.Prelude.Int.{pos, minus_one, is_negative, int_eq}
use socket_wrapper.Exec.{
  Outcome, ok, throws, terminated, out_of_fuel, Exec, pure, terminate, call, continue, ◌>>=◌, ◌>>◌,
}
use socket_wrapper.Kernel.{Kernel}
use socket_wrapper.Stream.{Stream, semaphore_value}

-- `kInvalidSocketFdMarker` takes the place of the descriptor that was given away.
abbrev pub moved_from : Stream → Stream
moved_from src = record src { stream_file_descriptor = minus_one }

-- The move constructor: the new object, and what is left of `src`.
unfoldable pub move_construct : Stream → Stream × Stream
move_construct src = (
  record {
    stream_file_descriptor = src.stream_file_descriptor;
    stop_all_operations_event_fd = src.stop_all_operations_event_fd;
  },
  moved_from src,
)

-- The move assignment of `src` to `own`, and what is left of both.
pub move_assign : Stream → Stream → Stream × Stream
move_assign own src = (
  record own {
    stream_file_descriptor = src.stream_file_descriptor;
    stop_all_operations_event_fd = src.stop_all_operations_event_fd;
  },
  moved_from src,
)

module _ (K : Kernel) where
  -- The destructor.
  unfoldable pub destroy : Stream → Exec K.World (Unit {0})
  destroy s = if is_negative s.stream_file_descriptor then pure tt else (do
    call (K.write_u64 s.stop_all_operations_event_fd semaphore_value)
    closed ← call (K.close s.stream_file_descriptor)
    if int_eq closed (pos 0) then pure tt else terminate)

  -- The destructor throws nothing.
  pub destroy_ends :
      (s : Stream) (w : K.World) → ((destroy s w).0 ≡ ok tt) ⊎ ((destroy s w).0 ≡ terminated)
  unfolding destroy
  destroy_ends s w = ground arith

  pub then_nothing :
      (r : Outcome (Unit {0})) (w : K.World) → continue r (λ _ v. (ok tt, v)) w ≡ (r, w)
  then_nothing (ok _) w = refl
  then_nothing (throws e) w = refl
  then_nothing terminated w = refl
  then_nothing out_of_fuel w = refl

  -- After a move construction both objects are destroyed, in either order, with the effect that the
  -- destruction of the source alone would have had: its descriptor is closed once.
  move_construct-destroy :
      (s : Stream) (w : K.World)
      → ((destroy (move_construct s).0 >> destroy (move_construct s).1) w ≡ destroy s w)
        × ((destroy (move_construct s).1 >> destroy (move_construct s).0) w ≡ destroy s w)
  unfolding destroy move_construct
  move_construct-destroy s w = (then_nothing (destroy s w).0 (destroy s w).1, refl)

  -- After a move assignment the destruction of both objects has the effect of the destruction of the
  -- source alone, whatever the target owned: the target's own descriptor is never closed.
  pub move_assign-destroy :
      (own s : Stream) (w : K.World)
      → (destroy (move_assign own s).0 >> destroy (move_assign own s).1) w ≡ destroy s w
  unfolding destroy move_assign
  move_assign-destroy own s w = then_nothing (destroy s w).0 (destroy s w).1
