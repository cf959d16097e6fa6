-- ===== src/Threads.antt =====
-- A member of type std::thread: of ListenerBase (include/socket_wrapper/Listener.h) and of
-- ConditionalBufferedStream (include/socket_wrapper/ConditionalBufferedStream.h).
use socket_wrapper.Prelude.{Bool, true, false}

-- No thread, one whose function has not returned, or one whose function has.
pub data Thread : Type 0 where
  no_thread : Thread
  running : Thread
  finished : Thread

abbrev pub joinable : Thread → Bool
joinable no_thread = false
joinable running = true
joinable finished = true
