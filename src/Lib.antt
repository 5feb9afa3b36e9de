-- ===== src/Lib.antt =====
-- bibi-sync: publish-subscribe between threads and over a serial line.
--
-- The program's parts. `ring_buffer` keeps the last messages of one topic in a fixed array of slots,
-- for one producer and one consumer; `pubsub` wraps the buffers in named topics and keeps them in a
-- registry; `uart` cuts frames out of a serial stream and publishes each to the byte topic of its
-- type, and writes frames; `ffi` offers the byte topics to C; `auv` has a controller that reads the
-- same frames into its sensor data and writes thruster frames, with the pulse widths that its mixer
-- makes of a thrust command; `bin/auv_controller` sets that command from a keyboard.
--
-- Which file models which part:
--   Ring, ByteRing       src/ring_buffer/mod.rs (`RingBuffer`), src/ring_buffer/byte_buffer.rs
--                        (`ByteRingBuffer`): `new`, `push`, `pop`, the peeks, `len`. A record holds
--                        the slots, head, tail, the two epochs and the capacity.
--   Spsc                 `push` and `pop` of src/ring_buffer/mod.rs once more, as two threads that take
--                        one load or store at a time. A thread is where it stands and its live local
--                        variables (`Pushing`, `Popping`); `advance` is one step of a schedule.
--                        Spsc.Anytime has no restriction on when `pop` is called.
--   ByteSpsc             the same of src/ring_buffer/byte_buffer.rs; ByteSpsc.View sees its states as
--                        states of Spsc.
--   Log                  the specification of both buffers: the list of all messages, and how far the
--                        reader is. `Log.Calls` and `Log.Fifo` run it on sequences of calls.
--   Topic                src/pubsub/topic.rs and subscriber.rs: the same names, with `_byte` for the
--                        methods of `ByteTopic` and `ByteSubscriber`; and publisher.rs.
--   Registry             src/pubsub/registry.rs: `TopicRegistry::get_or_create_byte`. An `Arc` is an
--                        index into a heap of topics; `publish_at` and its like act through it.
--                        Registry.Typed has `get_or_create` and `topic_count`; the program's message
--                        types, with the test that a downcast makes, are the parameter `MessageTypes`.
--   Uart                 src/uart/mod.rs: `MsgType` (Message), the search for a frame (Wire), and the
--                        rest of `UartBridge`. `scan` and `finish` are the two halves of
--                        `try_parse_frame`; `on_read` is what `run_loop` (Loop) does with one read;
--                        Bridge has `new`, `start`, the thread and `stop_bridge`.
--   Protocol             src/uart/protocol.rs: messages as bytes.
--   Ffi                  src/ffi/mod.rs: the functions `bibi_byte_topic_*` and `bibi_typed_topic_*`.
--                        Ffi.Handles has the boxes behind C's pointers and who owns which topic.
--   Python               src/python/mod.rs: `PyBibiRegistry`, `PyBibiByteTopic`, `PyBibiTypedTopic`
--                        (`_typed`), and `PyAuvController` (Auv).
--   Mixer                src/auv/thrust_mixer.rs, over a parameter `Floats` for `f32`. `IsIeee` is
--                        what is asked of it; Mixer.Instance obeys it.
--   Controller           src/auv/controller.rs: the state that `AuvController` shares, `process_rx`
--                        and its parser; `run` (Run), over rounds of its loop, each with the calls of
--                        other threads, what the read comes to and whether a frame is due.
--   Keyboard             src/bin/auv_controller.rs: the command loop, over the lines that are read.
--   Latency              src/examples/latency_metrics.rs: the sampling loop and `stats`.
--   EndToEnd             src/examples/stm32_test.rs: `main` from the first frame on.
--   UnitTests            the unit tests in these files that run on one thread, as the model runs them.
--   Base                 what the parts share: lists and tests over the native numbers, the outcome of
--                        a call, 64-bit arithmetic, modular arithmetic, association lists.
--   Tests                runs at fixed inputs.
--
-- How the code is read. A method takes the state and returns the new state beside its result. `Exec`
-- is what a call comes to: a result, a panic (an assertion, an index out of bounds, a poisoned
-- lock), or fuel that ran out. One call is one step, but for Spsc and ByteSpsc, where one load or store is. There
-- the steps of the two threads are sequentially consistent: the loads and stores that the source
-- marks Relaxed are not moved. The item of a slot is not atomic, so it is `none` (in ByteSpsc it is marked as
-- torn) from the first step of its write to the last, and a reader that clones it then has a torn item. `u64` and `usize` are
-- 64 bits and wrap around, as in a release build; the theorems on buffers therefore ask for fewer
-- than 2^64 messages. A `u8` is a number, and lengths and sums are taken modulo 256 where the code
-- truncates. `f32` and `i32` values are their 32-bit patterns, in little-endian memory. The serial
-- port is a parameter, `SerialPort`; what the results on sending ask of it is the record `IsOpen`. A
-- hash map is an association list. What the environment decides (the reads, the clock, the calls of
-- other threads, the lines that are typed) is an argument of the loops.
-- `Vec::with_capacity` panics beyond 2^63-1 bytes (`isize_max`); the size of a typed buffer's slot is a
-- parameter. That the machine has the memory that is asked for is assumed: the process is aborted if not.
-- In src/examples/latency_metrics.rs whether a row gets into the CSV file is an argument, `row_written`.
--
-- Fuel. `pop` has one turn for every slot, twice, and one more; the results on `pop` show
-- that one turn does. The loops over the receive buffers have one turn more than the buffer has bytes:
-- a turn that goes on takes a whole frame. The results on totality show that this is enough.
--
-- Not modelled: orders of loads and stores that are not sequentially consistent; opening the ports,
-- the start of the controller's thread and what is printed or written to files; the mean
-- and the deviation in src/examples/latency_metrics.rs; who owns the topic of a typed handle of C;
-- the unit tests on two threads and those of the mixer.
pub mod Base
pub mod Log
pub mod Ring
pub mod Spsc
pub mod ByteRing
pub mod ByteSpsc
pub mod Topic
pub mod Registry
pub mod Ffi
pub mod Protocol
pub mod Uart
pub mod Mixer
pub mod Controller
pub mod Keyboard
pub mod Latency
pub mod EndToEnd
pub mod UnitTests
pub mod Tests
pub mod Python
