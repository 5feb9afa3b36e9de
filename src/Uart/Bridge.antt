-- ===== src/Uart/Bridge.antt =====
-- uart/mod.rs: the life of a `UartBridge`: `new`, `start`, the thread's loop, and `stop_bridge`. The
-- registry is beside it.
use mathlib.Core.List.{flatten}
use bibi_sync.Base.{
  ◌<◌, ◌≡◌, refl, sym, ap, ◌∙◌, fun_ext, Bool, true, false, Option, none, some, List, [], ◌∷◌, ◌++◌,
  map, if◌then◌else◌, length, Exec, done, ◌>>=◌, >>=_assoc, word_mod,
}
use mathlib.Core.Option.{some-injective}
use bibi_sync.Registry.{ByteShelf, empty_shelf}
use bibi_sync.Uart.{UartFrame}
use bibi_sync.Uart.Loop.{
  ReadResult, loop_body, Round, reads, run_loop, chunks_read, run_loop-read_all,
}
use bibi_sync.Uart.Message.{MsgType}
use bibi_sync.Uart.Wire.{Bytes}
use bibi_sync.Uart.Stream.{encode_all, AllFit}
use bibi_sync.Uart.Received.{Delivered, Carried-Delivered}
use bibi_sync.Uart.Delivery.{payloads, read_all_delivers}

pub record UartBridge : Type 0 where
  pub running : Bool
  pub rx_buffer : Bytes

-- `open` returns a port or an error.
unfoldable pub new : (opened : Bool) → Option UartBridge
new true = some (record { running = false; rx_buffer = [] })
new false = none

-- The flag is set before the thread is spawned.
unfoldable pub start : UartBridge → UartBridge
start bridge = record bridge { running = true }

unfoldable pub stop_bridge : UartBridge → UartBridge
stop_bridge bridge = record bridge { running = false }

-- A round of the thread's loop: whether `stop_bridge` is called before the flag is loaded, and what
-- the read comes to.
pub record Turn : Type 0 where
  pub stops : Bool
  pub result : ReadResult

pub data Ran : Type 0 where
  looping : ByteShelf → UartBridge → Ran
  returned : ByteShelf → UartBridge → Ran

-- The thread, until it returns or no more rounds are given.
unfoldable pub run_thread : ByteShelf → UartBridge → List Turn → Exec Ran
run_thread shelf bridge [] = done (looping shelf bridge)
run_thread shelf bridge (turn ∷ turns) =
    let now = if turn.stops then stop_bridge bridge else bridge in
    elim now.running [
      | false ↦ done (returned shelf now)
      | true ↦ (do
        (shelf', rest) ← loop_body shelf now.rx_buffer turn.result
        run_thread shelf' (record now { rx_buffer = rest }) turns)
    ]

-- Rounds in which `stop_bridge` is not called.
abbrev pub undisturbed : List ReadResult → List Turn
undisturbed results = map (λ r. record { stops = false; result = r }) results

-- The same rounds as `run_loop` has them.
abbrev pub all_reads : List ReadResult → List Round
all_reads results = map reads results

-- The bridge once it was stopped.
abbrev stopped : Bytes → UartBridge
stopped rest = record { running = false; rx_buffer = rest }

-- Until it is stopped the thread does what `run_loop` does.
run_thread-run_loop :
    (results : List ReadResult) (shelf : ByteShelf) (rx : Bytes) (last : ReadResult)
    (later : List Turn)
    → run_thread shelf
        (record { running = true; rx_buffer = rx })
        (undisturbed results ++ record { stops = true; result = last } ∷ later)
      ≡ (run_loop shelf rx (all_reads results) >>= λ (s, rest). done (returned s (stopped rest)))
unfolding run_thread run_loop stop_bridge
run_thread-run_loop [] shelf rx last later = refl
run_thread-run_loop (r ∷ results) shelf rx last later =
    ap (λ k. loop_body shelf rx r >>= k)
      (fun_ext (λ (s, rest). run_thread-run_loop results s rest last later))
    ∙ sym (>>=_assoc (loop_body shelf rx r) (λ (s, rest). run_loop s rest (all_reads results)) _)

-- Let a bridge that was made on an open port be started over a new registry, and `stop_bridge` be
-- called in some round before the flag is loaded. If the reads of the rounds before bring in the
-- bytes of fewer than 2^64 frames with payloads of at most 244 bytes, cut in any way and with any
-- time-outs, errors and empty reads among them, then, whatever reads and calls would follow, the
-- thread returns in that round without a panic, with an empty buffer and the flag clear. For every
-- message type, a reader that then calls `try_receive` on the topic of that type's name until it
-- gets `None` gets the payloads of the frames of that type, each once, in order and with their
-- epochs: all of them if there are at most 32, and otherwise all but the first `32 * ((n - 1) /
-- 32)` of `n`, which are lost. The topic need not exist if there are none.
pub run_thread_delivers :
    (t : MsgType) (frames : List UartFrame) (results : List ReadResult) (last : ReadResult)
    (later : List Turn) (bridge : UartBridge)
    → new true ≡ some bridge
    → length frames < word_mod
    → AllFit frames
    → flatten (chunks_read (all_reads results)) ≡ encode_all frames
    → (shelf : ByteShelf) × (run_thread empty_shelf
          (start bridge)
          (undisturbed results ++ record { stops = true; result = last } ∷ later)
        ≡ done (returned shelf (stop_bridge bridge)))
      × Delivered shelf t (payloads t frames)
unfolding new start stop_bridge
run_thread_delivers t frames results last later bridge made few fit e =
    let (shelf, f, carried) =
      read_all_delivers t frames (chunks_read (all_reads results)) few fit e in
    let new_bridge : UartBridge = record { running = false; rx_buffer = [] } in
    let same : new_bridge ≡ bridge = some-injective new_bridge bridge made in
    let turns = undisturbed results ++ record { stops = true; result = last } ∷ later in
    (
      shelf,
      ap (λ b. run_thread empty_shelf (start b) turns) (sym same)
          ∙ run_thread-run_loop results empty_shelf [] last later
          ∙ ap (λ m. m >>= λ (s, rest). done (returned s (stopped rest)))
              (run_loop-read_all (all_reads results) empty_shelf [] ∙ f)
          ∙ ap (λ b. done (returned shelf (stop_bridge b))) same,
      Carried-Delivered carried,
    )
