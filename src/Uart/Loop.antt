-- ===== src/Uart/Loop.antt =====
-- uart/mod.rs: `run_loop`, over what the reads of the port return.
use bibi_sync.Base.{ℕ, List, [], ◌∷◌, ◌≡◌, refl, Exec, done, ◌>>=◌, ap, fun_ext}
use bibi_sync.Registry.{ByteShelf}
use bibi_sync.Uart.{on_read}
use bibi_sync.Uart.Wire.{Bytes}
use bibi_sync.Uart.Stream.{read_all}

-- What `port.read` comes to: the bytes that it put into the buffer, or an error.
pub data ReadResult : Type 0 where
  bytes_read : Bytes → ReadResult
  timed_out : ReadResult
  read_error : ℕ → ReadResult

-- The body of the `while`; an error is printed.
unfoldable pub loop_body : ByteShelf → Bytes → ReadResult → Exec (ByteShelf × Bytes)
loop_body shelf rx (bytes_read []) = done (shelf, rx)
loop_body shelf rx (bytes_read (b ∷ bs)) = on_read shelf rx (b ∷ bs)
loop_body shelf rx timed_out = done (shelf, rx)
loop_body shelf rx (read_error code) = done (shelf, rx)

-- A round of the `while`: the flag is found clear, or the port is read.
pub data Round : Type 0 where
  cleared : Round
  reads : ReadResult → Round

-- Until the flag is clear, or no more rounds are given.
unfoldable pub run_loop : ByteShelf → Bytes → List Round → Exec (ByteShelf × Bytes)
run_loop shelf rx [] = done (shelf, rx)
run_loop shelf rx (cleared ∷ rounds) = done (shelf, rx)
run_loop shelf rx (reads result ∷ rounds) = do
  (shelf', rest) ← loop_body shelf rx result
  run_loop shelf' rest rounds

-- What the reads bring in until the flag is clear, without the empty ones.
unfoldable pub chunks_read : List Round → List Bytes
chunks_read [] = []
chunks_read (cleared ∷ rounds) = []
chunks_read (reads (bytes_read (b ∷ bs)) ∷ rounds) = (b ∷ bs) ∷ chunks_read rounds
chunks_read (reads result ∷ rounds) = chunks_read rounds

-- Whatever the reads come to, `run_loop` does to the registry and the receive buffer what the reads
-- that brought bytes in before the flag was found clear do one after the other: empty reads,
-- time-outs and errors change nothing.
pub run_loop-read_all :
    (rounds : List Round) (shelf : ByteShelf) (rx : Bytes)
    → run_loop shelf rx rounds ≡ read_all shelf rx (chunks_read rounds)
unfolding run_loop loop_body chunks_read read_all
run_loop-read_all [] shelf rx = refl
run_loop-read_all (cleared ∷ rounds) shelf rx = refl
run_loop-read_all (reads timed_out ∷ rounds) shelf rx = run_loop-read_all rounds shelf rx
run_loop-read_all (reads (read_error code) ∷ rounds) shelf rx = run_loop-read_all rounds shelf rx
run_loop-read_all (reads (bytes_read []) ∷ rounds) shelf rx = run_loop-read_all rounds shelf rx
run_loop-read_all (reads (bytes_read (b ∷ bs)) ∷ rounds) shelf rx =
    ap (λ k. on_read shelf rx (b ∷ bs) >>= k)
      (fun_ext (λ (s, rest). run_loop-read_all rounds s rest))
