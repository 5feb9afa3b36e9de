-- ===== src/Uart/Wire.antt =====
-- uart/mod.rs: the bytes of a frame, its checksum, and the search for one in the receive buffer.
use mathlib.Core.List.{foldl}
use bibi_sync.Base.{
  ℕ, suc, ◌+◌, ◌-◌, ◌%◌, ◌&&◌, Option, none, some, List, [], ◌∷◌, ltb, leb, ◌==◌, if◌then◌else◌,
  length, take, drop, Exec, done, panicked, ◌>>=◌, index,
}

abbrev pub Bytes : Type 0
Bytes = List ℕ

abbrev pub sync_byte : ℕ
sync_byte = 0xaa

abbrev pub max_msg_size : ℕ
max_msg_size = 244

-- `data.iter().fold(0u8, |acc, &b| acc.wrapping_add(b))`
unfoldable pub calculate_checksum : Bytes → ℕ
calculate_checksum = foldl (λ acc b. (acc + b) % 256) 0

-- `iter().position(|&b| b == SYNC_BYTE)`
unfoldable pub sync_position : Bytes → Option ℕ
sync_position [] = none
sync_position (b ∷ bs) =
    if b == sync_byte
    then some 0
    else elim (sync_position bs) [ none ↦ none | some i ↦ some (suc i) ]

-- `&xs[lo..hi]`
abbrev pub slice : ℕ → ℕ → Bytes → Exec Bytes
slice lo hi xs =
    if leb lo hi && leb hi (length xs) then done (take (hi - lo) (drop lo xs)) else panicked

-- `xs.drain(0..n)`
abbrev pub drain : ℕ → Bytes → Exec Bytes
drain n xs = if leb n (length xs) then done (drop n xs) else panicked

-- `xs.remove(0)`
abbrev pub remove_first : Bytes → Exec Bytes
remove_first [] = panicked
remove_first (x ∷ xs) = done xs

-- What the search comes to: no frame, and what is left in the buffer; or a frame at the front of
-- the buffer whose checksum fits, with its type byte and its length.
pub data Scan : Type 0 where
  waiting : Bytes → Scan
  framed : ℕ → ℕ → Bytes → Scan

-- The checksum test.
unfoldable pub verify : ℕ → ℕ → Bytes → Exec Scan
verify msg_type len rx = do
  checksum ← index rx (3 + len)
  body ← slice 1 (3 + len) rx
  if checksum == calculate_checksum body
      then done (framed msg_type len rx)
      else (do rest ← remove_first rx; done (waiting rest))

-- From the sync byte on.
unfoldable pub scan_synced : Bytes → Exec Scan
scan_synced rx = if ltb (length rx) 4 then done (waiting rx) else (do
  msg_type ← index rx 1
  len ← index rx 2
  if ltb max_msg_size len
      then (do rest ← remove_first rx; done (waiting rest))
      else if ltb (length rx) (4 + len)
      then done (waiting rx)
      else verify msg_type len rx)

-- `try_parse_frame` up to the test of the message type.
unfoldable pub scan : Bytes → Exec Scan
scan rx = if ltb (length rx) 4 then done (waiting rx) else elim (sync_position rx) [
  | none ↦ done (waiting rx)
  | some sync_pos ↦ (do
    synced ← if ltb 0 sync_pos then drain sync_pos rx else done rx
    scan_synced synced)
]
