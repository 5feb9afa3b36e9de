-- ===== src/Uart/Total.antt =====
-- uart/mod.rs: `process_buffer` and `run_loop` on any bytes.
use mathlib.Core.List.{flatten}
use bibi_sync.Base.{
  ℕ, zero, suc, ◌+◌, ◌≤◌, ◌<◌, ◌≡◌, refl, ap, ◌∙◌, List, [], ◌∷◌, ◌++◌, arith, length,
  length-append, Exec, done, ◌>>=◌, word_mod,
}
use bibi_sync.Registry.{ByteShelf}
use bibi_sync.Registry.Byte
use bibi_sync.Registry.Byte.{IsValid, get_or_create-IsValid, publish_at-IsValid}
use bibi_sync.Uart.{
  UartFrame, try_parse_frame, publish_frame, process_loop, process_buffer, on_read, build_frame,
}
use bibi_sync.Uart.Message.{to_topic_name}
use bibi_sync.Uart.Wire.{Bytes}
use bibi_sync.Uart.Sound.{Parse, leaves, takes, try_parse_frame_cases}
use bibi_sync.Uart.Stream.{
  AllFit, encode_all, publish_all, read_all, read_all-encode_all, length-build_frame,
}

publish_frame-IsValid :
    (f : UartFrame) {shelf : ByteShelf} {n : ℕ}
    → IsValid shelf n
    → suc n < word_mod
    → (shelf' : ByteShelf) × (publish_frame shelf f ≡ done shelf') × IsValid shelf' (suc n)
unfolding publish_frame
publish_frame-IsValid f v fits =
    let (arc, shelf', e, there, w) =
      get_or_create-IsValid v (to_topic_name f.msg_type) 32 (omega arith) (omega arith) in
    let (epoch, shelf'', pushed, u) =
      publish_at-IsValid w arc f.payload (w.entry _ arc there) fits in
    (shelf'', ground (arith, e, pushed), u)

-- A loop that has returned: its registry is well formed, and no more messages were published than
-- bytes went.
record Returned (r : Exec (ByteShelf × Bytes)) (bound : ℕ) : Type 0 where
  shelf : ByteShelf
  rest : Bytes
  messages : ℕ
  returned : r ≡ done (shelf, rest)
  valid : IsValid shelf messages
  bounded : messages + length rest ≤ bound

Returned-mono :
    {r s : Exec (ByteShelf × Bytes)} {m n : ℕ} → r ≡ s → m ≤ n → Returned s m → Returned r n
Returned-mono e le c = record {
  shelf = c.shelf;
  rest = c.rest;
  messages = c.messages;
  returned = e ∙ c.returned;
  valid = c.valid;
  bounded = omega (arith, c.bounded);
}

process_loop-Parse :
    (fuel : ℕ) (rx : Bytes) (shelf : ByteShelf) (n : ℕ)
    → IsValid shelf n
    → length rx < suc fuel
    → suc (n + length rx) < word_mod
    → ((rest : Bytes) (shelf' : ByteShelf)
        → IsValid shelf' (suc n)
        → length rest < fuel
        → suc (suc n + length rest) < word_mod
        → Returned (process_loop fuel shelf' rest) (suc n + length rest))
    → Parse rx (try_parse_frame rx)
    → Returned (process_loop (suc fuel) shelf rx) (n + length rx)
unfolding process_loop
process_loop-Parse fuel rx shelf n v enough fits again (leaves dropped rest e split) = record {
  shelf = shelf;
  rest = rest;
  messages = n;
  returned = rw e;
  valid = v;
  bounded = omega (arith, ap length split, length-append dropped rest);
}
process_loop-Parse fuel rx shelf n v enough fits again (takes junk f rest e _ split small) =
    let frame = build_frame f.msg_type f.payload in
    let size : 4 + length rest ≤ length rx = omega (
      arith,
      ap length split,
      length-append junk (frame ++ rest),
      length-append frame rest,
      length-build_frame f small,
    ) in
    let (shelf', published, w) = publish_frame-IsValid f v (omega arith) in
    Returned-mono (ground (arith, e, published)) (omega (arith, size))
      (again rest shelf' w (omega (arith, size)) (omega (arith, size)))

process_loop-Returned :
    (fuel : ℕ) (rx : Bytes) (shelf : ByteShelf) (n : ℕ)
    → IsValid shelf n
    → length rx < fuel
    → suc (n + length rx) < word_mod
    → Returned (process_loop fuel shelf rx) (n + length rx)
process_loop-Returned zero rx shelf n v enough fits = absurd (omega arith)
process_loop-Returned (suc fuel) rx shelf n v enough fits =
    process_loop-Parse fuel rx shelf n v enough fits
      (λ rest shelf'. process_loop-Returned fuel rest shelf' (suc n)) (try_parse_frame_cases rx)

-- From a valid registry of topics with at most `n` messages each, whatever bytes come in, in
-- whatever reads: if `n` plus the number of bytes in the buffer and of those that come in is below
-- 2^64-1, the bridge parses and publishes without a panic and every loop ends within its fuel.
pub read_all-total :
    (chunks : List Bytes) (rx : Bytes) (shelf : ByteShelf) (n : ℕ)
    → IsValid shelf n
    → suc (n + length rx + length (flatten chunks)) < word_mod
    → (shelf' : ByteShelf) × (rest : Bytes) × (read_all shelf rx chunks ≡ done (shelf', rest))
unfolding read_all on_read process_buffer flatten
read_all-total [] rx shelf n v fits = (shelf, rx, refl)
read_all-total (chunk ∷ chunks) rx shelf n v fits =
    let sizes = length-append rx chunk in
    let rest_sizes = length-append chunk (flatten chunks) in
    let c =
      process_loop-Returned (suc (length (rx ++ chunk))) (rx ++ chunk) shelf n v (omega arith)
        (omega (arith, sizes, rest_sizes)) in
    let (shelf', rest, e) =
      read_all-total chunks c.rest c.shelf c.messages c.valid
        (omega (arith, c.bounded, sizes, rest_sizes)) in
    (shelf', rest, ap (λ m. m >>= λ (s, l). read_all s l chunks) c.returned ∙ e)

publish_all-total :
    (frames : List UartFrame) (shelf : ByteShelf) (n : ℕ)
    → IsValid shelf n
    → n + length frames < word_mod
    → (shelf' : ByteShelf) × (publish_all shelf frames ≡ done shelf')
      × IsValid shelf' (n + length frames)
unfolding publish_all
publish_all-total [] shelf n v fits = (shelf, refl, Byte.IsValid-mono v _ (omega arith))
publish_all-total (f ∷ fs) shelf n v fits =
    let (next, e, w) = publish_frame-IsValid f v (omega arith) in
    let (shelf', g, u) = publish_all-total fs next (suc n) w (omega arith) in
    (shelf', ap (λ m. m >>= λ s. publish_all s fs) e ∙ g, Byte.IsValid-mono u _ (omega arith))

-- From a valid registry of topics with at most `n` messages each: if the bytes of any frames with
-- payloads of at most 244 bytes come in, cut into reads in any way, and `n` plus the number of
-- frames is below 2^64, the bridge publishes exactly these frames, in order, ends with an empty
-- buffer, and does not panic.
pub read_all_publishes :
    (shelf : ByteShelf) (n : ℕ) (frames : List UartFrame) (chunks : List Bytes)
    → IsValid shelf n
    → n + length frames < word_mod
    → AllFit frames
    → flatten chunks ≡ encode_all frames
    → (shelf' : ByteShelf) × (publish_all shelf frames ≡ done shelf')
      × (read_all shelf [] chunks ≡ done (shelf', []))
read_all_publishes shelf n frames chunks v fits fit e =
    let (shelf', published, _) = publish_all-total frames shelf n v fits in
    (
      shelf',
      published,
      read_all-encode_all shelf frames chunks fit e ∙ ap (λ m. m >>= λ s. done (s, [])) published,
    )
