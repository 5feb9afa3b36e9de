-- ===== src/Tests/Shelves.antt =====
-- The registry of byte topics, and the C interface to it.
use bibi_sync.Base.{
  ℕ, ◌≡◌, refl, none, some, true, false, [], ◌∷◌, arith, done, panicked, ◌>>=◌, lookup,
}
use bibi_sync.Log
use bibi_sync.Log.{Log}
use bibi_sync.ByteRing
use bibi_sync.Topic
use bibi_sync.Topic.{ByteTopic}
use bibi_sync.Registry.{
  ByteShelf, empty_shelf, create_byte, get_or_create_byte, publish_at, try_receive_at,
}
use bibi_sync.Registry.Byte.{empty_shelf-IsValid, get_or_create_twice, zero_capacity_poisons}
use bibi_sync.Registry.At.{Holds}
use bibi_sync.Ffi.{wrong_size, byte_topic_try_receive}
use bibi_sync.Ffi.Calls.{byte_topic_try_receive_loses}
use bibi_sync.Log.Sized.{AllSized}
use bibi_sync.Ffi.{TypedHandle, typed_topic_try_receive}
use bibi_sync.Ffi.Typed.{delivered, typed_topic_try_receive_lem}
use bibi_sync.Python.{TypedTopic}
use bibi_sync.Tests.Buffers.{
  one_frame, one_frame_log, one_frame-ByteRepresents, two_frames, two_frames_log,
  two_frames-ByteRepresents,
}

-- A message goes through the registry and comes out.
round_trip :
    (let (topic, shelf) = get_or_create_byte empty_shelf "/camera/0" 4 in
      topic >>= λ arc. publish_at shelf arc (1 ∷ 2 ∷ 3 ∷ []) >>= λ (epoch, shelf').
      try_receive_at shelf' arc >>= λ (msg, shelf''). done msg)
    ≡ done (some (1 ∷ 2 ∷ 3 ∷ [], 1))
unfolding get_or_create_byte create_byte empty_shelf publish_at try_receive_at Topic.new_byte
    Topic.publish_byte Topic.try_receive_byte ByteRing.new ByteRing.push ByteRing.pop lookup
round_trip = refl

get_or_create_twice_example :
    (arc : ℕ) × (shelf' : ByteShelf) × (get_or_create_byte empty_shelf "/imu" 8
      ≡ (done arc, shelf'))
    × (get_or_create_byte shelf' "/imu" 32 ≡ (done arc, shelf'))
get_or_create_twice_example =
    get_or_create_twice "/imu" 8 32 empty_shelf-IsValid (omega arith) (omega arith)

no_imu : lookup "/imu" empty_shelf.byte_topics ≡ none
unfolding empty_shelf lookup
no_imu = refl

zero_capacity_poisons_example :
    let (result, shelf') = get_or_create_byte empty_shelf "/imu" 0 in
    (result ≡ panicked) × (get_or_create_byte shelf' "/depth" 32 ≡ (panicked, shelf'))
zero_capacity_poisons_example = zero_capacity_poisons "/imu" "/depth" 32 empty_shelf-IsValid no_imu

abbrev camera : ByteShelf
camera = record {
  byte_topics = ("/camera/0", 0) ∷ [];
  poisoned = false;
  heap = record { name = "/camera/0"; buffer = two_frames } ∷ [];
}

camera-Holds : Holds camera 0 two_frames_log
camera-Holds = record {
  topic = record { name = "/camera/0"; buffer = two_frames };
  there = refl;
  represents = two_frames-ByteRepresents;
}

two_frames_oldest : Log.oldest two_frames_log ≡ some (1 ∷ 2 ∷ 3 ∷ [], 1)
unfolding Log.oldest
two_frames_oldest = refl

byte_topic_try_receive_loses_example :
    (shelf' : ByteShelf) × (byte_topic_try_receive camera (some 0) true 2
      ≡ done ((wrong_size, none), shelf'))
    × Holds shelf' 0 (Log.receive two_frames_log).1
byte_topic_try_receive_loses_example =
    byte_topic_try_receive_loses camera-Holds (1 ∷ 2 ∷ 3 ∷ []) 1 2 two_frames_oldest (omega arith)

-- A topic of messages of three bytes.
abbrev sized_topic : TypedTopic
sized_topic = record { inner = 0; msg_size = 3 }

abbrev three_bytes : ByteShelf
three_bytes = record {
  byte_topics = ("/led", 0) ∷ [];
  poisoned = false;
  heap = record { name = "/led"; buffer = one_frame } ∷ [];
}

three_bytes-Holds : Holds three_bytes 0 one_frame_log
three_bytes-Holds = record {
  topic = record { name = "/led"; buffer = one_frame };
  there = refl;
  represents = one_frame-ByteRepresents;
}

abbrev led_handle : TypedHandle
led_handle = record { inner = 0; msg_size = 3 }

typed_topic_try_receive_lem_example :
    (shelf' : ByteShelf) × (typed_topic_try_receive three_bytes (some led_handle) true
      ≡ done (delivered (Log.oldest one_frame_log), shelf'))
    × Holds shelf' 0 (Log.receive one_frame_log).1
    × AllSized 3 (Log.receive one_frame_log).1.history
typed_topic_try_receive_lem_example =
    typed_topic_try_receive_lem led_handle three_bytes-Holds (refl, tt)
