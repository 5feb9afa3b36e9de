-- ===== src/Log.antt =====
-- What a ring buffer promises, with no slots: every message ever pushed, and how far the reader is.
-- The message of epoch `e` stands at index `e - 1` of `history`.
pub mod Calls
pub mod Fifo
pub mod Sized
use bibi_sync.Base.{
  ℕ, suc, ◌+◌, ◌-◌, ◌*◌, ◌/◌, min, Option, none, some, List, [], ◌∷◌, ◌++◌, leb, if◌then◌else◌,
  length, get_elem?,
}

pub record Log {ℓ} (T : Type ℓ) : Type ℓ where
  pub history : List T
  pub cursor : ℕ
  pub capacity : ℕ

module _ {ℓ} {T : Type ℓ} where
  unfoldable pub empty : ℕ → Log T
  empty capacity = record { history = []; cursor = 0; capacity = capacity }

  unfoldable pub publish : Log T → T → Log T
  publish log x = record log { history = log.history ++ x ∷ [] }

  -- The messages published and not yet passed by the reader.
  abbrev pub unread : Log T → ℕ
  unread log = length log.history - log.cursor

  -- Where a lagging reader lands: on from its cursor by whole rounds of the buffer, as far as the
  -- messages go.
  abbrev pub landing : Log T → ℕ
  landing log = log.cursor + log.capacity * ((unread log - 1) / log.capacity)

  unfoldable pub receive : Log T → Option T × Log T
  receive log =
      if leb (length log.history) log.cursor
      then (none, log)
      else (get_elem? log.history (landing log), record log { cursor = suc (landing log) })

  unfoldable pub size : Log T → ℕ
  size log = min (unread log) log.capacity

  -- The last message and its epoch.
  unfoldable pub latest : Log T → Option (T × ℕ)
  latest log = elim (get_elem? log.history (length log.history - 1)) [
    | none ↦ none
    | some x ↦ some (x, length log.history)
  ]

  -- The message that `receive` would return, and its epoch.
  unfoldable pub oldest : Log T → Option (T × ℕ)
  oldest log =
      if leb (length log.history) log.cursor
      then none
      else elim (get_elem? log.history (landing log)) [
        | none ↦ none
        | some x ↦ some (x, suc (landing log))
      ]
