-- ===== src/Tests/Bytes.antt =====
-- The byte ring buffer shared by two threads.
use bibi_sync.Base.{
  ℕ, zero, suc, ◌<◌, ◌≡◌, refl, sym, ◌∙◌, subst, done-injective, inr, some, none, Option, List, [],
  ◌∷◌, ◌++◌, map, take, length, replicate, arith, Exec, done, panicked, out_of_fuel, ◌⊎◌,
}
use bibi_sync.ByteRing.{Bytes}
use bibi_sync.Spsc
use bibi_sync.Spsc.{Choice, calls_push, pushes, calls_pop, pops}
use bibi_sync.Spsc.Invariant.{Allowed}
use bibi_sync.Spsc.Reach
use bibi_sync.ByteSpsc.{System, Cloned, clone, push_step, pop_step, advance, play, initial}
use bibi_sync.Spsc.Turns.{IsTurn, AllTurns}
use bibi_sync.ByteSpsc.View.{view, tagged}
use bibi_sync.ByteSpsc.Pop.{left}
use bibi_sync.ByteSpsc.Reach.{ByteReach, starts, later, received_whole, advance-refines}

-- A buffer of `capacity` slots after a schedule.
abbrev after : (capacity : ℕ) → List (Choice Bytes) → System
after capacity schedule = or_initial (play (initial capacity) schedule)
  where
    or_initial : Exec System → System
    or_initial (done b) = b
    or_initial panicked = initial capacity
    or_initial out_of_fuel = initial capacity

abbrev outcome : Exec System → Option (List (Cloned × ℕ) × List Bytes)
outcome (done b) = some (b.received, b.history)
outcome panicked = none
outcome out_of_fuel = none

abbrev two_bytes : Bytes
two_bytes = 1 ∷ 2 ∷ []

abbrev one_byte : Bytes
one_byte = 9 ∷ []

-- The producer starts over the slot that the consumer is about to clone.
abbrev lapped : List (Choice Bytes)
lapped =
    (calls_push two_bytes ∷ replicate 7 pushes)
    ++ (calls_pop ∷ replicate 6 pops)
    ++ (calls_push one_byte ∷ replicate 4 pushes)
    ++ replicate 4 pops

lapped_is_torn : outcome (play (initial 1) lapped) ≡ some ((none, 1) ∷ [], two_bytes ∷ [])
unfolding initial play advance push_step pop_step clone
lapped_is_torn = refl

-- Two calls of `pop` between the store of the slot's epoch and that of the head: of the next two
-- messages one is lost, with at most two of the four slots unread.
abbrev early_pops : List (Choice Bytes)
early_pops =
    (calls_push (5 ∷ []) ∷ replicate 6 pushes)
    ++ (calls_pop ∷ replicate 10 pops)
    ++ (calls_pop ∷ replicate 6 pops)
    ++ (pushes ∷ calls_push (6 ∷ []) ∷ replicate 7 pushes)
    ++ (calls_push (7 ∷ []) ∷ replicate 7 pushes)
    ++ replicate 10 pops
    ++ (calls_pop ∷ replicate 10 pops)

early_pops_lose :
    outcome (play (initial 4) early_pops)
    ≡ some ((some (5 ∷ []), 1) ∷ (some (7 ∷ []), 3) ∷ [], (5 ∷ []) ∷ (6 ∷ []) ∷ (7 ∷ []) ∷ [])
unfolding initial play advance push_step pop_step clone
early_pops_lose = refl

-- The state after steps that start no call.
after_turns :
    (b t : System) (cs : List (Choice Bytes))
    → ByteReach 2 b
    → AllTurns cs
    → play b cs ≡ done t
    → ByteReach 2 t
unfolding play
after_turns b t [] reach turns e = subst (ByteReach 2) (done-injective b t e) reach
after_turns b t (pushes ∷ cs) reach (_, turns) e =
    let (u, step, _, _) = advance-refines 2 (omega arith) (omega arith) b pushes reach tt in
    after_turns u t cs (later pushes reach tt step) turns (sym (ground (arith, step)) ∙ e)
after_turns b t (pops ∷ cs) reach (_, turns) e =
    let (u, step, _, _) = advance-refines 2 (omega arith) (omega arith) b pops reach tt in
    after_turns u t cs (later pops reach tt step) turns (sym (ground (arith, step)) ∙ e)
after_turns b t (calls_push x ∷ cs) reach (never, turns) e = absurd never
after_turns b t (calls_pop ∷ cs) reach (never, turns) e = absurd never

-- One payload is received, the next is cloned.
abbrev schedule : List (Choice Bytes)
schedule =
    (calls_push two_bytes ∷ replicate 7 pushes)
    ++ (calls_pop ∷ replicate 10 pops)
    ++ (calls_push one_byte ∷ replicate 7 pushes)
    ++ (calls_pop ∷ replicate 7 pops)

abbrev first_part : System
first_part = after 2 (calls_push two_bytes ∷ replicate 7 pushes)

abbrev second_part : System
second_part = after 2 ((calls_push two_bytes ∷ replicate 7 pushes) ++ calls_pop ∷ replicate 10 pops)

abbrev third_part : System
third_part = after 2 (
    (calls_push two_bytes ∷ replicate 7 pushes)
    ++ (calls_pop ∷ replicate 10 pops)
    ++ calls_push one_byte ∷ replicate 7 pushes)

abbrev all_parts : System
all_parts = after 2 schedule

some_turns : (n : ℕ) (c : Choice Bytes) → IsTurn c → AllTurns (replicate n c)
some_turns zero c turn = tt
some_turns (suc n) c turn = (turn, some_turns n c turn)

first_part-ByteReach : ByteReach 2 first_part
unfolding initial play advance push_step pop_step clone
first_part-ByteReach =
    after_turns _ first_part (replicate 7 pushes)
      (later (calls_push two_bytes) starts (inr (omega arith, omega arith)) refl)
      (some_turns 7 pushes tt) refl

all_parts-ByteReach : ByteReach 2 all_parts
unfolding initial play advance push_step pop_step clone
all_parts-ByteReach =
    let second =
      after_turns _ second_part (replicate 10 pops)
        (later calls_pop first_part-ByteReach (λ never. never) refl) (some_turns 10 pops tt) refl in
    let third =
      after_turns _ third_part (replicate 7 pushes)
        (later (calls_push one_byte) second (inr (omega arith, omega arith)) refl)
        (some_turns 7 pushes tt) refl in
    after_turns _ all_parts (replicate 7 pops) (later calls_pop third (λ never. never) refl)
      (some_turns 7 pops tt) refl

all_parts-one :
    outcome (done all_parts) ≡ some ((some two_bytes, 1) ∷ [], two_bytes ∷ one_byte ∷ [])
unfolding initial play advance push_step pop_step clone
all_parts-one = refl

received_whole_example :
    all_parts.received ≡ tagged 0 (map some (take (length all_parts.received) all_parts.history))
received_whole_example = received_whole 2 (omega arith) (omega arith) all_parts all_parts-ByteReach

advance-refines_example :
    (t : System) × (advance all_parts pops ≡ done t)
    × Reach.Reach [] 2 (view t)
    × ((view t ≡ view all_parts)
        ⊎ (Allowed (view all_parts) pops × (Spsc.advance (view all_parts) pops ≡ done (view t))))
advance-refines_example =
    advance-refines 2 (omega arith) (omega arith) all_parts pops all_parts-ByteReach tt

all_parts-running : 0 < left all_parts.consumer
unfolding initial play advance push_step pop_step clone
all_parts-running = omega arith
