-- ===== src/Tests/Threads.antt =====
-- The typed ring buffer shared by two threads.
use bibi_sync.Base.{
  ℕ, zero, suc, ◌+◌, ◌≤◌, ◌<◌, ◌≡◌, refl, sym, subst, done-injective, some, none, List, [], ◌∷◌,
  ◌++◌, map, take, length, replicate, arith, Option, Exec, done, panicked, out_of_fuel,
}
use bibi_sync.Spsc.{
  System, Choice, calls_push, pushes, calls_pop, pops, push_step, pop_step, popped, pushed, advance,
  play,
}
use bibi_sync.Spsc.Invariant.{initial}
use bibi_sync.Spsc.Pop.{left}
use bibi_sync.Spsc.Reach.{Reach, starts, later, received_in_order, pop-caught_up}
use bibi_sync.Spsc.Anytime.Reach as Any
use bibi_sync.Spsc.Anytime.Reach.{AnyReach, received_among}
use bibi_sync.Spsc.Anytime.Few.{push_calls, few_calls_from, play-Sublist}
use mathlib.Core.List.{Sublist}
use bibi_sync.Spsc.Turns.{IsTurn, AllTurns, play-Reach, calls_return}

-- A buffer of `capacity` slots after a schedule.
abbrev after : (capacity : ℕ) → List (Choice ℕ) → System ℕ
after capacity schedule = or_initial (play (initial 0 capacity) schedule)
  where
    or_initial : Exec (System ℕ) → System ℕ
    or_initial (done s) = s
    or_initial panicked = initial 0 capacity
    or_initial out_of_fuel = initial 0 capacity

abbrev outcome : Exec (System ℕ) → Option (List (Option ℕ) × List ℕ)
outcome (done s) = some (s.received, s.history)
outcome panicked = none
outcome out_of_fuel = none

abbrev a_push : List (Choice ℕ)
a_push = replicate 7 pushes

abbrev a_pop : List (Choice ℕ)
a_pop = replicate 8 pops

some_turns : (n : ℕ) (c : Choice ℕ) → IsTurn c → AllTurns (replicate n c)
some_turns zero c turn = tt
some_turns (suc n) c turn = (turn, some_turns n c turn)

append_turns : (cs ds : List (Choice ℕ)) → AllTurns cs → AllTurns ds → AllTurns (cs ++ ds)
append_turns [] ds all rest = rest
append_turns (c ∷ cs) ds (turn, all) rest = (turn, append_turns cs ds all rest)

-- The producer is in its second call, the consumer in its first.
abbrev both_running : System ℕ
both_running = after 2 ((calls_push 7 ∷ a_push) ++ calls_pop ∷ pops ∷ pops ∷ calls_push 8 ∷ [])

both_running-Reach : Reach 0 2 both_running
unfolding initial play advance push_step pop_step
both_running-Reach =
    later (calls_push 8)
      (play-Reach 0 2 (omega arith) (omega arith) _ _ (replicate 2 pops)
        (later calls_pop
          (play-Reach 0 2 (omega arith) (omega arith) _ _ a_push
            (later (calls_push 7) starts (omega arith, omega arith) refl) (some_turns 7 pushes tt)
            refl)
          (λ never. never) refl)
        (some_turns 2 pops tt) refl)
      (omega arith, omega arith) refl

-- The same calls, some steps on.
abbrev further : List (Choice ℕ)
further = replicate 5 pops ++ replicate 6 pushes ++ replicate 3 pops ++ pushes ∷ []

further_turns : AllTurns further
further_turns =
    append_turns (replicate 5 pops) (replicate 6 pushes ++ replicate 3 pops ++ pushes ∷ [])
      (some_turns 5 pops tt)
      (append_turns (replicate 6 pushes) (replicate 3 pops ++ pushes ∷ []) (some_turns 6 pushes tt)
        (append_turns (replicate 3 pops) (pushes ∷ []) (some_turns 3 pops tt) (tt, tt)))

calls_return_example :
    (t : System ℕ) × (play both_running further ≡ done t)
    × (e : ℕ) × (t.producer ≡ pushed e)
    × (x : Option (Option ℕ)) × (t.consumer ≡ popped x)
calls_return_example =
    calls_return 0 2 (omega arith) (omega arith) both_running further both_running-Reach
      further_turns (omega arith) (omega arith)

-- The third call of `pop` is about to return `None`.
abbrev almost_none : System ℕ
almost_none = after 2 (
    (calls_push 7 ∷ a_push)
    ++ (calls_pop ∷ pops ∷ pops ∷ calls_push 8 ∷ [])
    ++ further
    ++ (calls_pop ∷ a_pop)
    ++ calls_pop ∷ replicate 4 pops)

almost_none-Reach : Reach 0 2 almost_none
unfolding initial play advance push_step pop_step
almost_none-Reach =
    play-Reach 0 2 (omega arith) (omega arith) _ _ (replicate 4 pops)
      (later calls_pop
        (play-Reach 0 2 (omega arith) (omega arith) _ _ a_pop
          (later calls_pop
            (play-Reach 0 2 (omega arith) (omega arith) both_running _ further both_running-Reach
              further_turns refl)
            (λ never. never) refl)
          (some_turns 8 pops tt) refl)
        (λ never. never) refl)
      (some_turns 4 pops tt) refl

almost_none-two : outcome (done almost_none) ≡ some (some 7 ∷ some 8 ∷ [], 7 ∷ 8 ∷ [])
unfolding initial play advance push_step pop_step
almost_none-two = refl

received_in_order_example :
    almost_none.received ≡ map some (take (length almost_none.received) almost_none.history)
received_in_order_example =
    received_in_order 0 2 (omega arith) (omega arith) almost_none almost_none-Reach

almost_none-running : 0 < left almost_none.consumer
unfolding initial play advance push_step pop_step
almost_none-running = omega arith

almost_none-step :
    pop_step almost_none.shared almost_none.consumer ≡ done (almost_none.shared, popped none)
unfolding initial play advance push_step pop_step
almost_none-step = refl

pop-caught_up_example : almost_none.received ≡ map some almost_none.history
pop-caught_up_example =
    pop-caught_up 0 2 (omega arith) (omega arith) almost_none almost_none.shared almost_none-Reach
      almost_none-running almost_none-step

-- Two calls of `pop` between the store of the slot's epoch and that of the head: of the next two
-- messages one is lost, with at most two of the four slots unread.
abbrev early_pops : List (Choice ℕ)
early_pops =
    (calls_push 5 ∷ replicate 6 pushes)
    ++ (calls_pop ∷ a_pop)
    ++ (calls_pop ∷ replicate 6 pops)
    ++ (pushes ∷ calls_push 6 ∷ a_push)
    ++ (calls_push 7 ∷ a_push)
    ++ replicate 8 pops
    ++ (calls_pop ∷ a_pop)

early_pops_lose :
    outcome (play (initial 0 4) early_pops) ≡ some (some 5 ∷ some 7 ∷ [], 5 ∷ 6 ∷ 7 ∷ [])
unfolding initial play advance push_step pop_step
early_pops_lose = refl

early_pops_few : 0 + 0 + push_calls early_pops ≤ 4
early_pops_few = omega arith

play-Sublist_example :
    (t : System ℕ) × (play (initial 0 4) early_pops ≡ done t)
    × Sublist t.received (map some t.history)
    × (length t.history ≤ 4)
play-Sublist_example = play-Sublist 0 4 (omega arith) (omega arith) early_pops (omega arith)

early_pops-AnyReach : AnyReach 0 4 (after 4 early_pops)
unfolding initial play advance push_step pop_step
early_pops-AnyReach =
    let (t, e, reach, _) =
      few_calls_from 0 4 (omega arith) (omega arith) (initial 0 4) early_pops Any.starts
        early_pops_few in
    subst (AnyReach 0 4) (done-injective t (after 4 early_pops) (sym e)) reach

received_among_example :
    Sublist (after 4 early_pops).received (map some (after 4 early_pops).history)
received_among_example =
    received_among 0 4 (omega arith) (omega arith) (after 4 early_pops) early_pops-AnyReach

-- The producer starts over the slot that the consumer is about to clone.
abbrev lapped : List (Choice ℕ)
lapped =
    (calls_push 7 ∷ a_push)
    ++ (calls_pop ∷ replicate 5 pops)
    ++ (calls_push 8 ∷ replicate 4 pushes)
    ++ replicate 3 pops

lapped_is_torn : outcome (play (initial 0 1) lapped) ≡ some (none ∷ [], 7 ∷ [])
unfolding initial play advance push_step pop_step
lapped_is_torn = refl
