-- ===== src/Latency/Sorted.antt =====
-- examples/latency_metrics.rs: the order statistics of `stats`.
use bibi_sync.Base.{
  ℕ, zero, suc, ◌*◌, ◌≤◌, ◌<◌, ◌≡◌, refl, sym, ap, ◌∙◌, some, List, [], ◌∷◌, leb, if◌then◌else◌,
  length, get_elem?, get_elem?-exists, get_elem?-lt, Bool-cases, inl, inr, subst, done, word_mod,
  sub_word, sub_word-eq, arith,
}
use mathlib.Core.Option.{some-injective}
use bibi_sync.Latency.{insert, sort, Summary, rank, stats}

abbrev pub AllIn : (least most : ℕ) → List ℕ → Type 0
AllIn least most [] = Unit
AllIn least most (x ∷ xs) = ((least ≤ x) × (x ≤ most)) × AllIn least most xs

abbrev Above : ℕ → List ℕ → Type 0
Above z [] = Unit
Above z (x ∷ xs) = (z ≤ x) × Above z xs

abbrev IsSorted : List ℕ → Type 0
IsSorted [] = Unit
IsSorted (x ∷ xs) = Above x xs × IsSorted xs

Above-le : (z y : ℕ) (xs : List ℕ) → z ≤ y → Above y xs → Above z xs
Above-le z y [] le all = tt
Above-le z y (x ∷ xs) le all = (omega (arith, le, all.0), Above-le z y xs le all.1)

Above-insert : (z x : ℕ) (xs : List ℕ) → z ≤ x → Above z xs → Above z (insert x xs)
Above-insert z x [] le all = (le, tt)
Above-insert z x (y ∷ ys) le all = elim (Bool-cases (leb x y)) [
  | inl e ↦ subst (λ b. Above z (if b then x ∷ y ∷ ys else y ∷ insert x ys)) (sym e) (le, all)
  | inr e ↦
      subst (λ b. Above z (if b then x ∷ y ∷ ys else y ∷ insert x ys)) (sym e)
        (all.0, Above-insert z x ys le all.1)
]

insert-IsSorted : (x : ℕ) (xs : List ℕ) → IsSorted xs → IsSorted (insert x xs)
insert-IsSorted x [] all = (tt, tt)
insert-IsSorted x (y ∷ ys) all = elim (Bool-cases (leb x y)) [
  | inl e ↦
      let le : x ≤ y = ground (arith, e) in
      subst (λ b. IsSorted (if b then x ∷ y ∷ ys else y ∷ insert x ys)) (sym e)
        ((le, Above-le x y ys le all.0), all)
  | inr e ↦
      let le : y ≤ x = ground (arith, e) in
      subst (λ b. IsSorted (if b then x ∷ y ∷ ys else y ∷ insert x ys)) (sym e)
        (Above-insert y x ys le all.0, insert-IsSorted x ys all.1)
]

sort-IsSorted : (xs : List ℕ) → IsSorted (sort xs)
sort-IsSorted [] = tt
sort-IsSorted (x ∷ xs) = insert-IsSorted x (sort xs) (sort-IsSorted xs)

Above-get_elem? : (z y j : ℕ) (xs : List ℕ) → Above z xs → get_elem? xs j ≡ some y → z ≤ y
Above-get_elem? z y j [] all e = cc
Above-get_elem? z y zero (x ∷ xs) all e = omega (arith, all.0, some-injective x y e)
Above-get_elem? z y (suc j) (x ∷ xs) all e = Above-get_elem? z y j xs all.1 e

-- Later elements are not smaller.
IsSorted-le :
    (xs : List ℕ) (i j x y : ℕ)
    → IsSorted xs
    → i ≤ j
    → get_elem? xs i ≡ some x
    → get_elem? xs j ≡ some y
    → x ≤ y
IsSorted-le [] i j x y all le e f = cc
IsSorted-le (z ∷ xs) zero zero x y all le e f =
    omega (arith, some-injective z x e, some-injective z y f)
IsSorted-le (z ∷ xs) zero (suc j) x y all le e f =
    omega (arith, some-injective z x e, Above-get_elem? z y j xs all.0 f)
IsSorted-le (z ∷ xs) (suc i) zero x y all le e f = absurd (omega (arith, le))
IsSorted-le (z ∷ xs) (suc i) (suc j) x y all le e f =
    IsSorted-le xs i j x y all.1 (omega (arith, le)) e f

-- What holds of the sorted elements holds of the elements.
AllIn-insert :
    (l m x : ℕ) (xs : List ℕ) → AllIn l m (insert x xs) → ((l ≤ x) × (x ≤ m)) × AllIn l m xs
AllIn-insert l m x [] all = all
AllIn-insert l m x (y ∷ ys) all = elim (Bool-cases (leb x y)) [
  | inl e ↦ subst (λ b. AllIn l m (if b then x ∷ y ∷ ys else y ∷ insert x ys)) e all
  | inr e ↦
      let (here, later) =
        subst (λ b. AllIn l m (if b then x ∷ y ∷ ys else y ∷ insert x ys)) e all in
      let (it, rest) = AllIn-insert l m x ys later in (it, (here, rest))
]

AllIn-sort : (l m : ℕ) (xs : List ℕ) → AllIn l m (sort xs) → AllIn l m xs
AllIn-sort l m [] all = tt
AllIn-sort l m (x ∷ xs) all =
    let (it, rest) = AllIn-insert l m x (sort xs) all in (it, AllIn-sort l m xs rest)

AllIn-elements :
    (l m : ℕ) (xs : List ℕ)
    → ((i x : ℕ) → get_elem? xs i ≡ some x → (l ≤ x) × (x ≤ m))
    → AllIn l m xs
AllIn-elements l m [] all = tt
AllIn-elements l m (x ∷ xs) all = (all 0 x refl, AllIn-elements l m xs (λ i. all (suc i)))

length-insert : (x : ℕ) (xs : List ℕ) → length (insert x xs) ≡ suc (length xs)
length-insert x [] = refl
length-insert x (y ∷ ys) = ground (arith, length-insert x ys)

length-sort : (xs : List ℕ) → length (sort xs) ≡ length xs
length-sort [] = refl
length-sort (x ∷ xs) = length-insert x (sort xs) ∙ ap suc (length-sort xs)

-- The statistics are in order, and all data lies between the smallest and the largest.
abbrev pub IsSummary : List ℕ → Summary → Type 0
IsSummary xs s =
    (s.smallest ≤ s.p50)
    × (s.p50 ≤ s.p95)
    × (s.p95 ≤ s.p99)
    × (s.p99 ≤ s.largest)
    × AllIn s.smallest s.largest xs

pub stats-IsSummary :
    (x : ℕ) (xs : List ℕ)
    → length (x ∷ xs) * 100 < word_mod
    → (s : Summary) × (stats (x ∷ xs) ≡ done (some s)) × IsSummary (x ∷ xs) s
unfolding stats
stats-IsSummary x xs fits =
    let sorted = sort (x ∷ xs) in
    let size : length sorted ≡ suc (length xs) = length-sort (x ∷ xs) in
    let order = sort-IsSorted (x ∷ xs) in
    let last : sub_word (length sorted) 1 ≡ length xs =
      sub_word-eq (length sorted) 1 (omega (arith, size, fits)) (omega (arith, size))
      ∙ omega (arith, size) in
    let (a, ea) = get_elem?-exists sorted (rank (length sorted) 50) (omega (arith, size, fits)) in
    let (b, eb) = get_elem?-exists sorted (rank (length sorted) 95) (omega (arith, size, fits)) in
    let (c, ec) = get_elem?-exists sorted (rank (length sorted) 99) (omega (arith, size, fits)) in
    let (l, el) = get_elem?-exists sorted 0 (omega (arith, size)) in
    let (m, em) =
      get_elem?-exists sorted (sub_word (length sorted) 1) (omega (arith, size, last)) in
    (
      record { p50 = a; p95 = b; p99 = c; smallest = l; largest = m },
      ground (arith, ea, eb, ec, el, em),
      (
        IsSorted-le sorted _ _ l a order (omega arith) el ea,
        IsSorted-le sorted _ _ a b order (omega (arith, size, fits)) ea eb,
        IsSorted-le sorted _ _ b c order (omega (arith, size, fits)) eb ec,
        IsSorted-le sorted _ _ c m order (omega (arith, size, fits, last)) ec em,
        AllIn-sort l m (x ∷ xs) (
            AllIn-elements l m sorted (λ i y e. (
              IsSorted-le sorted 0 i l y order (omega arith) el e,
              IsSorted-le sorted i _ y m order
                  (omega (arith, get_elem?-lt sorted i y e, size, last)) e em,
            ))),
      ),
    )
