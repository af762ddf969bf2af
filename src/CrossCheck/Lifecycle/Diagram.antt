-- ===== src/CrossCheck/Lifecycle/Diagram.antt =====
-- The tables follow the diagram of the states.
use egyptian_arabic_annotati.Base.{ℕ, suc, ◌+◌, ◌≤◌, ◌≡◌, refl, true, Option, some, arith}
use egyptian_arabic_annotati.Drafts.State.{
  Round, RoundState, in_progress, awaiting_review, passed, adjudicated, cancelled, invalidated,
  is_open,
}
use egyptian_arabic_annotati.CrossCheck.Admin.{World}
use egyptian_arabic_annotati.CrossCheck.Lifecycle.{◌⟶◌, pass, queue, cancel, adjudicate, invalidate}
use egyptian_arabic_annotati.CrossCheck.Lifecycle.Reach.{Reach, start, further}
use egyptian_arabic_annotati.CrossCheck.Lifecycle.Closed.{Later, unchanged, changed, Step-Later}

-- A path of the diagram, with the number of its moves.
pub data Trail : ℕ → RoundState → RoundState → Type 0 where
  stay : {a : RoundState} → Trail 0 a a
  move : {n : ℕ} {a b c : RoundState} → Trail n a b → b ⟶ c → Trail (suc n) a c

-- The moves that a state has left at most.
rank : RoundState → ℕ
rank in_progress = 2
rank awaiting_review = 1
rank _ = 0

rank_open : (state : RoundState) → is_open state ≡ true → 1 ≤ rank state
unfolding rank
rank_open in_progress e = omega arith
rank_open awaiting_review e = omega arith
rank_open passed e = absurd (cc e)
rank_open adjudicated e = absurd (cc e)
rank_open cancelled e = absurd (cc e)
rank_open invalidated e = absurd (cc e)

rank_falls : {a b : RoundState} → a ⟶ b → suc (rank b) ≤ rank a
unfolding rank
rank_falls pass = omega arith
rank_falls queue = omega arith
rank_falls cancel = omega arith
rank_falls adjudicate = omega arith
rank_falls (invalidate {state} e) = rank_open state e

Trail-rank : {n : ℕ} {a b : RoundState} → Trail n a b → n + rank b ≤ rank a
Trail-rank stay = omega arith
Trail-rank (move path step) = omega (arith, Trail-rank path, rank_falls step)

rank_bound : (a : RoundState) → rank a ≤ 2
unfolding rank
rank_bound in_progress = omega arith
rank_bound awaiting_review = omega arith
rank_bound passed = omega arith
rank_bound adjudicated = omega arith
rank_bound cancelled = omega arith
rank_bound invalidated = omega arith

-- What a round did between two states of the tables.
abbrev pub Moved : Round → Option Round → Type 0
Moved before row =
    (after : Round) × (n : ℕ) × (row ≡ some after)
    × Trail n before.state after.state
    × (after.revision ≡ before.revision + n)

Moved-Later :
    (before middle : Round) (n : ℕ) {row : Option Round}
    → Trail n before.state middle.state
    → middle.revision ≡ before.revision + n
    → Later middle row
    → Moved before row
Moved-Later before middle n path counted unchanged = (middle, n, refl, path, counted)
Moved-Later before middle n path counted (changed {after} step) =
    (after, suc n, refl, move path step.moved, omega (arith, counted, step.counted))

Reach-Moved :
    {w v : World} (k : ℕ) {before : Round}
    → Reach w v
    → w.store.rounds k ≡ some before
    → Moved before (v.store.rounds k)
Reach-Moved k {before} start there = (before, 0, there, stay, omega arith)
Reach-Moved k {before} (further path step) there =
    let (middle, n, between, moves, counted) = Reach-Moved k path there in
    Moved-Later before middle n moves counted (Step-Later k step between)

-- The transactions implement the diagram of the states of a round: whatever is committed, in any order,
-- takes a round along a path of the diagram, whose moves its revision counts, and of which there are
-- two at most.
pub Reach-Trail :
    {w v : World} (k : ℕ) {before : Round}
    → Reach w v
    → w.store.rounds k ≡ some before
    → (after : Round) × (n : ℕ) × (v.store.rounds k ≡ some after)
      × Trail n before.state after.state
      × (after.revision ≡ before.revision + n)
      × (n ≤ 2)
Reach-Trail k {before} path there =
    let (after, n, row, moves, counted) = Reach-Moved k path there in
    (after, n, row, moves, counted, omega (arith, Trail-rank moves, rank_bound before.state))
