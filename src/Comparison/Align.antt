-- ===== src/Comparison/Align.antt =====
-- `_word_alignment`: the edit distance table, filled row by row in one flat array, and the walk
-- back through it. The list of operations is kept newest first, so the source's `reversed` is what
-- the walk returns.
pub mod Spec
pub mod Table
pub mod Walk
pub mod Optimal
mod Examples
use egyptian_arabic_annotati.Base.{
  ℕ, zero, suc, ◌+◌, ◌-◌, ◌*◌, Bool, true, false, List, [], ◌∷◌, Option, none, some, length,
  get_elem?, set, replicate, count, ltb, ◌==◌, if◌then◌else◌, text_eq, Result, ok, err, ◌>>=◌,
  or_raise, for_range,
}
use egyptian_arabic_annotati.Comparison.Types.{
  Fault, index_error, reconstruction_failed, out_of_fuel, Token, OpName, match, replace, delete,
  insert, EditOp, edit_op,
}

-- `dp[k]` and `dp[k] = v`
pub read {ℓ} : {A : Type ℓ} → List A → ℕ → Result Fault A
read xs k = or_raise (get_elem? xs k) index_error

pub write : List ℕ → ℕ → ℕ → Result Fault (List ℕ)
write dp k v = if ltb k (length dp) then ok (set dp k v) else err index_error

-- A step of the walk: the operation, and the indices after it.
abbrev pub Move : Type 0
Move = EditOp × ℕ × ℕ

-- `continue` with a move that was found, or go on to the next test.
abbrev pub or_else : Option Move → Result Fault (Option Move) → Result Fault (Option Move)
or_else (some m) next = ok (some m)
or_else none next = next

-- `xs[i - 1] if i > 0 else None`
pub token_before : List Token → ℕ → Result Fault (Option Token)
token_before xs i = if ltb 0 i then (do t ← read xs (i - 1); ok (some t)) else ok none

module _ (original secondary : List Token) where
  abbrev pub cols : ℕ
  cols = length secondary + 1

  abbrev pub init : List ℕ
  init = replicate ((length original + 1) * cols) 0

  -- The two loops over the first column and the first row.
  pub borders : Result Fault (List ℕ)
  borders = do
    dp ← for_range (length original) 1 (λ i dp. write dp (i * cols) i) init
    for_range (length secondary) 1 (λ j dp. write dp j j) dp

  -- The body of the inner loop.
  pub fill_cell : ℕ → ℕ → List ℕ → Result Fault (List ℕ)
  fill_cell i j dp = do
    let row = i * cols
    let prev = (i - 1) * cols
    original_token ← read original (i - 1)
    diagonal ← read dp (prev + j - 1)
    secondary_token ← read secondary (j - 1)
    let cost = if text_eq original_token.word secondary_token.word then diagonal else diagonal + 1
    above ← read dp (prev + j)
    let delete_cost = above + 1
    before ← read dp (row + j - 1)
    let insert_cost = before + 1
    let cost' = if ltb delete_cost cost then delete_cost else cost
    let cost'' = if ltb insert_cost cost' then insert_cost else cost'
    write dp (row + j) cost''

  pub fill_row : ℕ → List ℕ → Result Fault (List ℕ)
  fill_row i dp = for_range (length secondary) 1 (fill_cell i) dp

  pub table : Result Fault (List ℕ)
  table = do dp ← borders; for_range (length original) 1 fill_row dp

  module _ (dp : List ℕ) where
    -- The first two tests: `match`, which needs equal words, and `replace`, which needs others.
    pub try_diagonal : ℕ → ℕ → ℕ → Option Token → Option Token → Result Fault (Option Move)
    try_diagonal i j current (some o) (some s) = do
      diagonal ← read dp ((i - 1) * cols + (j - 1))
      let found = if text_eq o.word s.word then match else replace
      let price : ℕ = if text_eq o.word s.word then 0 else 1
      ok (
          if current == diagonal + price
          then some (edit_op found (some o) (some s), i - 1, j - 1)
          else none)
    try_diagonal i j current _ _ = ok none

    pub try_delete : ℕ → ℕ → ℕ → Option Token → Result Fault (Option Move)
    try_delete i j current (some o) = do
      above ← read dp ((i - 1) * cols + j)
      ok (if current == above + 1 then some (edit_op delete (some o) none, i - 1, j) else none)
    try_delete i j current none = ok none

    pub try_insert : ℕ → ℕ → ℕ → Option Token → Result Fault (Option Move)
    try_insert i j current (some s) = do
      before ← read dp (i * cols + (j - 1))
      ok (if current == before + 1 then some (edit_op insert none (some s), i, j - 1) else none)
    try_insert i j current none = ok none

    pub walk_step : ℕ → ℕ → Result Fault Move
    walk_step i j = do
      current ← read dp (i * cols + j)
      o ← token_before original i
      s ← token_before secondary j
      diagonal ← try_diagonal i j current o s
      deletion ← or_else diagonal (try_delete i j current o)
      insertion ← or_else deletion (try_insert i j current s)
      or_raise insertion reconstruction_failed

    -- `while i > 0 or j > 0`
    pub walk : ℕ → ℕ → ℕ → List EditOp → Result Fault (List EditOp)
    walk zero i j ops = err out_of_fuel
    walk (suc fuel) i j ops = elim (i + j == 0) [
      | true ↦ ok ops
      | false ↦ do (op, i', j') ← walk_step i j; walk fuel i' j' (op ∷ ops)
    ]

pub is_op : OpName → EditOp → Bool
is_op match e = elim e.op [ match ↦ true | _ ↦ false ]
is_op replace e = elim e.op [ replace ↦ true | _ ↦ false ]
is_op delete e = elim e.op [ delete ↦ true | _ ↦ false ]
is_op insert e = elim e.op [ insert ↦ true | _ ↦ false ]

pub record Alignment : Type 0 where
  pub edit_distance : ℕ
  pub ops : List EditOp
  pub substitutions : ℕ
  pub insertions : ℕ
  pub deletions : ℕ

-- Each round of the walk lowers `i + j`, so this fuel is enough.
pub word_alignment : List Token → List Token → Result Fault Alignment
word_alignment original secondary = do
  let n = length original
  let m = length secondary
  dp ← table original secondary
  ops ← walk original secondary dp (suc (n + m)) n m []
  distance ← read dp (n * cols original secondary + m)
  ok (record {
    edit_distance = distance;
    ops = ops;
    substitutions = count (is_op replace) ops;
    insertions = count (is_op insert) ops;
    deletions = count (is_op delete) ops;
  })
