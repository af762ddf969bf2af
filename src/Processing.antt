-- ===== src/Processing.antt =====
-- annotation_metadata/processing.py: the lease that protects a task while it is preprocessed. Each
-- function is one transaction on the task's row. `now` is the transaction's time, and the token that
-- `uuid4` makes is an argument of `acquire_processing_lease`.
pub mod Outcomes
pub mod Fencing
mod Examples
use egyptian_arabic_annotati.Base.{
  ℕ, suc, ◌+◌, Bool, true, false, not, ◌&&◌, ◌||◌, Option, none, some, ltb, leb, ◌==◌,
  if◌then◌else◌, Result, ok, err, ◌>>=◌, ◌>>◌, raise_if, or_raise,
}

pub data Fault : Type 0 where
  validation_error conflict_error value_error : Fault

-- A token as the callers pass it: the text of a UUID, a blank text, or any other text.
pub data RawToken : Type 0 where
  uuid : ℕ → RawToken
  blank malformed : RawToken

-- `uuid.UUID(str(token))`
unfoldable pub parse_token : RawToken → Result Fault ℕ
parse_token (uuid t) = ok t
parse_token blank = err value_error
parse_token malformed = err value_error

-- The columns of `annotation_tasks` that the module reads and writes.
pub record Task : Type 0 where
  pub processing_token : Option ℕ
  pub processing_lease_until : Option ℕ
  pub processing_version : ℕ
  pub updated_at : ℕ

abbrev pub Tasks : Type 0
Tasks = ℕ → Option Task

-- `UPDATE annotation_tasks SET … WHERE id = …`
unfoldable pub put : Tasks → ℕ → Task → Tasks
put tasks task_id row k = if k == task_id then some row else tasks k

-- `_lease_active`
unfoldable pub lease_active : Option ℕ → Option ℕ → ℕ → Bool
lease_active (some token) (some until) now = ltb now until
lease_active _ _ now = false

-- `processing_token = token AND processing_lease_until > now()`
unfoldable pub holds : Task → ℕ → ℕ → Bool
holds row token now = elim row.processing_token [
  | none ↦ false
  | some held ↦ held == token && lease_active (some held) row.processing_lease_until now
]

abbrev pub mismatch : Option ℕ → ℕ → Bool
mismatch none version = false
mismatch (some expected) version = if version == expected then false else true

pub record Lease : Type 0 where
  pub token : ℕ
  pub processing_version : ℕ

unfoldable pub acquire_processing_lease :
    (task_id ttl_seconds : ℕ) → Option ℕ → (fresh now : ℕ) → Tasks → Result Fault (Lease × Tasks)
unfolding lease_active put
acquire_processing_lease task_id ttl_seconds expected_version fresh now tasks = do
  row ← or_raise (tasks task_id) validation_error
  raise_if (mismatch expected_version row.processing_version) conflict_error
  raise_if (lease_active row.processing_token row.processing_lease_until now) conflict_error
  let new_version = row.processing_version + 1
  ok (
    record { token = fresh; processing_version = new_version },
    put tasks task_id (record {
      processing_token = some fresh;
      processing_lease_until = some (now + ttl_seconds);
      processing_version = new_version;
      updated_at = now;
    }),
  )

-- The update changes a row only where the token holds the lease; no row raises.
unfoldable pub renew_processing_lease :
    (task_id : ℕ) → RawToken → (ttl_seconds now : ℕ) → Tasks → Result Fault Tasks
unfolding parse_token holds put
renew_processing_lease task_id token ttl_seconds now tasks = do
  token_uuid ← parse_token token
  row ← or_raise (tasks task_id) conflict_error
  raise_if (not (holds row token_uuid now)) conflict_error
  ok (
      put tasks task_id
        (record row { processing_lease_until = some (now + ttl_seconds); updated_at = now }))

-- The test that `require_processing_token` and `complete_processing` share: a missing token passes
-- where no lease is active, and any other must hold the lease.
unfoldable pub check_token : Task → Option RawToken → ℕ → Result Fault (Option ℕ)
unfolding lease_active parse_token holds
check_token row none now = do
  raise_if (lease_active row.processing_token row.processing_lease_until now) conflict_error
  ok none
check_token row (some token) now = do
  token_uuid ← parse_token token
  raise_if (not (holds row token_uuid now)) conflict_error
  ok (some token_uuid)

unfoldable pub require_processing_token :
    (task_id : ℕ) → Option RawToken → (now : ℕ) → Tasks → Result Fault ℕ
unfolding check_token
require_processing_token task_id token now tasks = do
  row ← or_raise (tasks task_id) validation_error
  checked ← check_token row token now
  ok row.processing_version

unfoldable pub clear_lease : Task → ℕ → Task
clear_lease row now = record row {
  processing_token = none;
  processing_lease_until = none;
  updated_at = now;
}

-- The caller with no token leaves the row as it is.
unfoldable pub complete_processing :
    (task_id : ℕ) → Option RawToken → (now : ℕ) → Tasks → Result Fault Tasks
unfolding check_token clear_lease put
complete_processing task_id token now tasks = do
  row ← or_raise (tasks task_id) validation_error
  checked ← check_token row token now
  elim checked [ none ↦ ok tasks | some token_uuid ↦ ok (put tasks task_id (clear_lease row now)) ]

-- `except ConflictError: return False`
unfoldable pub released : Tasks → Result Fault Tasks → Result Fault (Bool × Tasks)
released before (ok after) = ok (true, after)
released before (err conflict_error) = ok (false, before)
released before (err fault) = err fault

unfoldable pub try_release_processing_lease :
    (task_id : ℕ) → Option RawToken → (now : ℕ) → Tasks → Result Fault (Bool × Tasks)
unfolding released complete_processing
try_release_processing_lease task_id none now tasks = ok (false, tasks)
try_release_processing_lease task_id (some blank) now tasks = ok (false, tasks)
try_release_processing_lease task_id (some token) now tasks =
    released tasks (complete_processing task_id (some token) now tasks)
