-- ===== src/Sessions/State.antt =====
-- The tables that the session functions read and write, and the helpers on them. Ids, names and
-- times are numbers, and `now` is the time of the transaction. `ensure_default_scope` writes a table
-- that no session function reads and is left out, as is the failure of the UNIQUE constraint on
-- session ids, which are new UUIDs.
use egyptian_arabic_annotati.Base.{
  ℕ, ◌+◌, Bool, true, not, Option, none, some, List, [], ◌∷◌, ◌==◌, min, if◌then◌else◌, Result, ok,
  err, ◌>>=◌, ◌>>◌, raise_if, or_raise,
}

pub data Status : Type 0 where
  valid not_authenticated account_deactivated logged_out session_replaced absolute_timeout
        idle_timeout :
      Status

-- `ActiveSessionConflict`
pub record ActiveSession : Type 0 where
  pub username : ℕ
  pub observed_generation : ℕ
  pub last_seen_at : ℕ
  pub login_time : ℕ
  pub session_fingerprint : ℕ

pub data Fault : Type 0 where
  not_found deactivated session_changed invalid_uuid : Fault
  fence_error : Status → Fault
  active_session_conflict : ActiveSession → Fault

pub record Annotator : Type 0 where
  pub id : ℕ
  pub username : ℕ
  pub is_active : Bool

-- A row of `active_sessions`; its key is the user.
pub record Session : Type 0 where
  pub session_id : ℕ
  pub generation : ℕ
  pub login_time : ℕ
  pub last_seen_at : ℕ
  pub last_activity_at : ℕ
  pub expires_at : ℕ
  pub absolute_expires_at : ℕ

pub data EventType : Type 0 where
  login_event resume_event stale_takeover_event forced_takeover_event logout_event : EventType

pub record Event : Type 0 where
  pub user_id : ℕ
  pub event_type : EventType
  pub generation : ℕ
  pub previous_generation : Option ℕ

-- `activity` is the column `last_activity_at` of the user's row of `assignments`, if there is one.
-- The newest event comes first.
pub record Database : Type 0 where
  pub annotators : List Annotator
  pub sessions : ℕ → Option Session
  pub activity : ℕ → Option ℕ
  pub events : List Event

pub record SessionFence : Type 0 where
  pub user_id : ℕ
  pub username : ℕ
  pub session_id : ℕ
  pub generation : ℕ

pub record SessionPolicy : Type 0 where
  pub idle_seconds : ℕ
  pub absolute_seconds : ℕ
  pub presence_lease_seconds : ℕ
  pub activity_throttle_seconds : ℕ

-- A session id as a caller passes it.
pub data RawUuid : Type 0 where
  uuid : ℕ → RawUuid
  malformed : RawUuid

unfoldable pub validate_uuid : RawUuid → Result Fault ℕ
validate_uuid (uuid n) = ok n
validate_uuid malformed = err invalid_uuid

-- `db_tx`: an exception rolls the database back.
unfoldable pub commit :
    {A : Type 0} → Database → Result Fault (A × Database) → Result Fault A × Database
commit before (ok (value, after)) = (ok value, after)
commit before (err fault) = (err fault, before)

unfoldable pub find_user : ℕ → List Annotator → Option Annotator
find_user username [] = none
find_user username (user ∷ users) =
    if user.username == username then some user else find_user username users

unfoldable pub find_id : ℕ → List Annotator → Option Annotator
find_id id [] = none
find_id id (user ∷ users) = if user.id == id then some user else find_id id users

unfoldable pub set_session : ℕ → Option Session → Database → Database
set_session user_id session db = record db {
  sessions = λ k. if k == user_id then session else db.sessions k;
}

-- `UPDATE assignments SET last_activity_at = …  WHERE user_id = …`
unfoldable pub set_activity : ℕ → ℕ → Database → Database
set_activity user_id now db = elim (db.activity user_id) [
  | none ↦ db
  | some last ↦ record db { activity = λ k. if k == user_id then some now else db.activity k }
]

-- `_record_session_event`; the type of the event is one of the table's.
unfoldable pub record_session_event : Event → Database → Database
record_session_event event db = record db { events = event ∷ db.events }

-- `fresh` is the id that `uuid4` makes, which is used where the name is new.
unfoldable pub ensure_user : (username fresh : ℕ) → Database → Annotator × Database
unfolding find_user
ensure_user username fresh db = elim (find_user username db.annotators) [
  | some user ↦ (user, db)
  | none ↦
      let user : Annotator = record { id = fresh; username = username; is_active = true } in
      (user, record db { annotators = user ∷ db.annotators })
]

unfoldable pub lock_active_annotator : ℕ → Database → Result Fault Annotator
unfolding find_id
lock_active_annotator user_id db = do
  user ← or_raise (find_id user_id db.annotators) not_found
  raise_if (not user.is_active) deactivated
  ok user

abbrev pub or_zero : Option ℕ → ℕ
or_zero none = 0
or_zero (some n) = n

-- `_replace_active_session`
unfoldable pub replaced_session : (session_id : ℕ) → SessionPolicy → Option ℕ → (now : ℕ) → Session
replaced_session session_id policy previous_generation now = record {
  session_id = session_id;
  generation = or_zero previous_generation + 1;
  login_time = now;
  last_seen_at = now;
  last_activity_at = now;
  expires_at = min (now + policy.idle_seconds) (now + policy.absolute_seconds);
  absolute_expires_at = now + policy.absolute_seconds;
}

unfoldable pub replace_active_session :
    (user_id session_id : ℕ) → SessionPolicy → Option ℕ → (now : ℕ) → Database → Session × Database
unfolding replaced_session set_session
replace_active_session user_id session_id policy previous_generation now db =
    let session = replaced_session session_id policy previous_generation now in
    (session, set_session user_id (some session) db)
