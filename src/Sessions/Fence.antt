-- ===== src/Sessions/Fence.antt =====
-- The fence of a session: the test before each write, the refresh after one, and the read-only
-- classification.
use egyptian_arabic_annotati.Base.{
  ℕ, ◌+◌, Bool, true, false, not, ◌&&◌, Option, none, some, ltb, leb, ◌==◌, min, if◌then◌else◌,
  Result, ok, ◌>>=◌, ◌>>◌, raise_if, or_raise,
}
use egyptian_arabic_annotati.Sessions.State.{
  Status, valid, not_authenticated, account_deactivated, logged_out, session_replaced,
  absolute_timeout, idle_timeout, Fault, deactivated, fence_error, Annotator, Session, Database,
  SessionFence, SessionPolicy, RawUuid, validate_uuid, find_user, find_id, set_session,
  set_activity,
}

-- The row that a fence names.
abbrev pub is_session : SessionFence → Session → Bool
is_session fence row = row.session_id == fence.session_id && row.generation == fence.generation

unfoldable pub require_session_fence : SessionFence → (now : ℕ) → Database → Result Fault (Unit {0})
require_session_fence fence now db = do
  row ← or_raise (db.sessions fence.user_id) (fence_error not_authenticated)
  raise_if (not (is_session fence row)) (fence_error session_replaced)
  raise_if (leb row.absolute_expires_at now) (fence_error absolute_timeout)
  raise_if (leb row.expires_at now) (fence_error idle_timeout)
  ok tt

-- The columns that `_touch_real_activity` sets.
unfoldable pub touched : SessionPolicy → (now : ℕ) → Session → Session
touched policy now row = record row {
  last_seen_at = now;
  last_activity_at = now;
  expires_at = min (now + policy.idle_seconds) row.absolute_expires_at;
}

unfoldable pub touch_real_activity :
    SessionFence → SessionPolicy → (assignment : Bool) → (now : ℕ) → Database → Database
unfolding touched set_session set_activity
touch_real_activity fence policy assignment now db =
    let refreshed : Database = elim (db.sessions fence.user_id) [
      | none ↦ db
      | some row ↦
          if is_session fence row
          then set_session fence.user_id (some (touched policy now row)) db
          else db
    ] in
    if assignment then set_activity fence.user_id now refreshed else refreshed

-- `_online_sql`
unfoldable pub online : (presence_lease_seconds now : ℕ) → Session → Bool
online presence_lease_seconds now row =
    ltb now row.expires_at
    && (ltb now row.absolute_expires_at && ltb now (row.last_seen_at + presence_lease_seconds))

unfoldable pub active_session_exists : (username presence_lease_seconds now : ℕ) → Database → Bool
unfolding find_user online
active_session_exists username presence_lease_seconds now db =
    elim (find_user username db.annotators) [
      | none ↦ false
      | some user ↦ elim (db.sessions user.id) [
        | none ↦ false
        | some row ↦ user.is_active && online presence_lease_seconds now row
      ]
    ]

-- `SessionState`; the times are those of the row, where there is one.
pub record SessionState : Type 0 where
  pub status : Status
  pub fence : Option SessionFence
  pub row : Option Session

abbrev pub no_session : Status → SessionState
no_session status = record { status = status; fence = none; row = none }

-- `generation is not None and int(row[1]) != int(generation)`
abbrev pub other_generation : Option ℕ → Session → Bool
other_generation none row = false
other_generation (some generation) row = not (row.generation == generation)

unfoldable pub inspect_row :
    Annotator → (session_id : ℕ) → Option ℕ → (now : ℕ) → Session → SessionState
inspect_row user session_id generation now row =
    let fence : SessionFence = record {
      user_id = user.id;
      username = user.username;
      session_id = row.session_id;
      generation = row.generation;
    } in
    if not (row.session_id == session_id)
    then record { status = session_replaced; fence = none; row = some row }
    else if other_generation generation row
    then record { status = session_replaced; fence = none; row = some row }
    else if leb row.absolute_expires_at now
    then record { status = absolute_timeout; fence = some fence; row = some row }
    else if leb row.expires_at now
    then record { status = idle_timeout; fence = some fence; row = some row }
    else record { status = valid; fence = some fence; row = some row }

-- `inspect_session`; `none` stands for a missing name or session id.
unfoldable pub inspect_session :
    (username session_id generation : Option ℕ) → (now : ℕ) → Database → SessionState
unfolding find_user inspect_row
inspect_session none session_id generation now db = no_session not_authenticated
inspect_session (some username) none generation now db = no_session not_authenticated
inspect_session (some username) (some session_id) generation now db =
    elim (find_user username db.annotators) [
      | none ↦ no_session not_authenticated
      | some user ↦ elim user.is_active [
        | false ↦ no_session account_deactivated
        | true ↦ elim (db.sessions user.id) [
          | none ↦ no_session logged_out
          | some row ↦ inspect_row user session_id generation now row
        ]
      ]
    ]

-- `validate_session`
unfoldable pub validate_session :
    (username session_id generation : Option ℕ)
    → (now : ℕ) → Database
    → Option (SessionFence × Session)
unfolding inspect_session
validate_session username session_id generation now db =
    let state = inspect_session username session_id generation now db in
    elim state.status [
      | valid ↦ elim state.fence [
        | none ↦ none
        | some fence ↦ elim state.row [ none ↦ none | some row ↦ some (fence, row) ]
      ]
      | _ ↦ none
    ]

unfoldable pub load_session_fence : RawUuid → (now : ℕ) → Database → Result Fault SessionFence
unfolding validate_uuid find_id
load_session_fence user_id now db = do
  uid ← validate_uuid user_id
  user ← or_raise (find_id uid db.annotators) (fence_error not_authenticated)
  row ← or_raise (db.sessions user.id) (fence_error not_authenticated)
  raise_if (not user.is_active) deactivated
  raise_if (leb row.absolute_expires_at now) (fence_error absolute_timeout)
  raise_if (leb row.expires_at now) (fence_error idle_timeout)
  ok (record {
    user_id = user.id;
    username = user.username;
    session_id = row.session_id;
    generation = row.generation;
  })
