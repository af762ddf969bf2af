-- ===== src/Sessions/Heartbeat.antt =====
-- The heartbeat of a session. It reads the session, updates it in a second transaction and, where
-- the update found no row, reads it again, so each of the three has a database and a time.
use egyptian_arabic_annotati.Base.{
  ℕ, ◌+◌, Bool, true, false, ◌&&◌, Option, none, some, ltb, ◌==◌, min, if◌then◌else◌, Result, ok,
  err,
}
use egyptian_arabic_annotati.Sessions.State.{
  Status, valid, not_authenticated, account_deactivated, logged_out, Fault, deactivated,
  fence_error, Session, Database, SessionFence, SessionPolicy, set_session,
}
use egyptian_arabic_annotati.Sessions.Fence.{is_session, inspect_session}

pub record Snapshot : Type 0 where
  pub db : Database
  pub now : ℕ

pub record Heartbeat : Type 0 where
  pub server_time : ℕ
  pub idle_expires_at : ℕ
  pub absolute_expires_at : ℕ

-- The error for a session that is not valid.
unfoldable pub refusal : Status → Fault
refusal account_deactivated = deactivated
refusal logged_out = fence_error not_authenticated
refusal status = fence_error status

-- The error after an update that found no row.
unfoldable pub second_refusal : Status → Fault
unfolding refusal
second_refusal valid = fence_error not_authenticated
second_refusal status = refusal status

-- `last_activity_at < now() - throttle`
abbrev pub long_idle : SessionPolicy → (now last_activity_at : ℕ) → Bool
long_idle policy now last_activity_at =
    ltb (last_activity_at + policy.activity_throttle_seconds) now

-- The columns that the update sets.
unfoldable pub beaten : (activity : Bool) → SessionPolicy → (now : ℕ) → Session → Session
beaten false policy now row = record row { last_seen_at = now }
beaten true policy now row =
    let extend = long_idle policy now row.last_activity_at in
    record row {
      last_seen_at = now;
      last_activity_at = if extend then now else row.last_activity_at;
      expires_at =
          if extend
          then min (now + policy.idle_seconds) row.absolute_expires_at
          else row.expires_at;
    }

unfoldable pub touch_assignment : SessionPolicy → (user_id now : ℕ) → Database → Database
touch_assignment policy user_id now db = elim (db.activity user_id) [
  | none ↦ db
  | some last ↦
      if long_idle policy now last
      then record db { activity = λ k. if k == user_id then some now else db.activity k }
      else db
]

-- The row that the update changes.
unfoldable pub beats : SessionFence → (now : ℕ) → Session → Bool
beats fence now row =
    is_session fence row && (ltb now row.expires_at && ltb now row.absolute_expires_at)

-- What the update of a row leaves and returns.
unfoldable pub beat_of :
    (activity : Bool)
    → SessionPolicy
    → (user_id now : ℕ) → Session
    → Database
    → Heartbeat × Database
unfolding beaten set_session touch_assignment
beat_of activity policy user_id now row db =
    let after = beaten activity policy now row in
    let updated = set_session user_id (some after) db in
    (
      record {
        server_time = now;
        idle_expires_at = after.expires_at;
        absolute_expires_at = after.absolute_expires_at;
      },
      if activity then touch_assignment policy user_id now updated else updated,
    )

-- The second transaction, `none` where the update found no row.
unfoldable pub update_presence :
    SessionFence
    → (activity : Bool) → SessionPolicy
    → (now : ℕ) → Database
    → Option (Heartbeat × Database)
unfolding beats beat_of
update_presence fence activity policy now db = elim (db.sessions fence.user_id) [
  | none ↦ none
  | some row ↦
      if beats fence now row then some (beat_of activity policy fence.user_id now row db) else none
]

-- The reply and the database after the second transaction.
unfoldable pub session_heartbeat :
    (username session_id generation : Option ℕ)
    → (activity : Bool) → SessionPolicy
    → (first second third : Snapshot) → Result Fault Heartbeat × Database
unfolding inspect_session refusal second_refusal update_presence
session_heartbeat username session_id generation activity policy first second third =
    let state = inspect_session username session_id generation first.now first.db in
    let again = inspect_session username session_id generation third.now third.db in
    let refused : Result Fault Heartbeat × Database = (err (refusal state.status), second.db) in
    elim state.status [
      | valid ↦ elim state.fence [
        | none ↦ refused
        | some fence ↦ elim (update_presence fence activity policy second.now second.db) [
          | none ↦ (err (second_refusal again.status), second.db)
          | some (beat, after) ↦ (ok beat, after)
        ]
      ]
      | _ ↦ refused
    ]

-- `heartbeat`
unfoldable pub heartbeat :
    (username session_id : Option ℕ)
    → (ttl_seconds : ℕ) → (generation : Option ℕ) → SessionPolicy
    → (first second third : Snapshot) → Result Fault Heartbeat × Database
unfolding session_heartbeat
heartbeat username session_id ttl_seconds generation policy first second third =
    session_heartbeat username session_id generation false
      (record policy { idle_seconds = ttl_seconds }) first second third
