-- ===== src/Sessions/Login.antt =====
-- Login, takeover and logout. `fingerprint` stands for the SHA-256 of a session id, which is not
-- code of this repository.
use egyptian_arabic_annotati.Base.{
  ℕ, ◌+◌, Bool, false, not, ◌&&◌, ◌||◌, Option, none, some, ltb, leb, ◌==◌, max, if◌then◌else◌,
  Result, ok, err, ◌>>=◌, ◌>>◌, raise_if, or_raise,
}
use egyptian_arabic_annotati.Sessions.State.{
  Fault, session_changed, active_session_conflict, Annotator, Session, Database, SessionPolicy,
  Event, EventType, login_event, resume_event, stale_takeover_event, forced_takeover_event,
  logout_event, RawUuid, validate_uuid, find_user, set_session, record_session_event, ensure_user,
  lock_active_annotator, replace_active_session,
}

pub data Mode : Type 0 where
  login_mode resume_mode stale_takeover_mode forced_takeover_mode : Mode

pub data Reason : Type 0 where
  missing_session idle_expired absolute_expired : Reason

-- `_session_payload`; the fence in it has the user's id and name and the row's id and generation.
pub record SessionPayload : Type 0 where
  pub id : ℕ
  pub username : ℕ
  pub row : Session
  pub mode : Mode
  pub reason : Option Reason

abbrev pub payload : Annotator → Session → Mode → Option Reason → SessionPayload
payload user row mode reason = record {
  id = user.id;
  username = user.username;
  row = row;
  mode = mode;
  reason = reason;
}

-- The cookie is that of the row and the row has not expired.
unfoldable pub cookie_ok :
    (cookie_session_id cookie_generation : Option ℕ) → (now : ℕ) → Session → Bool
cookie_ok none generation now current = false
cookie_ok (some session_id) none now current =
    current.session_id == session_id
    && (ltb now current.expires_at && ltb now current.absolute_expires_at)
cookie_ok (some session_id) (some generation) now current =
    current.session_id == session_id
    && (current.generation == generation
        && (ltb now current.expires_at && ltb now current.absolute_expires_at))

unfoldable pub event_of : ℕ → EventType → Session → Option ℕ → Event
event_of user_id event_type row previous = record {
  user_id = user_id;
  event_type = event_type;
  generation = row.generation;
  previous_generation = previous;
}

-- Replace the session, record the event and return the payload.
unfoldable pub start_session :
    Annotator
    → (requested : ℕ) → SessionPolicy
    → (previous recorded : Option ℕ) → EventType
    → Mode
    → Option Reason
    → (now : ℕ) → Database
    → SessionPayload × Database
unfolding replace_active_session record_session_event event_of
start_session user requested policy previous recorded event_type mode reason now db =
    let (row, replaced) = replace_active_session user.id requested policy previous now db in
    (
      payload user row mode reason,
      record_session_event (event_of user.id event_type row recorded) replaced,
    )

-- `UPDATE active_sessions SET last_seen_at = now()`
unfoldable pub resume : Annotator → Session → (now : ℕ) → Database → SessionPayload × Database
unfolding set_session record_session_event event_of
resume user current now db =
    let row = record current { last_seen_at = now } in
    (
      payload user row resume_mode none,
      record_session_event (event_of user.id resume_event row (some row.generation))
          (set_session user.id (some row) db),
    )

module _ (fingerprint : ℕ → ℕ) where
  -- `current is not None`
  unfoldable pub login_over :
      Annotator
      → (requested : ℕ) → (cookie_session_id cookie_generation : Option ℕ) → SessionPolicy
      → Session
      → (now : ℕ) → Database
      → Result Fault (SessionPayload × Database)
  unfolding cookie_ok resume start_session
  login_over user requested cookie_session_id cookie_generation policy current now db =
      let previous = some current.generation in
      if cookie_ok cookie_session_id cookie_generation now current
      then ok (resume user current now db)
      else if leb current.expires_at now || leb current.absolute_expires_at now
      then ok (
          start_session user requested policy previous previous login_event login_mode
            (some (if leb current.absolute_expires_at now then absolute_expired else idle_expired))
            now db)
      else if leb (current.last_seen_at + policy.presence_lease_seconds) now
      then ok (
          start_session user requested policy previous previous stale_takeover_event
            stale_takeover_mode none now db)
      else err (
          active_session_conflict (record {
            username = user.username;
            observed_generation = current.generation;
            last_seen_at = current.last_seen_at;
            login_time = current.login_time;
            session_fingerprint = fingerprint current.session_id;
          }))

  unfoldable pub login_or_resume :
      (username : ℕ)
      → (requested_session_id : RawUuid) → (cookie_session_id cookie_generation : Option ℕ)
      → SessionPolicy
      → (fresh now : ℕ) → Database
      → Result Fault (SessionPayload × Database)
  unfolding validate_uuid ensure_user lock_active_annotator login_over start_session
  login_or_resume username requested_session_id cookie_session_id cookie_generation policy fresh now
        db =
      do
        requested ← validate_uuid requested_session_id
        let (ensured, with_user) = ensure_user username fresh db
        user ← lock_active_annotator ensured.id with_user
        elim (with_user.sessions user.id) [
          | none ↦ ok (
              start_session user requested policy (some 0) none login_event login_mode
                (some missing_session) now with_user)
          | some current ↦
              login_over user requested cookie_session_id cookie_generation policy current now
                with_user
        ]

  -- `login`, with the other settings as it passes them on.
  unfoldable pub login :
      (username : ℕ)
      → (session_id : RawUuid) → (ttl_seconds : ℕ) → (absolute_seconds : Option ℕ)
      → (cookie_session_id cookie_generation : Option ℕ) → SessionPolicy
      → (default_absolute_seconds : ℕ) → (fresh now : ℕ) → Database
      → Result Fault (SessionPayload × Database)
  unfolding login_or_resume
  login username session_id ttl_seconds absolute_seconds cookie_session_id cookie_generation policy
        default_absolute_seconds fresh now db =
      login_or_resume username session_id cookie_session_id cookie_generation
        (record policy {
          idle_seconds = ttl_seconds;
          absolute_seconds = elim absolute_seconds [
            | none ↦ max ttl_seconds default_absolute_seconds
            | some absolute ↦ absolute
          ];
        })
        fresh now db

  unfoldable pub force_takeover :
      (username : ℕ)
      → (requested_session_id : RawUuid) → (observed_generation observed_session_fingerprint : ℕ)
      → SessionPolicy
      → (fresh now : ℕ) → Database
      → Result Fault (SessionPayload × Database)
  unfolding validate_uuid ensure_user lock_active_annotator start_session
  force_takeover username requested_session_id observed_generation observed_session_fingerprint
        policy fresh now db =
      do
        requested ← validate_uuid requested_session_id
        let (ensured, with_user) = ensure_user username fresh db
        user ← lock_active_annotator ensured.id with_user
        current ← or_raise (with_user.sessions user.id) session_changed
        raise_if
            (not (
              current.generation == observed_generation
              && fingerprint current.session_id == observed_session_fingerprint))
            session_changed
        ok (
            start_session user requested policy (some current.generation) (some current.generation)
              forced_takeover_event forced_takeover_mode none now with_user)

abbrev pub names_session : (session_id : ℕ) → Option ℕ → Session → Bool
names_session session_id none row = row.session_id == session_id
names_session session_id (some generation) row =
    row.session_id == session_id && row.generation == generation

unfoldable pub logout : (username session_id : ℕ) → (generation : Option ℕ) → Database → Database
unfolding find_user set_session record_session_event event_of
logout username session_id generation db = elim (find_user username db.annotators) [
  | none ↦ db
  | some user ↦ elim (db.sessions user.id) [
    | none ↦ db
    | some row ↦
        if names_session session_id generation row
        then record_session_event (event_of user.id logout_event row (some row.generation))
            (set_session user.id none db)
        else db
  ]
]
