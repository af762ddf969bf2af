-- ===== src/Sessions/Moves.antt =====
-- The calls as a step relation, and what a call may do to the row of a user.
pub mod Writes
pub mod Logins
pub mod Every
use egyptian_arabic_annotati.Base.{
  ℕ, ◌+◌, ◌≡◌, ◌≤◌, refl, sym, subst, inl, inr, Bool, true, false, Bool-cases, not, ◌||◌, Option,
  Option-cases, none, some, leb, ◌==◌, if◌then◌else◌, arith, Result, ok, ◌⊎◌, Result-cases,
  raise_if, ◌>>◌,
}
use egyptian_arabic_annotati.Sessions.State.{
  Fault, Annotator, Session, Database, SessionFence, SessionPolicy, uuid, find_user, set_session,
  set_activity, record_session_event, replaced_session, ensure_user, lock_active_annotator,
  validate_uuid, replace_active_session, EventType, login_event, stale_takeover_event,
  forced_takeover_event,
}
use egyptian_arabic_annotati.Sessions.Fence.{is_session, touched, touch_real_activity}
use egyptian_arabic_annotati.Sessions.Login.{
  SessionPayload, Mode, Reason, cookie_ok, start_session, resume, login_over, login_or_resume,
  force_takeover, names_session, logout, login_mode, stale_takeover_mode, forced_takeover_mode,
  missing_session, idle_expired, absolute_expired,
}
use egyptian_arabic_annotati.Sessions.Heartbeat.{
  Heartbeat, beaten, beat_of, update_presence, touch_assignment, long_idle,
}

-- What a call may do to the row of one user. `used` is the session id that the call asks for.
pub data Moves (used : Option ℕ) : Option Session → Option Session → Type 0 where
  kept : {s : Option Session} → Moves used s s
  dropped : {s : Option Session} → Moves used s none
  refreshed :
      {row row' : Session}
      → row'.session_id ≡ row.session_id
      → row'.generation ≡ row.generation
      → row'.login_time ≡ row.login_time
      → row'.absolute_expires_at ≡ row.absolute_expires_at
      → (row'.expires_at ≡ row.expires_at) ⊎ (row'.expires_at ≤ row.absolute_expires_at)
      → Moves used (some row) (some row')
  created :
      {row' : Session} (id : ℕ)
      → used ≡ some id
      → row'.session_id ≡ id
      → row'.expires_at ≤ row'.absolute_expires_at
      → Moves used none (some row')
  replaced :
      {row row' : Session} (id : ℕ)
      → used ≡ some id
      → row'.session_id ≡ id
      → row'.generation ≡ row.generation + 1
      → row'.expires_at ≤ row'.absolute_expires_at
      → Moves used (some row) (some row')

-- One committed call: a login, a takeover, a logout, the refresh after a write, or the update of a
-- heartbeat. The first index is the session id that the call brings, if it brings one.
pub data Step (fingerprint : ℕ → ℕ) : Option ℕ → Database → Database → Type 0 where
  logged_in :
      {db after : Database} {p : SessionPayload} (username requested fresh now : ℕ)
      (cookie_session_id cookie_generation : Option ℕ) (policy : SessionPolicy)
      → login_or_resume fingerprint username
          (uuid requested)
          cookie_session_id
          cookie_generation
          policy
          fresh
          now
          db
        ≡ ok (p, after)
      → Step fingerprint (some requested) db after
  taken_over :
      {db after : Database} {p : SessionPayload}
      (username requested observed_generation observed_fingerprint fresh now : ℕ)
      (policy : SessionPolicy)
      → force_takeover fingerprint username
          (uuid requested)
          observed_generation
          observed_fingerprint
          policy
          fresh
          now
          db
        ≡ ok (p, after)
      → Step fingerprint (some requested) db after
  signed_out :
      {db : Database} (username session_id : ℕ) (generation : Option ℕ)
      → Step fingerprint none db (logout username session_id generation db)
  wrote :
      {db : Database} (fence : SessionFence) (policy : SessionPolicy) (assignment : Bool) (now : ℕ)
      → Step fingerprint none db (touch_real_activity fence policy assignment now db)
  beat :
      {db after : Database} {reply : Heartbeat} (fence : SessionFence) (activity : Bool)
      (policy : SessionPolicy) (now : ℕ)
      → update_presence fence activity policy now db ≡ some (reply, after)
      → Step fingerprint none db after

-- A write of one row moves that row, and no other.
pub set_session-Moves :
    {used : Option ℕ} (user_id : ℕ) (s : Option Session) (db : Database)
    → Moves used (db.sessions user_id) s
    → (k : ℕ) → Moves used (db.sessions k) ((set_session user_id s db).sessions k)
unfolding set_session
set_session-Moves {used} user_id s db move k = elim (Bool-cases (k == user_id)) [
  | inl same ↦
      let e : user_id ≡ k = ground arith in
      rw same (subst (λ j. Moves used (db.sessions j) s) e move)
  | inr differs ↦ rw differs kept
]
