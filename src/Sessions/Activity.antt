-- ===== src/Sessions/Activity.antt =====
-- What a write and a logout leave of a session.
use egyptian_arabic_annotati.Base.{
  ℕ, ◌+◌, ◌≡◌, ◌≢◌, ◌<◌, refl, ap, ◌∙◌, inl, inr, Bool, true, false, Option, Option-cases, none,
  some, arith, ok, err,
}
use egyptian_arabic_annotati.Sessions.State.{
  not_authenticated, fence_error, Annotator, Session, Database, SessionFence, SessionPolicy,
  set_session, find_user, record_session_event,
}
use egyptian_arabic_annotati.Sessions.Fence.{
  is_session, require_session_fence, touched, touch_real_activity,
}
use egyptian_arabic_annotati.Sessions.Login.{names_session, logout}
use egyptian_arabic_annotati.Sessions.Rows.{
  fence_of, set_session-same, set_session-other, fence-lives,
}
use egyptian_arabic_annotati.Sessions.Moves.Writes.{refreshed_row, set_activity-sessions}

touched-sessions :
    (fence : SessionFence) (policy : SessionPolicy) (assignment : Bool) (now : ℕ) (db : Database)
    {row : Session}
    → db.sessions fence.user_id ≡ some row
    → is_session fence row ≡ true
    → (touch_real_activity fence policy assignment now db).sessions
      ≡ (set_session fence.user_id (some (touched policy now row)) db).sessions
unfolding touch_real_activity
touched-sessions fence policy false now db there named = rw (there, named) refl
touched-sessions fence policy true now db there named =
    rw
      (
        set_activity-sessions fence.user_id now (refreshed_row fence policy now db),
        there,
        named,
        refreshed_row,
      )
      refl

named-fields :
    (fence : SessionFence) (row : Session)
    → is_session fence row ≡ true
    → (row.session_id ≡ fence.session_id) × (row.generation ≡ fence.generation)
named-fields fence row named = ground arith

touched-later :
    (policy : SessionPolicy) (now later : ℕ) (row : Session)
    → later < now + policy.idle_seconds
    → later < row.absolute_expires_at
    → later < (touched policy now row).expires_at
unfolding touched
touched-later policy now later row idle deadline = omega arith

not_gone :
    (fence : SessionFence) (now : ℕ) (db : Database)
    → db.sessions fence.user_id ≡ none
    → require_session_fence fence now db ≢ ok tt
unfolding require_session_fence
not_gone fence now db gone e = ground (arith, gone)

passes-named :
    (fence : SessionFence) (now : ℕ) (db : Database) {row : Session}
    → db.sessions fence.user_id ≡ some row
    → require_session_fence fence now db ≡ ok tt
    → is_session fence row ≡ true
unfolding require_session_fence
passes-named fence now db there e = ground (arith, there)

-- After a write the session lives for the idle time, or until its absolute deadline if that comes
-- first, and no session of another user changes.
pub touch-extends :
    (fence : SessionFence) (policy : SessionPolicy) (assignment : Bool) (now : ℕ) (db : Database)
    → require_session_fence fence now db ≡ ok tt
    → (row : Session) × (db.sessions fence.user_id ≡ some row)
      × ((later : ℕ)
          → later < now + policy.idle_seconds
          → later < row.absolute_expires_at
          → require_session_fence fence later (touch_real_activity fence policy assignment now db)
            ≡ ok tt)
      × ((k : ℕ)
          → k ≢ fence.user_id
          → (touch_real_activity fence policy assignment now db).sessions k ≡ db.sessions k)
unfolding touch_real_activity
touch-extends fence policy assignment now db e = elim (Option-cases (db.sessions fence.user_id)) [
  | inl gone ↦ absurd (not_gone fence now db gone e)
  | inr (row, there) ↦
      let after = touch_real_activity fence policy assignment now db in
      let named = passes-named fence now db there e in
      let rows = touched-sessions fence policy assignment now db there named in
      (
        row,
        there,
        λ later idle deadline.
            fence-lives fence later after
              (ap (λ r. r fence.user_id) rows ∙ set_session-same fence.user_id _ db)
              (named-fields fence row named).0 (named-fields fence row named).1
              (touched-later policy now later row idle deadline) deadline,
        λ k differs. ap (λ r. r k) rows ∙ set_session-other fence.user_id k _ db differs,
      )
]

gone-refused :
    (fence : SessionFence) (later : ℕ) (db : Database)
    → db.sessions fence.user_id ≡ none
    → require_session_fence fence later db ≡ err (fence_error not_authenticated)
unfolding require_session_fence
gone-refused fence later db gone = rw gone refl

-- A logout that names the user's session ends it: its fence is refused as not authenticated. It
-- keeps the user's assignment and the sessions of others, and one that names no session of the user
-- changes nothing.
pub logout-named :
    (username session_id : ℕ) (generation : Option ℕ) (db : Database) {user : Annotator}
    {row : Session}
    → find_user username db.annotators ≡ some user
    → db.sessions user.id ≡ some row
    → (names_session session_id generation row ≡ true
        → ((later : ℕ)
            → require_session_fence
                (fence_of user row)
                later
                (logout username session_id generation db)
              ≡ err (fence_error not_authenticated))
          × ((logout username session_id generation db).activity ≡ db.activity)
          × ((k : ℕ)
              → k ≢ user.id
              → (logout username session_id generation db).sessions k ≡ db.sessions k))
      × (names_session session_id generation row ≡ false
          → logout username session_id generation db ≡ db)
unfolding logout record_session_event
logout-named username session_id generation db {user} {row} found there = (
  λ named. (
    λ later.
        gone-refused (fence_of user row) later (logout username session_id generation db)
          (rw (found, there, named, logout) (set_session-same user.id none db)),
    rw (found, there, named, logout) refl,
    λ k differs. rw (found, there, named, logout) (set_session-other user.id k none db differs),
  ),
  λ other. rw (found, there, other, logout) refl,
)
