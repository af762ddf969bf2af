-- ===== src/Sessions/Guards.antt =====
-- The fence and the read-only classification agree, and what the presence test promises.
use egyptian_arabic_annotati.Base.{
  ℕ, ◌≡◌, sym, ap, subst, ◌∙◌, inl, inr, true, not, Option, Option-cases, none, some, leb,
  if◌then◌else◌, arith, Result, ok, err,
}
use egyptian_arabic_annotati.Sessions.State.{
  Status, valid, not_authenticated, logged_out, session_replaced, absolute_timeout, idle_timeout,
  Fault, fence_error, Annotator, Session, Database, SessionFence, find_user,
}
use egyptian_arabic_annotati.Sessions.Fence.{
  is_session, require_session_fence, online, active_session_exists, inspect_row, inspect_session,
  validate_session,
}

-- The outcome of a fence for each status of a session.
pub fence_outcome : Status → Result Fault (Unit {0})
fence_outcome valid = ok tt
fence_outcome logged_out = err (fence_error not_authenticated)
fence_outcome status = err (fence_error status)

inspect_row-agrees :
    (user : Annotator) (fence : SessionFence) (now : ℕ) (row : Session)
    → fence_outcome (inspect_row user fence.session_id (some fence.generation) now row).status ≡ (
        if not (is_session fence row)
        then err (fence_error session_replaced)
        else if leb row.absolute_expires_at now
        then err (fence_error absolute_timeout)
        else if leb row.expires_at now
        then err (fence_error idle_timeout)
        else ok tt)
unfolding inspect_row fence_outcome
inspect_row-agrees user fence now row = ground arith

inspect_session-row :
    (username session_id : ℕ) (generation : Option ℕ) (now : ℕ) (db : Database) {user : Annotator}
    {row : Session}
    → find_user username db.annotators ≡ some user
    → user.is_active ≡ true
    → db.sessions user.id ≡ some row
    → inspect_session (some username) (some session_id) generation now db
      ≡ inspect_row user session_id generation now row
unfolding inspect_session
inspect_session-row username session_id generation now db found active there = ground arith

pub require_row :
    (fence : SessionFence) (now : ℕ) (db : Database) {row : Session}
    → db.sessions fence.user_id ≡ some row
    → require_session_fence fence now db ≡ (
        if not (is_session fence row)
        then err (fence_error session_replaced)
        else if leb row.absolute_expires_at now
        then err (fence_error absolute_timeout)
        else if leb row.expires_at now
        then err (fence_error idle_timeout)
        else ok tt)
unfolding require_session_fence
require_row fence now db there = ground arith

-- For an active annotator, the guard of a write and the read-only classification decide alike: the
-- write passes where the session is classified as valid, and fails with the class otherwise, a
-- missing row being not authenticated for the guard and logged out for the classification.
pub require-inspect_session :
    (fence : SessionFence) (now : ℕ) (db : Database) {user : Annotator}
    → find_user fence.username db.annotators ≡ some user
    → user.id ≡ fence.user_id
    → user.is_active ≡ true
    → require_session_fence fence now db
      ≡ fence_outcome
          (inspect_session
            (some fence.username)
            (some fence.session_id)
            (some fence.generation)
            now
            db).status
unfolding require_session_fence inspect_session fence_outcome
require-inspect_session fence now db {user} found same active =
    elim (Option-cases (db.sessions fence.user_id)) [
      | inl gone ↦ ground (arith, subst (λ k. db.sessions k ≡ none) (sym same) gone)
      | inr (row, there) ↦
          let here = subst (λ k. db.sessions k ≡ some row) (sym same) there in
          let agrees = inspect_row-agrees user fence now row in
          let inspected =
            inspect_session-row fence.username fence.session_id (some fence.generation) now db found
              active here in
          require_row fence now db there
          ∙ sym agrees
          ∙ ap (λ state. fence_outcome state.status) (sym inspected)
    ]

-- A session that validates has a fence that passes, whether the caller gave a generation or not.
pub validate_session-require :
    (username session_id generation : Option ℕ) (now : ℕ) (db : Database) {fence : SessionFence}
    {row : Session}
    → validate_session username session_id generation now db ≡ some (fence, row)
    → (require_session_fence fence now db ≡ ok tt) × (db.sessions fence.user_id ≡ some row)
unfolding validate_session require_session_fence inspect_session inspect_row
validate_session-require username session_id generation now db e = ground arith

-- A name that is shown as online has a session whose fence passes.
pub active_session_exists-require :
    (username presence_lease_seconds now : ℕ) (db : Database)
    → active_session_exists username presence_lease_seconds now db ≡ true
    → (user : Annotator) × (row : Session) × (find_user username db.annotators ≡ some user)
      × (db.sessions user.id ≡ some row)
      × (require_session_fence
            (record {
              user_id = user.id;
              username = username;
              session_id = row.session_id;
              generation = row.generation;
            })
            now
            db
          ≡ ok tt)
unfolding active_session_exists require_session_fence online
active_session_exists-require username lease now db e =
    elim (Option-cases (find_user username db.annotators)) [
      | inl gone ↦ ground (arith, gone)
      | inr (user, found) ↦ elim (Option-cases (db.sessions user.id)) [
        | inl gone ↦ ground (arith, found, gone)
        | inr (row, there) ↦ (user, row, found, there, ground (arith, found, there))
      ]
    ]
