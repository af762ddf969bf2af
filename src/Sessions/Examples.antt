-- ===== src/Sessions/Examples.antt =====
-- An annotator on two devices.
use egyptian_arabic_annotati.Base.{
  inl, inr, Option, ℕ, ◌+◌, ◌≡◌, ◌≢◌, ◌<◌, refl, ◌⊎◌, true, none, some, [], ◌∷◌, arith, ok, err,
  ◌==◌, if◌then◌else◌,
}
use egyptian_arabic_annotati.Sessions.State.{
  session_replaced, fence_error, session_changed, active_session_conflict, Annotator, Session,
  Database, SessionFence, SessionPolicy, uuid, commit, find_user, find_id, replaced_session,
  set_session, set_activity,
}
use egyptian_arabic_annotati.Sessions.Fence.{
  require_session_fence, inspect_session, touch_real_activity, touched,
}
use egyptian_arabic_annotati.Sessions.Guards.{fence_outcome, require-inspect_session}
use egyptian_arabic_annotati.Sessions.Login.{
  SessionPayload, login_or_resume, force_takeover, cookie_ok,
}
use egyptian_arabic_annotati.Sessions.Rows.{fence_of}
use egyptian_arabic_annotati.Sessions.Branches.{
  some_inj, login_live-conflict, login_cookie-resumes, login_over-replaces, force_takeover-observed,
}
use egyptian_arabic_annotati.Sessions.Moves.{wrote}
use egyptian_arabic_annotati.Sessions.Lifetime.{
  Run, stop, call, IsSame, Run-IsSame, require-Run, IsBounded,
}
use egyptian_arabic_annotati.Sessions.Heartbeat.{Snapshot, session_heartbeat, beaten}
use egyptian_arabic_annotati.Sessions.Presence.{Accepted, session_heartbeat-Accepted}

abbrev digest : ℕ → ℕ
digest id = id + 7

abbrev mona : Annotator
mona = record { id = 1; username = 50; is_active = true }

abbrev row : Session
row = record {
  session_id = 900;
  generation = 3;
  login_time = 100;
  last_seen_at = 200;
  last_activity_at = 150;
  expires_at = 1000;
  absolute_expires_at = 5000;
}

abbrev db : Database
db = record {
  annotators = mona ∷ [];
  sessions = λ k. if k == 1 then some row else none;
  activity = λ k. if k == 1 then some 150 else none;
  events = [];
}

abbrev policy : SessionPolicy
policy = record {
  idle_seconds = 600;
  absolute_seconds = 4000;
  presence_lease_seconds = 60;
  activity_throttle_seconds = 30;
}

abbrev fence : SessionFence
fence = fence_of mona row

require-inspect_session_example :
    require_session_fence fence 210 db
    ≡ fence_outcome (inspect_session (some 50) (some 900) (some 3) 210 db).status
unfolding find_user
require-inspect_session_example = require-inspect_session fence 210 db refl refl refl

other_id : ◌≢◌ {A = Option ℕ} (some 901) (some 900)
other_id e = omega (arith, some_inj e)

-- Another device has a cookie with another session's id, and no generation.
login_live-conflict_example :
    (commit db (login_or_resume digest 50 (uuid 901) (some 901) none policy 2 210 db) ≡ (
      err (
          active_session_conflict (record {
            username = 50;
            observed_generation = 3;
            last_seen_at = 200;
            login_time = 100;
            session_fingerprint = 907;
          })),
      db,
    ))
    × (require_session_fence fence 210 db ≡ ok tt)
unfolding find_user find_id
login_live-conflict_example =
    login_live-conflict digest 50 901 2 210 policy db {user = mona} {current = row} refl refl refl
      refl (some 901) none (inl other_id) (omega arith) (omega arith) (omega arith)

login_cookie-resumes_example :
    (p : SessionPayload) × (after : Database) × (login_or_resume digest 50
        (uuid 901)
        (some 900)
        (some 3)
        policy
        2
        210
        db
      ≡ ok (p, after))
    × (p.row ≡ record row { last_seen_at = 210 })
    × (after.sessions 1 ≡ some p.row)
    × (require_session_fence fence 210 after ≡ ok tt)
    × ((k : ℕ) → k ≢ 1 → after.sessions k ≡ db.sessions k)
unfolding find_user find_id cookie_ok
login_cookie-resumes_example =
    login_cookie-resumes digest 50 901 2 210 policy db {user = mona} {current = row} refl refl refl
      refl (some 900) (some 3) refl

-- At 300 the presence lease of the session has run out.
login_over-replaces_example :
    (p : SessionPayload) × (after : Database) × (login_or_resume digest 50
        (uuid 901)
        none
        none
        policy
        2
        300
        db
      ≡ ok (p, after))
    × (p.row ≡ replaced_session 901 policy (some 3) 300)
    × (((later : ℕ) → require_session_fence fence later after ≡ err (fence_error session_replaced))
        × ((later : ℕ)
            → later < 900
            → later < 4300
            → require_session_fence
                (fence_of mona (replaced_session 901 policy (some 3) 300))
                later
                after
              ≡ ok tt)
        × ((k : ℕ) → k ≢ 1 → after.sessions k ≡ db.sessions k))
unfolding find_user find_id
login_over-replaces_example =
    login_over-replaces digest 50 901 2 300 policy db {user = mona} {current = row} refl refl refl
      refl none none (inr (inl (λ e. cc e), omega arith))

force_takeover-observed_example :
    (row.generation ≡ 3
      → digest row.session_id ≡ 907
      → (p : SessionPayload) × (after : Database) × (force_takeover digest 50
            (uuid 901)
            3
            907
            policy
            2
            210
            db
          ≡ ok (p, after))
        × (p.row ≡ replaced_session 901 policy (some 3) 210)
        × (((later : ℕ)
              → require_session_fence fence later after ≡ err (fence_error session_replaced))
            × ((later : ℕ)
                → later < 810
                → later < 4210
                → require_session_fence
                    (fence_of mona (replaced_session 901 policy (some 3) 210))
                    later
                    after
                  ≡ ok tt)
            × ((k : ℕ) → k ≢ 1 → after.sessions k ≡ db.sessions k)))
    × ((row.generation ≢ 3) ⊎ (digest row.session_id ≢ 907)
        → commit db (force_takeover digest 50 (uuid 901) 3 907 policy 2 210 db)
          ≡ (err session_changed, db))
unfolding find_user find_id
force_takeover-observed_example =
    force_takeover-observed digest 50 901 2 210 policy db {user = mona} {current = row} refl refl
      refl refl 3 907

-- The session after a write at 210.
abbrev later_row : Session
later_row = record row { last_seen_at = 210; last_activity_at = 210; expires_at = 810 }

abbrev written : Database
written = touch_real_activity fence policy true 210 db

one_write : Run digest 900 db written
one_write = call stop (wrote fence policy true 210) (λ e. cc)

Run-IsSame_example : (row : Session) × (db.sessions 1 ≡ some row) × IsSame row later_row
unfolding touch_real_activity touched set_session set_activity
Run-IsSame_example = Run-IsSame one_write 1 refl refl

require-Run_example :
    (row : Session) × (db.sessions 1 ≡ some row)
    × (row.session_id ≡ 900)
    × (800 < row.absolute_expires_at)
unfolding touch_real_activity touched set_session set_activity require_session_fence
require-Run_example = require-Run fence 800 one_write refl

db-IsBounded : IsBounded db
db-IsBounded k found e = ground arith

abbrev at_210 : Snapshot
at_210 = record { db = db; now = 210 }

abbrev beat_row : Session
beat_row = beaten true policy 210 row

session_heartbeat-Accepted_example :
    (fence : SessionFence) × (some 900 ≡ some fence.session_id)
    × Accepted fence true policy at_210
        (record { server_time = 210; idle_expires_at = 810; absolute_expires_at = 5000 })
        (session_heartbeat (some 50) (some 900) (some 3) true policy at_210 at_210 at_210).1
unfolding session_heartbeat
session_heartbeat-Accepted_example =
    session_heartbeat-Accepted (some 50) (some 900) (some 3) true policy at_210 at_210 at_210 refl
