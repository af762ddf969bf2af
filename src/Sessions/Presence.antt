-- ===== src/Sessions/Presence.antt =====
-- What a heartbeat finds and leaves of a session.
use egyptian_arabic_annotati.Base.{
  ℕ, ◌+◌, ◌≡◌, ◌≤◌, ◌<◌, ◌⊎◌, min, refl, sym, ap, subst, ◌∙◌, inl, inr, Bool, true, false, Option,
  Option-cases, some, arith, ok, err,
}
use egyptian_arabic_annotati.Sessions.State.{
  Fault, Session, Database, SessionFence, SessionPolicy, set_session,
}
use egyptian_arabic_annotati.Sessions.Fence.{require_session_fence, inspect_row, inspect_session}
use egyptian_arabic_annotati.Sessions.Heartbeat.{
  Snapshot, Heartbeat, beaten, beat_of, beats, update_presence, session_heartbeat,
}
use egyptian_arabic_annotati.Sessions.Guards.{require_row}
use egyptian_arabic_annotati.Sessions.Rows.{set_session-same}
use egyptian_arabic_annotati.Sessions.Moves.Writes.{touch_assignment-sessions}

beat_of-row :
    (activity : Bool) (policy : SessionPolicy) (user_id now : ℕ) (row : Session) (db : Database)
    → (beat_of activity policy user_id now row db).1.sessions user_id
      ≡ some (beaten activity policy now row)
unfolding beat_of
beat_of-row false policy user_id now row db = set_session-same user_id _ db
beat_of-row true policy user_id now row db =
    ap (λ rows. rows user_id)
      (touch_assignment-sessions policy user_id now
        (set_session user_id (some (beaten true policy now row)) db))
    ∙ set_session-same user_id _ db

-- What a heartbeat makes of a row. Its contact is now, and what the fence tests is the same but for the
-- idle deadline. That one, with the time of the last activity, moves only where the heartbeat tells
-- of activity and the last one is older than the throttle.
pub record IsBeaten (activity : Bool) (policy : SessionPolicy) (now : ℕ) (row left : Session)
    : Type 0 where
  contact : left.last_seen_at ≡ now
  same_id : left.session_id ≡ row.session_id
  same_generation : left.generation ≡ row.generation
  same_login : left.login_time ≡ row.login_time
  same_absolute : left.absolute_expires_at ≡ row.absolute_expires_at
  idle_kept :
      (activity ≡ false) ⊎ (now ≤ row.last_activity_at + policy.activity_throttle_seconds)
      → (left.last_activity_at ≡ row.last_activity_at) × (left.expires_at ≡ row.expires_at)
  extended :
      activity ≡ true
      → row.last_activity_at + policy.activity_throttle_seconds < now
      → (left.last_activity_at ≡ now)
        × (left.expires_at ≡ min (now + policy.idle_seconds) row.absolute_expires_at)

beaten-IsBeaten :
    (activity : Bool) (policy : SessionPolicy) (now : ℕ) (row : Session)
    → IsBeaten activity policy now row (beaten activity policy now row)
unfolding beaten
beaten-IsBeaten false policy now row = record {
  contact = refl;
  same_id = refl;
  same_generation = refl;
  same_login = refl;
  same_absolute = refl;
  idle_kept = λ kept. (refl, refl);
  extended = λ told long. absurd (cc told);
}
beaten-IsBeaten true policy now row = record {
  contact = refl;
  same_id = refl;
  same_generation = refl;
  same_login = refl;
  same_absolute = refl;
  idle_kept = λ kept. elim kept [
    | inl silent ↦ absurd (cc silent)
    | inr recent ↦ (ground (arith, recent), ground (arith, recent))
  ];
  extended = λ told long. (ground (arith, long), ground (arith, long));
}

-- What a heartbeat that was accepted found and left.
abbrev pub Accepted :
    SessionFence → (activity : Bool) → SessionPolicy → Snapshot → Heartbeat → Database → Type 0
Accepted fence activity policy at reply after =
    (row : Session) × (left : Session) × (at.db.sessions fence.user_id ≡ some row)
    × (require_session_fence fence at.now at.db ≡ ok tt)
    × (after.sessions fence.user_id ≡ some left)
    × IsBeaten activity policy at.now row left
    × (reply.idle_expires_at ≡ left.expires_at)
    × (reply.absolute_expires_at ≡ left.absolute_expires_at)

update_presence-live :
    (fence : SessionFence) (activity : Bool) (policy : SessionPolicy) (now : ℕ) (db : Database)
    {reply : Heartbeat} {after : Database}
    → update_presence fence activity policy now db ≡ some (reply, after)
    → (row : Session) × (db.sessions fence.user_id ≡ some row)
      × (beats fence now row ≡ true)
      × (beat_of activity policy fence.user_id now row db ≡ (reply, after))
unfolding update_presence
update_presence-live fence activity policy now db e =
    elim (Option-cases (db.sessions fence.user_id)) [
      | inl gone ↦ ground (arith, gone)
      | inr (row, there) ↦ (row, there, ground (arith, there), ground (arith, there))
    ]

alive-passes :
    (fence : SessionFence) (now : ℕ) (db : Database) (row : Session)
    → db.sessions fence.user_id ≡ some row
    → beats fence now row ≡ true
    → require_session_fence fence now db ≡ ok tt
unfolding beats
alive-passes fence now db row there alive = require_row fence now db there ∙ ground arith

beat_of-absolute :
    (activity : Bool) (policy : SessionPolicy) (user_id now : ℕ) (row : Session) (db : Database)
    → (beat_of activity policy user_id now row db).0.absolute_expires_at ≡ row.absolute_expires_at
unfolding beat_of beaten
beat_of-absolute false policy user_id now row db = refl
beat_of-absolute true policy user_id now row db = refl

update_presence-Accepted :
    (fence : SessionFence) (activity : Bool) (policy : SessionPolicy) (at : Snapshot)
    {reply : Heartbeat} {after : Database}
    → update_presence fence activity policy at.now at.db ≡ some (reply, after)
    → Accepted fence activity policy at reply after
unfolding update_presence
update_presence-Accepted fence activity policy at e =
    let (row, there, alive, run) = update_presence-live fence activity policy at.now at.db e in
    (
      row,
      beaten activity policy at.now row,
      there,
      alive-passes fence at.now at.db row there alive,
      subst (λ d. d.sessions fence.user_id ≡ some (beaten activity policy at.now row))
          (ap (λ r. r.1) run) (beat_of-row activity policy fence.user_id at.now row at.db),
      beaten-IsBeaten activity policy at.now row,
      ap (λ r. r.0.idle_expires_at) (sym run),
      ap (λ r. r.0.absolute_expires_at) (sym run)
          ∙ beat_of-absolute activity policy fence.user_id at.now row at.db
          ∙ sym (beaten-IsBeaten activity policy at.now row).same_absolute,
    )

inspect_session-names :
    (username session_id generation : Option ℕ) (now : ℕ) (db : Database) {fence : SessionFence}
    → (inspect_session username session_id generation now db).fence ≡ some fence
    → session_id ≡ some fence.session_id
unfolding inspect_session inspect_row
inspect_session-names username session_id generation now db e = ground arith

heartbeat-updated :
    (username session_id generation : Option ℕ) (activity : Bool) (policy : SessionPolicy)
    (first second third : Snapshot) {reply : Heartbeat} {after : Database}
    → session_heartbeat username session_id generation activity policy first second third
      ≡ (ok reply, after)
    → (fence : SessionFence) × ((inspect_session username session_id generation first.now
          first.db).fence
        ≡ some fence)
      × (update_presence fence activity policy second.now second.db ≡ some (reply, after))
unfolding session_heartbeat
heartbeat-updated username session_id generation activity policy first second third e =
    elim (Option-cases (inspect_session username session_id generation first.now first.db).fence) [
      | inl gone ↦ ground (arith, gone)
      | inr (fence, named) ↦ (fence, named, ground (arith, named))
    ]

-- A heartbeat is accepted only where the fence of its session still passes at the time of the
-- update, whatever other calls came in after the session was read, so it never brings back a session
-- that has ended. The row gets the time of the update as its time of contact and keeps its id,
-- generation, login time and absolute deadline; its idle deadline moves only for a heartbeat with
-- activity whose last activity is older than the throttle, to the idle time from now and no further
-- than the absolute one. The reply shows the deadlines that the row has.
pub session_heartbeat-Accepted :
    (username session_id generation : Option ℕ) (activity : Bool) (policy : SessionPolicy)
    (first second third : Snapshot) {reply : Heartbeat} {after : Database}
    → session_heartbeat username session_id generation activity policy first second third
      ≡ (ok reply, after)
    → (fence : SessionFence) × (session_id ≡ some fence.session_id)
      × Accepted fence activity policy second reply after
unfolding session_heartbeat
session_heartbeat-Accepted username session_id generation activity policy first second third e =
    let (fence, named, updated) =
      heartbeat-updated username session_id generation activity policy first second third e in
    (
      fence,
      inspect_session-names username session_id generation first.now first.db named,
      update_presence-Accepted fence activity policy second updated,
    )

-- A heartbeat that is refused writes nothing.
pub session_heartbeat-refused :
    (username session_id generation : Option ℕ) (activity : Bool) (policy : SessionPolicy)
    (first second third : Snapshot) {fault : Fault} {after : Database}
    → session_heartbeat username session_id generation activity policy first second third
      ≡ (err fault, after)
    → after ≡ second.db
unfolding session_heartbeat
session_heartbeat-refused username session_id generation activity policy first second third e =
    ground arith
