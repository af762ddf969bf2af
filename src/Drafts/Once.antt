-- ===== src/Drafts/Once.antt =====
-- A request that is sent twice is done once.
use egyptian_arabic_annotati.Base.{
  ℕ, ◌≡◌, refl, sym, subst, ◌∙◌, false, not, Option, none, some, List, ◌==◌, arith, Result, ok, err,
  ◌>>=◌, or_raise, bind-ok, raise_if-ok, or_raise-ok,
}
use egyptian_arabic_annotati.Sessions.State.{
  Annotator, SessionPolicy, SessionFence, uuid, validate_uuid, lock_active_annotator,
}
use egyptian_arabic_annotati.Sessions.Fence.{require_session_fence}
use egyptian_arabic_annotati.Segments.{Segment, RawSegment, apply_dirty_segments}
use egyptian_arabic_annotati.Drafts.State.{
  Fault, session, segment, version_gone, revision_conflict, passing, Version, Route,
  save_draft_route, abandon_route, complete_route, route_eq, Response, Store, put, operation_replay,
  store_operation, Work, lock_assignment, require_round, touch,
}
use egyptian_arabic_annotati.Drafts.Save.{write_save, save_new, save_draft}

pub passing-ok {ℓ} :
    {E : Type 0} {A : Type ℓ} (wrap : E → Fault) (m : Result E A) {a : A}
    → passing wrap m ≡ ok a
    → m ≡ ok a
unfolding passing
passing-ok wrap (ok a) e = cc
passing-ok wrap (err fault) e = absurd (cc e)

expected : (current revision : ℕ) → not (current == revision) ≡ false → current ≡ revision
expected current revision e = ground arith

-- The log answers a request with what it holds for it.
replay_stored :
    (operation_id user_id : ℕ) (route : Route) (request_hash : ℕ) (response : Response)
    (store : Store)
    → store.operations operation_id
      ≡ some (record {
        user_id = user_id;
        route = route;
        request_hash = request_hash;
        response = response;
      })
    → operation_replay operation_id user_id route request_hash store ≡ ok (some response)
unfolding operation_replay route_eq
replay_stored operation_id user_id save_draft_route request_hash response store e =
    ground (arith, e)
replay_stored operation_id user_id complete_route request_hash response store e = ground (arith, e)
replay_stored operation_id user_id abandon_route request_hash response store e = ground (arith, e)

-- What a save that returned went through.
abbrev pub Saved :
    SessionFence
    → SessionPolicy
    → (now : ℕ) → Option ℕ
    → (expected_revision : ℕ) → List RawSegment
    → (operation_id request_hash : ℕ) → Store
    → Response × Store
    → Type 0
Saved fence policy now lease_token expected_revision dirty operation_id request_hash store out =
    (work : Work) × (version : Version) × (segments : List Segment) × (lock_assignment fence.user_id
        lease_token store
      ≡ ok work)
    × (require_round work.assignment store ≡ ok tt)
    × (store.versions work.assignment.working_version_id ≡ some version)
    × (version.revision ≡ expected_revision)
    × (apply_dirty_segments dirty version.segments ≡ ok segments)
    × (out
        ≡ write_save fence policy now operation_id request_hash work.assignment.working_version_id
            version segments store)

ok_eq : {a b : Response × Store} → ◌≡◌ {A = Result Fault (Response × Store)} (ok a) (ok b) → b ≡ a
ok_eq e = cc

pub save_new-Saved :
    (fence : SessionFence) (policy : SessionPolicy) (now : ℕ) (lease_token : Option ℕ)
    (expected_revision : ℕ) (dirty : List RawSegment) (operation_id request_hash : ℕ)
    (store : Store) {out : Response × Store}
    → save_new fence policy now lease_token expected_revision dirty operation_id request_hash store
      ≡ ok out
    → Saved fence policy now lease_token expected_revision dirty operation_id request_hash store out
unfolding save_new
save_new-Saved fence policy now lease_token expected_revision dirty operation_id request_hash store
      e =
    let (work, locked, e1) = bind-ok (lock_assignment fence.user_id lease_token store) e in
    let (opened, round, e2) = bind-ok (require_round work.assignment store) e1 in
    let (version, found, e3) =
      bind-ok (or_raise (store.versions work.assignment.working_version_id) version_gone) e2 in
    let (same, e4) =
      raise_if-ok (not (version.revision == expected_revision)) (revision_conflict version.revision)
        e3 in
    let (segments, applied, e5) =
      bind-ok (passing segment (apply_dirty_segments dirty version.segments)) e4 in
    (
      work,
      version,
      segments,
      locked,
      round,
      or_raise-ok (store.versions work.assignment.working_version_id) version_gone found,
      expected version.revision expected_revision same,
      passing-ok segment (apply_dirty_segments dirty version.segments) applied,
      ok_eq e5,
    )

-- Where the guards pass, a save replays or does its work.
pub save_draft-guards :
    (fence : SessionFence) (policy : SessionPolicy) (now : ℕ) (lease_token : Option ℕ)
    (expected_revision : ℕ) (dirty : List RawSegment) (operation_id request_hash : ℕ)
    (store : Store) {user : Annotator}
    → lock_active_annotator fence.user_id store.accounts ≡ ok user
    → require_session_fence fence now store.accounts ≡ ok tt
    → save_draft fence policy now lease_token expected_revision dirty
        (uuid operation_id)
        request_hash
        store
      ≡ (operation_replay operation_id fence.user_id save_draft_route request_hash store
          >>= λ prior. elim prior [
            | some response ↦ ok (response, store)
            | none ↦
                save_new fence policy now lease_token expected_revision dirty operation_id
                  request_hash store
          ])
unfolding save_draft validate_uuid passing
save_draft-guards fence policy now lease_token expected_revision dirty operation_id request_hash
      store locked passed =
    rw (locked, passed) refl

write_save-logged :
    (fence : SessionFence) (policy : SessionPolicy) (now operation_id request_hash version_id : ℕ)
    (version : Version) (segments : List Segment) (store : Store)
    → operation_replay operation_id fence.user_id save_draft_route request_hash
        (write_save fence policy now operation_id request_hash version_id version segments store).1
      ≡ ok (
          some
            (write_save fence policy now operation_id request_hash version_id version segments
              store).0)
unfolding write_save store_operation touch put
write_save-logged fence policy now operation_id request_hash version_id version segments store =
    replay_stored operation_id fence.user_id save_draft_route request_hash _ _ (ground arith)

answered-logged :
    (fence : SessionFence) (policy : SessionPolicy) (now : ℕ) (lease_token : Option ℕ)
    (expected_revision : ℕ) (dirty : List RawSegment) (operation_id request_hash : ℕ)
    (store : Store) {response : Response} {after : Store} (prior : Option Response)
    → operation_replay operation_id fence.user_id save_draft_route request_hash store ≡ ok prior
    → ◌≡◌ {A = Result Fault (Response × Store)}
        (elim prior [
          | some response ↦ ok (response, store)
          | none ↦
              save_new fence policy now lease_token expected_revision dirty operation_id
                request_hash store
        ])
        (ok (response, after))
    → operation_replay operation_id fence.user_id save_draft_route request_hash after
      ≡ ok (some response)
answered-logged fence policy now lease_token expected_revision dirty operation_id request_hash store
      (some r) replayed e =
    subst
      (λ out.
        operation_replay operation_id fence.user_id save_draft_route request_hash out.1
        ≡ ok (some out.0))
      (sym (ok_eq e)) replayed
answered-logged fence policy now lease_token expected_revision dirty operation_id request_hash store
      none replayed e =
    let (work, version, segments, locked, round, found, same, applied, out) =
      save_new-Saved fence policy now lease_token expected_revision dirty operation_id request_hash
        store e in
    subst
      (λ out.
        operation_replay operation_id fence.user_id save_draft_route request_hash out.1
        ≡ ok (some out.0))
      (sym out)
      (write_save-logged fence policy now operation_id request_hash
        work.assignment.working_version_id version segments store)

-- A save that returned either replayed the log or did its work; both leave its reply in the log.
save_draft-logged :
    (fence : SessionFence) (policy : SessionPolicy) (now : ℕ) (lease_token : Option ℕ)
    (expected_revision : ℕ) (dirty : List RawSegment) (operation_id request_hash : ℕ)
    (store : Store) {response : Response} {after : Store}
    → save_draft fence policy now lease_token expected_revision dirty
        (uuid operation_id)
        request_hash
        store
      ≡ ok (response, after)
    → operation_replay operation_id fence.user_id save_draft_route request_hash after
      ≡ ok (some response)
unfolding save_draft validate_uuid passing
save_draft-logged fence policy now lease_token expected_revision dirty operation_id request_hash
      store e =
    let (user, locked, e1) =
      bind-ok (passing session (lock_active_annotator fence.user_id store.accounts)) e in
    let (opened, passed, e2) =
      bind-ok (passing session (require_session_fence fence now store.accounts)) e1 in
    let (prior, replayed, e3) =
      bind-ok (operation_replay operation_id fence.user_id save_draft_route request_hash store)
        e2 in
    answered-logged fence policy now lease_token expected_revision dirty operation_id request_hash
      store prior replayed e3

-- A save that is sent again, with the same operation id and body, is answered with the reply of the
-- first and changes nothing: neither the draft nor its revision moves again. It may come at any later
-- time at which a session of the user passes, also under another lease or with another expected
-- revision.
pub save_draft-once :
    (fence again : SessionFence) (policy : SessionPolicy) (now later : ℕ)
    (lease_token lease_token' : Option ℕ) (expected_revision expected_revision' : ℕ)
    (dirty dirty' : List RawSegment) (operation_id request_hash : ℕ) (store : Store)
    {response : Response} {after : Store} {user : Annotator}
    → save_draft fence policy now lease_token expected_revision dirty
        (uuid operation_id)
        request_hash
        store
      ≡ ok (response, after)
    → again.user_id ≡ fence.user_id
    → lock_active_annotator again.user_id after.accounts ≡ ok user
    → require_session_fence again later after.accounts ≡ ok tt
    → save_draft again policy later lease_token' expected_revision' dirty'
        (uuid operation_id)
        request_hash
        after
      ≡ ok (response, after)
save_draft-once fence again policy now later lease_token lease_token' r r' dirty dirty' operation_id
      request_hash store {response} {after} e same locked passed =
    let logged =
      save_draft-logged fence policy now lease_token r dirty operation_id request_hash store e in
    save_draft-guards again policy later lease_token' r' dirty' operation_id request_hash after
      locked passed
    ∙ rw (same, logged) refl
