-- ===== src/CrossCheck/Draw/Claimed.antt =====
-- What a claim of a cross check found, and what it wrote.
use egyptian_arabic_annotati.Base.{
  ℕ, ◌≡◌, refl, subst, Bool, true, false, not, ◌&&◌, Option, none, some, ◌==◌,
}
use egyptian_arabic_annotati.Sessions.State.{find_id}
use egyptian_arabic_annotati.Drafts.State.{Version}
use egyptian_arabic_annotati.CrossCheck.Admin.{World, PoolRow}
use egyptian_arabic_annotati.CrossCheck.Claim.{
  ◌>>=◌, Candidate, candidate, joined, is_candidate, published_by, is_free, keep_if,
}
use egyptian_arabic_annotati.CrossCheck.Commit.Current.{some_inj}

bind-some {ℓ κ} :
    {A : Type ℓ} {B : Type κ} (o : Option A) {f : A → Option B} {b : B}
    → (o >>= f) ≡ some b
    → (a : A) × (o ≡ some a) × (f a ≡ some b)
bind-some none e = absurd (cc e)
bind-some (some a) e = (a, refl, e)

keep_if-some {ℓ} :
    {A : Type ℓ} (test : Bool) (o : Option A) {a : A}
    → keep_if test o ≡ some a
    → (test ≡ true) × (o ≡ some a)
keep_if-some true o e = (refl, e)
keep_if-some false o e = absurd (cc e)

pub both : (a b : Bool) → (a && b) ≡ true → (a ≡ true) × (b ≡ true)
both true true e = (refl, refl)
both true false e = absurd (cc e)
both false b e = absurd (cc e)

pair_inj : {A B : Type 0} {a b : A × B} → ◌≡◌ {A = Option (A × B)} (some a) (some b) → a ≡ b
pair_inj e = cc

negated : {b : Bool} → not b ≡ true → b ≡ false
negated {b = true} e = absurd (cc e)
negated {b = false} e = refl

module _ (matches : ℕ → Bool) (now user_id : ℕ) (world : World) where
  -- The rows that a candidate is made of.
  pub record IsJoined (found : Candidate) : Type 0 where
    pub task_row : world.store.tasks found.task_id ≡ some found.task
    pub current : found.task.current_published_version_id ≡ some found.original_version_id
    pub original : Version
    pub original_row : world.store.versions found.original_version_id ≡ some original
    pub author : published_by original ≡ some found.original_annotator_id
    pub baseline_row : world.store.versions found.baseline_version_id ≡ some found.baseline

  joined-IsJoined :
      (task_id : ℕ) {out : Candidate × PoolRow}
      → joined matches now user_id world task_id ≡ some out
      → (out.0.task_id ≡ task_id) × IsJoined out.0
  unfolding joined
  joined-IsJoined task_id e =
      let (task, task_row, e1) = bind-some (world.store.tasks task_id) e in
      let (row, pool_row, e2) = bind-some (world.pool task_id) e1 in
      let (version_id, named, e3) = bind-some task.current_published_version_id e2 in
      let (version, version_row, e4) = bind-some (world.store.versions version_id) e3 in
      let (author, by, e5) = bind-some (published_by version) e4 in
      let (orig, known, e6) = bind-some (find_id author world.store.accounts.annotators) e5 in
      let (baseline_id, based, e7) = bind-some row.baseline_version_id e6 in
      let (base, base_row, e8) = bind-some (world.store.versions baseline_id) e7 in
      subst (λ out. (out.0.task_id ≡ task_id) × IsJoined out.0) (pair_inj e8)
        (
          refl,
          record {
            task_row = task_row;
            current = named;
            original = version;
            original_row = version_row;
            author = by;
            baseline_row = base_row;
          },
        )

  -- A candidate: its rows, an author who is not the user, and nothing that keeps the user off.
  pub candidate-cases :
      (task_id : ℕ) {found : Candidate}
      → candidate matches now user_id world task_id ≡ some found
      → (found.task_id ≡ task_id)
        × IsJoined found
        × (found.original_annotator_id == user_id ≡ false)
        × (is_free matches now user_id world found.task_id found.original_version_id ≡ true)
  unfolding candidate is_candidate
  candidate-cases task_id e =
      let ((found, row), rows, e1) = bind-some (joined matches now user_id world task_id) e in
      let (tests, made) =
        keep_if-some (is_candidate matches now user_id world found row) (some found) e1 in
      let (other, t1) = both (not (found.original_annotator_id == user_id)) _ tests in
      let (free, t2) =
        both (is_free matches now user_id world found.task_id found.original_version_id) _ t1 in
      let (same, is_joined) = joined-IsJoined task_id rows in
      subst
        (λ c.
          (c.task_id ≡ task_id)
          × IsJoined c
          × (c.original_annotator_id == user_id ≡ false)
          × (is_free matches now user_id world c.task_id c.original_version_id ≡ true))
        (some_inj made) (same, is_joined, negated other, free)
