-- ===== src/CrossCheck/Lifecycle/Closed.antt =====
-- A closed round stays as it is, and the revision tells whether a round has changed.
use egyptian_arabic_annotati.Base.{
  ℕ, ◌≤◌, ◌≡◌, inl, inr, refl, sym, ap, subst, ◌∙◌, false, Option, none, some, ℕ_discrete, arith,
}
use egyptian_arabic_annotati.Drafts.State.{Round, RoundState, is_open, Store}
use egyptian_arabic_annotati.CrossCheck.Admin.{World}
use egyptian_arabic_annotati.CrossCheck.Commit.Current.{put_other, some_inj}
use egyptian_arabic_annotati.CrossCheck.Lifecycle.{
  ◌⟶◌, pass, queue, cancel, adjudicate, invalidate, Advances, RoundMove, kept, advanced, Follows,
}
use egyptian_arabic_annotati.CrossCheck.Lifecycle.Reach.{Step, Reach, start, further}
use egyptian_arabic_annotati.CrossCheck.Lifecycle.Steps.{Step-cases}

-- What becomes of a round that is there.
pub data Later (before : Round) : Option Round → Type 0 where
  unchanged : Later before (some before)
  changed : {after : Round} → Advances before after → Later before (some after)

move-Later :
    {old new : Option Round} {before : Round}
    → RoundMove old new
    → old ≡ some before
    → Later before new
move-Later (kept) e = subst (Later _) (sym e) unchanged
move-Later {before} (advanced {after} advances) e =
    changed (subst (λ r. Advances r after) (some_inj e) advances)

Follows-Later :
    (store after : Store) (k : ℕ) {before : Round}
    → Follows store after
    → store.rounds k ≡ some before
    → Later before (after.rounds k)
Follows-Later store after k follows there = move-Later (follows k) there

taken : {old : Option Round} {before : Round} → old ≡ none → old ≡ some before → ⊥
taken e f = cc (sym e ∙ f)

pub Step-Later :
    {w v : World} (k : ℕ) {before : Round}
    → Step w v
    → w.store.rounds k ≡ some before
    → Later before (v.store.rounds k)
Step-Later {w} {v} k {before} step there = elim (Step-cases step) [
  | inl (follows, ids) ↦ Follows-Later w.store v.store k follows there
  | inr claim ↦ elim (ℕ_discrete k claim.round_id) [
    | yes same ↦ absurd (taken claim.new_id (ap w.store.rounds (sym same) ∙ there))
    | no differs ↦
        subst (Later before)
          (sym (
            ap (λ rows. rows k) claim.rounds_left
            ∙ put_other w.store.rounds claim.round_id k _ differs
            ∙ there))
          unchanged
  ]
]

-- What a round was and what it is later: the revision counts the changes, a closed round has none,
-- and what the round compares, and for whom, stays.
pub record History (before after : Round) : Type 0 where
  pub grows : before.revision ≤ after.revision
  pub tells : after.revision ≡ before.revision → after ≡ before
  pub closed : is_open before.state ≡ false → after ≡ before
  pub same_task : after.task_id ≡ before.task_id
  pub same_original : after.original_version_id ≡ before.original_version_id
  pub same_secondary : after.secondary_version_id ≡ before.secondary_version_id
  pub same_annotator : after.secondary_annotator_id ≡ before.secondary_annotator_id
  pub same_threshold : after.threshold_bps ≡ before.threshold_bps

History-refl : (round : Round) → History round round
History-refl round = record {
  grows = omega arith;
  tells = λ e. refl;
  closed = λ e. refl;
  same_task = refl;
  same_original = refl;
  same_secondary = refl;
  same_annotator = refl;
  same_threshold = refl;
}

closed_moves : {a b : RoundState} → a ⟶ b → is_open a ≡ false → ⊥
closed_moves pass e = cc e
closed_moves queue e = cc e
closed_moves cancel e = cc e
closed_moves adjudicate e = cc e
closed_moves (invalidate e) f = cc (sym e ∙ f)

History-Advances : (a b c : Round) → History a b → Advances b c → History a c
History-Advances a b c h step = record {
  grows = omega (arith, h.grows, step.counted);
  tells = λ e. absurd (omega (arith, h.grows, step.counted, e));
  closed = λ e. absurd (closed_moves step.moved (ap (λ r. is_open r.state) (h.closed e) ∙ e));
  same_task = step.same_task ∙ h.same_task;
  same_original = step.same_original ∙ h.same_original;
  same_secondary = step.same_secondary ∙ h.same_secondary;
  same_annotator = step.same_annotator ∙ h.same_annotator;
  same_threshold = step.same_threshold ∙ h.same_threshold;
}

History-Later :
    (a b : Round) {row : Option Round}
    → History a b
    → Later b row
    → (c : Round) × (row ≡ some c) × History a c
History-Later a b h unchanged = (b, refl, h)
History-Later a b h (changed {after} step) = (after, refl, History-Advances a b after h step)

-- Whatever transactions are committed after it, in any order, a round that is there stays there. Its
-- revision never falls, and if the revision is the same then so is the whole row, so that a command
-- that names the revision it has seen is about the row that it has seen. A round that has passed, was
-- decided, cancelled or invalidated never changes again. What a round compares, its second annotator
-- and its threshold stay the same.
pub Reach-History :
    {w v : World} (k : ℕ) {before : Round}
    → Reach w v
    → w.store.rounds k ≡ some before
    → (after : Round) × (v.store.rounds k ≡ some after) × History before after
Reach-History k {before} start there = (before, there, History-refl before)
Reach-History k {before} (further path step) there =
    let (middle, between, history) = Reach-History k path there in
    History-Later before middle history (Step-Later k step between)
