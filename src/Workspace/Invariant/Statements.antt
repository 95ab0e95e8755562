-- ===== src/Workspace/Invariant/Statements.antt =====
-- The statements keep the invariant.
use aivirteach_server.Common.{
  ℕ, ◌<◌, ◌≡◌, refl, ◌∙◌, ap, Bool, true, false, not, Option, none, some, List, [], ◌∷◌,
  All-update_rows, All-delete_rows, All-map, update_rows, delete_rows, arith, Bool-cases, inl, inr,
}
use aivirteach_server.Process.{after}
use aivirteach_server.Database.{
  Database, update_workspaces, delete_workspaces, update_provisions, delete_provisions,
}
use aivirteach_server.Database.Rows.{Workspace, WorkspaceProvision, LabId}
use aivirteach_server.Workspace.Invariant.{
  is_recorded, is_kept, IsSound, has_id, DistinctIds, DistinctLabs, Inv,
}

has_id-update_rows :
    (p : Workspace → Bool) (f : Workspace → Workspace) (id : ℕ) (rs : List Workspace)
    → ((r : Workspace) → (f r).id ≡ r.id)
    → has_id id (update_rows p f rs) ≡ has_id id rs
has_id-update_rows p f id [] h = refl
has_id-update_rows p f id (r ∷ rs) h = ground (arith, h r, has_id-update_rows p f id rs h)

DistinctIds-update_rows :
    (p : Workspace → Bool) (f : Workspace → Workspace) (rs : List Workspace)
    → ((r : Workspace) → (f r).id ≡ r.id)
    → DistinctIds rs
    → DistinctIds (update_rows p f rs)
DistinctIds-update_rows p f [] h d = tt
DistinctIds-update_rows p f (r ∷ rs) h d = ground (
  arith,
  h r,
  has_id-update_rows p f (f r).id rs h,
  has_id-update_rows p f r.id rs h,
  DistinctIds-update_rows p f rs h d.1,
)

has_id-delete_rows :
    (p : Workspace → Bool) (id : ℕ) (rs : List Workspace)
    → has_id id rs ≡ false
    → has_id id (delete_rows p rs) ≡ false
has_id-delete_rows p id [] h = refl
has_id-delete_rows p id (r ∷ rs) h = ground (arith, has_id-delete_rows p id rs)

DistinctIds-delete_rows :
    (p : Workspace → Bool) (rs : List Workspace) → DistinctIds rs → DistinctIds (delete_rows p rs)
DistinctIds-delete_rows p [] d = tt
DistinctIds-delete_rows p (r ∷ rs) d =
    ground (arith, has_id-delete_rows p r.id rs, DistinctIds-delete_rows p rs d.1)

pub is_recorded-delete_rows :
    (p : WorkspaceProvision → Bool) (l : LabId) (ps : List WorkspaceProvision)
    → is_recorded ps l ≡ false
    → is_recorded (delete_rows p ps) l ≡ false
is_recorded-delete_rows p l [] h = refl
is_recorded-delete_rows p l (q ∷ ps) h = ground (arith, is_recorded-delete_rows p l ps)

DistinctLabs-delete_rows :
    (p : WorkspaceProvision → Bool) (ps : List WorkspaceProvision)
    → DistinctLabs ps
    → DistinctLabs (delete_rows p ps)
DistinctLabs-delete_rows p [] d = tt
DistinctLabs-delete_rows p (q ∷ ps) d =
    ground (arith, is_recorded-delete_rows p q.lab_id ps, DistinctLabs-delete_rows p ps d.2)

is_recorded-update_rows :
    (p : WorkspaceProvision → Bool) (f : WorkspaceProvision → WorkspaceProvision) (l : LabId)
    (ps : List WorkspaceProvision)
    → ((q : WorkspaceProvision) → (f q).lab_id ≡ q.lab_id)
    → is_recorded (update_rows p f ps) l ≡ is_recorded ps l
is_recorded-update_rows p f l [] h = refl
is_recorded-update_rows p f l (q ∷ ps) h = elim (Bool-cases (p q)) [
  | inl t ↦ rw (t, h q, is_recorded-update_rows p f l ps h)
  | inr t ↦ rw (t, is_recorded-update_rows p f l ps h)
]

DistinctLabs-update_rows :
    (p : WorkspaceProvision → Bool) (f : WorkspaceProvision → WorkspaceProvision)
    (ps : List WorkspaceProvision)
    → ((q : WorkspaceProvision) → (f q).lab_id ≡ q.lab_id)
    → DistinctLabs ps
    → DistinctLabs (update_rows p f ps)
DistinctLabs-update_rows p f [] h d = tt
DistinctLabs-update_rows p f (q ∷ ps) h d = elim (Bool-cases (p q)) [
  | inl t ↦
      rw (t, h q, is_recorded-update_rows p f q.lab_id ps h)
        (d.0, d.1, DistinctLabs-update_rows p f ps h d.2)
  | inr t ↦
      rw (t, is_recorded-update_rows p f q.lab_id ps h)
        (d.0, d.1, DistinctLabs-update_rows p f ps h d.2)
]

module _ (w : Database) (v : Inv w) where
  -- A change of workspaces that keeps their ids and their soundness.
  pub update_workspaces-Inv :
      (p : Workspace → Bool) (f : ℕ → Workspace → Workspace)
      → ((r : Workspace) → (f w.now r).id ≡ r.id)
      → ((r : Workspace) → p r ≡ true → IsSound w.provisions r → IsSound w.provisions (f w.now r))
      → Inv (after w (update_workspaces p f w))
  unfolding update_workspaces
  update_workspaces-Inv p f same keeps = record {
    sound = All-update_rows (IsSound w.provisions) p _ w.workspaces keeps v.sound;
    distinct = DistinctIds-update_rows p _ w.workspaces same v.distinct;
    fresh =
        All-update_rows (λ r. r.id < w.next_id) p _ w.workspaces (λ r h below. rw (same r) below)
          v.fresh;
    labs = v.labs;
    tasks = v.tasks;
  }

  pub delete_workspaces-Inv : (p : Workspace → Bool) → Inv (after w (delete_workspaces p w))
  unfolding delete_workspaces
  delete_workspaces-Inv p = record {
    sound = All-delete_rows (IsSound w.provisions) p w.workspaces v.sound;
    distinct = DistinctIds-delete_rows p w.workspaces v.distinct;
    fresh = All-delete_rows (λ r. r.id < w.next_id) p w.workspaces v.fresh;
    labs = v.labs;
    tasks = v.tasks;
  }

  IsSound-fewer :
      (p : WorkspaceProvision → Bool) (r : Workspace)
      → IsSound w.provisions r
      → IsSound (delete_rows p w.provisions) r
  IsSound-fewer p r h = (λ up. kept r.lab_id (h.0 up), h.1)
    where
      kept :
          (l : Option LabId)
          → is_kept w.provisions l ≡ true
          → is_kept (delete_rows p w.provisions) l ≡ true
      kept none k = cc
      kept (some l) k = ground (arith, is_recorded-delete_rows p l w.provisions)

  pub delete_provisions-Inv :
      (p : WorkspaceProvision → Bool) → Inv (after w (delete_provisions p w))
  unfolding delete_provisions
  delete_provisions-Inv p = record {
    sound = All-map (IsSound w.provisions) _ w.workspaces (IsSound-fewer p) v.sound;
    distinct = v.distinct;
    fresh = v.fresh;
    labs = DistinctLabs-delete_rows p w.provisions v.labs;
    tasks = v.tasks;
  }

  is_kept-update_rows :
      (p : WorkspaceProvision → Bool) (f : WorkspaceProvision → WorkspaceProvision)
      → ((q : WorkspaceProvision) → (f q).lab_id ≡ q.lab_id)
      → (l : Option LabId) → is_kept (update_rows p f w.provisions) l ≡ is_kept w.provisions l
  is_kept-update_rows p f h none = refl
  is_kept-update_rows p f h (some l) = ap not (is_recorded-update_rows p f l w.provisions h)

  -- A change of cleanup records that keeps the VMs that they name.
  pub update_provisions-Inv :
      (p : ℕ → WorkspaceProvision → Bool) (f : ℕ → WorkspaceProvision → WorkspaceProvision)
      → ((q : WorkspaceProvision) → (f w.now q).lab_id ≡ q.lab_id)
      → Inv (after w (update_provisions p f w))
  unfolding update_provisions
  update_provisions-Inv p f same = record {
    sound =
        All-map (IsSound w.provisions) _ w.workspaces
          (λ r h. (λ up. is_kept-update_rows (p w.now) (f w.now) same r.lab_id ∙ h.0 up, h.1))
          v.sound;
    distinct = v.distinct;
    fresh = v.fresh;
    labs = DistinctLabs-update_rows (p w.now) (f w.now) w.provisions same v.labs;
    tasks = v.tasks;
  }
