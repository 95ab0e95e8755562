-- ===== src/Workspace/Invariant/Reserve.antt =====
-- The reservation of a VM keeps the invariant.
use aivirteach_server.Common.{
  ℕ, ◌+◌, ◌≡◌, ◌≢◌, refl, true, false, ◌&&◌, Option, none, some, List, [], ◌∷◌, ◌==◌, All,
  All-update_rows, All-map, All-both, update_rows, count_rows, arith, Bool-cases, inl, inr,
}
use aivirteach_server.Process.{after, Outcome, committed, aborted}
use aivirteach_server.Database.{
  Database, same_lab, update_workspaces, update_enrollments, create_provision, new_provision,
  return, continue,
}
use aivirteach_server.Database.Rows.{
  Workspace, WorkspaceProvision, Enrollment, LabId, initial, numbered, null_text,
}
use aivirteach_server.Workspace.{is_creating_at, create_vm_settle_ms}
use aivirteach_server.Workspace.Transactions.{reserve, to_resetting, to_creating}
use aivirteach_server.Workspace.Invariant.{
  owns, is_named, owned, is_recorded, is_up, is_kept, IsSound, has_id, DistinctIds, Inv,
}
use aivirteach_server.Workspace.Invariant.Statements.{update_workspaces-Inv}

-- A workspace that is being created is the only one with its id, so none that is up has it.
others : (id : ℕ) (rs : List Workspace) → has_id id rs ≡ false → All (λ r. (r.id == id) ≡ false) rs
others id [] h = tt
others id (r ∷ rs) h = (ground arith, others id rs (ground arith))

has_id_of_count :
    (id generation : ℕ) (rs : List Workspace)
    → has_id id rs ≡ false
    → count_rows (is_creating_at id generation) rs ≡ 0
has_id_of_count id generation [] h = refl
has_id_of_count id generation (r ∷ rs) h = ground (arith, has_id_of_count id generation rs)

abbrev IsElsewhere : ℕ → Workspace → Type 0
IsElsewhere id r = is_up r ≡ true → (r.id == id) ≡ false

elsewhere :
    (id generation : ℕ) (rs : List Workspace)
    → DistinctIds rs
    → count_rows (is_creating_at id generation) rs ≢ 0
    → All (IsElsewhere id) rs
elsewhere id generation [] d n = tt
elsewhere id generation (r ∷ rs) d n = elim (Bool-cases (is_creating_at id generation r)) [
  | inl t ↦ (
    λ up. ground arith,
    All-map _ (IsElsewhere id) rs (λ x h up. h) (others id rs (ground arith)),
  )
  | inr t ↦
      let rest : count_rows (is_creating_at id generation) rs ≢ 0 = rw t at n in
      (λ up. ground (arith, has_id_of_count id generation rs), elsewhere id generation rs d.1 rest)
]

-- A new record for a VM of `id` is no record of a VM that a workspace elsewhere uses.
owns_apart :
    (id other : ℕ) (l : LabId) (m : LabId)
    → owns id l ≡ true
    → owns other m ≡ true
    → (other == id) ≡ false
    → same_lab l m ≡ false
owns_apart id other (initial i) (initial j) p q h = ground arith
owns_apart id other (numbered i g) (numbered j k) p q h = ground arith
owns_apart id other null_text m p q h = cc
owns_apart id other (initial i) (numbered j k) p q h = refl
owns_apart id other (initial i) null_text p q h = refl
owns_apart id other (numbered i g) (initial j) p q h = refl
owns_apart id other (numbered i g) null_text p q h = refl

pub owns_named : (id : ℕ) (l : LabId) → owns id l ≡ true → is_named l ≡ true
owns_named id (initial i) h = refl
owns_named id (numbered i g) h = refl
owns_named id null_text h = cc

module _ (w : Database) (v : Inv w) where
  -- The enrollments are no part of the invariant.
  locked : (es : List Enrollment) → Inv (record w { enrollments = es })
  locked es = record {
    sound = v.sound;
    distinct = v.distinct;
    fresh = v.fresh;
    labs = v.labs;
    tasks = v.tasks;
  }

module _ (w : Database) (v : Inv w) where
  -- A reservation adds a record for a VM that no workspace uses.
  add_record-IsSound :
      (id : ℕ) (p : WorkspaceProvision)
      → owns id p.lab_id ≡ true
      → (r : Workspace) → IsElsewhere id r × IsSound w.provisions r
      → IsSound (p ∷ w.provisions) r
  add_record-IsSound id p own r h = (λ up. kept r.lab_id (h.0 up) (h.1.0 up) h.1.1, h.1.1)
    where
      kept :
          (m : Option LabId)
          → (r.id == id) ≡ false
          → is_kept w.provisions m ≡ true
          → owned r.id m ≡ true
          → is_kept (p ∷ w.provisions) m ≡ true
      kept none far k o = cc
      kept (some m) far k o = ground (arith, owns_apart id r.id p.lab_id m own o far)

  create_provision-Inv :
      (id generation : ℕ) (l : LabId) (delay : ℕ)
      → owns id l ≡ true
      → All (IsElsewhere id) w.workspaces
      → Inv (after w (create_provision l id generation delay w))
  unfolding create_provision
  create_provision-Inv id generation l delay own far =
      elim (Bool-cases (is_recorded w.provisions l)) [
        | inl t ↦ rw t v
        | inr t ↦ rw t (record {
          sound =
              All-map _ _ w.workspaces
                (add_record-IsSound id (new_provision l id generation (w.now + delay)) own)
                (All-both _ _ w.workspaces far v.sound);
          distinct = v.distinct;
          fresh = v.fresh;
          labs = (t, owns_named id l own, v.labs);
          tasks = v.tasks;
        })
      ]

-- A transaction that rolls back leaves the world as it was before its first statement.
roll_back :
    (w w' : Database) (o : Outcome Database (Unit {0}))
    → Inv w
    → Inv (after w' o)
    → Inv (after w (continue o (λ u. return true)))
roll_back w w' (committed u w'') v v' = v'
roll_back w w' (aborted e) v v' = v

module _ (w : Database) (v : Inv w) where
  reserve_live :
      (id generation : ℕ) (l : LabId)
      → owns id l ≡ true
      → count_rows (is_creating_at id generation) w.workspaces ≢ 0
      → All (IsElsewhere id) (
          update_rows
            (is_creating_at id generation)
            (λ r. record (to_creating w.now r) { updated_at = w.now })
            w.workspaces)
  reserve_live id generation l own n =
      All-update_rows (IsElsewhere id) (is_creating_at id generation) _ w.workspaces
        (λ r m h up. ground arith) (elsewhere id generation w.workspaces v.distinct n)

  pub reserve-Inv :
      (id enrollment generation' generation : ℕ) (l : LabId)
      → owns id l ≡ true
      → Inv (after w (reserve id enrollment generation' generation l w))
  unfolding reserve update_enrollments update_workspaces
  reserve-Inv id enrollment generation' generation l own =
      let at = λ (e : Enrollment). e.id == enrollment && e.generation == generation' && e.active in
      let w' = record w {
        enrollments = update_rows at (λ e. record e { active = true }) w.enrollments;
      } in
      let v' = locked w v w'.enrollments in
      let p = is_creating_at id generation in
      let w'' = after w' (update_workspaces p to_creating w') in
      let v'' = update_workspaces-Inv w' v' p to_creating (λ r. refl) (λ r m h. (λ up. cc, h.1)) in
      elim (Bool-cases (count_rows at w.enrollments == 0)) [
        | inl t ↦
            rw t (update_workspaces-Inv w' v' p to_resetting (λ r. refl) (λ r m h. (λ up. cc, h.1)))
        | inr t ↦ elim (Bool-cases (count_rows p w.workspaces == 0)) [
          | inl s ↦ rw (t, s) v''
          | inr s ↦
              rw (t, s)
                (roll_back w w'' (create_provision l id generation create_vm_settle_ms w'') v (
                  create_provision-Inv w'' v'' id generation l create_vm_settle_ms own
                    (reserve_live id generation l own (λ z. ground arith))))
        ]
      ]
