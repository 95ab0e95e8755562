-- ===== src/Workspace/Invariant/Attach.antt =====
-- The attachment of a VM and the heartbeat keep the invariant.
use aivirteach_server.Common.{
  ℕ, ◌≡◌, ◌≢◌, refl, ap, Bool, true, false, not, ◌&&◌, Option, none, some, List, [], ◌∷◌, ◌==◌,
  delete_rows, count_rows, arith, Bool-cases, inl, inr,
}
use aivirteach_server.Process.{after}
use aivirteach_server.Database.{
  Database, same_lab, is_pending, update_workspaces, delete_provisions,
}
use aivirteach_server.Database.Rows.{
  Workspace, WorkspaceProvision, LabId, initial, numbered, null_text,
}
use aivirteach_server.Workspace.{CreateVmResult, is_creating_at}
use aivirteach_server.Workspace.Transactions.{attach, touch, to_running, seen_now, row_or_throw}
use aivirteach_server.Workspace.Invariant.{owns, is_recorded, DistinctLabs, Inv}
use aivirteach_server.Workspace.Invariant.Statements.{
  is_recorded-delete_rows, update_workspaces-Inv, delete_provisions-Inv,
}

same_lab-eq : (a b : LabId) → same_lab a b ≡ true → a ≡ b
same_lab-eq (initial i) (initial j) h = ground arith
same_lab-eq (numbered i g) (numbered j k) h = ground arith
same_lab-eq null_text null_text h = refl
same_lab-eq _ _ h = cc

abbrev is_own_pending : LabId → WorkspaceProvision → Bool
is_own_pending l p = same_lab p.lab_id l && is_pending p

-- A claimed record is among the records.
recorded_of_count :
    (l : LabId) (ps : List WorkspaceProvision)
    → is_recorded ps l ≡ false
    → count_rows (is_own_pending l) ps ≡ 0
recorded_of_count l [] h = refl
recorded_of_count l (p ∷ ps) h = ground (arith, recorded_of_count l ps)

-- When the claim took a record, none is left for that VM.
claimed_gone :
    (l : LabId) (ps : List WorkspaceProvision)
    → DistinctLabs ps
    → count_rows (is_own_pending l) ps ≢ 0
    → is_recorded (delete_rows (is_own_pending l) ps) l ≡ false
claimed_gone l [] d n = refl
claimed_gone l (p ∷ ps) d n = elim (Bool-cases (same_lab p.lab_id l)) [
  | inl t ↦
      let rest : is_recorded ps l ≡ false = rw (same_lab-eq p.lab_id l t) at d.0 in
      ground (
        arith,
        rest,
        recorded_of_count l ps rest,
        is_recorded-delete_rows (is_own_pending l) l ps rest,
      )
  | inr t ↦ ground (arith, claimed_gone l ps d.2)
]

module _ (w : Database) (v : Inv w) where
  pub attach-Inv :
      (id generation : ℕ) (l : LabId) (result : CreateVmResult)
      → owns id l ≡ true
      → result.lab_id ≡ l
      → Inv (after w (attach id generation l result w))
  unfolding attach delete_provisions update_workspaces
  attach-Inv id generation l result own e =
      elim (Bool-cases (count_rows (is_own_pending l) w.provisions == 0)) [
        | inl t ↦ rw t (delete_provisions-Inv w v (is_own_pending l))
        | inr t ↦ elim (Bool-cases (count_rows (is_creating_at id generation) w.workspaces == 0)) [
          | inl s ↦ rw (t, s) v
          | inr s ↦
              rw (t, s)
                (update_workspaces-Inv _ (delete_provisions-Inv w v (is_own_pending l))
                  (is_creating_at id generation) (to_running result) (λ r. refl)
                  (λ r m h. (
                    λ up. rw e (ap not (claimed_gone l w.provisions v.labs (λ z. ground arith))),
                    rw e (ground arith),
                  )))
        ]
      ]

  touch_end : (o : Option Workspace) (w' : Database) → Inv w' → Inv (after w (row_or_throw o w'))
  touch_end none w' v' = v
  touch_end (some r) w' v' = v'

  pub touch-Inv : (id : ℕ) → Inv (after w (touch id w))
  unfolding touch update_workspaces
  touch-Inv id =
      touch_end _ _ (update_workspaces-Inv w v (λ r. r.id == id) seen_now (λ r. refl) (λ r m h. h))
