-- ===== src/Enrollments/Pointers/Ready.antt =====
-- What each round of `remapPublishedReadingPointers` relies on, and that a round keeps it.
use aivirteach_server.Common.{
  ℕ, ◌≡◌, ◌∙◌, refl, sym, ap, Bool, true, false, String, Option, none, some, List, [], ◌∷◌, map,
  arith, if◌then◌else◌, ◌==◌, ==_iff, is_some, keep, find_first, update_rows, All, All-map,
  All-both, Bool-cases, Option-cases, inl, inr,
}
use aivirteach_server.Learning.{LearningState, remap_reading_position}
use aivirteach_server.Learning.Dict.{Object}
use aivirteach_server.Database.Rows.{Enrollment}
use aivirteach_server.Enrollments.Progress.{store_state}
use aivirteach_server.Enrollments.Pointers.{
  is_pointing, is_moved, has_id, pointing_ids, HasKey, IsReplacing,
}
use aivirteach_server.Enrollments.Pointers.Rows.{
  find-update, All-updated, pointing_moves, moved_clear, has_any, has_any-order_rows,
  All-pointing_ids, has_id_self,
}

-- What the loop relies on: ids are keys, each is found, and each pointing row is still to come.
pub record Ready (c : ℕ) (removed : Object String) (ids : List ℕ) (es : List Enrollment)
    : Type 0 where
  pub key : HasKey es
  pub found : All (λ i. is_some (find_first (has_id i) es) ≡ true) ids
  pub listed : All (λ (r : Enrollment). is_pointing c removed r ≡ true → has_any r.id ids ≡ true) es

listed_here :
    (c : ℕ) (removed : Object String) (es : List Enrollment)
    → All
        (λ (r : Enrollment).
          is_pointing c removed r ≡ true → has_any r.id (pointing_ids c removed es) ≡ true)
        es
listed_here c removed es =
    self es es (λ i h. has_any-order_rows i (keep (is_pointing c removed) es) ∙ h)
  where
    kept_id :
        (e : Enrollment) (es : List Enrollment)
        → is_pointing c removed e ≡ true
        → has_any e.id (map (λ (r : Enrollment). r.id) (keep (is_pointing c removed) (e ∷ es)))
          ≡ true
    kept_id e es h = rw h (rw (has_id_self e.id) refl)

    kept_more :
        (i : ℕ) (e : Enrollment) (es : List Enrollment)
        → has_any i (map (λ (r : Enrollment). r.id) (keep (is_pointing c removed) es)) ≡ true
        → has_any i (map (λ (r : Enrollment). r.id) (keep (is_pointing c removed) (e ∷ es))) ≡ true
    kept_more i e es h = ground arith

    self :
        (xs whole : List Enrollment)
        → ((i : ℕ)
            → has_any i (map (λ (r : Enrollment). r.id) (keep (is_pointing c removed) xs)) ≡ true
            → has_any i (pointing_ids c removed whole) ≡ true)
        → All
            (λ (r : Enrollment).
              is_pointing c removed r ≡ true → has_any r.id (pointing_ids c removed whole) ≡ true)
            xs
    self [] whole f = tt
    self (x ∷ xs) whole f =
        (λ h. f x.id (kept_id x xs h), self xs whole (λ i h. f i (kept_more i x xs h)))

found_here :
    (es : List Enrollment)
    → HasKey es
    → All (λ (r : Enrollment). is_some (find_first (has_id r.id) es) ≡ true) es
found_here es key =
    All-map (λ (r : Enrollment). find_first (has_id r.id) es ≡ some r)
      (λ (r : Enrollment). is_some (find_first (has_id r.id) es) ≡ true) es (λ r h. ap is_some h)
      key

pub Ready-at_first :
    (c : ℕ) (removed : Object String) (es : List Enrollment)
    → HasKey es
    → Ready c removed (pointing_ids c removed es) es
Ready-at_first c removed es key = record {
  key = key;
  found =
      All-pointing_ids (λ i. is_some (find_first (has_id i) es) ≡ true) c removed es
        (found_here es key);
  listed = listed_here c removed es;
}

module _ (c : ℕ) (removed : Object String) (ok : IsReplacing removed) where
  pub not_listed :
      (es : List Enrollment)
      → Ready c removed [] es
      → All (λ (r : Enrollment). is_pointing c removed r ≡ false) es
  not_listed es ready =
      All-map (λ (r : Enrollment). is_pointing c removed r ≡ true → has_any r.id [] ≡ true)
        (λ (r : Enrollment). is_pointing c removed r ≡ false) es (λ r h. none_left r h) ready.listed
    where
      none_left :
          (r : Enrollment)
          → (is_pointing c removed r ≡ true → has_any r.id [] ≡ true)
          → is_pointing c removed r ≡ false
      none_left r h = elim (Bool-cases (is_pointing c removed r)) [
        | inl t ↦ ground (arith, h t)
        | inr f ↦ f
      ]

  -- The row of the id does not point to a removed lesson: nothing changes.
  pub Ready-kept :
      (i : ℕ) (ids : List ℕ) (es : List Enrollment) (e : Enrollment)
      → find_first (has_id i) es ≡ some e
      → is_moved removed e.learning_state ≡ false
      → Ready c removed (i ∷ ids) es
      → Ready c removed ids es
  Ready-kept i ids es e f m ready = record {
    key = ready.key;
    found = ready.found.1;
    listed =
        All-map
          (λ (r : Enrollment).
            (find_first (has_id r.id) es ≡ some r)
            × (is_pointing c removed r ≡ true → has_any r.id (i ∷ ids) ≡ true))
          (λ (r : Enrollment). is_pointing c removed r ≡ true → has_any r.id ids ≡ true) es
          (λ r h p. other r h.0 (h.1 p) p) (All-both _ _ es ready.key ready.listed);
  }
    where
      moved_of : Option Enrollment → Bool
      moved_of none = false
      moved_of (some r) = is_moved removed r.learning_state

      clash : {A : Type 0} → true ≡ false → A
      clash h = cc

      other :
          (r : Enrollment)
          → find_first (has_id r.id) es ≡ some r
          → has_any r.id (i ∷ ids) ≡ true
          → is_pointing c removed r ≡ true
          → has_any r.id ids ≡ true
      other r k a p = elim (Bool-cases (i == r.id)) [
        | inl t ↦ clash (
            sym (pointing_moves c removed ok r p)
            ∙ ap moved_of
                (sym k ∙ ap (λ j. find_first (has_id j) es) (sym ((==_iff i r.id).0 t)) ∙ f)
            ∙ m)
        | inr t ↦ ground (arith, t, a)
      ]

  pub Ready-moved :
      (i : ℕ) (ids : List ℕ) (es : List Enrollment) (state : LearningState)
      → is_moved removed state ≡ true
      → Ready c removed (i ∷ ids) es
      → Ready c removed ids
          (update_rows (has_id i) (store_state (remap_reading_position state removed)) es)
  Ready-moved i ids es state m ready = record {
    key =
        All-updated (λ r. find_first (has_id r.id) (update_rows (has_id i) next es) ≡ some r)
          (has_id i) next es (All-map _ _ es (λ r h. key_of r h) ready.key);
    found = All-map _ _ ids (λ j h. found_of j h) ready.found.1;
    listed =
        All-updated (λ r. is_pointing c removed r ≡ true → has_any r.id ids ≡ true) (has_id i) next
          es (All-map _ _ es (λ r h. listed_of r h) ready.listed);
  }
    where
      next : Enrollment → Enrollment
      next = store_state (remap_reading_position state removed)

      key_of :
          (r : Enrollment)
          → find_first (has_id r.id) es ≡ some r
          → find_first
              (has_id (if has_id i r then next r else r).id)
              (update_rows (has_id i) next es)
            ≡ some (if has_id i r then next r else r)
      key_of r h = elim (Bool-cases (has_id i r)) [
        | inl t ↦ rw t (find-update r.id i next es (λ r. refl) ∙ rw h (rw t refl))
        | inr t ↦ rw t (find-update r.id i next es (λ r. refl) ∙ rw h (rw t refl))
      ]

      found_of :
          (j : ℕ)
          → is_some (find_first (has_id j) es) ≡ true
          → is_some (find_first (has_id j) (update_rows (has_id i) next es)) ≡ true
      found_of j h = elim (Option-cases (find_first (has_id j) es)) [
        | inl e ↦ ground (arith, e)
        | inr (r, e) ↦ ap is_some (find-update j i next es (λ r. refl)) ∙ rw e refl
      ]

      listed_of :
          (r : Enrollment)
          → (is_pointing c removed r ≡ true → has_any r.id (i ∷ ids) ≡ true)
          → is_pointing c removed (if has_id i r then next r else r) ≡ true
          → has_any (if has_id i r then next r else r).id ids ≡ true
      listed_of r h = elim (Bool-cases (has_id i r)) [
        | inl t ↦ rw t (λ p. ground (arith, p, moved_clear c removed ok state m))
        | inr t ↦ rw t (λ p. ground (arith, t, h p))
      ]
