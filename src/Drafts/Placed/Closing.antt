-- ===== src/Drafts/Placed/Closing.antt =====
-- deleteModule and deleteLesson renumber the rows behind a deleted one by way of a large offset.
use aivirteach_server.Common.{
  ℕ, ◌+◌, ◌-◌, ◌≤◌, ◌≡◌, refl, sym, ap, ◌∙◌, Bool, true, false, ◌&&◌, ◌||◌, List, arith, ◌==◌, map,
  any, keep, count_rows, update_rows, order_rows, All, All-map, All-keep, All-kept, All-order_rows,
  any-order_rows, count-order_rows, count-keep_le, Bool-cases, inl, inr,
}
use aivirteach_server.Process.{Outcome, committed}
use aivirteach_server.Drafts.Placed.{
  Placed, each, is_after, is_clear, lift, lift_where, update_row, pull_row, close_gap,
  is_placed_before, position_offset,
}
use aivirteach_server.Drafts.Placed.Phase.{PlacedLaws, run_phase}
use aivirteach_server.Drafts.Placed.Apart.{
  is_clear-map, put_if, id-put_if, IsBehind, lifted, pulled, lifted_apart, pulled_apart,
}
use aivirteach_server.Drafts.Placed.Rows.{own_rows, listed, same_map, map_stays, same_update}

module _ {A : Type 0} (P : Placed A) (laws : PlacedLaws P) (parent n : ℕ) (rows : List A)
    (clear : is_clear P rows ≡ true) (ids : (i : ℕ) → count_rows (λ a. P.id a == i) rows ≤ 1)
    (behind : All (IsBehind P laws parent n) rows) where
  abbrev later : List A
  later = keep (is_after P parent n) rows

  abbrev done : List A → ℕ → Bool
  done xs i = false || any (λ a. P.id a == i) xs

  lift_phase :
      lift_where P (is_after P parent n) rows
      ≡ committed tt (map (lifted P laws parent n (done later)) rows)
  lift_phase =
      ap (lift_where_from later) (sym start)
      ∙ run_phase P (is_after P parent n) rows (lifted P laws parent n) (λ a. lift P)
          (λ T.
            is_clear-map P (IsBehind P laws parent n) (lifted P laws parent n T) rows
              (lifted_apart P laws parent n T) behind clear)
          (λ T r. id-put_if P laws _ _ r) (λ S T r e. rw e refl)
          (λ T a t f. rw (t, f) (ground arith)) later (λ i. false)
          (All-kept (is_after P parent n) rows)
          (All-keep _ (is_after P parent n) rows (own_rows P.id rows ids)) (λ i e. cc)
          (λ i. omega (arith, ids i, count-keep_le (λ a. P.id a == i) (is_after P parent n) rows))
    where
      lift_where_from : List A → List A → Outcome (List A) (Unit {0})
      lift_where_from xs rs = each xs (λ a. update_row P (P.id a) (lift P)) rs

      none_lifted :
          (c : Bool) (r : A) → put_if P laws (c && false) (P.position r + position_offset) r ≡ r
      none_lifted true r = refl
      none_lifted false r = refl

      start : map (lifted P laws parent n (λ i. false)) rows ≡ rows
      start =
          map_stays (lifted P laws parent n (λ i. false)) rows
            (λ r. none_lifted (is_after P parent n r) r)

  -- All that are to move are lifted, so none is pulled onto another.
  between :
      map (lifted P laws parent n (done later)) rows
      ≡ map (pulled P laws parent n (λ i. false)) rows
  between = same_map _ _ rows (
      All-map (λ r. is_after P parent n r ≡ true → any (λ a. P.id a == P.id r) later ≡ true) _ rows
        (λ r h. elim (Bool-cases (is_after P parent n r)) [
          | inl t ↦ rw (t, h t) refl
          | inr f ↦ rw f refl
        ])
        (listed P.id (is_after P parent n) rows))

  abbrev in_order : List A
  in_order = order_rows (is_placed_before P) later

  pull_phase :
      each in_order (pull_row P) (map (pulled P laws parent n (λ i. false)) rows)
      ≡ committed tt (map (pulled P laws parent n (done in_order)) rows)
  pull_phase =
      run_phase P (is_after P parent n) rows (pulled P laws parent n)
        (λ a. P.put (P.position a - 1))
        (λ T.
          is_clear-map P (IsBehind P laws parent n) (pulled P laws parent n T) rows
            (pulled_apart P laws parent n T) behind clear)
        (λ T r. id-put_if P laws _ _ r) (λ S T r e. rw e refl)
        (λ T a t f.
          rw (t, f)
            (laws.put-put (P.position a - 1) (P.position a + position_offset) a ∙ ground arith))
        in_order (λ i. false)
        (All-order_rows _ (is_placed_before P) later (All-kept (is_after P parent n) rows))
        (All-order_rows _ (is_placed_before P) later
          (All-keep _ (is_after P parent n) rows (own_rows P.id rows ids)))
        (λ i e. cc)
        (λ i. omega (
          arith,
          ids i,
          count-order_rows (λ a. P.id a == i) (is_placed_before P) later,
          count-keep_le (λ a. P.id a == i) (is_after P parent n) rows,
        ))

  finished :
      map (pulled P laws parent n (done in_order)) rows
      ≡ update_rows (is_after P parent n) (λ a. P.put (P.position a - 1) a) rows
  finished =
      same_map _ _ rows (
        All-map (λ r. is_after P parent n r ≡ true → any (λ a. P.id a == P.id r) later ≡ true) _
          rows
          (λ r h. elim (Bool-cases (is_after P parent n r)) [
            | inl t ↦
                rw (t, any-order_rows (λ a. P.id a == P.id r) (is_placed_before P) later, h t) refl
            | inr f ↦ rw f refl
          ])
          (listed P.id (is_after P parent n) rows))
      ∙ same_update (is_after P parent n) (λ a. P.put (P.position a - 1) a) rows

  -- From rows with distinct ids and clear indexes, none of them past the offset and none at `n`, the
  -- detour never breaks an index and moves each row behind `n` one place forward.
  pub close_gap-renumbers :
      close_gap P parent n rows
      ≡ committed tt (update_rows (is_after P parent n) (λ a. P.put (P.position a - 1) a) rows)
  unfolding close_gap
  close_gap-renumbers = rw (lift_phase, between, pull_phase) (ap (committed tt) finished)
