-- ===== src/Drafts/Publish/Valid.antt =====
-- A draft that has no issues is in order: admin/publish-validation.ts.
use aivirteach_server.Common.{
  ℕ, suc, ◌+◌, ◌≤◌, ◌≡◌, refl, sym, ap, ◌∙◌, Bool, true, false, ◌&&◌, not, String, Option, List, [],
  ◌∷◌, ◌++◌, arith, ◌==◌, ltb, str_eq, eq_iff, any, includes, All, Bool-cases, inl, inr,
}
use aivirteach_server.Drafts.{DraftLesson, DraftModule, DraftVersion, include_modules}
use aivirteach_server.Drafts.Content.Reorder.{all_distinct, all_lessons}
use aivirteach_server.Drafts.Publish.{content_ids, lesson_order}
use aivirteach_server.Drafts.Publish.Issues.{
  PublishIssue, PublishChecks, when, block_issues, lesson_position, duplicate_lesson,
  not_renderable, module_position, empty_module, lesson_issues, lessons_issues, seen_after,
  modules_issues, collect_draft_publish_issues, is_empty,
}

module _ {A : Type 0} where
  none_left : (xs ys : List A) → xs ++ ys ≡ [] → xs ≡ []
  none_left [] ys h = refl
  none_left (x ∷ xs) ys h = cc

  none_right : (xs ys : List A) → xs ++ ys ≡ [] → ys ≡ []
  none_right [] ys h = h
  none_right (x ∷ xs) ys h = cc

not_when : (b : Bool) (i : PublishIssue) → when b i ≡ [] → b ≡ false
not_when true i h = cc
not_when false i h = refl

-- no text of the list was seen before it, or stands in it twice
abbrev IsFresh : List String → List String → Type 0
IsFresh seen [] = Unit {0}
IsFresh seen (c ∷ cs) = (includes c seen ≡ false) × IsFresh (c ∷ seen) cs

seen_apart :
    (x : String) (seen cs : List String)
    → includes x seen ≡ true
    → IsFresh seen cs
    → any (str_eq x) cs ≡ false
seen_apart x seen [] h f = refl
seen_apart x seen (c ∷ cs) h (n, f) =
    let later : includes x (c ∷ seen) ≡ true = ground (arith, h) in
    elim (Bool-cases (str_eq x c)) [
      | inl t ↦ same t
      | inr d ↦ ground (arith, d, seen_apart x (c ∷ seen) cs later f)
    ]
  where
    same : str_eq x c ≡ true → any (str_eq x) (c ∷ cs) ≡ false
    same t = let e : x ≡ c = (eq_iff x c).0 t in cc (sym h ∙ ap (λ k. includes k seen) e ∙ n)

IsFresh-all_distinct : (seen cs : List String) → IsFresh seen cs → all_distinct str_eq cs ≡ true
IsFresh-all_distinct seen [] f = refl
IsFresh-all_distinct seen (c ∷ cs) (n, f) =
    let itself : str_eq c c ≡ true = (eq_iff c c).1 refl in
    let here : includes c (c ∷ seen) ≡ true = ground (arith, itself) in
    ground (arith, seen_apart c (c ∷ seen) cs here f, IsFresh-all_distinct (c ∷ seen) cs f)

IsFresh-append :
    (seen : List String) (ls : List DraftLesson) (ds : List String)
    → IsFresh seen (content_ids ls)
    → IsFresh (seen_after seen ls) ds
    → IsFresh seen (content_ids ls ++ ds)
IsFresh-append seen [] ds f g = g
IsFresh-append seen (l ∷ ls) ds (n, f) g = (n, IsFresh-append (l.content_id ∷ seen) ls ds f g)

content_ids-append :
    (ls ks : List DraftLesson) → content_ids (ls ++ ks) ≡ content_ids ls ++ content_ids ks
content_ids-append [] ks = refl
content_ids-append (l ∷ ls) ks = ap (λ t. l.content_id ∷ t) (content_ids-append ls ks)

module _ {A : Type 0} (position : A → ℕ) where
  -- the positions `n + 1`, `n + 2`, ..., in this order
  abbrev pub IsInOrder : ℕ → List A → Type 0
  IsInOrder n [] = Unit {0}
  IsInOrder n (x ∷ xs) = (position x ≡ n + 1) × IsInOrder (suc n) xs

module _ (checks : PublishChecks) (asset_ids : List String) where
  -- a lesson that its own checks pass
  abbrev pub IsPresentable : DraftLesson → Type 0
  IsPresentable l = (checks.errors l.content asset_ids ≡ []) × (1 ≤ checks.renderable l.content)

  -- the lessons of a module, in order and presentable
  abbrev pub AreLaid : DraftModule × List DraftLesson → Type 0
  AreLaid (m, ls) = IsInOrder (λ (l : DraftLesson). l.position) 0 ls × All IsPresentable ls

  in_place : (p n : ℕ) → not (p == n) ≡ false → p ≡ n
  in_place p n h = ground (arith, h)

  no_errors :
      (module_id : ℕ) (content_id : String) (es : List String)
      → block_issues module_id content_id es ≡ []
      → es ≡ []
  no_errors module_id content_id [] h = refl
  no_errors module_id content_id (e ∷ es) h = cc

  lesson_laid :
      (id n : ℕ) (seen : List String) (l : DraftLesson)
      → lesson_issues checks asset_ids id n seen l ≡ []
      → (l.position ≡ n + 1) × (includes l.content_id seen ≡ false) × IsPresentable l
  lesson_laid id n seen l h =
      let blocks =
        none_left (_ ++ block_issues id l.content_id (checks.errors l.content asset_ids)) _ h in
      let fresh =
        none_left (_ ++ when (includes l.content_id seen) (duplicate_lesson id l.content_id)) _
          blocks in
      (
        in_place l.position (n + 1)
            (not_when _ (lesson_position id l.content_id) (none_left _ _ fresh)),
        not_when _ (duplicate_lesson id l.content_id) (none_right _ _ fresh),
        (
          no_errors id l.content_id _ (none_right _ _ blocks),
          some_block (not_when _ (not_renderable id l.content_id) (none_right _ _ h)),
        ),
      )
    where
      some_block : ltb (checks.renderable l.content) 1 ≡ false → 1 ≤ checks.renderable l.content
      some_block t = ground (arith, t)

  lessons_laid :
      (id n : ℕ) (seen : List String) (ls : List DraftLesson)
      → lessons_issues checks asset_ids id n seen ls ≡ []
      → IsInOrder (λ (l : DraftLesson). l.position) n ls
        × IsFresh seen (content_ids ls)
        × All IsPresentable ls
  lessons_laid id n seen [] h = (tt, tt, tt)
  lessons_laid id n seen (l ∷ ls) h =
      let one =
        lesson_laid id n seen l (none_left (lesson_issues checks asset_ids id n seen l) _ h) in
      let others =
        lessons_laid id (suc n) (l.content_id ∷ seen) ls
          (none_right (lesson_issues checks asset_ids id n seen l) _ h) in
      ((one.0, others.0), (one.1, others.1), (one.2, others.2))

  modules_laid :
      (is_first : Bool) (n : ℕ) (seen : List String) (ms : List (DraftModule × List DraftLesson))
      → modules_issues checks asset_ids is_first n seen ms ≡ []
      → IsInOrder (λ (m : DraftModule × List DraftLesson). m.0.position) n ms
        × All AreLaid ms
        × IsFresh seen (content_ids (all_lessons ms))
  modules_laid is_first n seen [] h = (tt, tt, tt)
  modules_laid is_first n seen ((m, ls) ∷ ms) h =
      let before = none_left (_ ++ lessons_issues checks asset_ids m.id 0 seen ls) _ h in
      let named = none_left (_ ++ when (is_first && is_empty ls) (empty_module m.id)) _ before in
      let here = lessons_laid m.id 0 seen ls (none_right _ _ before) in
      let others = modules_laid is_first (suc n) (seen_after seen ls) ms (none_right _ _ h) in
      (
        (
          in_place m.position (n + 1) (not_when _ (module_position m.id) (none_left _ _ named)),
          others.0,
        ),
        ((here.0, here.2), others.1),
        joined (IsFresh-append seen ls (content_ids (all_lessons ms)) here.1 others.2),
      )
    where
      joined :
          IsFresh seen (content_ids ls ++ content_ids (all_lessons ms))
          → IsFresh seen (content_ids (ls ++ all_lessons ms))
      joined f = rw (content_ids-append ls (all_lessons ms)) f

  -- A draft without issues has its modules at the positions 1, 2, ..., and in each module its lessons;
  -- every lesson has a block to show and no error, and no two lessons of the draft have one content id.
  pub collect_draft_publish_issues-IsInOrder :
      (cover : Option String) (is_first : Bool) (draft : DraftVersion)
      → collect_draft_publish_issues checks asset_ids cover is_first draft ≡ []
      → IsInOrder (λ (m : DraftModule × List DraftLesson). m.0.position) 0 (include_modules draft)
        × All AreLaid (include_modules draft)
        × (all_distinct str_eq (lesson_order draft) ≡ true)
  unfolding collect_draft_publish_issues lesson_order
  collect_draft_publish_issues-IsInOrder cover is_first draft h =
      let modules = none_right _ _ (
        none_left (_ ++ modules_issues checks asset_ids is_first 0 [] (include_modules draft)) _
          h) in
      let laid = modules_laid is_first 0 [] (include_modules draft) modules in
      (
        laid.0,
        laid.1,
        IsFresh-all_distinct [] (content_ids (all_lessons (include_modules draft))) laid.2,
      )
