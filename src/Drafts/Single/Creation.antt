-- ===== src/Drafts/Single/Creation.antt =====
-- The row of a new version keeps what makes drafts single.
use aivirteach_server.Common.{
  ℕ, ◌+◌, ◌≤◌, ◌<◌, ◌≡◌, ◌⊎◌, refl, sym, ap, ◌∙◌, Bool, true, false, none, List, [], ◌∷◌, arith,
  ◌==◌, any, count_rows, Bool-cases, inl, inr,
}
use aivirteach_server.Process.{after}
use aivirteach_server.Drafts.{DraftVersion, DraftDatabase}
use aivirteach_server.Drafts.Course.{is_version, create_version}
use aivirteach_server.Drafts.Single.{
  is_draft_at, is_published_at, IsSingle, published-version, draft-version, two_kinds,
}
use aivirteach_server.Drafts.Single.Statements.{Keeps}

-- The version that is created follows a published one, or is the first of a new course.
abbrev pub Follows : DraftVersion → DraftDatabase → Type 0
Follows v w =
    ((n : ℕ) × (v.version ≡ n + 1) × (any (is_published_at v.course_id n) w.versions ≡ true))
    ⊎ (w.next_id ≤ v.course_id)

clash : {A : Type 0} {b : Bool} → b ≡ true → b ≡ false → A
clash t f = cc (sym t ∙ f)

module _ (v : DraftVersion) (w : DraftDatabase) (i : IsSingle w)
    (free : any (is_version v.course_id v.version) w.versions ≡ false) (follows : Follows v w) where
  all_below : (m : ℕ) → any (is_version v.course_id m) w.versions ≡ true → m < v.version
  all_below m h = elim follows [
    | inl (n, e, p) ↦ elim (order m v.version) [
      | inl l ↦ l
      | inr (inl same) ↦ clash h (ap (λ k. any (is_version v.course_id k) w.versions) same ∙ free)
      | inr (inr over) ↦
          clash
            (published-version v.course_id v.version w.versions (
              i.filled v.course_id n m v.version (published-version v.course_id n w.versions p) h
                (omega (arith, e)) over))
            free
    ]
    | inr new ↦ clash h (i.fresh_course v.course_id m new)
  ]
    where
      order : (a b : ℕ) → (a < b) ⊎ ((a ≡ b) ⊎ (b < a))
      order a b = ground arith

  no_draft : (n : ℕ) → any (is_draft_at v.course_id n) w.versions ≡ true → ⊥
  no_draft n d = elim follows [
    | inl (k, e, p) ↦
        let at_n = draft-version v.course_id n w.versions d in
        let same : n ≡ k = omega (
          arith,
          e,
          all_below n at_n,
          i.tip v.course_id n k d (published-version v.course_id k w.versions p),
        ) in
        omega (
          arith,
          two_kinds v.course_id n w.versions d
              (ap (λ j. any (is_published_at v.course_id j) w.versions) same ∙ p),
          i.twin v.course_id n,
        )
    | inr new ↦ clash (draft-version v.course_id n w.versions d) (i.fresh_course v.course_id n new)
  ]

  filled_below :
      (a m : ℕ)
      → any (is_version v.course_id a) w.versions ≡ true
      → a ≤ m
      → m < v.version
      → any (is_published_at v.course_id m) w.versions ≡ true
  filled_below a m h l u = elim follows [
    | inl (k, e, p) ↦ elim (split m k (omega (arith, e, u))) [
      | inl same ↦ ap (λ j. any (is_published_at v.course_id j) w.versions) same ∙ p
      | inr less ↦
          i.filled v.course_id a k m h (published-version v.course_id k w.versions p) l less
    ]
    | inr new ↦ clash h (i.fresh_course v.course_id a new)
  ]
    where
      split : (m k : ℕ) → m ≤ k → (m ≡ k) ⊎ (m < k)
      split m k l = ground arith

uncounted :
    (p : DraftVersion → Bool) (vs : List DraftVersion) → any p vs ≡ false → count_rows p vs ≡ 0
uncounted p [] h = refl
uncounted p (v ∷ vs) h = ground (arith, uncounted p vs)

same_or_not : (a b : ℕ) → (a ≡ b) ⊎ ((a == b) ≡ false)
same_or_not a b = elim (Bool-cases (a == b)) [ inl t ↦ inl (ground (arith, t)) | inr f ↦ inr f ]

module _ (v : DraftVersion) (next next_row : ℕ) (w : DraftDatabase) (i : IsSingle w)
    (draft : v.published_at ≡ none) (new_id : w.next_id ≤ v.id) (later_id : v.id < next)
    (course_id : v.course_id < next) (follows : Follows v w)
    (free : any (is_version v.course_id v.version) w.versions ≡ false) where
  tip_here :
      (n m : ℕ)
      → any (is_draft_at v.course_id n) (v ∷ w.versions) ≡ true
      → any (is_version v.course_id m) (v ∷ w.versions) ≡ true
      → m ≤ n
  tip_here n m d e =
      ground (arith, d, e, all_below v w i free follows m, no_draft v w i free follows n)

  filled_here :
      (a b m : ℕ)
      → any (is_version v.course_id a) (v ∷ w.versions) ≡ true
      → any (is_version v.course_id b) (v ∷ w.versions) ≡ true
      → a ≤ m
      → m < b
      → any (is_published_at v.course_id m) w.versions ≡ true
  filled_here a b m x y l u = ground (
    arith,
    x,
    y,
    l,
    u,
    all_below v w i free follows b,
    filled_below v w i free follows a m,
    i.filled v.course_id a b m,
  )

  added-IsSingle :
      IsSingle (record w { versions = v ∷ w.versions; next_id = next; next_row = next_row })
  added-IsSingle = record {
    ids = λ k. ground (arith, new_id, i.ids k, i.fresh_id k);
    fresh_id = λ k l. ground (arith, l, new_id, later_id, i.fresh_id k);
    fresh_course = λ c n l. ground (arith, l, new_id, later_id, course_id, i.fresh_course c n);
    twin = λ c n. elim (Bool-cases (is_version c n v)) [
      | inl t ↦ ground (arith, t, none_there c n t)
      | inr f ↦ ground (arith, f, i.twin c n)
    ];
    tip = λ c n m d e. elim (same_or_not c v.course_id) [
      | inl same ↦
          tip_here n m (ap (λ k. any (is_draft_at k n) (v ∷ w.versions)) (sym same) ∙ d)
            (ap (λ k. any (is_version k m) (v ∷ w.versions)) (sym same) ∙ e)
      | inr other ↦ i.tip c n m (ground (arith, other, d)) (ground (arith, other, e))
    ];
    filled = λ c a b m x y l u. still c m (elim (same_or_not c v.course_id) [
      | inl same ↦
          ap (λ k. any (is_published_at k m) w.versions) same
          ∙ filled_here a b m (ap (λ k. any (is_version k a) (v ∷ w.versions)) (sym same) ∙ x)
              (ap (λ k. any (is_version k b) (v ∷ w.versions)) (sym same) ∙ y) l u
      | inr other ↦ i.filled c a b m (ground (arith, other, x)) (ground (arith, other, y)) l u
    ]);
  }
    where
      still :
          (c m : ℕ)
          → any (is_published_at c m) w.versions ≡ true
          → any (is_published_at c m) (v ∷ w.versions) ≡ true
      still c m h = ground (arith, h)

      none_there : (c n : ℕ) → is_version c n v ≡ true → count_rows (is_version c n) w.versions ≡ 0
      none_there c n t = uncounted (is_version c n) w.versions (
          ap (λ k. any (is_version k n) w.versions) (of_course t)
          ∙ ap (λ k. any (is_version v.course_id k) w.versions) (of_number t)
          ∙ free)
        where
          of_course : is_version c n v ≡ true → c ≡ v.course_id
          of_course t = ground (arith, t)

          of_number : is_version c n v ≡ true → n ≡ v.version
          of_number t = ground (arith, t)

  added-Keeps :
      Keeps w (record w { versions = v ∷ w.versions; next_id = next; next_row = next_row })
  added-Keeps = (added-IsSingle, λ r p h. inr h)

-- The row of a new draft.
pub create_version-Keeps :
    (v : DraftVersion) (next next_row : ℕ) (w : DraftDatabase)
    → IsSingle w
    → v.published_at ≡ none
    → w.next_id ≤ v.id
    → v.id < next
    → v.course_id < next
    → Follows v w
    → Keeps w (after w (create_version v next next_row w))
unfolding create_version
create_version-Keeps v next next_row w i draft new_id later_id course_id follows =
    elim (Bool-cases (any (is_version v.course_id v.version) w.versions)) [
      | inl taken ↦ rw taken (i, λ r p h. h)
      | inr free ↦
          rw free (added-Keeps v next next_row w i draft new_id later_id course_id follows free)
    ]
