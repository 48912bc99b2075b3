-- ===== src/Comment/Threads.antt =====
-- The invariant of the comment service, for its statements one by one: no identifier comes
-- twice, and a reply belongs to the post of the comment that it answers.
use micro_blog.Base.{
  ◌≡◌, refl, sym, ◌∙◌, inl, inr, ℕ, ◌+◌, ◌<◌, String, string_eq, ◌==◌, ==_iff, Bool, true, false,
  not, Option, some, List, [], ◌∷◌, ◌++◌, arith, find, any, All, All-append, All-filter, All-imp,
  truthy, is_value, is_value_iff, Bool-cases,
}
use micro_blog.Sql.{delete}
use micro_blog.Sql.Distinct.{Distinct, Distinct-append, Distinct-filter}
use micro_blog.Comment.Service.{Comment, CommentDb, id_clash, answers, delete_where}

-- If `c` answers `q`, they are on the same post.
abbrev pub IsThread : Comment → Comment → Type 0
IsThread c q = truthy c.parent_id ≡ true → is_value c.parent_id q.id ≡ true → q.post_id ≡ c.post_id

module _ (uuid : ℕ → String) where
  abbrev pub IsDrawn : ℕ → String → Type 0
  IsDrawn n id = (k : ℕ) × (k < n) × (uuid k ≡ id)

  -- The identifier was drawn, after that of the comment that is answered.
  abbrev pub IsKnown : ℕ → Comment → Type 0
  IsKnown n c =
      (k : ℕ) × (k < n)
      × (uuid k ≡ c.id)
      × ((p : String) → truthy c.parent_id ≡ true → c.parent_id ≡ some p → IsDrawn k p)

  pub record IsWellFormed (s : CommentDb) : Type 0 where
    pub distinct : Distinct id_clash s.comments
    pub known : All (IsKnown s.drawn) s.comments
    pub threads : All (λ c. All (IsThread c) s.comments) s.comments

  pub delete_where-IsWellFormed :
      (p : Comment → Bool) (s : CommentDb) → IsWellFormed s → IsWellFormed (delete_where p s)
  delete_where-IsWellFormed p s h = record {
    distinct = Distinct-filter id_clash (λ x. not (p x)) s.comments h.distinct;
    known = All-filter (IsKnown s.drawn) (λ x. not (p x)) s.comments h.known;
    threads =
        All-filter (λ c. All (IsThread c) (delete p s.comments)) (λ x. not (p x)) s.comments
          (All-imp _ _ (λ c t. All-filter (IsThread c) (λ x. not (p x)) s.comments t) s.comments
            h.threads);
  }

-- A comment that the check of the parent lets through.
abbrev pub IsChecked : List Comment → Comment → Type 0
IsChecked xs c =
    truthy c.parent_id ≡ true
    → answers (some c.post_id) (find (λ q. is_value c.parent_id q.id) xs) ≡ true

id_clash_comm : (c d : Comment) → id_clash c d ≡ id_clash d c
id_clash_comm c d = ground (arith, ==_iff c.id d.id, ==_iff d.id c.id)

some_injective : (a b : String) → ◌≡◌ {A = Option String} (some a) (some b) → a ≡ b
some_injective a b h = cc

-- Where identifiers are distinct, the parent that is found is the only one.
others-IsThread :
    (c x : Comment) (xs : List Comment)
    → is_value c.parent_id x.id ≡ true
    → any (id_clash x) xs ≡ false
    → All (IsThread c) xs
others-IsThread c x [] e h = tt
others-IsThread c x (q ∷ xs) e h = (
  λ t i.
      ground
        (arith, is_value_iff c.parent_id x.id, is_value_iff c.parent_id q.id, ==_iff x.id q.id),
  others-IsThread c x xs e (ground arith),
)

parent-IsThread :
    (c : Comment) (xs : List Comment)
    → Distinct id_clash xs
    → answers (some c.post_id) (find (λ q. is_value c.parent_id q.id) xs) ≡ true
    → All (IsThread c) xs
parent-IsThread c [] d h = tt
parent-IsThread c (x ∷ xs) (new, d) h = elim (Bool-cases (is_value c.parent_id x.id)) [
  | inl e ↦ (λ t i. sym (ground (arith, ==_iff c.post_id x.post_id)), others-IsThread c x xs e new)
  | inr e ↦ (λ t i. ground arith, parent-IsThread c xs d (rw e at h))
]

checked-IsThread :
    (c : Comment) (xs : List Comment) → Distinct id_clash xs → IsChecked xs c → All (IsThread c) xs
checked-IsThread c xs d h = elim (Bool-cases (truthy c.parent_id)) [
  | inl t ↦ parent-IsThread c xs d (h t)
  | inr f ↦ root-IsThread xs f
]
  where
    root-IsThread : (xs : List Comment) → truthy c.parent_id ≡ false → All (IsThread c) xs
    root-IsThread [] f = tt
    root-IsThread (x ∷ xs) f = (λ t i. ground arith, root-IsThread xs f)

module _ (uuid : ℕ → String) (injective : (m n : ℕ) → uuid m ≡ uuid n → m ≡ n) where
  not_drawn : (n : ℕ) (id : String) → IsDrawn uuid n id → id ≡ uuid n → ⊥
  not_drawn n id (k, lt, e) h = let i : k ≡ n = injective k n (e ∙ h) in omega arith

  IsKnown-suc : (n : ℕ) (c : Comment) → IsKnown uuid n c → IsKnown uuid (n + 1) c
  IsKnown-suc n c (k, lt, e, p) = (k, omega arith, e, p)

  -- The comment itself and the comment that it answers.
  IsKnown-IsDrawn : (n : ℕ) (c : Comment) → IsKnown uuid n c → IsDrawn uuid n c.id
  IsKnown-IsDrawn n c (k, lt, e, p) = (k, lt, e)

  IsKnown-parent :
      (n : ℕ) (c : Comment) (p : String)
      → IsKnown uuid n c
      → truthy c.parent_id ≡ true
      → c.parent_id ≡ some p
      → IsDrawn uuid n p
  IsKnown-parent n c p (k, lt, e, h) t q = let (j, lt', d) = h p t q in (j, omega arith, d)

  -- The next identifier is that of no comment, and no comment answers it.
  pub fresh_clash :
      (n : ℕ) (r : Comment) (xs : List Comment)
      → r.id ≡ uuid n
      → All (IsKnown uuid n) xs
      → any (id_clash r) xs ≡ false
  fresh_clash n r [] i h = refl
  fresh_clash n r (x ∷ xs) i (k, h) = elim (Bool-cases (r.id == x.id)) [
    | inl e ↦ absurd (not_drawn n x.id (IsKnown-IsDrawn n x k) (sym ((==_iff r.id x.id).0 e) ∙ i))
    | inr e ↦ rw e (fresh_clash n r xs i h)
  ]

  known-IsThread : (n : ℕ) (c r : Comment) → r.id ≡ uuid n → IsKnown uuid n c → IsThread c r
  known-IsThread n c r i k t e =
      absurd
        (not_drawn n r.id (IsKnown-parent n c r.id k t ((is_value_iff c.parent_id r.id).0 e)) i)

  IsDrawn-parent :
      (n : ℕ) (c : Comment) (xs : List Comment)
      → All (IsKnown uuid n) xs
      → IsChecked xs c
      → (p : String) → truthy c.parent_id ≡ true
      → c.parent_id ≡ some p
      → IsDrawn uuid n p
  IsDrawn-parent n c [] h k p t e = let impossible = k t in ground arith
  IsDrawn-parent n c (x ∷ xs) (i, h) k p t e = elim (Bool-cases (is_value c.parent_id x.id)) [
    | inl f ↦
        let (j, lt, d) = IsKnown-IsDrawn n x i in
        let g = (is_value_iff c.parent_id x.id).0 f in
        (j, lt, d ∙ some_injective x.id p (sym g ∙ e))
    | inr f ↦ IsDrawn-parent n c xs h (λ t'. rw f at (k t')) p t e
  ]

  IsKnown-suc_new :
      (n : ℕ) (c : Comment)
      → c.id ≡ uuid n
      → ((p : String) → truthy c.parent_id ≡ true → c.parent_id ≡ some p → IsDrawn uuid n p)
      → IsKnown uuid (n + 1) c
  IsKnown-suc_new n c i d = (n, omega arith, sym i, d)

  old_threads :
      (n : ℕ) (r : Comment) (ys xs : List Comment)
      → r.id ≡ uuid n
      → All (IsKnown uuid n) xs
      → All (λ c. All (IsThread c) ys) xs
      → All (λ c. All (IsThread c) (ys ++ r ∷ [])) xs
  old_threads n r ys [] i k h = tt
  old_threads n r ys (c ∷ xs) i (kc, k) (hc, h) = (
    All-append (IsThread c) ys (r ∷ []) hc (known-IsThread n c r i kc, tt),
    old_threads n r ys xs i k h,
  )

  pub append-IsWellFormed :
      (r : Comment) (s : CommentDb)
      → r.id ≡ uuid s.drawn
      → IsChecked s.comments r
      → IsWellFormed uuid s
      → IsWellFormed uuid (record s { comments = s.comments ++ r ∷ []; drawn = s.drawn + 1 })
  append-IsWellFormed r s i k h =
      let known : IsKnown uuid (s.drawn + 1) r =
        IsKnown-suc_new s.drawn r i (IsDrawn-parent s.drawn r s.comments h.known k) in
      record {
        distinct =
            Distinct-append id_clash id_clash_comm r s.comments h.distinct
              (fresh_clash s.drawn r s.comments i h.known);
        known =
            All-append (IsKnown uuid (s.drawn + 1)) s.comments (r ∷ [])
              (All-imp _ _ (IsKnown-suc s.drawn) s.comments h.known) (known, tt);
        threads =
            All-append (λ c. All (IsThread c) (s.comments ++ r ∷ [])) s.comments (r ∷ [])
              (old_threads s.drawn r s.comments s.comments i h.known h.threads)
              (
                All-append (IsThread r) s.comments (r ∷ [])
                    (checked-IsThread r s.comments h.distinct k) ((λ t e. refl), tt),
                tt,
              );
      }
