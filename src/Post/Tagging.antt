-- ===== src/Post/Tagging.antt =====
-- `ensureTags` of services/post/src/services/post.ts, where it does what it is called for.
use micro_blog.Base.{
  ℕ, ◌+◌, ◌≤◌, ◌≡◌, inl, inr, refl, sym, ap, ◌∙◌, String, Text, string_eq, text_eq, ◌==◌, ==_iff,
  ==_refl, ==-eq-false, subst, return, Bool, false, some, List, [], ◌∷◌, ◌++◌, map, arith, any,
  find, find_sound, Bool-cases, Option-cases, done,
}
use mathlib.Core.List.{append-nil, append_assoc}
use micro_blog.Frames.{bind-step}
use micro_blog.Sql.Distinct.{Distinct, Distinct-append}
use micro_blog.Sql.Laws.{any-append, find-append, find-eq-none_iff_any, find-none_of_any}
use micro_blog.Post.Slug.{to_lower_case}
use micro_blog.Post.Store.{Tag, PostDb, tag_clash, insert_tag, ensure_tag, ensure_tags}
use micro_blog.Post.Invariant.{tag_clash_comm}

abbrev pub by_id : String → Tag → Bool
by_id id t = t.id == id

abbrev pub by_name : Text → Tag → Bool
by_name n t = t.name == n

-- Under each identifier stands a tag of the name in the same place.
abbrev pub Named : List Tag → List String → List Text → Type 0
Named tags [] [] = Unit
Named tags [] (n ∷ names) = ⊥
Named tags (id ∷ ids) [] = ⊥
Named tags (id ∷ ids) (n ∷ names) =
    ((tag : Tag) × (find (by_id id) tags ≡ some tag) × (tag.name ≡ n)) × Named tags ids names

find-append_all :
    {A : Type 0} (p : A → Bool) (xs ys : List A) {y : A}
    → find p xs ≡ some y
    → find p (xs ++ ys) ≡ some y
find-append_all p [] ys h = cc
find-append_all p (x ∷ xs) ys {y} h = ground (arith, find-append_all p xs ys {y = y})

pub Named-append :
    (tags more : List Tag) (ids : List String) (names : List Text)
    → Named tags ids names
    → Named (tags ++ more) ids names
Named-append tags more [] [] h = tt
Named-append tags more [] (n ∷ names) h = h
Named-append tags more (id ∷ ids) [] h = h
Named-append tags more (id ∷ ids) (n ∷ names) ((tag, f, e), h) =
    ((tag, find-append_all (by_id id) tags more f, e), Named-append tags more ids names h)

any-found :
    (x t : Tag) (n : Text) (tags : List Tag)
    → find (by_name n) tags ≡ some t
    → any (tag_clash x) tags ≡ false
    → (x.id == t.id) ≡ false
any-found x t n [] f h = cc
any-found x t n (y ∷ tags) f h = elim (Bool-cases (y.name == n)) [
  | inl e ↦ let same : y ≡ t = cc (rw e at f) in rw (← same) (ground arith)
  | inr e ↦ any-found x t n tags (rw e at f) (ground arith)
]

-- The tag under a name is also that under its identifier.
find-by_id :
    (t : Tag) (n : Text) (tags : List Tag)
    → Distinct tag_clash tags
    → find (by_name n) tags ≡ some t
    → find (by_id t.id) tags ≡ some t
find-by_id t n [] d f = f
find-by_id t n (x ∷ tags) (new, d) f = elim (Bool-cases (x.name == n)) [
  | inl e ↦ let same : x ≡ t = cc (rw e at f) in rw (same, ==_refl t.id) refl
  | inr e ↦
      let later : find (by_name n) tags ≡ some t = rw e at f in
      rw (any-found x t n tags later new) (find-by_id t n tags d later)
]

find_named : (t : Tag) (n : Text) (tags : List Tag) → find (by_name n) tags ≡ some t → t.name ≡ n
find_named t n tags f = (==_iff t.name n).0 (find_sound (by_name n) tags f)

new_tag_fits :
    (row : Tag) (tags : List Tag)
    → any (by_id row.id) tags ≡ false
    → any (by_name row.name) tags ≡ false
    → any (tag_clash row) tags ≡ false
new_tag_fits row [] h k = refl
new_tag_fits row (t ∷ tags) h k = ground (
  arith,
  new_tag_fits row tags,
  ==_iff row.name t.name,
  ==_iff t.name row.name,
  ==_iff row.id t.id,
  ==_iff t.id row.id,
)

module _ (uuid : ℕ → String) where
  -- No tag has an identifier that is still to be drawn.
  abbrev pub AreFresh : ℕ → List Tag → Type 0
  AreFresh n tags = (k : ℕ) → n ≤ k → any (by_id (uuid k)) tags ≡ false

  pub record IsTagged (names : List Text) (s : PostDb) (ids : List String) (t : PostDb)
      : Type 0 where
    pub posts : t.posts ≡ s.posts
    pub bus : t.bus ≡ s.bus
    pub order : t.order ≡ s.order
    pub links : t.post_tags ≡ s.post_tags
    pub more : List Tag
    pub grown : t.tags ≡ s.tags ++ more
    pub named : Named t.tags ids names

  module _ (injective : (m n : ℕ) → uuid m ≡ uuid n → m ≡ n) where
    AreFresh-append :
        (n : ℕ) (row : Tag) (tags : List Tag)
        → row.id ≡ uuid n
        → AreFresh n tags
        → AreFresh (n + 1) (tags ++ row ∷ [])
    AreFresh-append n row tags e h k le = any-append (by_id (uuid k)) tags row (h k (omega arith)) (
        ==-eq-false row.id (uuid k)
          (λ q. let same = injective n k (sym e ∙ q) in absurd (omega arith)))

    module _ (now : ℕ) where
      ensure_tag-IsTagged :
          (n : Text) (s : PostDb)
          → Distinct tag_clash s.tags
          → AreFresh s.drawn s.tags
          → (id : String) × (t : PostDb) × (ensure_tag uuid now n s ≡ done id t)
            × Distinct tag_clash t.tags
            × AreFresh t.drawn t.tags
            × IsTagged (n ∷ []) s (id ∷ []) t
      unfolding ensure_tag insert_tag
      ensure_tag-IsTagged n s d fresh = elim (Option-cases (find (by_name n) s.tags)) [
        | inr (tag, e) ↦ (
          tag.id,
          s,
          rw (ensure_tag, e) refl,
          d,
          fresh,
          record {
            posts = refl;
            bus = refl;
            order = refl;
            links = refl;
            more = [];
            grown = sym (append-nil s.tags);
            named = ((tag, find-by_id tag n s.tags d e, find_named tag n s.tags e), tt);
          },
        )
        | inl e ↦
            let row : Tag = record { id = uuid s.drawn; name = n; created_at = now } in
            let new = fresh s.drawn (omega arith) in
            let fits = new_tag_fits row s.tags new (find-eq-none_iff_any (by_name n) s.tags e) in
            (
              uuid s.drawn,
              record s { tags = s.tags ++ row ∷ []; drawn = s.drawn + 1 },
              rw (ensure_tag, e, insert_tag, fits) refl,
              Distinct-append tag_clash tag_clash_comm row s.tags d fits,
              AreFresh-append s.drawn row s.tags refl fresh,
              record {
                posts = refl;
                bus = refl;
                order = refl;
                links = refl;
                more = row ∷ [];
                grown = refl;
                named = (
                  (
                    row,
                    find-append (by_id row.id) s.tags row
                        (find-none_of_any (by_id row.id) s.tags new) (==_refl row.id),
                    refl,
                  ),
                  tt,
                );
              },
            )
      ]

    module _ (unicode : ℕ → Text) (now : ℕ) where
      pub ensure_tags-IsTagged :
          (names : List Text) (s : PostDb)
          → Distinct tag_clash s.tags
          → AreFresh s.drawn s.tags
          → (ids : List String) × (t : PostDb) × (ensure_tags uuid unicode now names s ≡ done ids t)
            × IsTagged (map (to_lower_case unicode) names) s ids t
      unfolding ensure_tags return
      ensure_tags-IsTagged [] s d fresh = (
        [],
        s,
        refl,
        record {
          posts = refl;
          bus = refl;
          order = refl;
          links = refl;
          more = [];
          grown = sym (append-nil s.tags);
          named = tt;
        },
      )
      ensure_tags-IsTagged (name ∷ names) s d fresh =
          let (id, s₁, e₁, d₁, fresh₁, one) =
            ensure_tag-IsTagged now (to_lower_case unicode name) s d fresh in
          let (ids, s₂, e₂, all) = ensure_tags-IsTagged names s₁ d₁ fresh₁ in
          let n = to_lower_case unicode name in
          let kept : Named s₂.tags (id ∷ []) (n ∷ []) =
            subst (λ tags. Named tags (id ∷ []) (n ∷ [])) (sym all.grown)
              (Named-append s₁.tags all.more (id ∷ []) (n ∷ []) one.named) in
          (
            id ∷ ids,
            s₂,
            bind-step _ _ s e₁ ∙ bind-step _ _ s₁ e₂,
            record {
              posts = all.posts ∙ one.posts;
              bus = all.bus ∙ one.bus;
              order = all.order ∙ one.order;
              links = all.links ∙ one.links;
              more = one.more ++ all.more;
              grown =
                  all.grown
                  ∙ ap (λ (tags : List Tag). tags ++ all.more) one.grown
                  ∙ append_assoc s.tags one.more all.more;
              named = (kept.0, all.named);
            },
          )
