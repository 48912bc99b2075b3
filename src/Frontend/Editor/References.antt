-- ===== src/Frontend/Editor/References.antt =====
-- services/frontend/src/pages/ComposePage.tsx and EditPage.tsx: what is inserted for an upload is found again by
-- `refRegex`.
use micro_blog.Base.{
  ◌≡◌, refl, sym, ap, ◌∙◌, inl, inr, ℕ, zero, suc, ◌+◌, ◌≤◌, Text, codes, nat_eq, ◌==◌, Bool, true,
  false, not, ◌&&◌, ◌||◌, Option, List, [], ◌∷◌, ◌++◌, arith, length, length-drop, take, drop, all,
  Bool-cases, if◌then◌else◌,
}
use mathlib.Core.List.{append-nil, append_assoc}
use micro_blog.Frontend.Escape.{starts_with}
use micro_blog.Frontend.Fields.{is_blank}
use micro_blog.Frontend.Editor.{
  Form, uploaded, insert_at_cursor, need_before, need_after, alt_text, media_prefix, reference,
  is_id_unit, id_run, id_at, ids_after, referenced_ids, handle_upload,
}

-- A code unit that stands in no match.
abbrev is_outside : ℕ → Bool
is_outside c = not (is_id_unit c) && all (λ d. not (d == c)) media_prefix

starts_with-append :
    (prefix s t : Text) (c : ℕ)
    → all (λ d. not (d == c)) prefix ≡ true
    → starts_with prefix (s ++ c ∷ t) ≡ starts_with prefix s
starts_with-append [] s t c h = refl
starts_with-append (d ∷ prefix) [] t c h = ground arith
starts_with-append (d ∷ prefix) (e ∷ s) t c h = ground (arith, starts_with-append prefix s t c)

id_run-append : (s t : Text) (c : ℕ) → is_id_unit c ≡ false → id_run (s ++ c ∷ t) ≡ id_run s
id_run-append [] t c h = rw h refl
id_run-append (d ∷ s) t c h = rw (id_run-append s t c h) refl

length-id_run : (s : Text) → length (id_run s) ≤ length s
length-id_run [] = omega arith
length-id_run (c ∷ s) = ground (arith, length-id_run s)

starts_with-length : (prefix s : Text) → starts_with prefix s ≡ true → length prefix ≤ length s
starts_with-length [] s h = omega arith
starts_with-length (d ∷ prefix) [] h = cc
starts_with-length (d ∷ prefix) (e ∷ s) h = ground (arith, starts_with-length prefix s)

drop-append : (n : ℕ) (s t : Text) → n ≤ length s → drop n (s ++ t) ≡ drop n s ++ t
drop-append zero s t h = refl
drop-append (suc n) [] t h = absurd (omega arith)
drop-append (suc n) (c ∷ s) t h = drop-append n s t (omega arith)

drop-append_exact : (s t : Text) → drop (length s) (s ++ t) ≡ t
drop-append_exact [] t = refl
drop-append_exact (c ∷ s) t = drop-append_exact s t

id_at-append : (s t : Text) (c : ℕ) → is_outside c ≡ true → id_at (s ++ c ∷ t) ≡ id_at s
unfolding id_at
id_at-append s t c h =
    rw (starts_with-append media_prefix s t c (ground arith))
      (elim (Bool-cases (starts_with media_prefix s)) [
        | inr n ↦ rw n refl
        | inl y ↦
            rw (y, drop-append 11 s (c ∷ t) (starts_with-length media_prefix s y))
              (id_run-append (drop 11 s) t c (ground arith))
      ])

id_at-length :
    (c : ℕ) (s : Text) → is_blank (id_at (c ∷ s)) ≡ false → 10 + length (id_at (c ∷ s)) ≤ length s
unfolding id_at
id_at-length c s h = elim (Bool-cases (starts_with media_prefix (c ∷ s))) [
  | inr n ↦ cc (rw n at h)
  | inl y ↦
      let long = starts_with-length media_prefix (c ∷ s) y in
      rw y (omega (arith, length-id_run (drop 10 s), length-drop 10 s))
]

ids_after-none :
    (c : ℕ) (s : Text) → is_blank (id_at (c ∷ s)) ≡ true → ids_after zero (c ∷ s) ≡ ids_after zero s
unfolding ids_after
ids_after-none c s h = rw (ids_after, h) refl

ids_after-some :
    (c : ℕ) (s : Text)
    → is_blank (id_at (c ∷ s)) ≡ false
    → ids_after zero (c ∷ s) ≡ id_at (c ∷ s) ∷ ids_after (10 + length (id_at (c ∷ s))) s
unfolding ids_after
ids_after-some c s h = rw (ids_after, h) refl

outside_blank : (c : ℕ) (t : Text) → is_outside c ≡ true → is_blank (id_at (c ∷ t)) ≡ true
unfolding id_at
outside_blank c t h = ap is_blank (id_at-append [] t c h)

ids_after-append :
    (skip : ℕ) (s t : Text) (c : ℕ)
    → is_outside c ≡ true
    → skip ≤ length s
    → ids_after skip (s ++ c ∷ t) ≡ ids_after skip s ++ ids_after zero t
unfolding ids_after
ids_after-append zero [] t c h le = ids_after-none c t (outside_blank c t h)
ids_after-append (suc skip) [] t c h le = absurd (omega arith)
ids_after-append (suc skip) (d ∷ s) t c h le = ids_after-append skip s t c h (omega arith)
ids_after-append zero (d ∷ s) t c h le =
    let same : id_at (d ∷ s ++ c ∷ t) ≡ id_at (d ∷ s) = id_at-append (d ∷ s) t c h in
    elim (Bool-cases (is_blank (id_at (d ∷ s)))) [
      | inl y ↦
          ids_after-none d (s ++ c ∷ t) (ap is_blank same ∙ y)
          ∙ ids_after-append zero s t c h (omega arith)
          ∙ ap (λ (ids : List Text). ids ++ ids_after zero t) (sym (ids_after-none d s y))
      | inr n ↦
          ids_after-some d (s ++ c ∷ t) (ap is_blank same ∙ n)
          ∙ rw (same, ids_after-append (10 + length (id_at (d ∷ s))) s t c h (id_at-length d s n))
              (ap (λ (ids : List Text). ids ++ ids_after zero t) (sym (ids_after-some d s n)))
    ]

-- Where a code unit stands that is in no match, the search starts anew.
referenced_ids-append :
    (s t : Text) (c : ℕ)
    → is_outside c ≡ true
    → referenced_ids (s ++ c ∷ t) ≡ referenced_ids s ++ referenced_ids t
unfolding referenced_ids
referenced_ids-append s t c h = ids_after-append zero s t c h (omega arith)

-- An identifier of the media service.
abbrev pub is_media_id : Text → Bool
is_media_id id = not (is_blank id) && all is_id_unit id

id_run-all : (id : Text) → all is_id_unit id ≡ true → id_run id ≡ id
id_run-all [] h = refl
id_run-all (c ∷ id) h = ground (arith, id_run-all id)

ids_after_skipped : (n : ℕ) (s : Text) → n ≡ length s → ids_after n s ≡ []
unfolding ids_after
ids_after_skipped n [] e = refl
ids_after_skipped zero (c ∷ s) e = absurd (omega arith)
ids_after_skipped (suc n) (c ∷ s) e = ids_after_skipped n s (omega arith)

referenced_ids_media :
    (id : Text) → is_media_id id ≡ true → referenced_ids (media_prefix ++ id) ≡ id ∷ []
unfolding referenced_ids id_at
referenced_ids_media id h =
    let run : id_at (media_prefix ++ id) ≡ id = id_run-all id (ground arith) in
    ids_after-some 47 _ (ap is_blank run ∙ ground arith)
    ∙ rw run (
        ap (λ (ids : List Text). id ∷ ids)
          (ids_after_skipped (10 + length id) (drop 1 media_prefix ++ id) (omega arith)))

referenced_ids-cons :
    (c : ℕ) (t : Text) → is_outside c ≡ true → referenced_ids (c ∷ t) ≡ referenced_ids t
unfolding referenced_ids ids_after
referenced_ids-cons c t h = referenced_ids-append [] t c h

-- The reference between two texts.
referenced_ids_between :
    (before alt id after : Text)
    → is_media_id id ≡ true
    → referenced_ids (before ++ 33 ∷ 91 ∷ (alt ++ 93 ∷ 40 ∷ ((media_prefix ++ id) ++ 41 ∷ after)))
      ≡ referenced_ids before ++ (referenced_ids alt ++ id ∷ referenced_ids after)
referenced_ids_between before alt id after h =
    rw
      (
        referenced_ids-append before (91 ∷ (alt ++ 93 ∷ 40 ∷ ((media_prefix ++ id) ++ 41 ∷ after)))
            33 refl,
        referenced_ids-cons 91 (alt ++ 93 ∷ 40 ∷ ((media_prefix ++ id) ++ 41 ∷ after)) refl,
        referenced_ids-append alt (40 ∷ ((media_prefix ++ id) ++ 41 ∷ after)) 93 refl,
        referenced_ids-cons 40 ((media_prefix ++ id) ++ 41 ∷ after) refl,
        referenced_ids-append (media_prefix ++ id) after 41 refl,
        referenced_ids_media id h,
      )
      refl

newline_before :
    (b : Bool) (before : Text)
    → referenced_ids (before ++ (if b then 10 ∷ [] else [])) ≡ referenced_ids before
unfolding referenced_ids ids_after
newline_before true before =
    referenced_ids-append before [] 10 refl ∙ append-nil (referenced_ids before)
newline_before false before = ap referenced_ids (append-nil before)

newline_after :
    (b : Bool) (after : Text)
    → referenced_ids ((if b then 10 ∷ [] else []) ++ after) ≡ referenced_ids after
newline_after true after = referenced_ids-cons 10 after refl
newline_after false after = refl

regroup :
    (b n alt m id a z : Text)
    → b ++ ((n ++ ((33 ∷ 91 ∷ (alt ++ (93 ∷ 40 ∷ (m ++ (id ++ 41 ∷ []))))) ++ a)) ++ z)
      ≡ (b ++ n) ++ 33 ∷ 91 ∷ (alt ++ 93 ∷ 40 ∷ ((m ++ id) ++ 41 ∷ (a ++ z)))
regroup b n alt m id a z = simp append_assoc

insert_at_cursor-referenced :
    (content_type : Option Text) (name id value : Text) (start end : ℕ)
    → is_media_id id ≡ true
    → referenced_ids (insert_at_cursor (reference content_type name id) value start end).0
      ≡ referenced_ids (take start value)
        ++ (referenced_ids (alt_text content_type name) ++ id ∷ referenced_ids (drop end value))
unfolding insert_at_cursor reference
insert_at_cursor-referenced content_type name id value start end h =
    let before = take start value in
    let after = drop end value in
    let alt = alt_text content_type name in
    ap referenced_ids
      (regroup before (need_before before) alt media_prefix id (need_after after) after)
    ∙ referenced_ids_between (before ++ need_before before) alt id (need_after after ++ after) h
    ∙ rw (newline_before _ before, newline_after _ after) refl

-- What an upload of an image or a video puts into the text stands between what was before the selection and what
-- was after it, both of which are kept to the letter; and the search for media finds, after those before the
-- selection and those in the name of the file, the uploaded one, and then those after the selection. The service
-- gives identifiers of hexadecimal digits and dashes.
pub handle_upload-referenced :
    (kind name id : Text) (content_type : Option Text) (start end : ℕ) (form : Form)
    → (starts_with (codes "image/") kind || starts_with (codes "video/") kind) ≡ true
    → is_media_id id ≡ true
    → let content = (handle_upload kind name (uploaded id content_type) start end form).0.content in
      ((inserted : Text) × (content
          ≡ take start form.content ++ (inserted ++ drop end form.content)))
      × (referenced_ids content
          ≡ referenced_ids (take start form.content)
            ++ (referenced_ids (alt_text content_type name)
                ++ id ∷ referenced_ids (drop end form.content)))
unfolding handle_upload insert_at_cursor
handle_upload-referenced kind name id content_type start end form k h =
    let same : (handle_upload kind name (uploaded id content_type) start end form).0.content
        ≡ (insert_at_cursor (reference content_type name id) form.content start end).0 =
      ground arith in
    (
      (_, same),
      ap referenced_ids same
          ∙ insert_at_cursor-referenced content_type name id form.content start end h,
    )
