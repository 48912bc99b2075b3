-- ===== src/Frontend/Editor/Forms.antt =====
-- services/frontend/src/pages/EditPage.tsx: what the form sends of a post that it was filled with.
use micro_blog.Base.{◌≡◌, refl, ◌∙◌, ap, true, false, some, List, [], ◌∷◌, All, arith}
use micro_blog.Frontend.Fields.{IsTag, trim, is_blank, read_tags-join}
use micro_blog.Frontend.Editor.{Form, PostBody, submitted, blank_form, populate, populate_all}

populate-initialized :
    (post : PostBody) (form : Form) → form.initialized ≡ true → populate post form ≡ form
unfolding populate
populate-initialized post form h = ground arith

populate_all-initialized :
    (posts : List PostBody) (form : Form) → form.initialized ≡ true → populate_all posts form ≡ form
unfolding populate_all
populate_all-initialized [] form h = refl
populate_all-initialized (post ∷ posts) form h =
    ap (populate_all posts) (populate-initialized post form h)
    ∙ populate_all-initialized posts form h

-- A post that is opened to be edited and sent without a change keeps its tags and its status, and its title and its
-- text but for the space at their ends, also where the post is fetched again meanwhile; a later answer does not
-- overwrite the form. The tags are such that the field can hold them, and the status is not empty.
pub submitted-populate_all :
    (post : PostBody) (later : List PostBody)
    → All IsTag post.tags
    → is_blank (trim post.title) ≡ false
    → is_blank (trim post.content) ≡ false
    → is_blank post.status ≡ false
    → submitted (populate_all (post ∷ later) blank_form)
      ≡ some (record post { title = trim post.title; content = trim post.content })
unfolding submitted populate_all populate
submitted-populate_all post later tags title content status =
    rw
      (
        populate_all-initialized later (populate post blank_form) refl,
        title,
        content,
        status,
        read_tags-join post.tags tags,
      )
      refl
