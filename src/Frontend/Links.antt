-- ===== src/Frontend/Links.antt =====
-- services/frontend/src/lib/markdown.ts: the links and images that its renderer writes.
use micro_blog.Base.{
  ◌≡◌, inl, inr, ℕ, Text, codes, text_eq, nat_eq, ◌==◌, Bool, true, not, ◌&&◌, ◌||◌, List, [], ◌∷◌,
  ◌++◌, arith, filter, any, All, Bool-cases, if◌then◌else◌,
}
use micro_blog.Frontend.Escape.{starts_with}

-- `replace(/["']/g, '')`
abbrev pub is_no_quote : ℕ → Bool
is_no_quote c = not (c == 34) && not (c == 39)

abbrev pub without_quotes : Text → Text
without_quotes s = filter is_no_quote s

-- `/^https?:\/\//.test(url)`
abbrev pub is_web : Text → Bool
is_web url = starts_with (codes "http://") url || starts_with (codes "https://") url

-- `renderer.image`; `href` and `text` are empty where they are missing.
unfoldable pub render_image : (href text : Text) → Text
render_image href text =
    let src = without_quotes href in
    let alt = without_quotes text in
    if not (is_web src) && not (starts_with (codes "/") src)
    then []
    else if starts_with (codes "video:") text
    then codes "<video src=\"" ++ src ++ codes "\" controls preload=\"metadata\"></video>"
    else codes "<img src=\"" ++ src ++ codes "\" alt=\"" ++ alt ++ codes "\">"

-- `renderer.link`
unfoldable pub render_link : (href text : Text) → Text
render_link href text =
    let url = without_quotes href in
    if is_web url
      || starts_with (codes "/") url
      || starts_with (codes "#") url
      || starts_with (codes "mailto:") url
    then codes "<a href=\""
      ++ url
      ++ codes "\" target=\"_blank\" rel=\"noopener\">"
      ++ text
      ++ codes "</a>"
    else text

-- `renderMarkdown`, with `marked.parse` and `DOMPurify.sanitize`
unfoldable pub render_markdown : (parse sanitize : Text → Text) → Text → Text
render_markdown parse sanitize text = if text == [] then [] else sanitize (parse text)

-- What an attribute may hold without ending it, and where an address may lead.
abbrev pub IsQuoted : Text → Type 0
IsQuoted s = All (λ c. is_no_quote c ≡ true) s

abbrev pub leads_to : List Text → Text → Bool
leads_to schemes url = any (λ scheme. starts_with scheme url) schemes

abbrev pub image_schemes : List Text
image_schemes = codes "http://" ∷ codes "https://" ∷ codes "/" ∷ []

abbrev pub link_schemes : List Text
link_schemes = codes "http://" ∷ codes "https://" ∷ codes "/" ∷ codes "#" ∷ codes "mailto:" ∷ []

-- An image: nothing, a video or a picture.
pub data IsImage : Text → Type 0 where
  nothing : IsImage []
  video :
      (src : Text)
      → IsQuoted src
      → leads_to image_schemes src ≡ true
      → IsImage (codes "<video src=\"" ++ src ++ codes "\" controls preload=\"metadata\"></video>")
  picture :
      (src alt : Text)
      → IsQuoted src
      → IsQuoted alt
      → leads_to image_schemes src ≡ true
      → IsImage (codes "<img src=\"" ++ src ++ codes "\" alt=\"" ++ alt ++ codes "\">")

-- A link: the text alone, or the text in an anchor.
pub data IsLink (text : Text) : Text → Type 0 where
  plain : IsLink text text
  anchor :
      (url : Text)
      → IsQuoted url
      → leads_to link_schemes url ≡ true
      → IsLink text (
          codes "<a href=\""
          ++ url
          ++ codes "\" target=\"_blank\" rel=\"noopener\">"
          ++ text
          ++ codes "</a>")

without_quotes-IsQuoted : (s : Text) → IsQuoted (without_quotes s)
without_quotes-IsQuoted [] = tt
without_quotes-IsQuoted (c ∷ s) = elim (Bool-cases (is_no_quote c)) [
  | inl y ↦ rw y (y, without_quotes-IsQuoted s)
  | inr n ↦ rw n (without_quotes-IsQuoted s)
]

render_image-IsImage : (href text : Text) → IsImage (render_image href text)
unfolding render_image
render_image-IsImage href text =
    let src = without_quotes href in
    let quoted = without_quotes-IsQuoted href in
    elim (Bool-cases (not (is_web src) && not (starts_with (codes "/") src))) [
      | inl y ↦ rw y nothing
      | inr n ↦
          let leads : leads_to image_schemes src ≡ true = ground arith in
          elim (Bool-cases (starts_with (codes "video:") text)) [
            | inl v ↦ rw (n, v) (video src quoted leads)
            | inr v ↦
                rw (n, v)
                  (picture src (without_quotes text) quoted (without_quotes-IsQuoted text) leads)
          ]
    ]

render_link-IsLink : (href text : Text) → IsLink text (render_link href text)
unfolding render_link
render_link-IsLink href text =
    let url = without_quotes href in
    elim (Bool-cases (
      is_web url
      || starts_with (codes "/") url
      || starts_with (codes "#") url
      || starts_with (codes "mailto:") url)) [
        | inl y ↦ rw y (anchor url (without_quotes-IsQuoted href) (ground arith))
        | inr n ↦ rw n plain
      ]

-- Whatever address and text the renderer of a link or of an image is given, a link is its text or an anchor, and an
-- image is empty, a video or a picture; the address in it has one of the schemes in the list, and neither an address
-- nor the alternative text holds a quotation mark that would end its attribute. Of HTML that stands in the Markdown
-- itself this says nothing: that is left to `marked` and `DOMPurify`.
pub render-IsSafe :
    (href text : Text) → IsLink text (render_link href text) × IsImage (render_image href text)
render-IsSafe href text = (render_link-IsLink href text, render_image-IsImage href text)
