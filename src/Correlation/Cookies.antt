-- ===== src/Correlation/Cookies.antt =====
-- internal/correlation/correlation.go: extractCookie on the headers that set cookies.
use braunrate.Base.{◌≡◌, ◌≢◌, refl, true, none, some, List, [], ◌∷◌, ◌++◌, All, arith, ◌∙◌}
use braunrate.Base.Codes.{Text, codes, trim_space, cut-append}
use braunrate.Correlation.{Library, find_cookie, extract_cookie, or_next}

-- The text of a header that sets a cookie: the pair, and the attributes behind it.
abbrev pub set_cookie : Text → Text → Text → Text
set_cookie name content attributes = (name ++ 61 ∷ content) ++ 59 ∷ attributes

-- A name and a content as a header can carry them: without their separators, and without spaces
-- around them.
pub record IsCookie (name content : Text) : Type 0 where
  pub plain_name : All (λ c. c ≢ 61) name
  pub plain_pair : All (λ c. c ≢ 59) (name ++ 61 ∷ content)
  pub trimmed_pair : trim_space (name ++ 61 ∷ content) ≡ name ++ 61 ∷ content
  pub trimmed_name : trim_space name ≡ name
  pub trimmed_content : trim_space content ≡ content

module _ {ℓ} {R : Type ℓ} (library : Library R) where
  find_cookie-here :
      (name content attributes : Text) (values : List Text) (expression : Text)
      → IsCookie name content
      → library.equal_fold name expression ≡ true
      → find_cookie library expression (set_cookie name content attributes ∷ values) ≡ some content
  unfolding find_cookie
  find_cookie-here name content attributes values expression p same =
      rw
        (
          cut-append 59 (name ++ 61 ∷ content) attributes p.plain_pair,
          p.trimmed_pair,
          cut-append 61 name content p.plain_name,
          p.trimmed_name,
          same,
          p.trimmed_content,
        )
        refl

  find_cookie-append :
      (expression : Text) (before after : List Text)
      → find_cookie library expression (before ++ after)
        ≡ or_next (find_cookie library expression before) (find_cookie library expression after)
  unfolding find_cookie
  find_cookie-append expression [] after = refl
  find_cookie-append expression (value ∷ before) after =
      ground (arith, find_cookie-append expression before after)

  extract_cookie-append :
      (expression : Text) (earlier later : List (Text × List Text))
      → extract_cookie library expression (earlier ++ later)
        ≡ or_next
            (extract_cookie library expression earlier)
            (extract_cookie library expression later)
  unfolding extract_cookie
  extract_cookie-append expression [] later = refl
  extract_cookie-append expression ((name, values) ∷ earlier) later =
      ground (arith, extract_cookie-append expression earlier later)

  extract_cookie-here :
      (expression header : Text) (values : List Text) (later : List (Text × List Text))
      (content : Text)
      → library.equal_fold header (codes "Set-Cookie") ≡ true
      → find_cookie library expression values ≡ some content
      → extract_cookie library expression ((header, values) ∷ later) ≡ some content
  unfolding extract_cookie
  extract_cookie-here expression header values later content is_set found = rw (is_set, found) refl

  -- Where a header sets a cookie of the wanted name, with attributes behind its content, and no
  -- value before it in that header nor an earlier header sets one, what is captured is the content,
  -- without the attributes. The name has no equals sign, neither part a semicolon, and there are no
  -- spaces around them.
  pub extract_cookie-set_cookie :
      (name content attributes expression header : Text) (before after : List Text)
      (earlier later : List (Text × List Text))
      → IsCookie name content
      → library.equal_fold name expression ≡ true
      → library.equal_fold header (codes "Set-Cookie") ≡ true
      → find_cookie library expression before ≡ none
      → extract_cookie library expression earlier ≡ none
      → extract_cookie library expression
          (earlier ++ (header, before ++ set_cookie name content attributes ∷ after) ∷ later)
        ≡ some content
  extract_cookie-set_cookie name content attributes expression header before after earlier later p
        same is_set none_before none_earlier =
      extract_cookie-append expression earlier
        ((header, before ++ set_cookie name content attributes ∷ after) ∷ later)
      ∙ rw none_earlier (
          extract_cookie-here expression header _ later content is_set (
            find_cookie-append expression before (set_cookie name content attributes ∷ after)
            ∙ rw none_before (find_cookie-here name content attributes after expression p same)))
