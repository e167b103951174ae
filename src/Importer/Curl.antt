-- ===== src/Importer/Curl.antt =====
-- internal/importer/curl.go: the fields of a curl command, read as a request. A text is the list of
-- its runes. The maker of the scenario's text from the request is not modelled; net/url and
-- strings.ToUpper are parameters.
pub mod Printing
use braunrate.Base.{
  Bool, true, false, ◌&&◌, List, [], ◌∷◌, ◌++◌, Option, none, some, if◌then◌else◌, any, Map, insert,
  ◌==◌,
}
use braunrate.Base.Codes.{Text, codes, text_eq, cut, has_prefix, contains, trim_space}
use braunrate.Importer.Splitting.{
  Attempt, ok, err, ◌>>=◌, split, option_without_value, header_without_colon, no_url,
  unreadable_url,
}

pub record Request : Type 0 where
  pub method : Text
  pub target : Text
  pub path : Text
  pub headers : Map Text Text
  pub body : Text
  pub follow_redirects : Bool
  pub user : Text
  pub password : Text

abbrev pub new_request : Request
new_request = record {
  method = [];
  target = [];
  path = [];
  headers = [];
  body = [];
  follow_redirects = false;
  user = [];
  password = [];
}

-- The variables of interpretar's loop; `skips` says that the next field was taken as a value.
pub record Interpretation : Type 0 where
  pub request : Request
  pub address : Text
  pub skips : Bool

abbrev pub with_request : Request → Interpretation → Interpretation
with_request request r = record r { request = request; skips = true }

abbrev pub set_header : Text → Text → Request → Request
set_header key content request = record request { headers = insert key content request.headers }

abbrev pub is_one_of : List Text → Text → Bool
is_one_of names field = any (λ name. field == name) names

-- `next(&index, field)`, and what is done with the value
abbrev pub taking : Option Text → (Text → Attempt Interpretation) → Attempt Interpretation
taking none use_value = err option_without_value
taking (some value) use_value = use_value value

abbrev pub read_header : Text → Interpretation → Attempt Interpretation
read_header value r =
    let (key, content, has) = cut 58 value in
    if has
    then ok (with_request (set_header (trim_space key) (trim_space content) r.request) r)
    else err header_without_colon

abbrev pub read_user : Text → Interpretation → Interpretation
read_user value r =
    let (user, password, _) = cut 58 value in
    with_request (record r.request { user = user; password = password }) r

-- The options whose value is read and, but for two kinds of them, thrown away.
abbrev pub read_ignored : Text → Text → Interpretation → Interpretation
read_ignored field value r =
    let agent =
      if is_one_of (codes "-A" ∷ codes "--user-agent" ∷ []) field
      then set_header (codes "User-Agent") value r.request
      else r.request in
    with_request
      (if is_one_of (codes "-b" ∷ codes "--cookie" ∷ []) field
        then set_header (codes "Cookie") value agent
        else agent)
      r

abbrev pub data_options : List Text
data_options =
    codes "-d"
    ∷ codes "--data"
    ∷ codes "--data-raw"
    ∷ codes "--data-binary"
    ∷ codes "--data-ascii"
    ∷ []

abbrev pub attached_options : List Text
attached_options = codes "--data" ∷ codes "--data-raw" ∷ codes "--data-binary" ∷ []

abbrev pub ignored_options : List Text
ignored_options =
    codes "-o"
    ∷ codes "--output"
    ∷ codes "-w"
    ∷ codes "--write-out"
    ∷ codes "-A"
    ∷ codes "--user-agent"
    ∷ codes "-b"
    ∷ codes "--cookie"
    ∷ codes "-e"
    ∷ codes "--referer"
    ∷ []

module _ (to_upper : Text → Text) where
  -- The switch of the loop, for a field and the one after it.
  unfoldable pub read_field : Text → Option Text → Interpretation → Attempt Interpretation
  read_field field next r =
      let (name, attached_value, attached) = cut 61 field in
      if is_one_of (codes "-X" ∷ codes "--request" ∷ []) field
      then taking next (λ value. ok (with_request (record r.request { method = to_upper value }) r))
      else if is_one_of (codes "-H" ∷ codes "--header" ∷ []) field
      then taking next (λ value. read_header value r)
      else if is_one_of data_options field
      then taking next (λ value. ok (with_request (record r.request { body = value }) r))
      else if attached && is_one_of attached_options name
      then ok (record r { request = record r.request { body = attached_value } })
      else if is_one_of (codes "-u" ∷ codes "--user" ∷ []) field
      then taking next (λ value. ok (read_user value r))
      else if is_one_of (codes "--url" ∷ []) field
      then taking next (λ value. ok (record r { address = value; skips = true }))
      else if is_one_of (codes "-L" ∷ codes "--location" ∷ []) field
      then ok (record r { request = record r.request { follow_redirects = true } })
      else if is_one_of ignored_options field
      then taking next (λ value. ok (read_ignored field value r))
      else if has_prefix field (codes "-")
      then ok r
      else if r.address == []
      then ok (record r { address = field })
      else ok r

  abbrev pub next_field : List Text → Option Text
  next_field [] = none
  next_field (field ∷ fields) = some field

  unfoldable pub read_fields : List Text → Interpretation → Attempt Interpretation
  read_fields [] r = ok r
  read_fields (field ∷ fields) r =
      (if r.skips then ok (record r { skips = false }) else read_field field (next_field fields) r)
      >>= read_fields fields

  -- net/url: the scheme, the host and the request URI of an address.
  module _ (parse_url : Text → Option (Text × Text × Text)) where
    abbrev pub with_scheme : Text → Text
    with_scheme address =
        if contains address (codes "://") then address else codes "https://" ++ address

    abbrev pub default_method : Request → Text
    default_method request =
        if request.method == []
        then (if request.body == [] then codes "GET" else codes "POST")
        else request.method

    abbrev pub locate : Option (Text × Text × Text) → Text → Request → Attempt Request
    locate none address request = err (unreadable_url address)
    locate (some (scheme, host, uri)) address request = ok (record request {
      target = scheme ++ codes "://" ++ host;
      path = uri;
      method = default_method request;
    })

    -- What interpretar does after its loop.
    unfoldable pub finish_reading : Interpretation → Attempt Request
    finish_reading r =
        if r.address == []
        then err no_url
        else locate (parse_url (with_scheme r.address)) (with_scheme r.address) r.request

    -- fields[0] and fields[1:]
    unfoldable pub interpretar : Text → List Text → Attempt Request
    interpretar first fields =
        let options = if first == codes "curl" then fields else first ∷ fields in
        read_fields options (record { request = new_request; address = []; skips = false })
        >>= finish_reading

    -- FromCurl up to the request that it builds the scenario from.
    unfoldable pub from_curl : Text → Attempt Request
    from_curl command = split command >>= λ (first, fields). interpretar first fields
