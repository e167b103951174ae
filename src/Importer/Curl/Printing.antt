-- ===== src/Importer/Curl/Printing.antt =====
-- internal/importer/curl.go: requests printed as curl commands, and interpretar on them.
use braunrate.Base.{
  insert-append, ◌≡◌, ◌≢◌, ◌<◌, refl, sym, ap, ◌∙◌, Bool, true, false, List, [], ◌∷◌, ◌++◌,
  append_assoc, append-nil, Option, some, if◌then◌else◌, All, Map, Unique, insert, ◌==◌, length,
  arith,
}
use braunrate.Base.Codes.{cut-append, Text, codes, text_eq, cut, contains, trim_space, trim_left}
use braunrate.Importer.Splitting.{ok, ◌>>=◌}
use braunrate.Importer.Splitting.Quoting.{written, split-written}
use braunrate.Importer.Curl.{
  Request, new_request, Interpretation, read_field, read_fields, finish_reading, interpretar,
  from_curl, set_header, read_header, read_user, with_request,
}

unfoldable pub header_fields : Map Text Text → List Text → List Text
header_fields [] rest = rest
header_fields ((key, value) ∷ headers) rest =
    codes "-H" ∷ (key ++ 58 ∷ 32 ∷ value) ∷ header_fields headers rest

-- The fields after `curl` that say what a request is.
unfoldable pub curl_fields : Request → Text → List Text
curl_fields r address =
    codes "-X"
    ∷ r.method
    ∷ header_fields r.headers (
        codes "-d"
        ∷ r.body
        ∷ codes "-u"
        ∷ (r.user ++ 58 ∷ r.password)
        ∷ (if r.follow_redirects
            then codes "-L" ∷ codes "--url" ∷ address ∷ []
            else codes "--url" ∷ address ∷ []))

-- A header whose name has no colon, both parts without spaces around them.
abbrev pub IsPlain : Text × Text → Type 0
IsPlain h = All (λ c. c ≢ 58) h.0 × (trim_space h.0 ≡ h.0) × (trim_space h.1 ≡ h.1)

-- What a request must be for its command to say all of it, and where its address leads.
pub record IsPrintable (to_upper : Text → Text) (parse_url : Text → Option (Text × Text × Text))
    (r : Request) (address : Text) : Type 0 where
  pub upper : to_upper r.method ≡ r.method
  pub some_method : 0 < length r.method
  pub plain_headers : All IsPlain r.headers
  pub unique_headers : Unique r.headers
  pub plain_user : All (λ c. c ≢ 58) r.user
  pub some_address : 0 < length address
  pub whole_address : contains address (codes "://") ≡ true
  pub scheme : Text
  pub host : Text
  pub parsed : parse_url address ≡ some (scheme, host, r.path)
  pub same_target : scheme ++ codes "://" ++ host ≡ r.target

nonempty : (text : Text) → 0 < length text → (text == []) ≡ false
nonempty [] h = absurd (omega arith)
nonempty (c ∷ text) h = refl

trim_space-behind : (text : Text) → trim_space (32 ∷ text) ≡ trim_space text
unfolding trim_space trim_left
trim_space-behind text = refl

read_header-plain :
    (key value : Text) (r : Interpretation)
    → IsPlain (key, value)
    → read_header (key ++ 58 ∷ 32 ∷ value) r ≡ ok (with_request (set_header key value r.request) r)
read_header-plain key value r (no_colon, trimmed_key, trimmed_value) =
    rw
      (cut-append 58 key (32 ∷ value) no_colon, trim_space-behind value, trimmed_key, trimmed_value)

read_user-plain :
    (user password : Text) (r : Interpretation)
    → All (λ c. c ≢ 58) user
    → read_user (user ++ 58 ∷ password) r
      ≡ with_request (record r.request { user = user; password = password }) r
read_user-plain user password r no_colon = rw (cut-append 58 user password no_colon) refl

-- The reading of a request of which the method and some headers are read.
abbrev with_headers : Text → Map Text Text → Interpretation
with_headers method headers = record {
  request = record new_request { method = method; headers = headers };
  address = [];
  skips = false;
}

module _ (to_upper : Text → Text) where
  read_fields-header :
      (method key value : Text) (m : Map Text Text) (rest : List Text)
      → IsPlain (key, value)
      → read_fields to_upper (codes "-H" ∷ (key ++ 58 ∷ 32 ∷ value) ∷ rest) (with_headers method m)
        ≡ read_fields to_upper rest (with_headers method (insert key value m))
  unfolding read_fields read_field
  read_fields-header method key value m rest plain =
      ap (λ o. o >>= read_fields to_upper ((key ++ 58 ∷ 32 ∷ value) ∷ rest))
        (read_header-plain key value (with_headers method m) plain)

  read_fields-header_fields :
      (hs m : Map Text Text) (method : Text) (rest : List Text)
      → All IsPlain hs
      → Unique (m ++ hs)
      → read_fields to_upper (header_fields hs rest) (with_headers method m)
        ≡ read_fields to_upper rest (with_headers method (m ++ hs))
  unfolding header_fields
  read_fields-header_fields [] m method rest plain u = rw (append-nil m) refl
  read_fields-header_fields ((k, v) ∷ hs) m method rest (plain, others) u =
      read_fields-header method k v m (header_fields hs rest) plain
      ∙ rw (insert-append k v m hs u, sym (append_assoc m ((k, v) ∷ []) hs))
          (read_fields-header_fields hs (m ++ (k, v) ∷ []) method rest others
            (rw (append_assoc m ((k, v) ∷ []) hs) u))

  read_fields-redirects :
      (r : Request) (address : Text) (follow : Bool)
      → read_fields to_upper
          (if follow
            then codes "-L" ∷ codes "--url" ∷ address ∷ []
            else codes "--url" ∷ address ∷ [])
          (record { request = record r { follow_redirects = false }; address = []; skips = false })
        ≡ ok (record {
          request = record r { follow_redirects = follow };
          address = address;
          skips = false;
        })
  unfolding read_fields read_field cut
  read_fields-redirects r address true = refl
  read_fields-redirects r address false = refl

  read_fields-user :
      (r : Request) (rest : List Text)
      → All (λ c. c ≢ 58) r.user
      → read_fields to_upper
          (codes "-d" ∷ r.body ∷ codes "-u" ∷ (r.user ++ 58 ∷ r.password) ∷ rest)
          (with_headers r.method r.headers)
        ≡ read_fields to_upper rest (record {
          request = record r { target = []; path = []; follow_redirects = false };
          address = [];
          skips = false;
        })
  unfolding read_fields read_field cut
  read_fields-user r rest no_colon =
      ap (λ read. read_fields to_upper ((r.user ++ 58 ∷ r.password) ∷ rest) read)
        (read_user-plain r.user r.password
          (record {
            request = record new_request { method = r.method; headers = r.headers; body = r.body };
            address = [];
            skips = false;
          })
          no_colon)

  read_fields-curl_fields :
      (r : Request) (address : Text)
      → to_upper r.method ≡ r.method
      → All IsPlain r.headers
      → Unique r.headers
      → All (λ c. c ≢ 58) r.user
      → read_fields to_upper
          (curl_fields r address)
          (record { request = new_request; address = []; skips = false })
        ≡ ok (record {
          request = record r { target = []; path = [] };
          address = address;
          skips = false;
        })
  unfolding curl_fields read_fields read_field
  read_fields-curl_fields r address upper plain unique user = rw upper (
      read_fields-header_fields r.headers [] r.method _ plain unique
      ∙ read_fields-user r _ user
      ∙ read_fields-redirects (record r { target = []; path = [] }) address r.follow_redirects)

  -- A request printed as a curl command, each field in single quotes, is imported as the same
  -- request: its method, headers, body, user, redirects, and the target and path that its address
  -- stands for. Its method is not empty and in upper case, its headers have different names without
  -- a colon and no spaces around a name or a content, its user has no colon, and its address has a
  -- scheme and is read as its target and path.
  pub from_curl-written :
      (parse_url : Text → Option (Text × Text × Text)) (r : Request) (address : Text)
      → IsPrintable to_upper parse_url r address
      → from_curl to_upper parse_url (written (codes "curl") (curl_fields r address) []) ≡ ok r
  unfolding from_curl interpretar finish_reading
  from_curl-written parse_url r address p =
      rw
        (
          split-written (codes "curl") (curl_fields r address),
          read_fields-curl_fields r address p.upper p.plain_headers p.unique_headers p.plain_user,
          nonempty address p.some_address,
          p.whole_address,
          p.parsed,
          nonempty r.method p.some_method,
          p.same_target,
        )
        refl
