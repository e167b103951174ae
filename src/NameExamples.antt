-- ===== src/NameExamples.antt =====
-- The theorems on names, commands and documents at concrete inputs. The words are written in lower
-- case already, and the parameter that lowers them is the identity.
use braunrate.Base.Codes.{without, contains, trim_right, trim_left, trim_space, has_prefix}
use braunrate.Base.Codes.{Text, codes}
use braunrate.Importer.Splitting.{ok}
use braunrate.Importer.Splitting.Quoting.{written}
use braunrate.Importer.Curl.{Request, from_curl}
use braunrate.Importer.Curl.Printing.{curl_fields, IsPrintable, from_curl-written}
use braunrate.Base.{lookup, true, Option, ◌++◌, ◌≤◌, [], ◌∷◌, refl, ◌≡◌, some, none, arith}
use braunrate.Texts.Nearest.{
  edit_distance, closest, all_rows, next_row, fill_row, first_row, last_cell, search_nearest,
  abbreviation, search_prefixed, tolerance,
}
use braunrate.Texts.Nearest.Distance.{Alignment, done, keep, insert, edit_distance-least}
use braunrate.Texts.Nearest.Answer.{IsAnswer, closest-IsAnswer}

-- taxa, taxaa, rampa
abbrev taxa : Text
taxa = 116 ∷ 97 ∷ 120 ∷ 97 ∷ []

abbrev taxaa : Text
taxaa = 116 ∷ 97 ∷ 120 ∷ 97 ∷ 97 ∷ []

abbrev rampa : Text
rampa = 114 ∷ 97 ∷ 109 ∷ 112 ∷ 97 ∷ []

-- address and its beginning
abbrev address : Text
address = 97 ∷ 100 ∷ 100 ∷ 114 ∷ 101 ∷ 115 ∷ 115 ∷ []

abbrev addr : Text
addr = 97 ∷ 100 ∷ 100 ∷ 114 ∷ []

nearest_runs :
    (edit_distance taxa rampa ≡ 3)
    × (closest (λ w. w) taxaa (rampa ∷ taxa ∷ []) ≡ some taxa)
    × (closest (λ w. w) addr (rampa ∷ address ∷ []) ≡ some address)
    × (closest (λ w. w) taxa (rampa ∷ []) ≡ none)
unfolding edit_distance all_rows next_row fill_row first_row last_cell closest search_nearest
    abbreviation search_prefixed has_prefix tolerance
nearest_runs = (refl, refl, refl, refl)

-- An x more at the end.
more : (word : Text) → Alignment word (word ++ 120 ∷ []) 1
more [] = insert {y = 120} done
more (x ∷ word) = keep {x = x} (more word)

edit_distance-least_example :
    Alignment taxa (taxa ++ 120 ∷ []) (edit_distance taxa (taxa ++ 120 ∷ []))
    × (edit_distance taxa (taxa ++ 120 ∷ []) ≤ 1)
edit_distance-least_example = edit_distance-least taxa (taxa ++ 120 ∷ []) (more taxa)

closest-IsAnswer_example :
    IsAnswer (λ w. w) taxaa (rampa ∷ taxa ∷ []) (closest (λ w. w) taxaa (rampa ∷ taxa ∷ []))
closest-IsAnswer_example =
    closest-IsAnswer (λ w. w) taxaa (rampa ∷ taxa ∷ []) (omega arith, (omega arith, tt))

-- A body with spaces, quotes and a backslash.
abbrev order_request : Request
order_request = record {
  method = codes "PUT";
  target = codes "http://shop";
  path = codes "/orders";
  headers = (codes "Accept", codes "*/*") ∷ (codes "X-Key", codes "a:b") ∷ [];
  body = codes "it's";
  follow_redirects = true;
  user = codes "me";
  password = codes "a:b";
}

-- A reader of this one address.
abbrev read_shop : Text → Option (Text × Text × Text)
read_shop _ = some (codes "http", codes "shop", codes "/orders")

order_request-IsPrintable :
    IsPrintable (λ t. t) read_shop order_request (codes "http://shop/orders")
unfolding trim_space trim_left trim_right lookup contains has_prefix
order_request-IsPrintable = record {
  upper = refl;
  some_method = omega arith;
  plain_headers = (
    (without 58 (codes "Accept") refl, refl, refl),
    ((without 58 (codes "X-Key") refl, refl, refl), tt),
  );
  unique_headers = (refl, (refl, tt));
  plain_user = without 58 (codes "me") refl;
  some_address = omega arith;
  whole_address = refl;
  scheme = codes "http";
  host = codes "shop";
  parsed = refl;
  same_target = refl;
}

from_curl-written_example :
    from_curl
      (λ t. t)
      read_shop
      (written (codes "curl") (curl_fields order_request (codes "http://shop/orders")) [])
    ≡ ok order_request
from_curl-written_example =
    from_curl-written (λ t. t) read_shop order_request (codes "http://shop/orders")
      order_request-IsPrintable
