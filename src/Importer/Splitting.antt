-- ===== src/Importer/Splitting.antt =====
-- internal/importer/curl.go: the splitting of a command into its fields, and the errors of the import.
-- A text is the list of its runes.
pub mod Quoting
use braunrate.Base.{
  Bool, true, false, not, ◌&&◌, ◌||◌, List, [], ◌∷◌, ◌++◌, Option, none, some, eqb, if◌then◌else◌,
  ℕ,
}
use braunrate.Base.Codes.{Text, is_space}

-- The errors of split and interpretar; the sentences are left out.
pub data Refusal : Type 0 where
  unclosed_quote no_command option_without_value header_without_colon no_url : Refusal
  unreadable_url : Text → Refusal

pub data Attempt {ℓ} (A : Type ℓ) : Type ℓ where
  ok : A → Attempt A
  err : Refusal → Attempt A

infixl 5 ◌>>=◌
abbrev pub ◌>>=◌ {ℓ κ} : {A : Type ℓ} {B : Type κ} → Attempt A → (A → Attempt B) → Attempt B
ok a >>= f = f a
err e >>= f = err e

abbrev pub single_quote : ℕ
single_quote = 39

abbrev pub double_quote : ℕ
double_quote = 34

abbrev pub backslash : ℕ
backslash = 92

abbrev pub newline : ℕ
newline = 10

-- The variables of split's loop. `quote` is 0 outside quotes. `skips` says that the loop has moved
-- its index past the next rune.
pub record Splitter : Type 0 where
  pub fields : List Text
  pub current : Text
  pub has : Bool
  pub quote : ℕ
  pub skips : Bool

abbrev pub write_rune : ℕ → Splitter → Splitter
write_rune c s = record s { current = s.current ++ c ∷ []; has = true }

abbrev pub write_escaped : ℕ → Splitter → Splitter
write_escaped c s = record (write_rune c s) { skips = true }

-- The case of the backslash outside single quotes, with the rune that comes next.
abbrev pub read_backslash : Option ℕ → Splitter → Splitter
read_backslash none s = write_rune backslash s
read_backslash (some next) s =
    if eqb next newline
    then record s { skips = true }
    else if eqb s.quote 0
    then write_escaped next s
    else if eqb next double_quote || eqb next backslash
    then write_escaped next s
    else write_rune backslash s

abbrev pub finish_field : Splitter → Splitter
finish_field s =
    if s.has then record s { fields = s.fields ++ s.current ∷ []; current = []; has = false } else s

-- The switch of the loop.
unfoldable pub read_rune : ℕ → Option ℕ → Splitter → Splitter
read_rune char next s =
    if eqb char backslash && not (eqb s.quote single_quote)
    then read_backslash next s
    else if not (eqb s.quote 0)
    then (if eqb char s.quote then record s { quote = 0 } else write_rune char s)
    else if eqb char single_quote || eqb char double_quote
    then record s { quote = char; has = true }
    else if is_space char
    then finish_field s
    else write_rune char s

abbrev pub next_rune : Text → Option ℕ
next_rune [] = none
next_rune (c ∷ text) = some c

unfoldable pub read_runes : Text → Splitter → Splitter
read_runes [] s = s
read_runes (char ∷ text) s =
    read_runes text
      (if s.skips then record s { skips = false } else read_rune char (next_rune text) s)

abbrev pub new_splitter : Splitter
new_splitter = record { fields = []; current = []; has = false; quote = 0; skips = false }

-- The fields are returned as the first one and the others, since there is at least one.
abbrev pub some_fields : List Text → Attempt (Text × List Text)
some_fields [] = err no_command
some_fields (field ∷ fields) = ok (field, fields)

unfoldable pub split : Text → Attempt (Text × List Text)
split command =
    let s = read_runes command new_splitter in
    if not (eqb s.quote 0) then err unclosed_quote else some_fields (finish_field s).fields
