-- ===== src/Importer/Splitting/Quoting.antt =====
-- internal/importer/curl.go: fields written in single quotes, as a browser copies a request, and split
-- on them.
use braunrate.Base.{
  All, ◌≢◌, Option, ℕ, ◌≡◌, refl, true, false, List, [], ◌∷◌, ◌++◌, append_assoc, append-nil, eqb,
  eqb_iff, if◌then◌else◌, Bool-cases, inl, inr, sym, ap, ◌∙◌, arith,
}
use braunrate.Base.Codes.{Text}
use braunrate.Importer.Splitting.{
  Splitter, single_quote, backslash, read_rune, read_runes, next_rune, new_splitter, split, ok, err,
  unclosed_quote,
}

-- The runes of a field and the quote that ends it; a quote within is written outside the quotes,
-- behind a backslash.
unfoldable pub quoted_runes : Text → Text → Text
quoted_runes [] rest = single_quote ∷ rest
quoted_runes (c ∷ field) rest =
    if eqb c single_quote
    then single_quote ∷ backslash ∷ single_quote ∷ single_quote ∷ quoted_runes field rest
    else c ∷ quoted_runes field rest

unfoldable pub quoted : Text → Text → Text
quoted field rest = single_quote ∷ quoted_runes field rest

-- The fields after the first one, each behind a space.
unfoldable pub written_after : List Text → Text → Text
written_after [] end = end
written_after (field ∷ fields) end = 32 ∷ quoted field (written_after fields end)

unfoldable pub written : Text → List Text → Text → Text
written first fields end = quoted first (written_after fields end)

-- The splitter within single quotes, and after them.
abbrev within : List Text → Text → Splitter
within fields current = record {
  fields = fields;
  current = current;
  has = true;
  quote = single_quote;
  skips = false;
}

abbrev after : List Text → Text → Splitter
after fields current = record {
  fields = fields;
  current = current;
  has = true;
  quote = 0;
  skips = false;
}

read_rune-within :
    (c : ℕ) (next : Option ℕ) (fields : List Text) (current : Text)
    → eqb c single_quote ≡ false
    → read_rune c next (within fields current) ≡ within fields (current ++ c ∷ [])
unfolding read_rune
read_rune-within c next fields current e = ground arith

snoc : (current field : Text) (c : ℕ) → (current ++ c ∷ []) ++ field ≡ current ++ c ∷ field
snoc current field c = append_assoc current (c ∷ []) field

read_runes-quoted_runes :
    (field rest : Text) (fields : List Text) (current : Text)
    → read_runes (quoted_runes field rest) (within fields current)
      ≡ read_runes rest (after fields (current ++ field))
unfolding read_runes read_rune quoted_runes
read_runes-quoted_runes [] rest fields current = rw (append-nil current) refl
read_runes-quoted_runes (c ∷ field) rest fields current = elim (Bool-cases (eqb c single_quote)) [
  | inl e ↦
      rw ((eqb_iff c single_quote).0 e, sym (snoc current field single_quote))
        (read_runes-quoted_runes field rest fields (current ++ single_quote ∷ []))
  | inr e ↦
      rw (e, sym (snoc current field c))
        (ap (λ s. read_runes (quoted_runes field rest) s)
            (read_rune-within c (next_rune (quoted_runes field rest)) fields current e)
          ∙ read_runes-quoted_runes field rest fields (current ++ c ∷ []))
]

-- A new splitter that has these fields.
abbrev ready : List Text → Splitter
ready fields = record { fields = fields; current = []; has = false; quote = 0; skips = false }

read_runes-quoted :
    (field rest : Text) (fields : List Text)
    → read_runes (quoted field rest) (ready fields) ≡ read_runes rest (after fields field)
unfolding quoted
read_runes-quoted field rest fields =
    unfold read_runes read_rune in read_runes-quoted_runes field rest fields []

read_runes-written_after :
    (others : List Text) (field end : Text) (fields : List Text)
    → (last : Text) × (before : List Text) × (before ++ last ∷ [] ≡ fields ++ field ∷ others)
      × (read_runes (written_after others end) (after fields field)
          ≡ read_runes end (after before last))
unfolding written_after read_runes read_rune
read_runes-written_after [] field end fields = (field, fields, refl, refl)
read_runes-written_after (other ∷ others) field end fields =
    let (last, before, same, at) =
      read_runes-written_after others other end (fields ++ field ∷ []) in
    (
      last,
      before,
      same ∙ append_assoc fields (field ∷ []) (other ∷ others),
      read_runes-quoted other (written_after others end) (fields ++ field ∷ []) ∙ at,
    )

-- What the splitter has read of written fields: all of them, the last one not yet finished.
read_runes-written :
    (first : Text) (others : List Text) (end : Text)
    → (last : Text) × (before : List Text) × (before ++ last ∷ [] ≡ first ∷ others)
      × (read_runes (written first others end) new_splitter ≡ read_runes end (after before last))
unfolding written
read_runes-written first others end =
    let (last, before, same, at) = read_runes-written_after others first end [] in
    (last, before, same, read_runes-quoted first (written_after others end) [] ∙ at)

-- Any fields, written each in single quotes with a space between, are split into the same fields:
-- a space, a line break, a backslash or a quote within a field stays part of it, and an empty field
-- stays a field.
pub split-written :
    (first : Text) (others : List Text) → split (written first others []) ≡ ok (first, others)
unfolding split
split-written first others =
    let (last, before, same, at) = read_runes-written first others [] in
    rw at (unfold read_runes in rw same refl)

within_stays :
    (text : Text) (fields : List Text) (current : Text)
    → All (λ c. c ≢ single_quote) text
    → (read_runes text (within fields current)).quote ≡ single_quote
unfolding read_runes
within_stays [] fields current _ = refl
within_stays (c ∷ text) fields current (other, others) =
    ap (λ (s : Splitter). (read_runes text s).quote)
      (read_rune-within c (next_rune text) fields current (ground arith))
    ∙ within_stays text fields (current ++ c ∷ []) others

-- A command whose last field opens a single quote that does not close is refused, whatever fields
-- are written before it.
pub split-unclosed :
    (first : Text) (others : List Text) (text : Text)
    → All (λ c. c ≢ single_quote) text
    → split (written first others (32 ∷ single_quote ∷ text)) ≡ err unclosed_quote
unfolding split
split-unclosed first others text open_text =
    let (last, before, same, at) = read_runes-written first others (32 ∷ single_quote ∷ text) in
    rw at (
      unfold read_runes read_rune in rw (within_stays text (before ++ last ∷ []) [] open_text) refl)
