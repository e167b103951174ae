-- ===== src/Scenario/Secrets/Expanded.antt =====
-- The fields of a document after its expansion.
use braunrate.Base.{
  ◌≢◌, ◌≡◌, refl, true, Option, none, inl, inr, ◌⊎◌, arith, Bool-cases, if◌then◌else◌,
}
use braunrate.Base.Codes.{Text, codes, text_eq}
use braunrate.Scenario.Secrets.{
  is_secret_name, Node, Entries, Nodes, scalar, mapping, sequence, alias, no_entries, entry,
  no_nodes, node, written_safely, credential_name, refuse_literal_credentials, expand_environment,
  expand_entries, expand_nodes, keeps_raw_text,
}
use braunrate.Scenario.Secrets.Refused.{carries_credential, refuse_literal_credentials-written}
use braunrate.Scenario.Secrets.Fields.{
  Field, in_mapping, in_sequence, EntryField, here, inside, after, NodesField, at_first, further,
  SweptField, below, later,
}

in_mapping-inv :
    {name value : Text} (others : Entries)
    → Field name value (mapping others)
    → EntryField name value others
in_mapping-inv others (in_mapping f) = f

in_sequence-inv :
    {name value : Text} (items : Nodes)
    → Field name value (sequence items)
    → NodesField name value items
in_sequence-inv items (in_sequence f) = f

EntryField-cases :
    {name value key : Text} {n : Node} {others : Entries}
    → EntryField name value (entry key n others)
    → (key ≡ name) × (n ≡ scalar value) ⊎ (Field name value n ⊎ EntryField name value others)
EntryField-cases here = inl (refl, refl)
EntryField-cases (inside f) = inr (inl f)
EntryField-cases (after f) = inr (inr f)

NodesField-cases :
    {name value : Text} {n : Node} {others : Nodes}
    → NodesField name value (node n others)
    → Field name value n ⊎ NodesField name value others
NodesField-cases (at_first f) = inl f
NodesField-cases (further f) = inr f

here_of :
    {name value key : Text} {n : Node} {others : Entries}
    → key ≡ name
    → n ≡ scalar value
    → EntryField name value (entry key n others)
here_of k e = rw (k, e) here

SweptField-cases :
    {name value key : Text} {n : Node} {others : Entries}
    → SweptField name value (entry key n others)
    → (key ≢ codes "variables") × (key ≢ codes "messaging") × Field name value n
      ⊎ SweptField name value others
SweptField-cases (below v m f) = inl (v, m, f)
SweptField-cases (later f) = inr f

module _ (to_lower : Text → Text) (environment : Text → Option Text) where
  mutual
    unfolding expand_environment expand_entries expand_nodes

    -- A field that keeps its raw text is the one that the file has.
    Field-expanded :
        {name value : Text} (n : Node)
        → keeps_raw_text to_lower name ≡ true
        → Field name value (expand_environment to_lower environment n)
        → Field name value n
    Field-expanded (scalar _) raw f = elim f [ ]
    Field-expanded alias raw f = elim f [ ]
    Field-expanded (mapping others) raw f =
        in_mapping (EntryField-expanded others raw (in_mapping-inv _ f))
    Field-expanded (sequence items) raw f =
        in_sequence (NodesField-expanded items raw (in_sequence-inv _ f))

    EntryField-expanded :
        {name value : Text} (others : Entries)
        → keeps_raw_text to_lower name ≡ true
        → EntryField name value (expand_entries to_lower environment others)
        → EntryField name value others
    EntryField-expanded no_entries raw f = elim f [ ]
    EntryField-expanded (entry key n others) raw f = elim (EntryField-cases f) [
      | inl h ↦
          (let raw_key : keeps_raw_text to_lower key ≡ true = rw h.0 raw in
            here_of h.0 (rw raw_key at h.1))
      | inr g ↦ elim g [
        | inl h ↦ inside (elim (Bool-cases (keeps_raw_text to_lower key)) [
          | inl e ↦ rw e at h
          | inr e ↦ Field-expanded n raw (rw e at h)
        ])
        | inr h ↦ after (EntryField-expanded others raw h)
      ]
    ]

    NodesField-expanded :
        {name value : Text} (items : Nodes)
        → keeps_raw_text to_lower name ≡ true
        → NodesField name value (expand_nodes to_lower environment items)
        → NodesField name value items
    NodesField-expanded no_nodes raw f = elim f [ ]
    NodesField-expanded (node n items) raw f = elim (NodesField-cases f) [
      | inl h ↦ at_first (Field-expanded n raw h)
      | inr h ↦ further (NodesField-expanded items raw h)
    ]

  either_expanded :
      {name value : Text} (key : Text) (n : Node)
      → keeps_raw_text to_lower name ≡ true
      → Field name value
          (if keeps_raw_text to_lower key then n else expand_environment to_lower environment n)
      → Field name value n
  either_expanded key n raw f = elim (Bool-cases (keeps_raw_text to_lower key)) [
    | inl e ↦ rw e at f
    | inr e ↦ Field-expanded n raw (rw e at f)
  ]

  SweptField-expanded :
      {name value : Text} (document : Entries)
      → keeps_raw_text to_lower name ≡ true
      → SweptField name value (expand_entries to_lower environment document)
      → SweptField name value document
  unfolding expand_entries
  SweptField-expanded no_entries raw f = elim f [ ]
  SweptField-expanded (entry key n others) raw f = elim (SweptField-cases f) [
    | inl g ↦ below g.0 g.1 (either_expanded key n raw g.2)
    | inr g ↦ later (SweptField-expanded others raw g)
  ]

-- Where lowering letters twice lowers them no further: once a document is not refused and the
-- environment is expanded in it, every field whose name carries a credential, at any depth below a
-- field other than the variables and the messaging, still has the text of the file, and that text is
-- empty or written as a reference. So no value of the environment stands in such a field.
pub expand_entries-written :
    (to_lower : Text → Text) (environment : Text → Option Text) (document : Entries)
    (name value : Text)
    → ((text : Text) → to_lower (to_lower text) ≡ to_lower text)
    → refuse_literal_credentials to_lower document ≡ none
    → credential_name to_lower name ≡ true
    → SweptField name value (expand_entries to_lower environment document)
    → SweptField name value document × (written_safely value ≡ true)
unfolding credential_name is_secret_name
expand_entries-written to_lower environment document name value twice accepted carries field =
    let raw : keeps_raw_text to_lower name ≡ true = ground (arith, carries) in
    let in_file = SweptField-expanded to_lower environment document raw field in
    let carried : carries_credential to_lower name ≡ true = ground (arith, carries, twice name) in
    (
      in_file,
      refuse_literal_credentials-written to_lower document name value accepted in_file carried,
    )
