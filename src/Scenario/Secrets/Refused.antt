-- ===== src/Scenario/Secrets/Refused.antt =====
-- Which credentials are refused.
use braunrate.Base.{
  ◌≢◌, ◌≡◌, refl, Bool, true, false, Option, none, some, inl, inr, ◌⊎◌, arith, Bool-cases, ◌||◌,
  ◌==◌, eq_iff,
}
use braunrate.Base.Codes.{Text, codes, text_eq}
use braunrate.Scenario.Secrets.{
  Node, Entries, Nodes, scalar, mapping, sequence, alias, no_entries, entry, no_nodes, node,
  SecretRefusal, refuse_literal_text, refuse_literal_field, or_refusal, sweep_credentials,
  sweep_entries, sweep_nodes, refuse_literal_credentials, written_safely, credential_name,
  is_credential_header,
}
use braunrate.Scenario.Secrets.Fields.{
  Field, in_mapping, in_sequence, EntryField, here, inside, after, NodesField, at_first, further,
  SweptField, below, later,
}

or_refusal-none : (a b : Option SecretRefusal) → or_refusal a b ≡ none → (a ≡ none) × (b ≡ none)
or_refusal-none none b h = (refl, h)
or_refusal-none (some x) b h = absurd (ground (arith, h))

or_refusal-some :
    (a b : Option SecretRefusal) {r : SecretRefusal}
    → or_refusal a b ≡ some r
    → (a ≡ some r) ⊎ (b ≡ some r)
or_refusal-some none b h = inr h
or_refusal-some (some x) b h = inl h

apart_from :
    (key : Text)
    → (key == codes "variables") || (key == codes "messaging") ≡ false
    → (key ≢ codes "variables") × (key ≢ codes "messaging")
apart_from key e = (
  λ v. absurd (ground (arith, e, v, eq_iff key (codes "variables"))),
  λ m. absurd (ground (arith, e, m, eq_iff key (codes "messaging"))),
)

module _ (to_lower : Text → Text) where
  mutual
    unfolding sweep_credentials sweep_entries sweep_nodes

    sweep-Field :
        {name value : Text} (n : Node)
        → sweep_credentials to_lower n ≡ none
        → Field name value n
        → refuse_literal_text to_lower name value ≡ none
    sweep-Field (scalar _) h f = elim f [ ]
    sweep-Field alias h f = elim f [ ]
    sweep-Field (mapping others) h (in_mapping f) = sweep-EntryField others h f
    sweep-Field (sequence items) h (in_sequence f) = sweep-NodesField items h f

    sweep-EntryField :
        {name value : Text} (others : Entries)
        → sweep_entries to_lower others ≡ none
        → EntryField name value others
        → refuse_literal_text to_lower name value ≡ none
    sweep-EntryField no_entries h f = elim f [ ]
    sweep-EntryField (entry key (scalar value) others) h here = (or_refusal-none _ _ h).0
    sweep-EntryField (entry key n others) h (inside f) =
        let (_, rest) = or_refusal-none _ _ h in sweep-Field n (or_refusal-none _ _ rest).0 f
    sweep-EntryField (entry key n others) h (after f) =
        let (_, rest) = or_refusal-none _ _ h in
        sweep-EntryField others (or_refusal-none _ _ rest).1 f

    sweep-NodesField :
        {name value : Text} (items : Nodes)
        → sweep_nodes to_lower items ≡ none
        → NodesField name value items
        → refuse_literal_text to_lower name value ≡ none
    sweep-NodesField no_nodes h f = elim f [ ]
    sweep-NodesField (node n items) h (at_first f) = sweep-Field n (or_refusal-none _ _ h).0 f
    sweep-NodesField (node n items) h (further f) =
        sweep-NodesField items (or_refusal-none _ _ h).1 f

  -- A refusal that a field of it is the reason of.
  pub Refuses : (Text → Text → Type 0) → SecretRefusal → Type 0
  Refuses FieldOf r =
      (name : Text) × ((value : Text) × FieldOf name value
        × (refuse_literal_text to_lower name value ≡ some r))

  field-Refuses :
      (key : Text) (n : Node) {r : SecretRefusal}
      → refuse_literal_field to_lower key n ≡ some r
      → (value : Text) × (n ≡ scalar value) × (refuse_literal_text to_lower key value ≡ some r)
  field-Refuses key (scalar value) h = (value, refl, h)
  field-Refuses key (mapping _) h = absurd (ground (arith, h))
  field-Refuses key (sequence _) h = absurd (ground (arith, h))
  field-Refuses key alias h = absurd (ground (arith, h))

  mutual
    unfolding sweep_credentials sweep_entries sweep_nodes Refuses

    sweep-Refuses :
        {r : SecretRefusal} (n : Node)
        → sweep_credentials to_lower n ≡ some r
        → Refuses (λ name value. Field name value n) r
    sweep-Refuses (scalar value) h = absurd (ground (arith, h))
    sweep-Refuses alias h = absurd (ground (arith, h))
    sweep-Refuses (mapping others) h =
        let (name, (value, f, e)) = sweep_entries-Refuses others h in
        (name, (value, in_mapping f, e))
    sweep-Refuses (sequence items) h =
        let (name, (value, f, e)) = sweep_nodes-Refuses items h in (name, (value, in_sequence f, e))

    sweep_entries-Refuses :
        {r : SecretRefusal} (others : Entries)
        → sweep_entries to_lower others ≡ some r
        → Refuses (λ name value. EntryField name value others) r
    sweep_entries-Refuses no_entries h = absurd (ground (arith, h))
    sweep_entries-Refuses (entry key n others) h = elim (or_refusal-some _ _ h) [
      | inl e ↦ (let (value, same, q) = field-Refuses key n e in (key, (value, rw same here, q)))
      | inr rest ↦ elim (or_refusal-some _ _ rest) [
        | inl e ↦ (let (name, (value, f, q)) = sweep-Refuses n e in (name, (value, inside f, q)))
        | inr e ↦
            (let (name, (value, f, q)) = sweep_entries-Refuses others e in
              (name, (value, after f, q)))
      ]
    ]

    sweep_nodes-Refuses :
        {r : SecretRefusal} (items : Nodes)
        → sweep_nodes to_lower items ≡ some r
        → Refuses (λ name value. NodesField name value items) r
    sweep_nodes-Refuses no_nodes h = absurd (ground (arith, h))
    sweep_nodes-Refuses (node n items) h = elim (or_refusal-some _ _ h) [
      | inl e ↦ (let (name, (value, f, q)) = sweep-Refuses n e in (name, (value, at_first f, q)))
      | inr e ↦
          (let (name, (value, f, q)) = sweep_nodes-Refuses items e in (name, (value, further f, q)))
    ]

  swept-SweptField :
      {name value : Text} (document : Entries)
      → refuse_literal_credentials to_lower document ≡ none
      → SweptField name value document
      → refuse_literal_text to_lower name value ≡ none
  unfolding refuse_literal_credentials
  swept-SweptField no_entries h f = elim f [ ]
  swept-SweptField (entry key n others) h (below v m f) =
      (let apart : (key == codes "variables") || (key == codes "messaging") ≡ false =
          ground (arith, v, m, eq_iff key (codes "variables"), eq_iff key (codes "messaging")) in
        sweep-Field n (or_refusal-none _ _ (rw apart at h)).0 f)
  swept-SweptField (entry key n others) h (later f) =
      elim (Bool-cases ((key == codes "variables") || (key == codes "messaging"))) [
        | inl e ↦ swept-SweptField others (rw e at h) f
        | inr e ↦ swept-SweptField others (or_refusal-none _ _ (rw e at h)).1 f
      ]

  -- A name that carries a credential, or a header that does.
  abbrev pub carries_credential : Text → Bool
  carries_credential name =
      is_credential_header (to_lower name) || credential_name to_lower (to_lower name)

  written-refuse_literal_text :
      (name value : Text)
      → carries_credential name ≡ true
      → refuse_literal_text to_lower name value ≡ none
      → written_safely value ≡ true
  unfolding refuse_literal_text
  written-refuse_literal_text name value carries h = ground (arith, carries, h)

-- In a document that is not refused, every field whose name carries a credential, at any depth below
-- a field other than the variables and the messaging, is empty or written as a reference.
pub refuse_literal_credentials-written :
    (to_lower : Text → Text) (document : Entries) (name value : Text)
    → refuse_literal_credentials to_lower document ≡ none
    → SweptField name value document
    → carries_credential to_lower name ≡ true
    → written_safely value ≡ true
refuse_literal_credentials-written to_lower document name value accepted field carries =
    written-refuse_literal_text to_lower name value carries
      (swept-SweptField to_lower document accepted field)

-- A document that is refused has a field, below one that the sweep looks into, that is refused for
-- the same reason.
pub refuse_literal_credentials-Refuses :
    (to_lower : Text → Text) (document : Entries) (r : SecretRefusal)
    → refuse_literal_credentials to_lower document ≡ some r
    → Refuses to_lower (λ name value. SweptField name value document) r
unfolding refuse_literal_credentials Refuses
refuse_literal_credentials-Refuses to_lower no_entries r h = absurd (ground (arith, h))
refuse_literal_credentials-Refuses to_lower (entry key n others) r h =
    elim (Bool-cases ((key == codes "variables") || (key == codes "messaging"))) [
      | inl e ↦
          (let (name, (value, f, q)) =
              refuse_literal_credentials-Refuses to_lower others r (rw e at h) in
            (name, (value, later f, q)))
      | inr e ↦ elim (or_refusal-some _ _ (rw e at h)) [
        | inl g ↦
            (let (name, (value, f, q)) = sweep-Refuses to_lower n g in
              let (v, m) = apart_from key e in (name, (value, below v m f, q)))
        | inr g ↦
            (let (name, (value, f, q)) = refuse_literal_credentials-Refuses to_lower others r g in
              (name, (value, later f, q)))
      ]
    ]
