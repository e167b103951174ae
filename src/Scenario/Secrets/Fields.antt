-- ===== src/Scenario/Secrets/Fields.antt =====
-- The fields of a document, at any depth.
use braunrate.Base.{◌≢◌}
use braunrate.Base.Codes.{Text, codes, text_eq}
use braunrate.Scenario.Secrets.{Node, Entries, Nodes, scalar, mapping, sequence, entry, node}

-- `Field name value n`: somewhere in `n` a mapping has a field of that name with that text.
mutual
  pub data Field : Text → Text → Node → Type 0 where
    in_mapping :
        {name value : Text} {entries : Entries}
        → EntryField name value entries
        → Field name value (mapping entries)
    in_sequence :
        {name value : Text} {nodes : Nodes}
        → NodesField name value nodes
        → Field name value (sequence nodes)

  pub data EntryField : Text → Text → Entries → Type 0 where
    here :
        {name value : Text} {entries : Entries}
        → EntryField name value (entry name (scalar value) entries)
    inside :
        {name value key : Text} {n : Node} {entries : Entries}
        → Field name value n
        → EntryField name value (entry key n entries)
    after :
        {name value key : Text} {n : Node} {entries : Entries}
        → EntryField name value entries
        → EntryField name value (entry key n entries)

  pub data NodesField : Text → Text → Nodes → Type 0 where
    at_first :
        {name value : Text} {n : Node} {nodes : Nodes}
        → Field name value n
        → NodesField name value (node n nodes)
    further :
        {name value : Text} {n : Node} {nodes : Nodes}
        → NodesField name value nodes
        → NodesField name value (node n nodes)

-- The same below a field of the document that the sweep looks into.
pub data SweptField : Text → Text → Entries → Type 0 where
  below :
      {name value key : Text} {n : Node} {entries : Entries}
      → key ≢ codes "variables"
      → key ≢ codes "messaging"
      → Field name value n
      → SweptField name value (entry key n entries)
  later :
      {name value key : Text} {n : Node} {entries : Entries}
      → SweptField name value entries
      → SweptField name value (entry key n entries)
