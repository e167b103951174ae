-- ===== src/Scenario/Secrets.antt =====
-- internal/scenario/credentials.go and expandEnvironment of interpolacao.go: the document of a
-- scenario as the YAML library reads it, the refusal of a credential that is written in it, and the
-- expansion of the environment in its fields. The lowering of letters is a parameter.
pub mod Fields
pub mod Refused
pub mod Expanded
use braunrate.Base.{
  ℕ, Bool, true, false, not, ◌&&◌, ◌||◌, Option, none, some, List, [], ◌∷◌, ◌++◌, any, ◌==◌,
  if◌then◌else◌,
}
use braunrate.Base.Codes.{Text, codes, text_eq, contains, cut, has_prefix, trim_space}
use braunrate.Scenario.References.{expand_defined_environment}

-- A key is the text of its node. An alias has no children.
mutual
  pub data Node : Type 0 where
    scalar : Text → Node
    mapping : Entries → Node
    sequence : Nodes → Node
    alias : Node

  pub data Entries : Type 0 where
    no_entries : Entries
    entry : Text → Node → Entries → Entries

  pub data Nodes : Type 0 where
    no_nodes : Nodes
    node : Node → Nodes → Nodes

-- Why a field is refused: as a header, as a credential, or as a line with a header.
pub data SecretRefusal : Type 0 where
  literal_header literal_credential : Text → SecretRefusal
  literal_header_line : Text → SecretRefusal

abbrev secret_marks : List Text
secret_marks =
    codes "token"
    ∷ codes "senha"
    ∷ codes "password"
    ∷ codes "passwd"
    ∷ codes "secret"
    ∷ codes "api-key"
    ∷ codes "apikey"
    ∷ codes "api_key"
    ∷ []

abbrev pub is_among : List Text → Text → Bool
is_among names name = any (λ other. other == name) names

abbrev credential_names : List Text
credential_names =
    codes "segredo"
    ∷ codes "pwd"
    ∷ codes "clientsecret"
    ∷ codes "secret_key"
    ∷ codes "access_key"
    ∷ []

abbrev credential_headers : List Text
credential_headers =
    codes "authorization"
    ∷ codes "proxy-authorization"
    ∷ codes "x-api-key"
    ∷ codes "api-key"
    ∷ codes "x-auth-token"
    ∷ codes "x-access-token"
    ∷ []

unfoldable pub is_credential_header : Text → Bool
is_credential_header lowered = is_among credential_headers lowered

unfoldable pub written_safely : Text → Bool
written_safely value =
    let trimmed = trim_space value in
    trimmed == []
    || contains trimmed (codes "${")
    || has_prefix trimmed (codes "$.")
    || has_prefix trimmed (codes "header:")
    || has_prefix trimmed (codes "cookie:")

abbrev pub or_refusal : Option SecretRefusal → Option SecretRefusal → Option SecretRefusal
or_refusal none rest = rest
or_refusal (some refusal) rest = some refusal

module _ (to_lower : Text → Text) where
  -- IsSecretName of internal/protocol/transport.
  unfoldable pub is_secret_name : Text → Bool
  is_secret_name name =
      let lowered = to_lower name in
      is_among (codes "authorization" ∷ codes "cookie" ∷ codes "set-cookie" ∷ []) lowered
      || any (λ mark. contains lowered mark) secret_marks

  unfoldable pub credential_name : Text → Bool
  credential_name name = is_among credential_names (to_lower name) || is_secret_name name

  unfoldable pub refuse_literal_header_line : Text → Option SecretRefusal
  refuse_literal_header_line value =
      let (name, credential, found) = cut 58 value in
      if not found
        || not (is_credential_header (to_lower (trim_space name)))
        || written_safely credential
      then none
      else some (literal_header_line (trim_space name))

  -- The case of a scalar.
  unfoldable pub refuse_literal_text : Text → Text → Option SecretRefusal
  refuse_literal_text name value =
      let lowered = to_lower name in
      if is_credential_header lowered
      then (if written_safely value then none else some (literal_header name))
      else if credential_name lowered
      then (if written_safely value then none else some (literal_credential name))
      else if lowered == codes "header"
      then refuse_literal_header_line value
      else none

  abbrev pub refuse_literal_field : Text → Node → Option SecretRefusal
  refuse_literal_field name (scalar value) = refuse_literal_text name value
  refuse_literal_field name (mapping _) = none
  refuse_literal_field name (sequence _) = none
  refuse_literal_field name alias = none

  unfoldable mutual
    pub sweep_credentials : Node → Option SecretRefusal
    sweep_credentials (scalar value) = none
    sweep_credentials (mapping entries) = sweep_entries entries
    sweep_credentials (sequence nodes) = sweep_nodes nodes
    sweep_credentials alias = none

    pub sweep_entries : Entries → Option SecretRefusal
    sweep_entries no_entries = none
    sweep_entries (entry name value entries) =
        or_refusal (refuse_literal_field name value)
          (or_refusal (sweep_credentials value) (sweep_entries entries))

    pub sweep_nodes : Nodes → Option SecretRefusal
    sweep_nodes no_nodes = none
    sweep_nodes (node value nodes) = or_refusal (sweep_credentials value) (sweep_nodes nodes)

  -- `refuseLiteralCredentials`, over the fields of the document.
  unfoldable pub refuse_literal_credentials : Entries → Option SecretRefusal
  refuse_literal_credentials no_entries = none
  refuse_literal_credentials (entry name value entries) =
      let rest = refuse_literal_credentials entries in
      if name == codes "variables" || name == codes "messaging"
      then rest
      else or_refusal (sweep_credentials value) rest

  abbrev pub keeps_raw_text : Text → Bool
  keeps_raw_text name = credential_name name || name == codes "seed"

  module _ (environment : Text → Option Text) where
    unfoldable mutual
      pub expand_environment : Node → Node
      expand_environment (scalar value) = scalar (expand_defined_environment environment value)
      expand_environment (mapping entries) = mapping (expand_entries entries)
      expand_environment (sequence nodes) = sequence (expand_nodes nodes)
      expand_environment alias = alias

      pub expand_entries : Entries → Entries
      expand_entries no_entries = no_entries
      expand_entries (entry name value entries) =
          let rest = expand_entries entries in
          let expanded = expand_environment value in
          entry name (if keeps_raw_text name then value else expanded) rest

      pub expand_nodes : Nodes → Nodes
      expand_nodes no_nodes = no_nodes
      expand_nodes (node value nodes) = node (expand_environment value) (expand_nodes nodes)
