-- ===== src/Protocol.antt =====
-- internal/protocol/protocol.go: how a request ended, and what a protocol answers.
use braunrate.Base.{ℕ, Bool, true, false, String, List, Map, Comparable, ◌≡◌, ◌↔◌, arith}

pub data ErrorClass : Type 0 where
  success err_network err_timeout err_status err_assertion err_correlation : ErrorClass
  err_config err_saturation err_graphql err_messaging err_auth err_authorization : ErrorClass

pub class_discrete : Discrete ErrorClass
class_discrete = hlevel

abbrev class_eqb : ErrorClass → ErrorClass → Bool
class_eqb a b = elim (class_discrete a b) [ yes _ ↦ true | no _ ↦ false ]

pub class_eqb_iff : (a b : ErrorClass) → (class_eqb a b ≡ true) ↔ (a ≡ b)
class_eqb_iff a b = ground arith

instance abbrev pub class_eq : Comparable ErrorClass
class_eq = record { same = class_eqb; same_iff = class_eqb_iff }

abbrev pub is_success : ErrorClass → Bool
is_success success = true
is_success _ = false

-- The headers keep the order in which a range over the map visits them.
pub record Response : Type 0 where
  pub status : ℕ
  pub body : List ℕ
  pub headers : Map String (List String)
  pub bytes : ℕ
  pub messages : ℕ
  pub class : ErrorClass
  pub detail : String
  pub key : String
