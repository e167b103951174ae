-- ===== src/Recorder/Flow/Order.antt =====
-- Where the values come from that later calls send.
use braunrate.Base.{ℕ, ◌<◌, ◌≡◌, true, some, List, ◌∷◌, All, get_elem?}
use braunrate.Base.Codes.{Text, text_eq}
use braunrate.Recorder.{RecorderLibrary}
use braunrate.Recorder.Flow.{ImportedCapture, Substitution, Found, Head, uses, candidates_of}

-- `In x xs`: x stands somewhere in xs.
pub data In {ℓ} {A : Type ℓ} (x : A) : List A → Type ℓ where
  at_head : {xs : List A} → In x (x ∷ xs)
  in_tail : {y : A} {xs : List A} → In x xs → In x (y ∷ xs)

module _ (library : RecorderLibrary) (heads : List Head) where
  -- A call of the group at a position sends the value.
  pub record Sends (position : ℕ) (value : Text) : Type 0 where
    pub sender : Head
    pub there : get_elem? heads position ≡ some sender
    pub sent : uses sender.entry value ≡ true

  -- The response of the group at a position carries the value at a path.
  pub record Carries (position : ℕ) (path value : Text) : Type 0 where
    pub carrier : Head
    pub there : get_elem? heads position ≡ some carrier
    pub name : Text
    pub carried :
        In
          (record { path = path; name = name; value = value })
          (candidates_of library carrier.entry)

  -- The variable that is put for a value in a group is captured from an earlier response that carries
  -- the value, at the path of the capture.
  pub record Comes (captures : List (ℕ × ImportedCapture)) (consumer : ℕ) (put : Substitution)
      : Type 0 where
    pub producer : ℕ
    pub earlier : producer < consumer
    pub path : Text
    pub captured : In (producer, record { variable = put.variable; expression = path }) captures
    pub carries : Carries producer path put.value
    pub sends : Sends consumer put.value

  -- What correlate has found hangs together.
  abbrev pub IsFlow : Found → Type 0
  IsFlow s = All (λ (p : ℕ × Substitution). Comes s.captures p.0 p.1) s.substitutions
