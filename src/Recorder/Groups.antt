-- ===== src/Recorder/Groups.antt =====
-- Which calls a group has.
use braunrate.Base.{
  append_assoc, append-nil, ◌≡◌, ◌≢◌, refl, ap, ◌∙◌, Bool, true, false, List, [], ◌∷◌, ◌++◌, keep,
  All, All-append, any, arith, ◌==◌, eq_iff, eq_refl, if◌then◌else◌, ◌||◌, ◌⊎◌, sym, Bool-cases,
  inl, inr,
}
use braunrate.Base.Codes.{Text, text_eq}
use braunrate.Recorder.{Entry, RecorderLibrary, Group, route_key, place, place_all, group_by_route}

keep-snoc {ℓ} :
    {A : Type ℓ} (p : A → Bool) (xs : List A) (x : A)
    → keep p (xs ++ x ∷ []) ≡ (if p x then keep p xs ++ x ∷ [] else keep p xs)
keep-snoc p [] x = refl
keep-snoc p (y ∷ xs) x = elim (Bool-cases (p y)) [
  | inl e ↦ elim (Bool-cases (p x)) [
    | inl f ↦ rw (e, f) (ap (λ rest. y ∷ rest) (rw f at (keep-snoc p xs x)))
    | inr f ↦ rw (e, f) (ap (λ rest. y ∷ rest) (rw f at (keep-snoc p xs x)))
  ]
  | inr e ↦ rw e (keep-snoc p xs x)
]

append-nonempty {ℓ} : {A : Type ℓ} (xs : List A) (x : A) → xs ++ x ∷ [] ≢ []
append-nonempty [] x = λ e. absurd (ground (arith, e))
append-nonempty (y ∷ xs) x = λ e. absurd (ground (arith, e))

module _ (library : RecorderLibrary) where
  -- Each group has all the calls of its key among some, in their order, and at least one.
  abbrev pub Collects : List Entry → Group → Type 0
  Collects entries g =
      (g.entries ≡ keep (λ e. g.key == route_key library e) entries) × (g.entries ≢ [])

  abbrev pub has_key : Text → List Group → Bool
  has_key key groups = any (λ g. g.key == key) groups

  -- No key stands twice.
  abbrev pub AreDistinct : List Group → Type 0
  AreDistinct [] = Unit
  AreDistinct (g ∷ groups) = (has_key g.key groups ≡ false) × AreDistinct groups

  has_key-place :
      (key : Text) (e : Entry) (groups : List Group)
      → has_key key (place library e groups) ≡ (has_key key groups || (route_key library e == key))
  unfolding place
  has_key-place key e [] = ground arith
  has_key-place key e (g ∷ groups) =
      ground (arith, eq_iff g.key (route_key library e), has_key-place key e groups)

  place-AreDistinct :
      (e : Entry) (groups : List Group) → AreDistinct groups → AreDistinct (place library e groups)
  unfolding place
  place-AreDistinct e [] d = (refl, tt)
  place-AreDistinct e (g ∷ groups) (apart, d) = elim (Bool-cases (g.key == route_key library e)) [
    | inl h ↦ rw h (apart, d)
    | inr h ↦ rw h (
      ground (
        arith,
        apart,
        h,
        has_key-place g.key e groups,
        eq_iff g.key (route_key library e),
        eq_iff (route_key library e) g.key,
      ),
      place-AreDistinct e groups d,
    )
  ]

  Collects-other :
      (e : Entry) (seen : List Entry) (g : Group)
      → (g.key == route_key library e) ≡ false
      → Collects seen g
      → Collects (seen ++ e ∷ []) g
  Collects-other e seen g h (same, some_there) =
      (same ∙ sym (rw h at (keep-snoc (λ x. g.key == route_key library x) seen e)), some_there)

  Collects-others :
      (e : Entry) (seen : List Entry) (groups : List Group)
      → has_key (route_key library e) groups ≡ false
      → All (Collects seen) groups
      → All (Collects (seen ++ e ∷ [])) groups
  Collects-others e seen [] h all_of = tt
  Collects-others e seen (g ∷ groups) h (c, all_of) = (
    Collects-other e seen g (ground (arith, h)) c,
    Collects-others e seen groups (ground (arith, h)) all_of,
  )

  -- No call that was seen has a key that no group has.
  abbrev Covers : List Group → List Entry → Type 0
  Covers groups seen = All (λ x. has_key (route_key library x) groups ≡ true) seen

  keep-none :
      (key : Text) (groups : List Group) (seen : List Entry)
      → has_key key groups ≡ false
      → Covers groups seen
      → keep (λ x. key == route_key library x) seen ≡ []
  keep-none key groups [] h covers = refl
  keep-none key groups (x ∷ seen) h (c, covers) = elim (Bool-cases (key == route_key library x)) [
    | inl e ↦ absurd (ground (arith, c, rw ((eq_iff key (route_key library x)).0 e) at h))
    | inr e ↦ rw e (keep-none key groups seen h covers)
  ]

  place-Collects :
      (e : Entry) (seen : List Entry) (groups : List Group)
      → All (Collects seen) groups
      → AreDistinct groups
      → (has_key (route_key library e) groups ≡ true)
        ⊎ (keep (λ x. route_key library e == route_key library x) seen ≡ [])
      → All (Collects (seen ++ e ∷ [])) (place library e groups)
  unfolding place
  place-Collects e seen [] all_of d (inl h) = absurd (ground (arith, h))
  place-Collects e seen [] all_of d (inr h) = (
    (
      sym (
          rw (eq_refl (route_key library e), h) at
            (keep-snoc (λ x. route_key library e == route_key library x) seen e)),
      λ q. absurd (ground (arith, q)),
    ),
    tt,
  )
  place-Collects e seen (g ∷ groups) (c, all_of) (apart, d) found =
      elim (Bool-cases (g.key == route_key library e)) [
        | inl h ↦
            (let same = (eq_iff g.key (route_key library e)).0 h in
              rw h (
                (
                  ap (λ xs. xs ++ e ∷ []) c.0
                      ∙ sym (rw h at (keep-snoc (λ x. g.key == route_key library x) seen e)),
                  append-nonempty g.entries e,
                ),
                Collects-others e seen groups (rw same at apart) all_of,
              ))
        | inr h ↦ rw h (
          Collects-other e seen g h c,
          place-Collects e seen groups all_of d
              (elim found [ inl k ↦ inl (ground (arith, h, k)) | inr k ↦ inr k ]),
        )
      ]

  Covers-place :
      (e : Entry) (groups : List Group) (seen : List Entry)
      → Covers groups seen
      → Covers (place library e groups) seen
  Covers-place e groups [] covers = tt
  Covers-place e groups (x ∷ seen) (c, covers) = (
    ground (arith, c, has_key-place (route_key library x) e groups),
    Covers-place e groups seen covers,
  )

  Covers-placed : (e : Entry) (groups : List Group) → Covers (place library e groups) (e ∷ [])
  Covers-placed e groups = (
    ground (
      arith,
      has_key-place (route_key library e) e groups,
      eq_refl (route_key library e),
      Bool-cases (has_key (route_key library e) groups),
    ),
    tt,
  )

  -- What the groups are of the calls that were seen.
  pub record IsGrouped (seen : List Entry) (groups : List Group) : Type 0 where
    pub collects : All (Collects seen) groups
    pub distinct : AreDistinct groups
    pub covers : Covers groups seen

  place-IsGrouped :
      (e : Entry) (seen : List Entry) (groups : List Group)
      → IsGrouped seen groups
      → IsGrouped (seen ++ e ∷ []) (place library e groups)
  place-IsGrouped e seen groups s = record {
    collects =
        place-Collects e seen groups s.collects s.distinct
          (elim (Bool-cases (has_key (route_key library e) groups)) [
            | inl h ↦ inl h
            | inr h ↦ inr (keep-none (route_key library e) groups seen h s.covers)
          ]);
    distinct = place-AreDistinct e groups s.distinct;
    covers =
        All-append _ seen (e ∷ []) (Covers-place e groups seen s.covers) (Covers-placed e groups);
  }

  place_all-IsGrouped :
      (entries seen : List Entry) (groups : List Group)
      → IsGrouped seen groups
      → IsGrouped (seen ++ entries) (place_all library entries groups)
  unfolding place_all
  place_all-IsGrouped [] seen groups s = rw (append-nil seen) s
  place_all-IsGrouped (e ∷ entries) seen groups s = rw (sym (append_assoc seen (e ∷ []) entries)) (
      place_all-IsGrouped entries (seen ++ e ∷ []) (place library e groups)
        (place-IsGrouped e seen groups s))

  -- Each call that was recorded is in the one group of its key: no two groups have the same key, every
  -- key of a call is that of a group, and a group has exactly the calls of its key, in the order in
  -- which they were recorded, and at least one.
  pub group_by_route-IsGrouped :
      (entries : List Entry) → IsGrouped entries (group_by_route library entries)
  group_by_route-IsGrouped entries =
      place_all-IsGrouped entries [] [] (record { collects = tt; distinct = tt; covers = tt })
