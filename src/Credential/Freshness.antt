-- ===== src/Credential/Freshness.antt =====
-- How often the credential is obtained, and what is kept of it.
use braunrate.Base.{
  ℕ, ◌+◌, ◌<◌, ◌≡◌, ◌≢◌, refl, true, String, string_eq, eq_iff, some, List, [], ◌∷◌, Map, lookup,
  All, arith, Option-cases, inl, inr,
}
use braunrate.Credential.{
  Manager, responded, ready, new_manager, has_expired, produced, is_fresh, obtain, ensure_token,
  Call, ensure_all,
}

-- The call comes before the credential obtained at an instant expires; 0 stands for never.
abbrev pub Within : ℕ → ℕ → Call → Type 0
Within since refresh c = (refresh ≢ 0) → c.now < since + refresh

is_fresh-Within :
    (c : Call) (m : Manager)
    → m.obtained ≡ true
    → Within m.obtained_at m.refresh_after c
    → is_fresh c.now m ≡ true
unfolding is_fresh has_expired
is_fresh-Within c m has early = ground (arith, has, early)

ensure_token-is_fresh :
    (c : Call) (m : Manager)
    → is_fresh c.now m ≡ true
    → ensure_token c.now c.finished c.input c.answer m ≡ (m, ready)
unfolding ensure_token
ensure_token-is_fresh c m fresh = rw fresh refl

ensure_all_fresh :
    (calls : List Call) (m : Manager)
    → m.obtained ≡ true
    → All (Within m.obtained_at m.refresh_after) calls
    → ((ensure_all calls m).0 ≡ m) × All (λ r. r ≡ ready) (ensure_all calls m).1
unfolding ensure_all
ensure_all_fresh [] m has early = (refl, _)
ensure_all_fresh (c ∷ calls) m has (early, rest) =
    rw (ensure_token-is_fresh c m (is_fresh-Within c m has early))
      (let (same, all_ready) = ensure_all_fresh calls m has rest in (same, (refl, all_ready)))

first_obtains :
    (c : Call) (refresh status : ℕ) (after : Map String String)
    → c.answer ≡ responded status after
    → status < 400
    → ensure_token c.now c.finished c.input c.answer (new_manager refresh) ≡ (
      record {
        refresh_after = refresh;
        values = produced c.input after;
        obtained = true;
        obtained_at = c.finished;
        obtains = 1;
      },
      ready,
    )
unfolding ensure_token is_fresh obtain new_manager
first_obtains c refresh status after answered accepted = ground (arith, answered, accepted)

-- When the first call's request is accepted, all calls that come before the credential expires are
-- ready with that one request, and the values it produced are the ones kept.
pub ensure_all_once :
    (c : Call) (calls : List Call) (refresh status : ℕ) (after : Map String String)
    → c.answer ≡ responded status after
    → status < 400
    → All (Within c.finished refresh) calls
    → let (m, results) = ensure_all (c ∷ calls) (new_manager refresh) in
      (m.obtains ≡ 1) × (m.values ≡ produced c.input after) × All (λ r. r ≡ ready) results
unfolding ensure_all
ensure_all_once c calls refresh status after answered accepted early =
    rw (first_obtains c refresh status after answered accepted)
      (let (same, all_ready) = ensure_all_fresh calls _ refl early in (cc, cc, (refl, all_ready)))

-- Nothing that is kept of the auth request is a value that the iteration had before it.
pub lookup-produced :
    (name value : String) (input after : Map String String)
    → lookup name (produced input after) ≡ some value
    → lookup name input ≢ some value
unfolding lookup produced
lookup-produced name value input [] kept = ground (arith, kept)
lookup-produced name value input ((key, v) ∷ after) kept = elim (Option-cases (lookup key input)) [
  | inl p ↦ ground (arith, p, kept, eq_iff key name, lookup-produced name value input after)
  | inr q ↦
      (let (old, p) = q in
        ground
          (arith, p, kept, eq_iff key name, eq_iff old v, lookup-produced name value input after))
]
