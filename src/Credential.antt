-- ===== src/Credential.antt =====
-- internal/auth/auth.go: the credential that is obtained once and refreshed when it expires. The
-- manager holds its mutex for the whole of `ensureToken`, so that the calls come one after another.
-- `M` is the type of the values of an iteration, as the manager compares and keeps them.
pub mod Freshness
use braunrate.Base.{
  ℕ, ◌+◌, ◌-◌, Bool, true, false, not, ◌&&◌, ◌||◌, String, string_eq, ◌==◌, Option, none, some,
  List, [], ◌∷◌, Map, lookup, eqb, leb, if◌then◌else◌,
}

pub record Manager : Type 0 where
  pub refresh_after : ℕ
  pub values : Map String String
  pub obtained : Bool
  pub obtained_at : ℕ
  pub obtains : ℕ

-- What the auth request leads to: no response, or one with its status and the values after it.
pub data AuthAnswer : Type 0 where
  no_response : AuthAnswer
  responded : ℕ → Map String String → AuthAnswer

pub data AuthResult : Type 0 where
  ready could_not_obtain : AuthResult
  refused_with : ℕ → AuthResult

unfoldable pub new_manager : ℕ → Manager
new_manager refresh_after = record {
  refresh_after = refresh_after;
  values = [];
  obtained = false;
  obtained_at = 0;
  obtains = 0;
}

-- `venceu`. The clock never goes back.
unfoldable pub has_expired : ℕ → Manager → Bool
has_expired now m = not (eqb m.refresh_after 0) && leb m.refresh_after (now - m.obtained_at)

abbrev pub unchanged : Map String String → String → String → Bool
unchanged input name value = elim (lookup name input) [ none ↦ false | some v ↦ v == value ]

-- The values that the auth request produced: those that the input has already are left out.
unfoldable pub produced : Map String String → Map String String → Map String String
produced input [] = []
produced input ((name, value) ∷ rest) =
    let others = produced input rest in
    if unchanged input name value then others else (name, value) ∷ others

unfoldable pub is_fresh : ℕ → Manager → Bool
is_fresh now m = m.obtained && not (has_expired now m)

-- `ensureToken` where a request is made.
unfoldable pub obtain : ℕ → Map String String → AuthAnswer → Manager → Manager × AuthResult
obtain finished input no_response m = (m, could_not_obtain)
obtain finished input (responded status after) m =
    if leb 400 status then (m, refused_with status) else (
      record m {
        values = produced input after;
        obtained = true;
        obtained_at = finished;
        obtains = m.obtains + 1;
      },
      ready,
    )

-- `now` is the clock at the start, `finished` after the request.
unfoldable pub ensure_token :
    (now finished : ℕ) → Map String String → AuthAnswer → Manager → Manager × AuthResult
ensure_token now finished input answer m =
    if is_fresh now m then (m, ready) else obtain finished input answer m

-- A call of an iteration: its instants, its values, and what a request would lead to.
pub record Call : Type 0 where
  pub now : ℕ
  pub finished : ℕ
  pub input : Map String String
  pub answer : AuthAnswer

unfoldable pub ensure_all : List Call → Manager → Manager × List AuthResult
ensure_all [] m = (m, [])
ensure_all (c ∷ calls) m =
    let (after, result) = ensure_token c.now c.finished c.input c.answer m in
    let (last, results) = ensure_all calls after in (last, result ∷ results)
