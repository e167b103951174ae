-- ===== src/Server/Followers.antt =====
-- What a client that follows the stream of a run receives.
use braunrate.Base.{
  All-imp, ◌⊎◌, ◌<◌, ltb, sym, ap, ◌∙◌, ℕ, ◌≡◌, refl, Bool, true, false, String, List, [], ◌∷◌,
  ◌++◌, map, append_assoc, append-nil, Bool-cases, inl, inr, All, All-append, arith,
}
use braunrate.Server.{
  channel_capacity, arm, cancel, Result, settle, Watcher, send, receive_at, new_run, append, close,
  follow,
}
use braunrate.Server.Turns.{
  receiving, canceling, arming, following, ending, progressing, take_turn, take_turns, try_cancel,
  progress, Turn, finish_step, executing, decided, settled, announced, Phase, finished, Life, born,
}

-- A client has every line, in order, unless one found its channel full.
abbrev pub HasAll : List String → Watcher → Type 0
HasAll lines w = (0 < w.missed) ⊎ (w.replay ++ w.live ≡ lines)

-- A line is among these.
abbrev pub HasLine : String → List String → Type 0
HasLine line lines =
    (before : List String) × (after : List String) × (lines ≡ before ++ line ∷ after)

-- A client has the lines from the first one to some that comes no earlier than the given one.
abbrev pub HasUntil : String → List String → Watcher → Type 0
HasUntil last lines w =
    (got : List String) × (later : List String) × HasAll got w
    × HasLine last got
    × (lines ≡ got ++ later)

HasLine-append :
    (last line : String) (lines : List String)
    → HasLine last lines
    → HasLine last (lines ++ line ∷ [])
HasLine-append last line lines (before, after, e) =
    (before, after ++ line ∷ [], rw e (append_assoc before (last ∷ after) (line ∷ [])))

HasAll-send :
    (line : String) (lines : List String) (w : Watcher)
    → HasAll lines w
    → HasAll (lines ++ line ∷ []) (send line w)
unfolding send
HasAll-send line lines w (inl missed) = inl (ground (arith, missed))
HasAll-send line lines w (inr e) = elim (Bool-cases (ltb w.waiting channel_capacity)) [
  | inl p ↦
      rw (p, send)
        (inr (sym (append_assoc w.replay w.live (line ∷ [])) ∙ ap (λ got. got ++ line ∷ []) e))
  | inr p ↦ rw (p, send) (inl (omega arith))
]

All-send :
    (line : String) (lines : List String) (ws : List Watcher)
    → All (HasAll lines) ws
    → All (HasAll (lines ++ line ∷ [])) (map (send line) ws)
All-send line lines [] _ = _
All-send line lines (w ∷ ws) (h, hs) = (HasAll-send line lines w h, All-send line lines ws hs)

HasUntil-append :
    (last line : String) (lines : List String) (w : Watcher)
    → HasUntil last lines w
    → HasUntil last (lines ++ line ∷ []) w
HasUntil-append last line lines w (got, later, has, said, e) =
    (got, later ++ line ∷ [], has, said, rw e (append_assoc got later (line ∷ [])))

HasUntil-all :
    (last : String) (lines : List String)
    → HasLine last lines
    → (w : Watcher) → HasAll lines w
    → HasUntil last lines w
HasUntil-all last lines said w has = (lines, [], has, said, sym (append-nil lines))

All-receive_at :
    (i : ℕ) (lines : List String) (ws : List Watcher)
    → All (HasAll lines) ws
    → All (HasAll lines) (receive_at i ws)
All-receive_at i lines [] _ = _
All-receive_at ℕ.zero lines (w ∷ ws) (h, hs) = (h, hs)
All-receive_at (ℕ.suc i) lines (w ∷ ws) (h, hs) = (h, All-receive_at i lines ws hs)

abbrev newcomer : List String → Watcher
newcomer lines = record { replay = lines; live = []; waiting = 0; missed = 0 }

newcomers-HasAll : (lines : List String) → All (HasAll lines) (newcomer lines ∷ [])
newcomers-HasAll lines = (inr (append-nil lines), _)

-- Whether `finish` has added its line.
abbrev has_said : Phase → Bool
has_said (announced c) = true
has_said (finished c) = true
has_said _ = false

module _ {ℓ} {W : Type ℓ} where
  pub record IsFollowed (last : String) (life : Life W) : Type 0 where
    pub of_watchers : All (HasAll life.run.lines) life.run.watchers
    pub of_left : All (HasUntil last life.run.lines) life.run.left
    pub said : has_said life.phase ≡ true → HasLine last life.run.lines
    pub closed_after : life.run.closed ≡ true → has_said life.phase ≡ true

  append-IsFollowed :
      (line last : String) (life : Life W)
      → IsFollowed last life
      → IsFollowed last (record life { run = append line life.run })
  unfolding append
  append-IsFollowed line last life h = record {
    of_watchers = All-send line life.run.lines life.run.watchers h.of_watchers;
    of_left = All-imp _ _ (HasUntil-append last line life.run.lines) life.run.left h.of_left;
    said = λ p. HasLine-append last line life.run.lines (h.said p);
    closed_after = h.closed_after;
  }

  announce-IsFollowed :
      (last : String) (c : Bool) (life : Life W)
      → IsFollowed last life
      → IsFollowed last (record life { phase = announced c; run = append last life.run })
  unfolding append
  announce-IsFollowed last c life h =
      let appended = append-IsFollowed last last life h in
      record {
        of_watchers = appended.of_watchers;
        of_left = appended.of_left;
        said = λ _. (life.run.lines, [], refl);
        closed_after = λ _. refl;
      }

  born-IsFollowed : (headline last : String) → IsFollowed last (born headline)
  unfolding born new_run
  born-IsFollowed headline last = record {
    of_watchers = _;
    of_left = _;
    said = λ p. absurd (ground (arith, p));
    closed_after = λ closed. ground (arith, closed);
  }

  follow-IsFollowed :
      (last : String) (life : Life W)
      → IsFollowed last life
      → IsFollowed last (record life { run = follow life.run })
  unfolding follow
  follow-IsFollowed last life h =
      let lines = life.run.lines in
      elim (Bool-cases life.run.closed) [
        | inl q ↦
            rw (q, follow)
              (record {
                of_watchers = h.of_watchers;
                of_left = All-append _ life.run.left (newcomer lines ∷ []) h.of_left (
                  HasUntil-all last lines (h.said (h.closed_after q)) (newcomer lines)
                      (newcomers-HasAll lines).0,
                  tt,
                );
                said = h.said;
                closed_after = λ closed. h.closed_after q;
              })
        | inr q ↦
            rw (q, follow)
              (record {
                of_watchers =
                    All-append _ life.run.watchers (newcomer lines ∷ []) h.of_watchers
                      (newcomers-HasAll lines);
                of_left = h.of_left;
                said = h.said;
                closed_after = λ closed. h.closed_after (ground (arith, closed));
              })
      ]

  close-IsFollowed :
      (last : String) (c : Bool) (life : Life W)
      → HasLine last life.run.lines
      → IsFollowed last life
      → IsFollowed last (record life { phase = finished c; run = close life.run })
  unfolding close
  close-IsFollowed last c life said h = record {
    of_watchers = _;
    of_left =
        All-append _ life.run.left life.run.watchers h.of_left
          (All-imp _ _ (HasUntil-all last life.run.lines said) life.run.watchers h.of_watchers);
    said = λ _. said;
    closed_after = λ _. refl;
  }

  ended :
      (result : Result W) (last : String) (life : Life W) (p : Phase)
      → life.phase ≡ p
      → IsFollowed last life
      → IsFollowed last (finish_step result last life)
  unfolding finish_step settle
  ended result last life executing e h =
      rw (e, finish_step)
        (record {
          of_watchers = h.of_watchers;
          of_left = h.of_left;
          said = λ q. absurd (ground (arith, q));
          closed_after = λ closed. absurd (ground (arith, h.closed_after closed, e));
        })
  ended result last life (decided c) e h =
      rw (e, finish_step)
        (record {
          of_watchers = h.of_watchers;
          of_left = h.of_left;
          said = λ q. absurd (ground (arith, q));
          closed_after = λ closed. absurd (ground (arith, h.closed_after closed, e));
        })
  ended result last life (settled c) e h = rw (e, finish_step) (announce-IsFollowed last c life h)
  ended result last life (announced c) e h =
      rw (e, finish_step) (close-IsFollowed last c life (h.said (ground (arith, e))) h)
  ended result last life (finished c) e h = rw (e, finish_step) h

  take_turn-IsFollowed :
      (result : Result W) (last : String) (turn : Turn) (life : Life W)
      → IsFollowed last life
      → IsFollowed last (take_turn result last turn life)
  unfolding take_turn try_cancel cancel arm progress
  take_turn-IsFollowed result last canceling life h = record {
    of_watchers = h.of_watchers;
    of_left = h.of_left;
    said = h.said;
    closed_after = h.closed_after;
  }
  take_turn-IsFollowed result last arming life h = record {
    of_watchers = h.of_watchers;
    of_left = h.of_left;
    said = h.said;
    closed_after = h.closed_after;
  }
  take_turn-IsFollowed result last following life h = follow-IsFollowed last life h
  take_turn-IsFollowed result last ending life h = ended result last life life.phase refl h
  take_turn-IsFollowed result last (progressing line) life h = append-IsFollowed line last life h
  take_turn-IsFollowed result last (receiving i) life h = record {
    of_watchers = All-receive_at i life.run.lines life.run.watchers h.of_watchers;
    of_left = h.of_left;
    said = h.said;
    closed_after = h.closed_after;
  }

  take_turns-IsFollowed :
      (result : Result W) (last : String) (turns : List Turn) (life : Life W)
      → IsFollowed last life
      → IsFollowed last (take_turns result last turns life)
  unfolding take_turns
  take_turns-IsFollowed result last [] life h = h
  take_turns-IsFollowed result last (turn ∷ turns) life h =
      take_turns-IsFollowed result last turns _ (take_turn-IsFollowed result last turn life h)

  -- Whatever turns the handlers, the executor and its progress take, also after the end: a client
  -- that follows a run and whose stream is not closed was given every line of the run in order,
  -- replayed or on its channel, however late it came. One whose stream is closed, or that came after
  -- that, was given the lines of the run from the first one on at least until the line that `finish`
  -- ends with; what is added after the close it need not have. Both hold unless the client's channel was full when a line was sent.
  pub take_turns-HasAll :
      (result : Result W) (headline last : String) (turns : List Turn)
      → let r = (take_turns result last turns (born headline)).run in
        All (HasAll r.lines) r.watchers × All (HasUntil last r.lines) r.left
  take_turns-HasAll result headline last turns =
      let h =
        take_turns-IsFollowed result last turns (born headline) (born-IsFollowed headline last) in
      (h.of_watchers, h.of_left)
