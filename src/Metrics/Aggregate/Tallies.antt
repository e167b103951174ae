-- ===== src/Metrics/Aggregate/Tallies.antt =====
-- The counters of a step against the samples that they summarise, and adding two of them up.
use mathlib.Core.List.{append_assoc, append-nil}
use braunrate.Base.{
  ℕ_eq, ℕ, ◌+◌, ◌≡◌, refl, ◌∙◌, List, [], ◌∷◌, ◌++◌, arith, Bool, true, false, length,
  length-append, String, Bool-cases, inl, inr, ap, ◌==◌, string_eq, ltb, eqb, some, none, Option,
  count_of, count_of-add_count, add_count, Map, Unique, add_count-Unique, if◌then◌else◌, sum,
  sum-map-append, map, Comparable, eq_iff, lookup,
}
use braunrate.Base.Int.{sub_ℕ}
use braunrate.Protocol.{ErrorClass, is_success, class_eq}
use braunrate.Metrics.{Hdr, CountsValues}
use braunrate.Metrics.Aggregate.{
  count_sample, Sample, Aggregate, new_aggregate, record_error, record_outcome, record_latency,
  record_sample, record_all, add_counts, add,
}
use braunrate.Metrics.Aggregate.Consistency

-- The sum over the samples of a number that each contributes.
abbrev pub tally : (Sample → ℕ) → List Sample → ℕ
tally f samples = sum (map f samples)

abbrev pub succeeded : Sample → ℕ
succeeded s = if is_success s.class then 1 else 0

abbrev pub failed_as : ErrorClass → Sample → ℕ
failed_as c s = if is_success s.class then 0 else if s.class == c then 1 else 0

abbrev pub answered_with : ℕ → Sample → ℕ
answered_with code s = if ltb 0 s.status then (if eqb s.status code then 1 else 0) else 0

abbrev pub finished : Sample → ℕ
finished s = elim s.finished_at [ none ↦ 0 | some _ ↦ 1 ]

abbrev pub both_times : Option ℕ → Option ℕ → ℕ
both_times (some _) (some _) = 1
both_times _ _ = 0

abbrev pub sent_and_finished : Sample → ℕ
sent_and_finished s = both_times s.finished_at s.sent_at

count_errors :
    (c : ErrorClass) (s : Sample) (m : Map ErrorClass ℕ)
    → count_of c (if is_success s.class then m else add_count s.class 1 m)
      ≡ count_of c m + failed_as c s
count_errors c s m = elim (Bool-cases (is_success s.class)) [
  | inl p ↦ rw p (omega arith)
  | inr p ↦ rw p (ground (arith, count_of-add_count s.class c 1 m))
]

count_codes :
    (code : ℕ) (s : Sample) (m : Map ℕ ℕ)
    → count_of code (if ltb 0 s.status then add_count s.status 1 m else m)
      ≡ count_of code m + answered_with code s
count_codes code s m = ground (arith, count_of-add_count s.status code 1 m)

module _ {ℓ} {K : Type ℓ} ⦃e : Comparable K⦄ where
  Unique-if : (b : Bool) (m n : Map K ℕ) → Unique m → Unique n → Unique (if b then m else n)
  Unique-if true m n p q = p
  Unique-if false m n p q = q

  count_of-add_counts :
      (c : K) (other into : Map K ℕ)
      → Unique other
      → count_of c (add_counts other into) ≡ count_of c into + count_of c other
  unfolding add_counts lookup
  count_of-add_counts c [] into u = omega arith
  count_of-add_counts c ((k, n) ∷ other) into u = ground (
    arith,
    count_of-add_counts c other (add_count k n into) u.1,
    eq_iff k c,
    count_of-add_count k c n into,
  )

  add_counts-Unique : (other into : Map K ℕ) → Unique into → Unique (add_counts other into)
  unfolding add_counts
  add_counts-Unique [] into u = u
  add_counts-Unique ((k, n) ∷ other) into u =
      add_counts-Unique other (add_count k n into) (add_count-Unique k n into u)

module _ {ℓ} {H : Type ℓ} ⦃h : Hdr H⦄ where
  -- The counters are those of these samples.
  pub record Summarises (samples : List Sample) (a : Aggregate H) : Type 0 where
    pub count_is : a.count ≡ length samples
    pub successes_are : a.successes ≡ tally succeeded samples
    pub bytes_are : a.bytes ≡ tally (λ s. s.bytes) samples
    pub messages_are : a.messages ≡ tally (λ s. s.messages) samples
    pub errors_are : (c : ErrorClass) → count_of c a.errors_by_class ≡ tally (failed_as c) samples
    pub codes_are : (code : ℕ) → count_of code a.status_by_code ≡ tally (answered_with code) samples
    pub corrected_are : h.total_count a.corrected ≡ tally finished samples
    pub service_are : h.total_count a.service ≡ tally sent_and_finished samples
    pub errors_unique : Unique a.errors_by_class
    pub codes_unique : Unique a.status_by_code

  -- What the three parts of the recording leave alone, and what they add.
  record_latency_frame :
      (s : Sample) (f g : Option ℕ) (a : Aggregate H)
      → let b = record_latency s f g a in
        (b.count ≡ a.count)
        × (b.successes ≡ a.successes)
        × (b.bytes ≡ a.bytes)
        × (b.messages ≡ a.messages)
        × (b.errors_by_class ≡ a.errors_by_class)
        × (b.status_by_code ≡ a.status_by_code)
  unfolding record_latency
  record_latency_frame s none g a = (refl, refl, refl, refl, refl, refl)
  record_latency_frame s (some f) none a = (refl, refl, refl, refl, refl, refl)
  record_latency_frame s (some f) (some g) a = (refl, refl, refl, refl, refl, refl)

  record_outcome_frame :
      (s : Sample) (a : Aggregate H)
      → let b = record_outcome s a in
        (b.count ≡ a.count)
        × (b.successes ≡ a.successes + succeeded s)
        × (b.bytes ≡ a.bytes)
        × (b.messages ≡ a.messages)
        × (b.errors_by_class ≡ (
            if is_success s.class
            then a.errors_by_class
            else add_count s.class 1 a.errors_by_class))
        × (b.status_by_code ≡ a.status_by_code)
        × (b.corrected ≡ a.corrected)
        × (b.service ≡ a.service)
  unfolding record_outcome record_error
  record_outcome_frame s a = (
    ground arith,
    ground arith,
    ground arith,
    ground arith,
    ground arith,
    ground arith,
    ground arith,
    ground arith,
  )

  pub record_sample_frame :
      (s : Sample) (a : Aggregate H)
      → let b = record_sample s a in
        (b.count ≡ a.count + 1)
        × (b.successes ≡ a.successes + succeeded s)
        × (b.bytes ≡ a.bytes + s.bytes)
        × (b.messages ≡ a.messages + s.messages)
        × (b.errors_by_class ≡ (
            if is_success s.class
            then a.errors_by_class
            else add_count s.class 1 a.errors_by_class))
        × (b.status_by_code
            ≡ (if ltb 0 s.status then add_count s.status 1 a.status_by_code else a.status_by_code))
  unfolding record_sample count_sample
  record_sample_frame s a =
      let counted = count_sample s a in
      let (a0, a1, a2, a3, a4, a5) =
        record_latency_frame s s.finished_at s.sent_at (record_outcome s counted) in
      let (b0, b1, b2, b3, b4, b5, b6, b7) = record_outcome_frame s counted in
      (a0 ∙ b0, a1 ∙ b1, a2 ∙ b2, a3 ∙ b3, a4 ∙ b4, a5 ∙ b5)

  module _ (laws : CountsValues H) where
    total_count-record_latency :
        (s : Sample) (f g : Option ℕ) (a : Aggregate H)
        → (h.total_count (record_latency s f g a).corrected
            ≡ h.total_count a.corrected + (elim f [ none ↦ 0 | some _ ↦ 1 ]))
          × (h.total_count (record_latency s f g a).service
              ≡ h.total_count a.service + both_times f g)
    unfolding record_latency
    total_count-record_latency s none g a = (omega arith, omega arith)
    total_count-record_latency s (some f) none a =
        (Consistency.total_count-save laws a.corrected (sub_ℕ f s.scheduled_at), omega arith)
    total_count-record_latency s (some f) (some g) a = (
      Consistency.total_count-save laws a.corrected (sub_ℕ f s.scheduled_at),
      Consistency.total_count-save laws a.service (sub_ℕ f g),
    )

    total_count-record_sample :
        (s : Sample) (a : Aggregate H)
        → (h.total_count (record_sample s a).corrected ≡ h.total_count a.corrected + finished s)
          × (h.total_count (record_sample s a).service
              ≡ h.total_count a.service + sent_and_finished s)
    unfolding record_sample count_sample
    total_count-record_sample s a =
        let counted = count_sample s a in
        let (t, r) =
          total_count-record_latency s s.finished_at s.sent_at (record_outcome s counted) in
        let (_, _, _, _, _, _, p, q) = record_outcome_frame s counted in
        (
          t ∙ ap (λ x. h.total_count x + finished s) p,
          r ∙ ap (λ x. h.total_count x + sent_and_finished s) q,
        )

    record_sample-Summarises :
        (before : List Sample) (s : Sample) (a : Aggregate H)
        → Summarises before a
        → Summarises (before ++ s ∷ []) (record_sample s a)
    record_sample-Summarises before s a d =
        let (c, u, b, m, e, k) = record_sample_frame s a in
        let (t, r) = total_count-record_sample s a in
        let last = s ∷ [] in
        record {
          count_is = omega (arith, length-append before last);
          successes_are = omega (arith, sum-map-append succeeded before last);
          bytes_are = omega (arith, sum-map-append (λ (s : Sample). s.bytes) before last);
          messages_are = omega (arith, sum-map-append (λ (s : Sample). s.messages) before last);
          errors_are = λ class. omega (
            arith,
            ap (count_of class) e,
            count_errors class s a.errors_by_class,
            d.errors_are class,
            sum-map-append (failed_as class) before last,
          );
          codes_are = λ code. omega (
            arith,
            ap (count_of code) k,
            count_codes code s a.status_by_code,
            d.codes_are code,
            sum-map-append (answered_with code) before last,
          );
          corrected_are = omega (arith, sum-map-append finished before last);
          service_are = omega (arith, sum-map-append sent_and_finished before last);
          errors_unique = rw e (
              Unique-if (is_success s.class) _ _ d.errors_unique
                (add_count-Unique s.class 1 _ d.errors_unique));
          codes_unique = rw k (
              Unique-if (ltb 0 s.status) _ _ (add_count-Unique s.status 1 _ d.codes_unique)
                d.codes_unique);
        }

    record_all-Summarises :
        (before samples : List Sample) (a : Aggregate H)
        → Summarises before a
        → Summarises (before ++ samples) (record_all samples a)
    unfolding record_all
    record_all-Summarises before [] a d = rw append-nil d
    record_all-Summarises before (s ∷ samples) a d = rw (append_assoc before (s ∷ []) samples) at (
        record_all-Summarises (before ++ s ∷ []) samples (record_sample s a)
          (record_sample-Summarises before s a d))

    new_aggregate-Summarises :
        (step key protocol : String) → Summarises [] (new_aggregate step key protocol)
    unfolding new_aggregate lookup
    new_aggregate-Summarises step key protocol = record {
      count_is = refl;
      successes_are = refl;
      bytes_are = refl;
      messages_are = refl;
      errors_are = λ class. refl;
      codes_are = λ code. refl;
      corrected_are = laws.new_empty;
      service_are = laws.new_empty;
      errors_unique = tt;
      codes_unique = tt;
    }

    -- From a new aggregate on, every counter is what the samples add up to: the samples, those that
    -- succeeded, the failures of each class, the answers of each status code, the bytes, the
    -- messages, and the two histograms' totals, which miss only samples without their times.
    pub record_all_summary :
        (samples : List Sample) (step key protocol : String)
        → Summarises samples (record_all samples (new_aggregate step key protocol))
    record_all_summary samples step key protocol =
        record_all-Summarises [] samples (new_aggregate step key protocol)
          (new_aggregate-Summarises step key protocol)

    -- Adding two aggregates up gives the counters of all their samples together.
    pub add-Summarises :
        (xs ys : List Sample) (a b : Aggregate H)
        → Summarises xs a
        → Summarises ys b
        → Summarises (xs ++ ys) (add a b)
    unfolding add
    add-Summarises xs ys a b p q = record {
      count_is = omega (arith, length-append xs ys);
      successes_are = omega (arith, sum-map-append succeeded xs ys);
      bytes_are = omega (arith, sum-map-append (λ (s : Sample). s.bytes) xs ys);
      messages_are = omega (arith, sum-map-append (λ (s : Sample). s.messages) xs ys);
      errors_are = λ class. omega (
        arith,
        count_of-add_counts class b.errors_by_class a.errors_by_class q.errors_unique,
        p.errors_are class,
        q.errors_are class,
        sum-map-append (failed_as class) xs ys,
      );
      codes_are = λ code. omega (
        arith,
        count_of-add_counts code b.status_by_code a.status_by_code q.codes_unique,
        p.codes_are code,
        q.codes_are code,
        sum-map-append (answered_with code) xs ys,
      );
      corrected_are =
          omega (arith, laws.merge_adds a.corrected b.corrected, sum-map-append finished xs ys);
      service_are =
          omega
            (arith, laws.merge_adds a.service b.service, sum-map-append sent_and_finished xs ys);
      errors_unique = add_counts-Unique b.errors_by_class a.errors_by_class p.errors_unique;
      codes_unique = add_counts-Unique b.status_by_code a.status_by_code p.codes_unique;
    }
