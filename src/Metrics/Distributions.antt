-- ===== src/Metrics/Distributions.antt =====
-- internal/metrics/aggregate.go: the distribution that a document keeps of a histogram, and the sum
-- of two of them. The readings of a histogram and its encoding are those of the HDR library.
use braunrate.Base.{
  refl, arith, Bool-cases, inl, inr, eq_iff, ℕ, ◌≡◌, ◌≢◌, String, string_eq, ◌==◌, Option, none,
  some, eqb, if◌then◌else◌,
}
use braunrate.Base.Float.{Float64}
use braunrate.Metrics.{Hdr}
use braunrate.Metrics.Document.{Distribution}

-- What the documents need of the library besides `Hdr`. Both directions of the encoding may fail.
pub record Codec {ℓ κ} (W : Type ℓ) (H : Type κ) : Type (ℓ ⊔ κ) where
  pub max : H → ℕ
  pub min : H → ℕ
  pub mean : H → W
  pub encode : H → Option String
  pub decode : String → Option H

-- What the code relies on: a histogram is encoded as a text that is not empty and from which it is
-- read back, and merging with a histogram that has no value changes nothing.
pub record IsFaithful {ℓ κ} (W : Type ℓ) (H : Type κ) ⦃h : Hdr H⦄ (c : Codec W H)
    : Type (ℓ ⊔ κ) where
  pub encoded : (a : H) → (s : String) × (c.encode a ≡ some s) × (s ≢ "") × (c.decode s ≡ some a)
  pub merge_nothing : (a b : H) → h.total_count b ≡ 0 → h.merge a b ≡ a
  pub nothing_merge : (a b : H) → h.total_count a ≡ 0 → h.merge a b ≡ b

abbrev pub in_milliseconds {ℓ} : {W : Type ℓ} ⦃f : Float64 W⦄ → ℕ → W
in_milliseconds ⦃f⦄ microseconds = f.div (f.of_ℕ microseconds) (f.of_ℕ 1000)

abbrev pub text_or_nothing : Option String → String
text_or_nothing none = ""
text_or_nothing (some encoded) = encoded

-- The outer option is the error, the inner one the nil histogram of an empty text.
abbrev pub readable_text {κ} : {H : Type κ} → Option H → Option (Option H)
readable_text none = none
readable_text (some a) = some (some a)

module _ {ℓ κ} {W : Type ℓ} {H : Type κ} ⦃f : Float64 W⦄ ⦃h : Hdr H⦄ (c : Codec W H) where
  unfoldable pub encode_histogram : H → String
  encode_histogram a = if eqb (h.total_count a) 0 then "" else text_or_nothing (c.encode a)

  -- The quantiles are given in thousandths.
  unfoldable pub distribution_of : H → Distribution W
  distribution_of a = record {
    samples = h.total_count a;
    p50 = in_milliseconds (h.value_at_quantile 500 a);
    p75 = in_milliseconds (h.value_at_quantile 750 a);
    p90 = in_milliseconds (h.value_at_quantile 900 a);
    p95 = in_milliseconds (h.value_at_quantile 950 a);
    p99 = in_milliseconds (h.value_at_quantile 990 a);
    p999 = in_milliseconds (h.value_at_quantile 999 a);
    max = in_milliseconds (c.max a);
    minimum = in_milliseconds (c.min a);
    mean = f.div (c.mean a) (f.of_ℕ 1000);
    histogram = encode_histogram a;
  }

  unfoldable pub decode_histogram : String → Option (Option H)
  decode_histogram encoded = if encoded == "" then some none else readable_text (c.decode encoded)

  abbrev pub add_histograms : Distribution W → Distribution W → Option H → Option H → Distribution W
  add_histograms distribution other none second = other
  add_histograms distribution other (some first) none = distribution
  add_histograms distribution other (some first) (some second) =
      distribution_of (h.merge first second)

  -- `Distribution.Merged`; `none` is the error.
  abbrev pub merge_decoded :
      Distribution W
      → Distribution W
      → Option (Option H)
      → Option (Option H)
      → Option (Distribution W)
  merge_decoded distribution other none second = none
  merge_decoded distribution other (some first) none = none
  merge_decoded distribution other (some first) (some second) =
      some (add_histograms distribution other first second)

  unfoldable pub merged : Distribution W → Distribution W → Option (Distribution W)
  merged distribution other =
      merge_decoded distribution other (decode_histogram distribution.histogram)
        (decode_histogram other.histogram)

  -- The histogram of the distribution is nil or can be decoded.
  abbrev pub IsReadable : Distribution W → Type κ
  IsReadable d = (o : Option H) × (decode_histogram d.histogram ≡ some o)

  abbrev held : H → Option H
  held a = if eqb (h.total_count a) 0 then none else some a

  decode-encode : (a : H) → IsFaithful W H c → decode_histogram (encode_histogram a) ≡ some (held a)
  unfolding decode_histogram encode_histogram
  decode-encode a l = elim (Bool-cases (eqb (h.total_count a) 0)) [
    | inl e ↦ rw e refl
    | inr e ↦
        let (s, encoded, full, decoded) = l.encoded a in
        rw (e, encoded) (ground (arith, eq_iff s "", decoded, full))
  ]

  pub distribution_of-IsReadable : (a : H) → IsFaithful W H c → IsReadable (distribution_of a)
  unfolding distribution_of
  distribution_of-IsReadable a l = (held a, decode-encode a l)

  -- The distributions of two histograms add up to the distribution of the merged histogram.
  pub merged-distribution_of :
      (a b : H)
      → IsFaithful W H c
      → merged (distribution_of a) (distribution_of b) ≡ some (distribution_of (h.merge a b))
  unfolding merged distribution_of
  merged-distribution_of a b l =
      rw (decode-encode a l, decode-encode b l)
        (elim (Bool-cases (eqb (h.total_count a) 0)) [
          | inl e ↦ rw (e, l.nothing_merge a b (ground arith)) refl
          | inr e ↦ elim (Bool-cases (eqb (h.total_count b) 0)) [
            | inl z ↦ rw (e, z, l.merge_nothing a b (ground arith)) refl
            | inr z ↦ rw (e, z) refl
          ]
        ])

  -- The sum of readable distributions is there and is readable.
  pub merged-IsReadable :
      (d e : Distribution W)
      → IsFaithful W H c
      → IsReadable d
      → IsReadable e
      → (r : Distribution W) × (merged d e ≡ some r) × IsReadable r
  unfolding merged
  merged-IsReadable d e l (none, p) (o, q) = (e, rw (p, q) refl, (o, q))
  merged-IsReadable d e l (some a, p) (none, q) = (d, rw (p, q) refl, (some a, p))
  merged-IsReadable d e l (some a, p) (some b, q) =
      (distribution_of (h.merge a b), rw (p, q) refl, distribution_of-IsReadable (h.merge a b) l)
