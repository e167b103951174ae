-- ===== src/Metrics/Collector/Buckets.antt =====
-- What a write to the bucket of an instant changes.
use braunrate.Base.{
  ℕ, ◌+◌, ◌-◌, ◌≡◌, refl, [], ◌∷◌, arith, some, Bool-cases, Option-cases, inl, inr, Map, lookup,
  lookup-insert, sum, map, sum_values-insert, ltb, ℕ_eq, if◌then◌else◌, eqb,
}
use braunrate.Base.Float.{Float64}
use braunrate.Metrics.{Hdr}
use braunrate.Metrics.Collector.{
  Bucket, Collector, new_bucket, close_bucket, close_buckets_before, ensure_bucket, open_bucket,
  write_bucket, update_bucket, bucket_retention_ms,
}

-- A number of each value, summed over a map.
abbrev pub over {ℓ κ} : {K : Type ℓ} {V : Type κ} → (V → ℕ) → Map K V → ℕ
over {K = K} {V = V} f m = sum (map (λ (p : K × V). f p.1) m)

module _ {ℓ κ} {H : Type ℓ} {W : Type κ} ⦃h : Hdr H⦄ ⦃f : Float64 W⦄ where
  -- A write to a bucket changes the buckets and the newest start, and nothing else.
  pub write_bucket_frame :
      (start : ℕ) (change : Bucket H W → Bucket H W) (c : Collector H W)
      → let d = write_bucket start change c in
        d ≡ record c { buckets = d.buckets; newest_bucket_ms = d.newest_bucket_ms }
  unfolding write_bucket open_bucket update_bucket
  write_bucket_frame start change c = ground arith

  lookup-close_buckets_before :
      (k limit : ℕ) (m : Map ℕ (Bucket H W)) {b : Bucket H W}
      → lookup k m ≡ some b
      → (b' : Bucket H W) × (lookup k (close_buckets_before limit m) ≡ some b')
  unfolding lookup close_buckets_before
  lookup-close_buckets_before k limit [] e = cc
  lookup-close_buckets_before k limit ((j, x) ∷ m) {b} e = elim (Bool-cases (eqb j k)) [
    | inl p ↦ ((if ltb j limit then close_bucket x else x), rw p)
    | inr p ↦ rw p (lookup-close_buckets_before k limit m {b = b} (rw p at e))
  ]

  lookup-ensure_bucket :
      (k : ℕ) (m : Map ℕ (Bucket H W)) → (b : Bucket H W) × (lookup k (ensure_bucket k m) ≡ some b)
  unfolding ensure_bucket
  lookup-ensure_bucket k m = elim (Option-cases (lookup k m)) [
    | inl p ↦ (new_bucket k, ground (arith, lookup-insert k k (new_bucket k) m))
    | inr q ↦ (let (b, p) = q in (b, ground (arith, p)))
  ]

  lookup-open_bucket :
      (start : ℕ) (c : Collector H W)
      → (b : Bucket H W) × (lookup start (open_bucket start c).buckets ≡ some b)
  unfolding open_bucket
  lookup-open_bucket start c =
      let (b, p) = lookup-ensure_bucket start c.buckets in
      elim (Bool-cases (ltb c.newest_bucket_ms start)) [
        | inl q ↦ rw q (lookup-close_buckets_before start _ _ p)
        | inr q ↦ rw q (b, p)
      ]

  -- A number of a bucket that closing keeps, and that is 0 at first.
  module _ (g : Bucket H W → ℕ) (closing : (b : Bucket H W) → g (close_bucket b) ≡ g b)
      (fresh : (start : ℕ) → g (new_bucket start) ≡ 0) where
    over-close_buckets_before :
        (limit : ℕ) (m : Map ℕ (Bucket H W)) → over g (close_buckets_before limit m) ≡ over g m
    unfolding close_buckets_before
    over-close_buckets_before limit [] = refl
    over-close_buckets_before limit ((k, b) ∷ m) =
        ground (arith, over-close_buckets_before limit m, closing b)

    over-ensure_bucket :
        (start : ℕ) (m : Map ℕ (Bucket H W)) → over g (ensure_bucket start m) ≡ over g m
    unfolding ensure_bucket
    over-ensure_bucket start m = elim (Option-cases (lookup start m)) [
      | inl p ↦ ground (arith, p, sum_values-insert g start (new_bucket start) m, fresh start)
      | inr q ↦ (let (b, p) = q in ground (arith, p))
    ]

    over-open_bucket :
        (start : ℕ) (c : Collector H W) → over g (open_bucket start c).buckets ≡ over g c.buckets
    unfolding open_bucket
    over-open_bucket start c = ground (
      arith,
      over-ensure_bucket start c.buckets,
      over-close_buckets_before (start - bucket_retention_ms) (ensure_bucket start c.buckets),
    )

    -- The write adds to the sum what it adds to the bucket.
    pub over-write_bucket :
        (start n : ℕ) (change : Bucket H W → Bucket H W) (c : Collector H W)
        → ((b : Bucket H W) → g (change b) ≡ g b + n)
        → over g (write_bucket start change c).buckets ≡ over g c.buckets + n
    unfolding write_bucket update_bucket
    over-write_bucket start n change c changing =
        let (b, p) = lookup-open_bucket start c in
        ground (
          arith,
          p,
          sum_values-insert g start (change b) (open_bucket start c).buckets,
          over-open_bucket start c,
          changing b,
        )
