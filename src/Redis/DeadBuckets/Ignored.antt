-- ===== src/Redis/DeadBuckets/Ignored.antt =====
-- The buckets that a search for dead ones leaves out (DeadWindowBuckets of windows.go,
-- internal/plugins/providers/state/redis).
use natun.Prelude.{
  ℕ, ◌≡◌, ◌≢◌, sym, ◌∙◌, true, false, List, [], ◌∷◌, none, All, Bool-cases, inl, inr,
}
use natun.Prelude.Text.{Text}
use natun.Api.Errors.{ok, >>=-eq-ok, ok-injective}
use natun.Api.Value.{FloatOps}
use natun.Api.Descriptor.{FeatureDescriptor, is_empty}
use natun.Api.Bucket.{dead_window_buckets}
use natun.Redis.Command.{window_key}
use natun.Redis.Window.{RawBucket, RedisHashes, read_fields}
use natun.Redis.DeadBuckets.{
  from_window_key, ignore_key, RedisScans, scan_buckets, found_buckets, read_buckets, dead_buckets,
}
use natun.Redis.DeadBuckets.WindowKeys.{window_key-from_window_key}

-- The parts are not those of the key.
abbrev pub IsOther : Text → Text × Text × Text → Type 0
IsOther key p = window_key p.0 p.1 p.2 ≢ key

abbrev pub IsOtherBucket : {F : Type 0} → Text → RawBucket F → Type 0
IsOtherBucket key b = window_key b.fqn b.bucket b.encoded_keys ≢ key

module _ {F : Type 0} (ignore : List (RawBucket F)) (key : Text)
    (h : ignore_key ignore key ≡ true) where
  kept_IsOther :
      (k fqn bucket encoded : Text)
      → ignore_key ignore k ≡ false
      → from_window_key k ≡ ok (fqn, bucket, encoded)
      → window_key fqn bucket encoded ≢ key
  kept_IsOther k fqn bucket encoded kept e same =
      let e' : k ≡ key = sym (window_key-from_window_key k fqn bucket encoded e) ∙ same in
      cc (h, rw e' at kept)

  found_buckets-IsOther :
      (keys : List Text) (ps : List (Text × Text × Text))
      → found_buckets ignore keys ≡ ok ps
      → All (IsOther key) ps
  unfolding found_buckets
  found_buckets-IsOther [] ps e = rw (← ok-injective e) tt
  found_buckets-IsOther (k ∷ keys) ps e = elim (Bool-cases (ignore_key ignore k)) [
    | inl skipped ↦ found_buckets-IsOther keys ps (rw skipped at e)
    | inr kept ↦
        let ((fqn, bucket, encoded), parts, e') = >>=-eq-ok (from_window_key k) _ (rw kept at e) in
        let (others, rest, e'') = >>=-eq-ok (found_buckets ignore keys) _ e' in
        rw (← ok-injective e'')
          (kept_IsOther k fqn bucket encoded kept parts, found_buckets-IsOther keys others rest)
  ]

module _ {F S : Type 0} ⦃ops : FloatOps F⦄ (hashes : RedisHashes S) (key : Text) (s : S) where
  read_buckets-IsOtherBucket :
      (ps : List (Text × Text × Text)) (bs : List (RawBucket F))
      → All (IsOther key) ps
      → read_buckets hashes ps s ≡ ok bs
      → All (IsOtherBucket key) bs
  unfolding read_buckets
  read_buckets-IsOtherBucket [] bs hs e = rw (← ok-injective e) tt
  read_buckets-IsOtherBucket ((fqn, bucket, encoded) ∷ ps) bs (h, hs) e =
      let (fields, e1, e') = >>=-eq-ok (hashes.hgetall (window_key fqn bucket encoded) s) _ e in
      let (raw, e2, e'') = >>=-eq-ok (read_fields fields (λ g. none)) _ e' in
      let (rest, e3, e4) = >>=-eq-ok (read_buckets hashes ps s) _ e'' in
      let others = read_buckets-IsOtherBucket ps rest hs e3 in
      elim (Bool-cases (is_empty fields)) [
        | inl b ↦ rw (← ok-injective (rw b at e4)) others
        | inr b ↦ rw (← ok-injective (rw b at e4)) (h, others)
      ]

-- A search for dead buckets never gives one whose key is that of a bucket to ignore.
pub dead_buckets-ignored :
    {F S : Type 0} ⦃ops : FloatOps F⦄ (hashes : RedisHashes S) (scans : RedisScans S) (now : ℕ)
    (fd : FeatureDescriptor) (ignore bs : List (RawBucket F)) (s : S) (key : Text)
    → ignore_key ignore key ≡ true
    → dead_buckets hashes scans now fd ignore s ≡ ok bs
    → All (IsOtherBucket key) bs
unfolding dead_buckets
dead_buckets-ignored hashes scans now fd ignore bs s key h e =
    let (names, e1, e') = >>=-eq-ok (dead_window_buckets fd.staleness fd.freshness now) _ e in
    let (keys, e2, e'') = >>=-eq-ok (scan_buckets scans fd.fqn names s) _ e' in
    let (ps, e3, e4) = >>=-eq-ok (found_buckets ignore keys) _ e'' in
    read_buckets-IsOtherBucket hashes key s ps bs (found_buckets-IsOther ignore key h keys ps e3) e4
