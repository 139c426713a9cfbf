-- ===== src/History/Parquet/Flush.antt =====
-- What flushing does to the open files: flush, Flush and FlushAll of
-- internal/plugins/providers/historical/parquet/writer.go.
use natun.Prelude.{
  ◌≡◌, ◌⊎◌, refl, ◌∙◌, List, [], ◌∷◌, map, none, some, arith, lookup, delete, lookup-delete,
  Bool-cases, Option-cases, inl, inr, All, subst,
}
use natun.Prelude.Text.{Text, text_eq, text_eq-eq, text_eq_refl}
use natun.Api.Errors.{Result, ok, err, panicked}
use natun.History.Parquet.{
  ParquetFiles, BaseParquet, alive_key, close_writer, flush_key, then_flush, flush, flush_keys,
  flush_all,
}

-- What is relied on: a successful Close closes the file, and later calls leave it closed.
pub record ClosingLaws {F W S : Type 0} (files : ParquetFiles F W S) (Closed : W → S → Type 0)
    : Type 0 where
  pub close-Closed : (w : W) (s : S) → (files.close w s).0 ≡ ok tt → Closed w (files.close w s).1
  pub close_keeps : (w v : W) (s : S) → Closed v s → Closed v (files.close w s).1
  pub stop_keeps : (w v : W) (s : S) → Closed v s → Closed v (files.write_stop w s).1

-- What holds for all keys of a map holds for a key with an entry.
All-lookup :
    {E : Type 0} (key : Text) (entry : E) (entries : List (Text × E)) (P : Text → Type 0)
    → All P (map (λ e. e.0) entries)
    → lookup key entries ≡ some entry
    → P key
unfolding lookup
All-lookup key entry [] P h found = cc found
All-lookup key entry ((name, other) ∷ rest) P h found = elim (Bool-cases (text_eq name key)) [
  | inl same ↦ subst P (text_eq-eq name key same) h.0
  | inr different ↦ All-lookup key entry rest P h.1 (rw different at found)
]

module _ {F W S : Type 0} (files : ParquetFiles F W S) (Closed : W → S → Type 0)
    (laws : ClosingLaws files Closed) where
  -- A writer stays under its name until its file is closed, and no name gets a writer.
  record Advances (old new : BaseParquet W S) : Type 0 where
    kept :
        (key : Text) (w : W)
        → lookup key old.writers ≡ some w
        → (lookup key new.writers ≡ some w)
          ⊎ ((lookup key new.writers ≡ none) × Closed w new.storage)
    absent : (key : Text) → lookup key old.writers ≡ none → lookup key new.writers ≡ none
    closed : (w : W) → Closed w old.storage → Closed w new.storage

  Advances-refl : (bw : BaseParquet W S) → Advances bw bw
  Advances-refl bw = record { kept = λ key w e. inl e; absent = λ key e. e; closed = λ w c. c }

  Advances-trans : (a b c : BaseParquet W S) → Advances a b → Advances b c → Advances a c
  Advances-trans a b c p q = record {
    kept = λ key w e. elim (p.kept key w e) [
      | inl still ↦ q.kept key w still
      | inr (gone, done) ↦ inr (q.absent key gone, q.closed w done)
    ];
    absent = λ key e. q.absent key (p.absent key e);
    closed = λ w done. q.closed w (p.closed w done);
  }

  then_flush-ok :
      (first : Result (Unit {0}) × BaseParquet W S)
      (next : BaseParquet W S → Result (Unit {0}) × BaseParquet W S) (new : BaseParquet W S)
      → then_flush files first next ≡ (ok tt, new)
      → (first ≡ (ok tt, first.1)) × (next first.1 ≡ (ok tt, new))
  then_flush-ok (panicked, bw) next new e = cc e
  then_flush-ok (err x, bw) next new e = cc e
  then_flush-ok (ok _, bw) next new e = (refl, e)

  close_writer-ok :
      (key : Text) (w : W) (writers : List (Text × W)) (s : S) (new : BaseParquet W S)
      → close_writer files key w writers s ≡ (ok tt, new)
      → ((files.close w s).0 ≡ ok tt)
        × (record { writers = delete key writers; storage = (files.close w s).1 } ≡ new)
  unfolding close_writer
  close_writer-ok key w writers s new e = ground arith

  flush_key-ok :
      (key : Text) (w : W) (bw new : BaseParquet W S)
      → lookup key bw.writers ≡ some w
      → flush_key files key bw ≡ (ok tt, new)
      → close_writer files key w bw.writers (files.write_stop w bw.storage).1 ≡ (ok tt, new)
  unfolding flush_key
  flush_key-ok key w bw new found e = ground arith

  delete-Advances :
      (key : Text) (w : W) (bw : BaseParquet W S) (s : S)
      → lookup key bw.writers ≡ some w
      → Closed w s
      → ((v : W) → Closed v bw.storage → Closed v s)
      → Advances bw (record { writers = delete key bw.writers; storage = s })
  delete-Advances key w bw s found done keep = record {
    kept = λ other v e. elim (Bool-cases (text_eq key other)) [
      | inl same ↦
          let others = text_eq-eq key other same in
          inr (lookup-delete key other bw.writers ∙ rw same, ground arith)
      | inr different ↦ inl (lookup-delete key other bw.writers ∙ rw different e)
    ];
    absent = λ other e. ground (arith, lookup-delete key other bw.writers);
    closed = keep;
  }

  flush_key_absent :
      (key : Text) (bw new : BaseParquet W S)
      → lookup key bw.writers ≡ none
      → flush_key files key bw ≡ (ok tt, new)
      → bw ≡ new
  unfolding flush_key
  flush_key_absent key bw new absent e = ground arith

  flush_key-Advances :
      (key : Text) (bw new : BaseParquet W S)
      → flush_key files key bw ≡ (ok tt, new)
      → Advances bw new × (lookup key new.writers ≡ none)
  flush_key-Advances key bw new e = elim (Option-cases (lookup key bw.writers)) [
    | inl absent ↦
        subst (λ b. Advances bw b × (lookup key b.writers ≡ none))
          (flush_key_absent key bw new absent e) (Advances-refl bw, absent)
    | inr (w, found) ↦
        let s = (files.write_stop w bw.storage).1 in
        let (closes, made) =
          close_writer-ok key w bw.writers s new (flush_key-ok key w bw new found e) in
        subst (λ b. Advances bw b × (lookup key b.writers ≡ none)) made
          (
            delete-Advances key w bw (files.close w s).1 found (laws.close-Closed w s closes)
                (λ v c. laws.close_keeps w v s (laws.stop_keeps w v bw.storage c)),
            ground (arith, lookup-delete key key bw.writers, text_eq_refl key),
          )
  ]

  flush-Advances :
      (fqn : Text) (bw new : BaseParquet W S)
      → flush files fqn bw ≡ (ok tt, new)
      → Advances bw new × (lookup fqn new.writers ≡ none)
  unfolding flush
  flush-Advances fqn bw new e =
      let (first, second) =
        then_flush-ok (flush_key files fqn bw) (flush_key files (alive_key fqn)) new e in
      let mid = (flush_key files fqn bw).1 in
      let (to_mid, gone) = flush_key-Advances fqn bw mid first in
      let (to_new, _) = flush_key-Advances (alive_key fqn) mid new second in
      (Advances-trans bw mid new to_mid to_new, to_new.absent fqn gone)

  flush_keys-Advances :
      (keys : List Text) (bw new : BaseParquet W S)
      → flush_keys files keys bw ≡ (ok tt, new)
      → Advances bw new × All (λ key. lookup key new.writers ≡ none) keys
  unfolding flush_keys
  flush_keys-Advances [] bw new e =
      (subst (Advances bw) (let same : bw ≡ new = ground arith in same) (Advances-refl bw), tt)
  flush_keys-Advances (key ∷ keys) bw new e = elim (Option-cases (lookup key bw.writers)) [
    | inl absent ↦
        let (adv, gone) = flush_keys-Advances keys bw new (rw (absent, flush_keys) at e) in
        (adv, (adv.absent key absent, gone))
    | inr (w, found) ↦
        let (first, second) =
          then_flush-ok (flush files key bw) (flush_keys files keys) new
            (rw (found, flush_keys) at e) in
        let mid = (flush files key bw).1 in
        let (to_mid, gone) = flush-Advances key bw mid first in
        let (to_new, others) = flush_keys-Advances keys mid new second in
        (Advances-trans bw mid new to_mid to_new, (to_new.absent key gone, others))
  ]

  -- Where FlushAll succeeds, every file whose writer was in the map when it began is closed, and no name
  -- that had a writer has one any more.
  pub flush_all-Closed :
      (bw new : BaseParquet W S) (key : Text) (w : W)
      → flush_all files bw ≡ (ok tt, new)
      → lookup key bw.writers ≡ some w
      → Closed w new.storage × (lookup key new.writers ≡ none)
  unfolding flush_all
  flush_all-Closed bw new key w e found =
      let (adv, gone) = flush_keys-Advances (map (λ entry. entry.0) bw.writers) bw new e in
      let empty = All-lookup key w bw.writers (λ k. lookup k new.writers ≡ none) gone found in
      elim (adv.kept key w found) [
        | inl still ↦ absurd (ground arith)
        | inr (absent, done) ↦ (done, absent)
      ]
