-- ===== src/History/Parquet/Alive.antt =====
-- The writers that Commit leaves behind: getWriter of
-- internal/plugins/providers/historical/parquet/writer.go.
use natun.Prelude.{
  ◌≡◌, ◌≢◌, refl, ap, ◌∙◌, true, false, none, some, arith, length, length-append, lookup, insert,
  lookup-insert, if◌then◌else◌,
}
use natun.Prelude.Text.{Text, codes, text_eq, text_eq-ne, text_eq_refl}
use natun.Api.Errors.{ok}
use natun.Api.Value.{FloatOps}
use natun.Engine.World.{WriteNotification}
use natun.History.Parquet.{
  RecordOps, HistoricalRecord, ParquetFiles, BaseParquet, alive_key, writer_index, get_writer,
  write_record, new_historical_record, commit,
}

alive_key-ne : (fqn : Text) → fqn ≢ alive_key fqn
alive_key-ne fqn e = absurd (omega (arith, ap length e, length-append fqn (codes "_alive")))

module _ {F W S : Type 0} (files : ParquetFiles F W S) (fqn : Text) (bw : BaseParquet W S)
    (w : W) where
  get_writer-creates :
      (s : S)
      → lookup (alive_key fqn) bw.writers ≡ none
      → files.create fqn true bw.storage ≡ (ok w, s)
      → get_writer files fqn true bw
        ≡ (ok (some w), record { writers = insert fqn w bw.writers; storage = s })
  unfolding get_writer writer_index
  get_writer-creates s absent created =
      ground (arith, lookup-insert fqn fqn w bw.writers, text_eq_refl fqn)

  get_writer-reuses :
      lookup fqn bw.writers ≡ some w → get_writer files fqn false bw ≡ (ok (some w), bw)
  unfolding get_writer writer_index
  get_writer-reuses found = ground arith

commit-write :
    {F W S : Type 0} ⦃floats : FloatOps F⦄ (files : ParquetFiles F W S) (ops : RecordOps F)
    (wn : WriteNotification F) (bw bw' : BaseParquet W S) (w : W) (hr : HistoricalRecord F)
    → get_writer files wn.fqn wn.active_bucket bw ≡ (ok (some w), bw')
    → new_historical_record ops wn ≡ ok hr
    → commit files ops wn bw ≡ (
      (files.write w hr bw'.storage).0,
      record bw' { storage = (files.write w hr bw'.storage).1 },
    )
unfolding commit write_record
commit-write files ops wn bw bw' w hr got made = ground arith

module _ {F W S : Type 0} ⦃floats : FloatOps F⦄ (files : ParquetFiles F W S) (ops : RecordOps F)
    (wn : WriteNotification F) (bw : BaseParquet W S) where
  -- The record of a notification for a bucket that is still active, where no writer stands under the name
  -- with "_alive", the file can be created and the value makes a record, is written to the new file. Its
  -- writer takes the place of the writer of the feature, all other entries stay, and no writer stands
  -- under the name with "_alive" afterwards either: the next such notification is in the same situation.
  pub commit-creates :
      (w : W) (s : S) (hr : HistoricalRecord F)
      → wn.active_bucket ≡ true
      → lookup (alive_key wn.fqn) bw.writers ≡ none
      → files.create wn.fqn true bw.storage ≡ (ok w, s)
      → new_historical_record ops wn ≡ ok hr
      → (new : BaseParquet W S) × (commit files ops wn bw ≡ ((files.write w hr s).0, new))
        × (new.storage ≡ (files.write w hr s).1)
        × ((key : Text)
            → lookup key new.writers
              ≡ (if text_eq wn.fqn key then some w else lookup key bw.writers))
        × (lookup (alive_key wn.fqn) new.writers ≡ none)
  commit-creates w s hr active absent created made =
      let new : BaseParquet W S = record {
        writers = insert wn.fqn w bw.writers;
        storage = (files.write w hr s).1;
      } in
      (
        new,
        commit-write files ops wn bw (record { writers = insert wn.fqn w bw.writers; storage = s })
            w hr (rw active (get_writer-creates files wn.fqn bw w s absent created)) made,
        refl,
        λ key. lookup-insert wn.fqn key w bw.writers,
        lookup-insert wn.fqn (alive_key wn.fqn) w bw.writers
            ∙ rw (text_eq-ne wn.fqn (alive_key wn.fqn) (alive_key-ne wn.fqn)) absent,
      )

  -- The record of a notification that is not for an active bucket goes to the writer of the feature, where
  -- there is one, and no file is created.
  pub commit-reuses :
      (w : W) (hr : HistoricalRecord F)
      → wn.active_bucket ≡ false
      → lookup wn.fqn bw.writers ≡ some w
      → new_historical_record ops wn ≡ ok hr
      → commit files ops wn bw
        ≡ ((files.write w hr bw.storage).0, record bw { storage = (files.write w hr bw.storage).1 })
  commit-reuses w hr dead found made =
      commit-write files ops wn bw bw w hr (rw dead (get_writer-reuses files wn.fqn bw w found))
        made
