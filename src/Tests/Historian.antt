-- ===== src/Tests/Historian.antt =====
-- The theorems about the historian (internal/historian) at concrete inputs.
use natun.Prelude.{
  ℕ, zero, suc, ◌+◌, ◌*◌, ◌/◌, ◌<◌, ◌≤◌, ◌≡◌, refl, ap, Bool, true, false, List, [], ◌∷◌, ◌++◌,
  Option, some, none, arith, length, All,
}
use natun.Prelude.Text.{Text, codes, text_eq_refl}
use natun.Api.Errors.{Result, ok}
use natun.Api.Primitive
use natun.Api.Aggr.{AggrFn, count}
use natun.Api.Value.{Value, window}
use natun.Api.Descriptor.{FeatureDescriptor, is_empty}
use natun.Engine.World.{WriteNotification}
use natun.Redis.Command.{window_key}
use natun.Redis.Read.{RedisReads}
use natun.Redis.Window.{RawBucket, RedisHashes}
use natun.Redis.DeadBuckets.{RedisScans}
use natun.Api.Bucket.{epoch}
use natun.Historian.Server.{
  StateReads, HistoricalWriter, BucketCache, Historian, contains_name, dead_request,
  add_collect_after,
}
use natun.Historian.Dispatch.{unhandled, add_dead, dispatch_collect_dead, dispatch_write}
use natun.Historian.Dispatch.Once.{redis_reads, Keeps, IsOtherWrite, dispatch_write-once}
use natun.Historian.Dispatch.Again.{Continues, dispatch_collect_dead-Continues}
use natun.Tests.Data.{bits, read_bit, price}

-- A server with the keys of windows that have one count each.
abbrev Windows : Type 0
Windows = List Text

abbrev no_reads : RedisReads Windows
no_reads = record { get = λ k s. ok none; lrange = λ k s. ok [] }

abbrev one_count : RedisHashes Windows
one_count = record { hgetall = λ k s. ok ((codes "count", codes "1") ∷ []) }

abbrev all_keys : RedisScans Windows
all_keys = record { scan = λ pattern s. ok s }

abbrev memory_writer : HistoricalWriter Bool (Unit {0}) (List (WriteNotification Bool))
memory_writer = record {
  commit = λ n h. (ok tt, h ++ (n ∷ []));
  flush_all = λ h. (ok tt, []);
  bind = λ fd model h. (ok tt, h);
}

abbrev key_list : BucketCache (List Text)
key_list = record { empty = []; items = λ c. c; add = λ key ttl c. key ∷ c }

key_list-Keeps : Keeps key_list
unfolding contains_name
key_list-Keeps key ttl c = rw (text_eq_refl key) refl

abbrev hourly : FeatureDescriptor
hourly = record price {
  primitive = Primitive.float;
  aggr = count ∷ [];
  freshness = 600_000_000_000;
  staleness = 600_000_000_000;
}

abbrev dead_write : WriteNotification Bool
dead_write = record {
  fqn = codes "shop.price";
  encoded_keys = codes "7;mon";
  bucket = codes "a";
  active_bucket = false;
  value =
      some
        (record { value = window (λ f. some true); timestamp = 6_000_000_000_000; fresh = false });
}

abbrev Server : Type 0
Server = Historian Bool (List (WriteNotification Bool)) (List Text)

abbrev started : Server
started = record {
  fds = (codes "shop.price", hourly) ∷ [];
  handled_buckets = some [];
  collect_tasks = [];
  later_collects = [];
  write_tasks = [];
  writes = 4_294_967_295;
  history = [];
}

abbrev two_windows : Windows
two_windows = codes "shop.price/a:7;mon" ∷ codes "shop.price/b:7;mon" ∷ []

abbrev written : Result (Unit {0}) × Server
written = dispatch_write memory_writer key_list dead_write started

abbrev collected : Result (Unit {0}) × Server
collected =
    dispatch_collect_dead (redis_reads no_reads one_count all_keys) key_list 10_000_000_000_000
      hourly two_windows written.1

written_ok : written.0 ≡ ok tt
unfolding dispatch_write natun.Api.Value.normalize_any natun.Historian.Dispatch.commit
    natun.Historian.Dispatch.mark_handled
written_ok = refl

collected_ok : collected.0 ≡ ok tt
unfolding read_bit dispatch_collect_dead unhandled dispatch_write natun.Api.Value.normalize_any
    natun.Historian.Dispatch.commit natun.Historian.Dispatch.mark_handled
    natun.Historian.Dispatch.handled_of natun.Historian.Server.dead_bucket_key
    natun.Historian.Server.from_dead_bucket_key natun.Redis.DeadBuckets.split_first
    natun.Redis.DeadBuckets.split_last redis_reads natun.Redis.DeadBuckets.dead_buckets
    natun.Api.Bucket.dead_window_buckets natun.Api.Bucket.last natun.Api.Bucket.alive_window_buckets
    natun.Api.Bucket.bucket_names natun.Api.Aggr.aggr_eq natun.Api.Aggr.has_aggr
    natun.Api.Aggr.string_to_aggr_fn natun.Api.Bucket.bucket_index natun.Api.Bucket.bucket_name
    natun.Api.Bucket.bucket_time natun.Api.Bucket.ceil_div natun.Api.Bucket.epoch
    natun.Api.Bucket.truncate natun.Api.Descriptor.is_numeric natun.Api.Descriptor.valid_window
    natun.Api.Keys.encode natun.Api.Keys.encoded_value natun.Api.Keys.encoded_values
    Primitive.primitive_eq Primitive.scalar Primitive.singular natun.Api.ScalarText.from_micro
    natun.Api.ScalarText.parse_bool natun.Api.ScalarText.read_scalar
    natun.Api.ScalarText.scalar_from_string natun.Api.Value.element natun.Api.Value.elements
    natun.Api.Value.go_type add_dead natun.Historian.Dispatch.schedule_dead
    natun.Historian.Dispatch.write_of_bucket natun.Historian.Server.time_till_next_bucket
    natun.Prelude.lookup natun.Prelude.Digits.format_int natun.Prelude.Digits.format_nat
    natun.Prelude.Digits.parse_int natun.Prelude.Digits.parse_nat_below natun.Prelude.Text.join
    natun.Redis.Command.primitive_key natun.Redis.Command.print_keys window_key
    natun.Redis.DeadBuckets.found_buckets natun.Redis.DeadBuckets.from_window_key
    natun.Redis.DeadBuckets.ignore_key natun.Redis.DeadBuckets.read_buckets
    natun.Redis.DeadBuckets.scan_buckets natun.Redis.Read.get_primitive
    natun.Redis.Read.get_timestamp natun.Redis.Read.read_at natun.Redis.Read.read_elements
    natun.Redis.Read.read_timestamp natun.Redis.Read.read_value natun.Redis.Window.get_state
    natun.Redis.Window.get_window natun.Redis.Window.is_empty_result natun.Redis.Window.merge_bucket
    natun.Redis.Window.merge_buckets natun.Redis.Window.merge_fn natun.Redis.Window.read_fields
    natun.Redis.Window.window_buckets natun.Redis.Window.window_result
collected_ok = refl

once_example :
    (new : List (WriteNotification Bool)) × (collected.1.write_tasks ≡ written.1.write_tasks ++ new)
    × All (IsOtherWrite (window_key (codes "shop.price") (codes "a") (codes "7;mon"))) new
once_example =
    dispatch_write-once no_reads one_count all_keys memory_writer key_list 10_000_000_000_000 hourly
      dead_write two_windows started written.1 collected.1 key_list-Keeps refl refl refl
      (λ i. (written_ok i, written.1)) (λ i. (collected_ok i, collected.1))

abbrev memory : StateReads Bool Windows
memory = redis_reads no_reads one_count all_keys

abbrev found : Result (List (RawBucket Bool))
found = unhandled memory key_list 10_000_000_000_000 hourly two_windows (some [])

abbrev dead_of : Result (List (RawBucket Bool)) → List (RawBucket Bool)
dead_of (ok bs) = bs
dead_of _ = []

found_ok : found ≡ ok (dead_of found)
unfolding read_bit dispatch_collect_dead unhandled dispatch_write natun.Api.Value.normalize_any
    natun.Historian.Dispatch.commit natun.Historian.Dispatch.mark_handled
    natun.Historian.Dispatch.handled_of natun.Historian.Server.dead_bucket_key
    natun.Historian.Server.from_dead_bucket_key natun.Redis.DeadBuckets.split_first
    natun.Redis.DeadBuckets.split_last redis_reads natun.Redis.DeadBuckets.dead_buckets
    natun.Api.Bucket.dead_window_buckets natun.Api.Bucket.last natun.Api.Bucket.alive_window_buckets
    natun.Api.Bucket.bucket_names natun.Api.Aggr.aggr_eq natun.Api.Aggr.has_aggr
    natun.Api.Aggr.string_to_aggr_fn natun.Api.Bucket.bucket_index natun.Api.Bucket.bucket_name
    natun.Api.Bucket.bucket_time natun.Api.Bucket.ceil_div natun.Api.Bucket.epoch
    natun.Api.Bucket.truncate natun.Api.Descriptor.is_numeric natun.Api.Descriptor.valid_window
    natun.Api.Keys.encode natun.Api.Keys.encoded_value natun.Api.Keys.encoded_values
    Primitive.primitive_eq Primitive.scalar Primitive.singular natun.Api.ScalarText.from_micro
    natun.Api.ScalarText.parse_bool natun.Api.ScalarText.read_scalar
    natun.Api.ScalarText.scalar_from_string natun.Api.Value.element natun.Api.Value.elements
    natun.Api.Value.go_type add_dead natun.Historian.Dispatch.schedule_dead
    natun.Historian.Dispatch.write_of_bucket natun.Historian.Server.time_till_next_bucket
    natun.Prelude.lookup natun.Prelude.Digits.format_int natun.Prelude.Digits.format_nat
    natun.Prelude.Digits.parse_int natun.Prelude.Digits.parse_nat_below natun.Prelude.Text.join
    natun.Redis.Command.primitive_key natun.Redis.Command.print_keys window_key
    natun.Redis.DeadBuckets.found_buckets natun.Redis.DeadBuckets.from_window_key
    natun.Redis.DeadBuckets.ignore_key natun.Redis.DeadBuckets.read_buckets
    natun.Redis.DeadBuckets.scan_buckets natun.Redis.Read.get_primitive
    natun.Redis.Read.get_timestamp natun.Redis.Read.read_at natun.Redis.Read.read_elements
    natun.Redis.Read.read_timestamp natun.Redis.Read.read_value natun.Redis.Window.get_state
    natun.Redis.Window.get_window natun.Redis.Window.is_empty_result natun.Redis.Window.merge_bucket
    natun.Redis.Window.merge_buckets natun.Redis.Window.merge_fn natun.Redis.Window.read_fields
    natun.Redis.Window.window_buckets natun.Redis.Window.window_result
found_ok = refl

queued_ok : (add_dead hourly (dead_of found) started).0 ≡ ok tt
unfolding read_bit dispatch_collect_dead unhandled dispatch_write natun.Api.Value.normalize_any
    natun.Historian.Dispatch.commit natun.Historian.Dispatch.mark_handled
    natun.Historian.Dispatch.handled_of natun.Historian.Server.dead_bucket_key
    natun.Historian.Server.from_dead_bucket_key natun.Redis.DeadBuckets.split_first
    natun.Redis.DeadBuckets.split_last redis_reads natun.Redis.DeadBuckets.dead_buckets
    natun.Api.Bucket.dead_window_buckets natun.Api.Bucket.last natun.Api.Bucket.alive_window_buckets
    natun.Api.Bucket.bucket_names natun.Api.Aggr.aggr_eq natun.Api.Aggr.has_aggr
    natun.Api.Aggr.string_to_aggr_fn natun.Api.Bucket.bucket_index natun.Api.Bucket.bucket_name
    natun.Api.Bucket.bucket_time natun.Api.Bucket.ceil_div natun.Api.Bucket.epoch
    natun.Api.Bucket.truncate natun.Api.Descriptor.is_numeric natun.Api.Descriptor.valid_window
    natun.Api.Keys.encode natun.Api.Keys.encoded_value natun.Api.Keys.encoded_values
    Primitive.primitive_eq Primitive.scalar Primitive.singular natun.Api.ScalarText.from_micro
    natun.Api.ScalarText.parse_bool natun.Api.ScalarText.read_scalar
    natun.Api.ScalarText.scalar_from_string natun.Api.Value.element natun.Api.Value.elements
    natun.Api.Value.go_type add_dead natun.Historian.Dispatch.schedule_dead
    natun.Historian.Dispatch.write_of_bucket natun.Historian.Server.time_till_next_bucket
    natun.Prelude.lookup natun.Prelude.Digits.format_int natun.Prelude.Digits.format_nat
    natun.Prelude.Digits.parse_int natun.Prelude.Digits.parse_nat_below natun.Prelude.Text.join
    natun.Redis.Command.primitive_key natun.Redis.Command.print_keys window_key
    natun.Redis.DeadBuckets.found_buckets natun.Redis.DeadBuckets.from_window_key
    natun.Redis.DeadBuckets.ignore_key natun.Redis.DeadBuckets.read_buckets
    natun.Redis.DeadBuckets.scan_buckets natun.Redis.Read.get_primitive
    natun.Redis.Read.get_timestamp natun.Redis.Read.read_at natun.Redis.Read.read_elements
    natun.Redis.Read.read_timestamp natun.Redis.Read.read_value natun.Redis.Window.get_state
    natun.Redis.Window.get_window natun.Redis.Window.is_empty_result natun.Redis.Window.merge_bucket
    natun.Redis.Window.merge_buckets natun.Redis.Window.merge_fn natun.Redis.Window.read_fields
    natun.Redis.Window.window_buckets natun.Redis.Window.window_result
queued_ok = refl

again_example :
    Continues 10_000_000_000_000 hourly started
      (dispatch_collect_dead memory key_list 10_000_000_000_000 hourly two_windows started)
again_example =
    dispatch_collect_dead-Continues memory key_list 10_000_000_000_000 hourly two_windows started
      (omega arith) (omega arith) (unfold epoch in refl)
