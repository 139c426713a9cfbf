-- ===== src/Tests/System.antt =====
-- The theorem about a Set and a Get over Redis at a concrete input.
use natun.Prelude.{
  ℕ, ◌+◌, ◌*◌, ◌/◌, ◌≡◌, refl, Bool, true, false, List, [], ◌∷◌, Option, some, none, ltb, arith,
  All, lookup, insert,
}
use natun.Prelude.Text.{Text, codes}
use natun.Prelude.Digits.{format_int}
use natun.Api.Errors.{ok}
use natun.Api.Primitive
use natun.Api.Aggr.{unknown_fn}
use natun.Api.Value.{scalar, str}
use natun.Api.Keys.{encode}
use natun.Api.Selector.{Selector, parse_selector}
use natun.Engine.Pipeline.{closed, Middleware}
use natun.Engine.Priority.{FeaturePipeliner}
use natun.Engine.World.{World}
use natun.Engine.Request.{feature_for_request, got, set, get}
use natun.Redis.Command.{Command, run_max, set_timestamp}
use natun.Redis.ReadBack.{Holds}
use natun.Redis.State.{RedisServer, redis_state}
use natun.System.ReadYourWrite.{stored, get-set}
use natun.Tests.Data.{bits, two_keys, background}
use natun.Tests.Store.{Table, table_reads, single, transaction, accepted, plain_feature, detected}

-- A server that executes SET and the script of the timestamps, without expiry and for a first write.
abbrev execute : Command Bool → Table → Table
execute (Command.set k t ttl) s = insert k t s
execute (run_max k n ttl) s = insert k (format_int 10 n) s
execute _ s = s

abbrev execute_all : List (Command Bool) → Table → Table
execute_all [] s = s
execute_all (c ∷ cs) s = execute_all cs (execute c s)

abbrev server : RedisServer Bool Table
server = record {
  exec = λ now cs s. (ok tt, execute_all cs s);
  reads = table_reads;
  hashes = record { hgetall = λ k s. ok [] };
}

abbrev single_feature : FeaturePipeliner (Middleware Bool (World Bool Table))
single_feature = record {
  descriptor = single;
  pre_get = [];
  post_get = [];
  pre_set = [];
  post_set = [];
}

abbrev features : List (Text × FeaturePipeliner (Middleware Bool (World Bool Table)))
features = (codes "shop.price", single_feature) ∷ []

abbrev latest : Selector
latest = record {
  namespace = codes "shop";
  name = codes "price";
  aggr_fn = unknown_fn;
  version = 0;
  encoding = [];
}

latest_parsed : parse_selector (codes "shop.price") ≡ ok latest
unfolding parse_selector natun.Api.Selector.of_submatch natun.Api.Selector.find_submatch
    natun.Api.Selector.match_fqn natun.Api.Selector.after_first natun.Api.Selector.match_name
    natun.Api.Selector.is_ident natun.Api.Selector.span natun.Api.Selector.is_word
    natun.Api.Selector.after_ident natun.Api.Selector.match_rest natun.Api.Selector.match_aggr
    natun.Api.Selector.match_version natun.Api.Selector.match_encoding natun.Api.Selector.of_match
    natun.Api.Selector.parse_version natun.Prelude.Digits.parse_int natun.Api.Aggr.string_to_aggr_fn
    natun.Api.Selector.after_fqn natun.Api.Selector.ident_after natun.Api.Selector.is_digit
    natun.Api.Selector.is_letter natun.Api.Selector.is_tag natun.Api.Selector.is_underscore
    natun.Prelude.Digits.parse_nat_below
latest_parsed = refl

found : feature_for_request features (codes "shop.price") ≡ ok single_feature
unfolding feature_for_request natun.Engine.Request.request_fqn natun.Api.Selector.normalize_fqn
    parse_selector natun.Api.Selector.of_submatch natun.Api.Selector.find_submatch
    natun.Api.Selector.match_fqn natun.Api.Selector.after_first natun.Api.Selector.match_name
    natun.Api.Selector.is_ident natun.Api.Selector.span natun.Api.Selector.is_word
    natun.Api.Selector.after_ident natun.Api.Selector.match_rest natun.Api.Selector.match_aggr
    natun.Api.Selector.match_version natun.Api.Selector.match_encoding natun.Api.Selector.of_match
    natun.Api.Selector.parse_version natun.Prelude.Digits.parse_int natun.Api.Aggr.string_to_aggr_fn
    natun.Api.Selector.after_fqn natun.Api.Selector.ident_after natun.Api.Selector.is_digit
    natun.Api.Selector.is_letter natun.Api.Selector.is_tag natun.Api.Selector.is_underscore
    natun.Prelude.Digits.parse_nat_below natun.Prelude.lookup
found = refl

encoded_keys : encode two_keys single ≡ ok (codes "7;mon")
unfolding encode natun.Api.Keys.encoded_values natun.Api.Keys.encoded_value lookup
    natun.Prelude.Text.join
encoded_keys = refl

abbrev nothing : World Bool Table
nothing = record { store = []; pending_writes = []; pending_collects = []; spawned = [] }

abbrev filled : Table
filled = execute_all transaction []

filled-Holds : All (Holds table_reads filled) transaction
unfolding table_reads lookup insert set_timestamp format_int
filled-Holds = (refl, (refl, tt))

get-set_example :
    (let (done, w') =
        set
          (redis_state server)
          6_000_000_000
          closed
          features
          background
          (codes "shop.price")
          two_keys
          (scalar (str (codes "9.99")))
          5_000_000_999
          nothing in
      (done ≡ ok tt)
      × ((get
            (redis_state server)
            7_000_000_000
            closed
            features
            background
            (codes "shop.price")
            two_keys
            w').0
          ≡ got
              (stored server 7_000_000_000 single (str (codes "9.99")) 5_000_000_999)
              (some single)
              none))
get-set_example =
    get-set server features single_feature background background (codes "shop.price") latest
      two_keys (str (codes "9.99")) 5_000_000_999 6_000_000_000 7_000_000_000 nothing
      (codes "7;mon") transaction filled found latest_parsed refl
      (record { no_pre_get = refl; no_post_get = refl })
      (record { no_pre_set = refl; no_post_set = refl }) refl plain_feature
      (unfold Primitive.scalar in refl) detected tt (omega arith) encoded_keys (omega arith)
      (omega arith) accepted (unfold insert set_timestamp format_int in refl) filled-Holds
