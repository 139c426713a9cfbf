-- ===== src/Tests/Scripts.antt =====
-- The theorems about the scripts and the window keys of Redis at concrete inputs.
use natun.Prelude.{◌≡◌, refl, List, [], ◌∷◌, ◌++◌, some, none, arith, lookup, insert, lookup-insert}
use natun.Prelude.Int.{ℤ, pos, negsuc, ltb_ℤ}
use natun.Prelude.Digits.{format_int, parse_int, parse_int-format_int}
use natun.Prelude.Text.{Text, codes}
use natun.Api.Errors.{ok}
use natun.Redis.Command.{window_key}
use natun.Redis.Scripts.{Strings, IsExact, LuaNumbers, max_expiry, lua_max}
use natun.Redis.Scripts.Newest.{newest, Has, lua_max_comm}
use natun.Redis.DeadBuckets.{from_window_key}
use natun.Redis.DeadBuckets.WindowKeys.{from_window_key-colon}

-- A server whose store is an association list; nothing expires.
strings : Strings (List (Text × Text))
strings = record {
  get = λ key s. lookup key s;
  set = λ key text e s. (ok tt, insert key text s);
  get-set = λ key other text e s lasts. lookup-insert key other text s;
}

exact_text : (n : ℤ) → IsExact n → parse_int 10 (format_int 10 n) ≡ some n
exact_text (pos n) exact = parse_int-format_int 10 (pos n) (omega arith) (omega arith) (omega arith)
exact_text (negsuc n) exact =
    parse_int-format_int 10 (negsuc n) (omega arith) (omega arith) (omega arith)

-- Numbers without a bound.
whole_numbers : LuaNumbers ℤ
whole_numbers = record {
  tonumber = λ t. parse_int 10 t;
  less = λ a b. ltb_ℤ a b;
  number_text = λ n. format_int 10 n;
  of_int = λ n. n;
  tonumber-format = exact_text;
  number_text-of_int = λ n exact. refl;
  less-of_int = λ m n em en. refl;
}

missing_stamp : strings.get (codes "k:ts") [] ≡ none
unfolding strings lookup
missing_stamp = refl

lua_max_example :
    Has whole_numbers strings
      (codes "k:ts")
      (lua_max whole_numbers strings
        (codes "k:ts")
        (pos 9)
        none
        (lua_max whole_numbers strings (codes "k:ts") (pos 12) (some (pos 60)) []).1).1
      (some (newest (some (newest none (pos 12))) (pos 9)))
    × Has whole_numbers strings
        (codes "k:ts")
        (lua_max whole_numbers strings
          (codes "k:ts")
          (pos 12)
          (some (pos 60))
          (lua_max whole_numbers strings (codes "k:ts") (pos 9) none []).1).1
        (some (newest (some (newest none (pos 12))) (pos 9)))
unfolding max_expiry
lua_max_example =
    lua_max_comm whole_numbers strings (codes "k:ts") (pos 12) (pos 9) (some (pos 60)) none [] none
      (omega arith) (omega arith) tt tt tt missing_stamp

colon_example :
    from_window_key
      (window_key (codes "shop.price") (codes "a") (codes "10" ++ (b':' ∷ codes "30")))
    ≡ ok (codes "shop.price", codes "a" ++ (b':' ∷ codes "10"), codes "30")
colon_example =
    from_window_key-colon (codes "shop.price") (codes "a") (codes "10") (codes "30") refl refl
