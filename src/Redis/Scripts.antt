-- ===== src/Redis/Scripts.antt =====
-- The Lua scripts of lua.go (internal/plugins/providers/state/redis), each as a function of the store
-- that the server runs it on. The commands that the scripts call and Lua's numbers are parameters; the
-- fields of a hash are floats.
pub mod Newest
use natun.Prelude.{
  ℕ, zero, suc, ◌^◌, ◌≤◌, ◌<◌, ◌≡◌, Bool, true, false, ◌||◌, Option, none, some, if◌then◌else◌,
}
use natun.Prelude.Int.{ℤ, pos, negsuc, ltb_ℤ}
use natun.Prelude.Text.{Text, text_eq}
use natun.Prelude.Digits.{format_int}
use natun.Api.Errors.{Result, ok, err, panicked, external, ◌>>=◌}
use natun.Api.Value.{FloatOps}

-- The options of SET: none, PX, PXAT.
pub data Expiry : Type 0 where
  never : Expiry
  px : ℤ → Expiry
  pxat : ℤ → Expiry

-- An expiration that SET takes and that leaves the value there for now: none, or a positive number of
-- milliseconds. SET refuses another PX, and a time in the past removes the key.
abbrev pub Lasts : Expiry → Type 0
Lasts never = Unit
Lasts (px (pos (suc n))) = Unit
Lasts _ = ⊥

-- GET and SET of a server. A value that was just set to last is there, and other keys are as they were.
pub record Strings (S : Type 0) : Type 0 where
  pub get : Text → S → Option Text
  pub set : Text → Text → Expiry → S → Result (Unit {0}) × S
  pub get-set :
      (key other text : Text) (e : Expiry) (s : S)
      → Lasts e
      → get other (set key text e s).1 ≡ (if text_eq key other then some text else get other s)

-- The integers that a double holds exactly.
abbrev pub IsExact : ℤ → Type 0
IsExact (pos n) = n ≤ 2 ^ 53
IsExact (negsuc n) = n < 2 ^ 53

-- The numbers of Lua, which are doubles: tonumber, the comparison, and the text that a command gets.
-- Exact integers are read, compared and written as such.
pub record LuaNumbers (N : Type 0) : Type 0 where
  pub tonumber : Text → Option N
  pub less : N → N → Bool
  pub number_text : N → Text
  pub of_int : ℤ → N
  pub tonumber-format : (n : ℤ) → IsExact n → tonumber (format_int 10 n) ≡ some (of_int n)
  pub number_text-of_int : (n : ℤ) → IsExact n → number_text (of_int n) ≡ format_int 10 n
  pub less-of_int : (m n : ℤ) → IsExact m → IsExact n → less (of_int m) (of_int n) ≡ ltb_ℤ m n

-- HGET and HSET of a field that holds a number.
pub record Fields (F S : Type 0) : Type 0 where
  pub hget : Text → Text → S → Option F
  pub hset : Text → Text → F → S → S
  pub hget-hset : (key field : Text) (x : F) (s : S) → hget key field (hset key field x s) ≡ some x

-- What a script returns: the status of SET, or a number.
pub data ScriptReply : Type 0 where
  status_ok : ScriptReply
  integer : ℕ → ScriptReply

-- `not value or num > tonumber(value)`, with `some none` for a text that is no number: comparing it
-- is an error.
unfoldable pub is_newer : {N : Type 0} → LuaNumbers N → Option (Option N) → N → Result Bool
is_newer lua none num = ok true
is_newer lua (some none) num = err external
is_newer lua (some (some old)) num = ok (lua.less old num)

-- The options of the SET of luaMax: `dur > 0 or dur == -1`.
unfoldable pub max_expiry : Option ℤ → Expiry
max_expiry none = never
max_expiry (some (pos zero)) = never
max_expiry (some (pos (suc n))) = px (pos (suc n))
max_expiry (some (negsuc zero)) = px (negsuc zero)
max_expiry (some (negsuc (suc n))) = never

module _ {N S : Type 0} (lua : LuaNumbers N) (redis : Strings S) where
  -- tonumber(redis.call('GET', key))
  unfoldable pub number_at : Text → S → Option (Option N)
  number_at key s = elim (redis.get key s) [ none ↦ none | some t ↦ some (lua.tonumber t) ]

  -- The rest of a script, once the two numbers are compared. An error of SET ends the script.
  abbrev pub set_if : Result Bool → ScriptReply → Text → N → Expiry → S → Result ScriptReply × S
  set_if panicked changed key num e s = (panicked, s)
  set_if (err x) changed key num e s = (err x, s)
  set_if (ok true) changed key num e s =
      let (r, s') = redis.set key (lua.number_text num) e s in (r >>= λ _. ok changed, s')
  set_if (ok false) changed key num e s = (ok (integer 0), s)

  -- luaMax, whose argument is sent as a text; what is no number cannot be compared or set.
  unfoldable pub lua_max : Text → ℤ → Option ℤ → S → Result ScriptReply × S
  lua_max key arg ttl s = elim (lua.tonumber (format_int 10 arg)) [
    | none ↦ (err external, s)
    | some num ↦ set_if (is_newer lua (number_at key s) num) status_ok key num (max_expiry ttl) s
  ]

  -- luaMaxExpAt
  unfoldable pub lua_max_exp_at : Text → ℤ → ℤ → S → Result ScriptReply × S
  lua_max_exp_at key arg xat s = elim (lua.tonumber (format_int 10 arg)) [
    | none ↦ (err external, s)
    | some num ↦ set_if (is_newer lua (number_at key s) num) (integer 0) key num (pxat xat) s
  ]

module _ {F S : Type 0} ⦃ops : FloatOps F⦄ (redis : Fields F S) where
  -- luaHMin and luaHMax
  unfoldable pub lua_hmin : Text → Text → F → S → S
  lua_hmin key field num s = elim (redis.hget key field s) [
    | none ↦ redis.hset key field num s
    | some old ↦ if ops.less num old then redis.hset key field num s else s
  ]

  unfoldable pub lua_hmax : Text → Text → F → S → S
  lua_hmax key field num s = elim (redis.hget key field s) [
    | none ↦ redis.hset key field num s
    | some old ↦ if ops.less old num then redis.hset key field num s else s
  ]
