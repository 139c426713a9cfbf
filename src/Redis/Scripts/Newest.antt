-- ===== src/Redis/Scripts/Newest.antt =====
-- The timestamp that luaMax of lua.go (internal/plugins/providers/state/redis) leaves at a key.
use natun.Prelude.{
  ◌≡◌, refl, ◌∙◌, ap, Option, none, some, arith, if◌then◌else◌, Bool-cases, inl, inr,
}
use natun.Prelude.Int.{ℤ, pos, negsuc, ltb_ℤ}
use natun.Prelude.Text.{Text, text_eq_refl}
use natun.Prelude.Digits.{format_int}
use natun.Redis.Scripts.{
  Expiry, Strings, Lasts, IsExact, LuaNumbers, number_at, is_newer, max_expiry, lua_max, set_if,
  status_ok,
}

-- A number that may be missing is exact.
abbrev pub IsExactAt : Option ℤ → Type 0
IsExactAt none = Unit
IsExactAt (some n) = IsExact n

-- The larger one of a number that may be missing and another.
abbrev pub newest : Option ℤ → ℤ → ℤ
newest none n = n
newest (some m) n = if ltb_ℤ m n then n else m

newest_comm : (o : Option ℤ) (a b : ℤ) → newest (some (newest o a)) b ≡ newest (some (newest o b)) a
newest_comm none (pos a) (pos b) = ground arith
newest_comm none (pos a) (negsuc b) = ground arith
newest_comm none (negsuc a) (pos b) = ground arith
newest_comm none (negsuc a) (negsuc b) = ground arith
newest_comm (some (pos c)) (pos a) (pos b) = ground arith
newest_comm (some (pos c)) (pos a) (negsuc b) = ground arith
newest_comm (some (pos c)) (negsuc a) (pos b) = ground arith
newest_comm (some (pos c)) (negsuc a) (negsuc b) = ground arith
newest_comm (some (negsuc c)) (pos a) (pos b) = ground arith
newest_comm (some (negsuc c)) (pos a) (negsuc b) = ground arith
newest_comm (some (negsuc c)) (negsuc a) (pos b) = ground arith
newest_comm (some (negsuc c)) (negsuc a) (negsuc b) = ground arith

newest-IsExact : (o : Option ℤ) (n : ℤ) → IsExactAt o → IsExact n → IsExact (newest o n)
newest-IsExact none n ho hn = hn
newest-IsExact (some m) n ho hn = elim (Bool-cases (ltb_ℤ m n)) [
  | inl e ↦ rw e hn
  | inr e ↦ rw e ho
]

module _ {N S : Type 0} (lua : LuaNumbers N) (redis : Strings S) where
  -- The key is missing, or has the text of a number.
  abbrev pub Has : Text → S → Option ℤ → Type 0
  Has key s none = redis.get key s ≡ none
  Has key s (some n) = redis.get key s ≡ some (format_int 10 n)

  number_at-none : (key : Text) (s : S) → redis.get key s ≡ none → number_at lua redis key s ≡ none
  unfolding number_at
  number_at-none key s e = rw (e, number_at) refl

  number_at-some :
      (key : Text) (s : S) (n : ℤ)
      → IsExact n
      → redis.get key s ≡ some (format_int 10 n)
      → number_at lua redis key s ≡ some (some (lua.of_int n))
  unfolding number_at
  number_at-some key s n exact e = rw (e, number_at) (ap some (lua.tonumber-format n exact))

  get-set_number :
      (key : Text) (n : ℤ) (e : Expiry) (s : S)
      → IsExact n
      → Lasts e
      → Has key (redis.set key (lua.number_text (lua.of_int n)) e s).1 (some n)
  get-set_number key n e s exact lasts =
      redis.get-set key key (lua.number_text (lua.of_int n)) e s lasts
      ∙ rw (text_eq_refl key) (ap some (lua.number_text-of_int n exact))

  lua_max_read :
      (key : Text) (n : ℤ) (ttl : Option ℤ) (s : S) (old : Option (Option N))
      → IsExact n
      → number_at lua redis key s ≡ old
      → lua_max lua redis key n ttl s
        ≡ set_if lua redis
            (is_newer lua old (lua.of_int n))
            status_ok
            key
            (lua.of_int n)
            (max_expiry ttl)
            s
  unfolding lua_max
  lua_max_read key n ttl s old exact found = rw (lua.tonumber-format n exact, found, lua_max) refl

  lua_max-newest :
      (key : Text) (n : ℤ) (ttl : Option ℤ) (s : S) (o : Option ℤ)
      → IsExact n
      → IsExactAt o
      → Lasts (max_expiry ttl)
      → Has key s o
      → Has key (lua_max lua redis key n ttl s).1 (some (newest o n))
  unfolding is_newer
  lua_max-newest key n ttl s none exact old lasts h =
      rw (lua_max_read key n ttl s none exact (number_at-none key s h))
        (get-set_number key n (max_expiry ttl) s exact lasts)
  lua_max-newest key n ttl s (some m) exact old lasts h =
      rw
        (lua_max_read key n ttl s (some (some (lua.of_int m))) exact (number_at-some key s m old h))
        (rw (lua.less-of_int m n old exact) (elim (Bool-cases (ltb_ℤ m n)) [
          | inl e ↦ rw e (get-set_number key n (max_expiry ttl) s exact lasts)
          | inr e ↦ rw e h
        ]))

  -- Two timestamps, written by luaMax to a key that is missing or has the text of a number, leave the text of
  -- the same number in either order: the largest of the three. All three are integers that a double
  -- holds exactly (microseconds until the year 2255), and no time to live is the -1 that SET refuses.
  pub lua_max_comm :
      (key : Text) (a b : ℤ) (ta tb : Option ℤ) (s : S) (o : Option ℤ)
      → IsExact a
      → IsExact b
      → IsExactAt o
      → Lasts (max_expiry ta)
      → Lasts (max_expiry tb)
      → Has key s o
      → let n = newest (some (newest o a)) b in
        Has key (lua_max lua redis key b tb (lua_max lua redis key a ta s).1).1 (some n)
        × Has key (lua_max lua redis key a ta (lua_max lua redis key b tb s).1).1 (some n)
  lua_max_comm key a b ta tb s o ha hb ho la lb h = (
    lua_max-newest key b tb _ (some (newest o a)) hb (newest-IsExact o a ho ha) lb
        (lua_max-newest key a ta s o ha ho la h),
    rw (newest_comm o a b) (
        lua_max-newest key a ta _ (some (newest o b)) ha (newest-IsExact o b ho hb) la
          (lua_max-newest key b tb s o hb ho lb h)),
  )
