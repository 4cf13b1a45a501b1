-- ===== src/Adapter/Redis/Members.antt =====
-- The members of a presence channel over all nodes (`add_presence_member` and
-- `remove_presence_member` of src/adapter/redis/mod.rs), a whole operation at a time.
use rushsocket.Base.{
  ==_iff, zero, str_eq_iff, Str, str_eq, str_eq_refl, Bool, true, false, not, ◌&&◌, ◌||◌, ◌++◌, ℕ,
  suc, Option, none, some, [], ◌∷◌, ltb, get_or, ◌==◌, ◌≡◌, refl, sym, ap, ◌∙◌, arith, Bool-cases,
  inl, inr, if◌then◌else◌,
}
use rushsocket.Base.Int.{ℤ, pos, negsuc}
use rushsocket.Externals.{Externals}
use rushsocket.Protocol.Json.{Json}
use rushsocket.Adapter.Redis.{
  RedisCommands, RedisAdapter, presence_key, presence_sockets_key, store_member, drop_member,
  add_presence_member, remove_presence_member,
}

-- What Redis documents of its commands on hashes, where HINCRBY does not fail. `member` is whether a
-- field is there, and `tally` the number in a field, 0 without one; what a number below 0 would do is
-- left open.
pub record HashLaws (R : RedisCommands) : Type 0 where
  pub member : Str → Str → R.Store → Bool
  pub tally : Str → Str → R.Store → ℕ
  pub hincr_up :
      (k u : Str) (s : R.Store) → (R.hincr k u (pos 1) s).1 ≡ some (pos (suc (tally k u s)))
  pub tally-hincr_up :
      (k u j v : Str) (s : R.Store)
      → tally j v (R.hincr k u (pos 1) s).0
        ≡ (if str_eq k j && str_eq u v then suc (tally j v s) else tally j v s)
  pub hincr_down :
      (k u : Str) (n : ℕ) (s : R.Store)
      → tally k u s ≡ suc n
      → (R.hincr k u (negsuc 0) s).1 ≡ some (pos n)
  pub tally-hincr_down :
      (k u j v : Str) (n : ℕ) (s : R.Store)
      → tally k u s ≡ suc n
      → tally j v (R.hincr k u (negsuc 0) s).0
        ≡ (if str_eq k j && str_eq u v then n else tally j v s)
  pub member-hincr :
      (k u j v : Str) (by : ℤ) (s : R.Store)
      → str_eq k j ≡ false
      → member j v (R.hincr k u by s).0 ≡ member j v s
  pub member-hset :
      (k u x j v : Str) (s : R.Store)
      → member j v (R.hset k u x s) ≡ ((str_eq k j && str_eq u v) || member j v s)
  pub tally-hset :
      (k u x j v : Str) (s : R.Store)
      → str_eq k j ≡ false
      → tally j v (R.hset k u x s) ≡ tally j v s
  pub member-hdel :
      (k u j v : Str) (s : R.Store)
      → member j v (R.hdel k u s) ≡ (not (str_eq k j && str_eq u v) && member j v s)
  pub tally-hdel :
      (k u j v : Str) (s : R.Store)
      → tally j v (R.hdel k u s) ≡ (if str_eq k j && str_eq u v then 0 else tally j v s)
  pub member-del :
      (k j v : Str) (s : R.Store) → member j v (R.del k s) ≡ (not (str_eq k j) && member j v s)
  pub tally-del :
      (k j v : Str) (s : R.Store) → tally j v (R.del k s) ≡ (if str_eq k j then 0 else tally j v s)
  pub hlen_empty : (k u : Str) (s : R.Store) → R.hlen k s ≡ some 0 → member k u s ≡ false

str_eq-append : (p a b : Str) → str_eq (p ++ a) (p ++ b) ≡ str_eq a b
unfolding str_eq
str_eq-append [] a b = refl
str_eq-append (c ∷ p) a b = ground (arith, str_eq-append p a b)

suc_is_not_zero : (n : ℕ) → (suc n == 0) ≡ false
suc_is_not_zero n = ground arith

module _ (R : RedisCommands) (laws : HashLaws R) (ext : Externals)
    (prefix node app_id channel : Str) where
  abbrev pub members_key : Str
  members_key = presence_key prefix app_id channel

  abbrev pub sockets_key : Str
  sockets_key = presence_sockets_key prefix app_id channel

  -- The two hashes have different keys.
  apart : str_eq sockets_key members_key ≡ false
  unfolding presence_key presence_sockets_key str_eq
  apart = str_eq-append prefix _ _

  apart_back : str_eq members_key sockets_key ≡ false
  unfolding presence_key presence_sockets_key str_eq
  apart_back = str_eq-append prefix _ _

  -- A user is listed exactly if some socket of the user is counted.
  abbrev pub IsConsistent : R.Store → Type 0
  IsConsistent s = (u : Str) → laws.member members_key u s ≡ ltb 0 (laws.tally sockets_key u s)

  -- The same user under two equal ids.
  same_tally :
      (u v : Str) (s : R.Store)
      → str_eq u v ≡ true
      → laws.tally sockets_key v s ≡ laws.tally sockets_key u s
  same_tally u v s h = ap (λ x. laws.tally sockets_key x s) (sym ((str_eq_iff u v).0 h))

  store_member-IsConsistent :
      (user_id : Str) (info : Json) (s : R.Store)
      → IsConsistent s
      → IsConsistent (
          store_member R ext prefix node app_id channel user_id info
            (pos (suc (laws.tally sockets_key user_id s)))
            (R.hincr sockets_key user_id (pos 1) s).0)
  unfolding store_member
  store_member-IsConsistent user_id info s c u =
      let s1 = (R.hincr sockets_key user_id (pos 1) s).0 in
      ground (
        arith,
        laws.tally-hincr_up sockets_key user_id sockets_key u s,
        laws.member-hincr sockets_key user_id members_key u (pos 1) s apart,
        laws.member-hset members_key user_id (ext.print info) members_key u s1,
        laws.tally-hset members_key user_id (ext.print info) sockets_key u s1 apart_back,
        c u,
        same_tally user_id u s,
        str_eq_refl sockets_key,
        str_eq_refl members_key,
      )

  -- The counts of all users are as before but for one.
  abbrev pub Counts : Str → ℕ → R.Store → R.Store → Type 0
  Counts user_id n s s' =
      (v : Str)
      → laws.tally sockets_key v s' ≡ (if str_eq user_id v then n else laws.tally sockets_key v s)

  store_member-Counts :
      (user_id : Str) (info : Json) (count : ℤ) (s : R.Store)
      → Counts user_id (suc (laws.tally sockets_key user_id s)) s (
          store_member R ext prefix node app_id channel user_id info count
            (R.hincr sockets_key user_id (pos 1) s).0)
  unfolding store_member
  store_member-Counts user_id info count s v =
      let s1 = (R.hincr sockets_key user_id (pos 1) s).0 in
      ground (
        arith,
        laws.tally-hincr_up sockets_key user_id sockets_key v s,
        laws.tally-hset members_key user_id (ext.print info) sockets_key v s1 apart_back,
        same_tally user_id v s,
        str_eq_refl sockets_key,
      )

  -- The store without the entries of a user of whom one socket was counted.
  abbrev without : Str → R.Store → R.Store
  without user_id s =
      R.hdel sockets_key user_id
        (R.hdel members_key user_id (R.hincr sockets_key user_id (negsuc 0) s).0)

  tally-without :
      (user_id u : Str) (s : R.Store)
      → laws.tally sockets_key user_id s ≡ 1
      → laws.tally sockets_key u (without user_id s)
        ≡ (if str_eq user_id u then 0 else laws.tally sockets_key u s)
  tally-without user_id u s one =
      let s1 = (R.hincr sockets_key user_id (negsuc 0) s).0 in
      ground (
        arith,
        laws.tally-hdel sockets_key user_id sockets_key u (R.hdel members_key user_id s1),
        laws.tally-hdel members_key user_id sockets_key u s1,
        laws.tally-hincr_down sockets_key user_id sockets_key u 0 s one,
        apart_back,
        str_eq_refl sockets_key,
      )

  member-without :
      (user_id u : Str) (s : R.Store)
      → laws.member members_key u (without user_id s)
        ≡ (not (str_eq user_id u) && laws.member members_key u s)
  member-without user_id u s =
      let s1 = (R.hincr sockets_key user_id (negsuc 0) s).0 in
      ground (
        arith,
        laws.member-hdel sockets_key user_id members_key u (R.hdel members_key user_id s1),
        laws.member-hdel members_key user_id members_key u s1,
        laws.member-hincr sockets_key user_id members_key u (negsuc 0) s apart,
        apart,
        str_eq_refl members_key,
      )

  without-IsConsistent :
      (user_id : Str) (s : R.Store)
      → IsConsistent s
      → laws.tally sockets_key user_id s ≡ 1
      → IsConsistent (without user_id s)
  without-IsConsistent user_id s c one u =
      ground (arith, member-without user_id u s, tally-without user_id u s one, c u)

  -- Both hashes are deleted only if nobody is listed, so nothing is lost.
  tally-cleared :
      (u : Str) (s : R.Store)
      → IsConsistent s
      → R.hlen members_key s ≡ some 0
      → laws.tally sockets_key u (R.del sockets_key (R.del members_key s))
        ≡ laws.tally sockets_key u s
  tally-cleared u s c h = ground (
    arith,
    laws.tally-del sockets_key sockets_key u (R.del members_key s),
    str_eq_refl sockets_key,
    laws.hlen_empty members_key u s h,
    c u,
  )

  cleared-IsConsistent : (s : R.Store) → IsConsistent (R.del sockets_key (R.del members_key s))
  cleared-IsConsistent s u = ground (
    arith,
    laws.tally-del sockets_key sockets_key u (R.del members_key s),
    laws.member-del sockets_key members_key u (R.del members_key s),
    laws.member-del members_key members_key u s,
    str_eq_refl sockets_key,
    str_eq_refl members_key,
  )

  none_left : (o : Option ℕ) → (get_or o 1 == 0) ≡ true → o ≡ some 0
  none_left none h = ground arith
  none_left (some n) h = ap some ((==_iff n 0).0 h)

  -- The store that `remove_presence_member` leaves for a user whose last socket has gone.
  abbrev after_drop : Str → R.Store → R.Store
  after_drop user_id s =
      drop_member R ext prefix node app_id channel user_id
        (R.hincr sockets_key user_id (negsuc 0) s).0

  dropped :
      (user_id : Str) (s : R.Store)
      → IsConsistent s
      → laws.tally sockets_key user_id s ≡ 1
      → IsConsistent (after_drop user_id s) × Counts user_id 0 s (after_drop user_id s)
  unfolding drop_member
  dropped user_id s c one =
      elim (Bool-cases (get_or (R.hlen members_key (without user_id s)) 1 == 0)) [
        | inl e ↦
            rw (e, drop_member)
              (
                cleared-IsConsistent (without user_id s),
                λ v.
                    tally-cleared v (without user_id s) (without-IsConsistent user_id s c one)
                      (none_left _ e)
                    ∙ tally-without user_id v s one,
              )
        | inr e ↦
            rw (e, drop_member)
              (without-IsConsistent user_id s c one, λ v. tally-without user_id v s one)
      ]

  -- A user who has other sockets stays.
  kept-IsConsistent :
      (user_id : Str) (n : ℕ) (s : R.Store)
      → IsConsistent s
      → laws.tally sockets_key user_id s ≡ suc (suc n)
      → IsConsistent (R.hincr sockets_key user_id (negsuc 0) s).0
        × Counts user_id (suc n) s (R.hincr sockets_key user_id (negsuc 0) s).0
  kept-IsConsistent user_id n s c h = (
    λ u. ground (
      arith,
      laws.tally-hincr_down sockets_key user_id sockets_key u (suc n) s h,
      laws.member-hincr sockets_key user_id members_key u (negsuc 0) s apart,
      c u,
      same_tally user_id u s,
      str_eq_refl sockets_key,
    ),
    λ v. ground (
      arith,
      laws.tally-hincr_down sockets_key user_id sockets_key v (suc n) s h,
      str_eq_refl sockets_key,
    ),
  )

  -- If the commands on hashes do not fail and a user is listed exactly if a socket of the user is
  -- counted: after add_presence_member, on whatever node, it is still so, one more socket of the user
  -- is counted and as many of every other, and the answer is whether the user was not listed before.
  pub add_presence_member-IsConsistent :
      (socket_id user_id : Str) (info : Json) (a : RedisAdapter R)
      → IsConsistent a.store
      → (let r = add_presence_member R ext prefix node app_id channel socket_id user_id info a in
          IsConsistent r.0.store
          × Counts user_id (suc (laws.tally sockets_key user_id a.store)) a.store r.0.store
          × (r.1 ≡ not (laws.member members_key user_id a.store)))
  unfolding add_presence_member
  add_presence_member-IsConsistent socket_id user_id info a c =
      rw (laws.hincr_up sockets_key user_id a.store, add_presence_member)
        (
          store_member-IsConsistent user_id info a.store c,
          store_member-Counts user_id info _ a.store,
          ground (arith, c user_id),
        )

  -- If the commands on hashes do not fail and a user is listed exactly if a socket of the user is
  -- counted, for a user of whom n + 1 sockets are counted: after remove_presence_member, on whatever
  -- node, it is still so, n sockets of the user are counted and as many of every other, and the
  -- answer is whether this was the user's last socket.
  pub remove_presence_member-IsConsistent :
      (socket_id user_id : Str) (n : ℕ) (a : RedisAdapter R)
      → IsConsistent a.store
      → laws.tally sockets_key user_id a.store ≡ suc n
      → (let r = remove_presence_member R ext prefix node app_id channel socket_id user_id a in
          IsConsistent r.0.store × Counts user_id n a.store r.0.store × (r.1 ≡ (n == 0)))
  unfolding remove_presence_member
  remove_presence_member-IsConsistent socket_id user_id zero a c h =
      let d = dropped user_id a.store c h in
      rw (laws.hincr_down sockets_key user_id 0 a.store h, remove_presence_member) (d.0, d.1, refl)
  remove_presence_member-IsConsistent socket_id user_id (suc n) a c h =
      let k = kept-IsConsistent user_id n a.store c h in
      rw
        (
          laws.hincr_down sockets_key user_id (suc n) a.store h,
          remove_presence_member,
          suc_is_not_zero n,
        )
        (k.0, k.1, refl)
