-- ===== src/Adapter/Redis/Occupancy.antt =====
-- Which node sends the webhooks of a channel (`is_channel_globally_occupied` and
-- `is_channel_globally_vacated` of src/adapter/redis/mod.rs).
use rushsocket.Base.{
  Str, str_eq, str_eq_refl, Bool, true, false, not, ◌&&◌, ◌||◌, Option, some, List, [], ◌∷◌, ◌≡◌,
  refl, ◌∙◌, arith, map,
}
use rushsocket.Externals.{Externals}
use rushsocket.Adapter.Redis.{
  RedisCommands, RedisAdapter, occupancy_key, is_channel_globally_occupied,
  is_channel_globally_vacated,
}
use rushsocket.Adapter.Redis.Peers.{ResponsePayload}

-- What Redis documents of SETNX and DEL, where they do not fail: SETNX sets the key and answers with
-- whether it was not there; DEL removes it.
pub record KeyLaws (R : RedisCommands) : Type 0 where
  pub has : Str → R.Store → Bool
  pub set_nx_answer : (k v : Str) (s : R.Store) → (R.set_nx k v s).1 ≡ some (not (has k s))
  pub has-set_nx : (k v j : Str) (s : R.Store) → has j (R.set_nx k v s).0 ≡ (str_eq k j || has j s)
  pub has-del : (k j : Str) (s : R.Store) → has j (R.del k s) ≡ (not (str_eq k j) && has j s)

module _ (R : RedisCommands) (laws : KeyLaws R) (ext : Externals)
    (prefix app_id channel : Str) where
  abbrev pub key : Str
  key = occupancy_key prefix app_id channel

  -- The answers to the nodes that find the channel newly occupied, in the order of their commands.
  unfoldable pub answers : List Str → R.Store → List Bool
  answers [] store = []
  answers (node_id ∷ nodes) store =
      let r = is_channel_globally_occupied R ext prefix node_id app_id channel true store in
      r.1 ∷ answers nodes r.0

  is_channel_globally_occupied-has :
      (node_id : Str) (store : R.Store)
      → (is_channel_globally_occupied R ext prefix node_id app_id channel true store).1
        ≡ not (laws.has key store)
  unfolding is_channel_globally_occupied
  is_channel_globally_occupied-has node_id store = rw (laws.set_nx_answer key node_id store) refl

  has-is_channel_globally_occupied :
      (node_id : Str) (store : R.Store)
      → laws.has key (is_channel_globally_occupied R ext prefix node_id app_id channel true store).0
        ≡ true
  unfolding is_channel_globally_occupied
  has-is_channel_globally_occupied node_id store =
      laws.has-set_nx key node_id key store ∙ rw (str_eq_refl key) refl

  all_refused :
      (nodes : List Str) (store : R.Store)
      → laws.has key store ≡ true
      → answers nodes store ≡ map (λ node_id. false) nodes
  unfolding answers
  all_refused [] store h = refl
  all_refused (node_id ∷ nodes) store h =
      rw
        (
          is_channel_globally_occupied-has node_id store,
          h,
          all_refused nodes
              (is_channel_globally_occupied R ext prefix node_id app_id channel true store).0
              (has-is_channel_globally_occupied node_id store),
        )
        refl

  -- If no command fails: of the nodes that find a channel newly occupied, in whatever order their
  -- commands come, exactly the first is told so, if the channel has no key yet, and none if it has.
  pub answers_first :
      (node_id : Str) (nodes : List Str) (store : R.Store)
      → answers (node_id ∷ nodes) store ≡ not (laws.has key store) ∷ map (λ other. false) nodes
  unfolding answers
  answers_first node_id nodes store =
      rw
        (
          is_channel_globally_occupied-has node_id store,
          all_refused nodes
              (is_channel_globally_occupied R ext prefix node_id app_id channel true store).0
              (has-is_channel_globally_occupied node_id store),
        )
        refl

  -- A channel that is found vacated everywhere has no key afterwards; otherwise the store is as it
  -- was.
  vacated_key :
      (locally_vacated : Bool) (responses : Option (List ResponsePayload)) (a : RedisAdapter R)
      → (let r =
            is_channel_globally_vacated R ext prefix [] app_id channel locally_vacated responses
              a in
          laws.has key r.0.store ≡ (not r.1 && laws.has key a.store))
  unfolding is_channel_globally_vacated
  vacated_key locally_vacated responses a =
      ground (arith, laws.has-del key key a.store, str_eq_refl key)
