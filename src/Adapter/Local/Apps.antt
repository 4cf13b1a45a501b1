-- ===== src/Adapter/Local/Apps.antt =====
-- The adapter of one node (src/adapter/local.rs) as a family of namespaces, one to an app. A
-- namespace that is not there yet is a new one.
use rushsocket.Base.{
  Str, str_eq, str_eq_iff, none, some, ◌≡◌, refl, arith, if◌then◌else◌, Option-cases, Bool-cases,
  inl, inr,
}
use rushsocket.Base.Assoc
use rushsocket.Base.Assoc.{Assoc, lookup-insert, entry}
use rushsocket.Adapter.Namespace
use rushsocket.Adapter.Namespace.{Namespace, unindex, leave_all}
use rushsocket.Adapter.Namespace.Histories.{
  Op, adds_socket, tries_socket, removes_socket, joins, leaves, adds_member, tries_member,
  removes_member, adds_user, removes_user, apply,
}
use rushsocket.Adapter.Local.{
  LocalAdapter, get_or_create_ns, add_socket, try_add_socket, remove_socket, add_to_channel,
  remove_from_channel, add_presence_member, try_add_presence_member, remove_presence_member,
  add_user, remove_user,
}

-- The adapter's operation for each operation of a namespace.
unfoldable pub apply_local : Str → Op → LocalAdapter → LocalAdapter
apply_local app_id (adds_socket conn) a = add_socket app_id conn a
apply_local app_id (tries_socket conn limit) a = (try_add_socket app_id conn limit a).0
apply_local app_id (removes_socket sid) a = (remove_socket app_id sid a).0
apply_local app_id (joins sid ch) a = (add_to_channel app_id sid ch a).0
apply_local app_id (leaves sid ch) a = (remove_from_channel app_id sid ch a).0
apply_local app_id (adds_member ch sid uid info) a =
    (add_presence_member app_id ch sid uid info a).0
apply_local app_id (tries_member ch sid uid info max) a =
    (try_add_presence_member app_id ch sid uid info max a).0
apply_local app_id (removes_member ch sid uid) a = (remove_presence_member app_id ch sid uid a).0
apply_local app_id (adds_user uid sid) a = add_user app_id uid sid a
apply_local app_id (removes_user uid sid) a = remove_user app_id uid sid a

pub ns-insert :
    (k j : Str) (n : Namespace) (a : LocalAdapter)
    → get_or_create_ns j (Assoc.insert k n a) ≡ (if str_eq k j then n else get_or_create_ns j a)
unfolding get_or_create_ns
ns-insert k j n a = ground (arith, lookup-insert k j n a)

ns_of_none :
    (k : Str) (a : LocalAdapter) → Assoc.lookup k a ≡ none → get_or_create_ns k a ≡ Namespace.new
unfolding get_or_create_ns
ns_of_none k a h = rw h refl

ns_of_some :
    (k : Str) (n : Namespace) (a : LocalAdapter)
    → Assoc.lookup k a ≡ some n
    → get_or_create_ns k a ≡ n
unfolding get_or_create_ns
ns_of_some k n a h = rw h refl

module _ (app_id j : Str) (f : Namespace → Namespace) (a : LocalAdapter) where
  -- An operation that does nothing without the app's namespace, and nothing to a new one.
  ns_absent :
      f Namespace.new ≡ Namespace.new
      → Assoc.lookup app_id a ≡ none
      → get_or_create_ns j a
        ≡ (if str_eq app_id j then f (get_or_create_ns app_id a) else get_or_create_ns j a)
  ns_absent h e = elim (Bool-cases (str_eq app_id j)) [
    | inl same ↦ rw (same, ← (str_eq_iff app_id j).0 same, ns_of_none app_id a e, h) refl
    | inr other ↦ rw other refl
  ]

  ns_present :
      (n : Namespace)
      → Assoc.lookup app_id a ≡ some n
      → get_or_create_ns j (Assoc.insert app_id (f n) a)
        ≡ (if str_eq app_id j then f (get_or_create_ns app_id a) else get_or_create_ns j a)
  ns_present n e = rw (ns-insert app_id j (f n) a, ns_of_some app_id n a e) refl

unfoldable empties : Unit {0}
unfolding Assoc.lookup Assoc.remove entry unindex leave_all Namespace.remove_socket
    Namespace.remove_from_channel Namespace.remove_presence_member Namespace.remove_user
empties = tt

removes_socket-new : (sid : Str) → apply (removes_socket sid) Namespace.new ≡ Namespace.new
unfolding apply empties
removes_socket-new sid = refl

leaves-new : (sid ch : Str) → apply (leaves sid ch) Namespace.new ≡ Namespace.new
unfolding apply empties
leaves-new sid ch = refl

removes_member-new :
    (ch sid uid : Str) → apply (removes_member ch sid uid) Namespace.new ≡ Namespace.new
unfolding apply empties
removes_member-new ch sid uid = refl

removes_user-new : (uid sid : Str) → apply (removes_user uid sid) Namespace.new ≡ Namespace.new
unfolding apply empties
removes_user-new uid sid = refl

-- What an operation does to the namespaces: that of its app is changed by the operation of the
-- namespace.
abbrev pub Acts : Str → Op → LocalAdapter → LocalAdapter → Type 0
Acts app_id op a b =
    (j : Str)
    → get_or_create_ns j b
      ≡ (if str_eq app_id j then apply op (get_or_create_ns app_id a) else get_or_create_ns j a)

module _ (app_id : Str) (a : LocalAdapter) where
  pub remove_socket-Acts :
      (sid : Str) → Acts app_id (removes_socket sid) a (remove_socket app_id sid a).0
  unfolding apply remove_socket
  remove_socket-Acts sid j = elim (Option-cases (Assoc.lookup app_id a)) [
    | inl e ↦
        rw (e, remove_socket)
          (ns_absent app_id j (λ n. (Namespace.remove_socket sid n).0) a (removes_socket-new sid) e)
    | inr (n, e) ↦
        rw (e, remove_socket) (ns_present app_id j (λ n. (Namespace.remove_socket sid n).0) a n e)
  ]

  pub remove_from_channel-Acts :
      (sid ch : Str) → Acts app_id (leaves sid ch) a (remove_from_channel app_id sid ch a).0
  unfolding apply remove_from_channel
  remove_from_channel-Acts sid ch j = elim (Option-cases (Assoc.lookup app_id a)) [
    | inl e ↦
        rw (e, remove_from_channel)
          (ns_absent app_id j (λ n. (Namespace.remove_from_channel sid ch n).0) a
            (leaves-new sid ch) e)
    | inr (n, e) ↦
        rw (e, remove_from_channel)
          (ns_present app_id j (λ n. (Namespace.remove_from_channel sid ch n).0) a n e)
  ]

  pub remove_presence_member-Acts :
      (ch sid uid : Str)
      → Acts app_id (removes_member ch sid uid) a (remove_presence_member app_id ch sid uid a).0
  unfolding apply remove_presence_member
  remove_presence_member-Acts ch sid uid j = elim (Option-cases (Assoc.lookup app_id a)) [
    | inl e ↦
        rw (e, remove_presence_member)
          (ns_absent app_id j (λ n. (Namespace.remove_presence_member ch sid uid n).0) a
            (removes_member-new ch sid uid) e)
    | inr (n, e) ↦
        rw (e, remove_presence_member)
          (ns_present app_id j (λ n. (Namespace.remove_presence_member ch sid uid n).0) a n e)
  ]

  pub remove_user-Acts :
      (uid sid : Str) → Acts app_id (removes_user uid sid) a (remove_user app_id uid sid a)
  unfolding apply remove_user
  remove_user-Acts uid sid j = elim (Option-cases (Assoc.lookup app_id a)) [
    | inl e ↦
        rw (e, remove_user)
          (ns_absent app_id j (Namespace.remove_user uid sid) a (removes_user-new uid sid) e)
    | inr (n, e) ↦ rw (e, remove_user) (ns_present app_id j (Namespace.remove_user uid sid) a n e)
  ]

-- Every operation of the adapter for an app changes that app's namespace as the namespace's own
-- operation does, and leaves the namespaces of all other apps as they are.
pub apply_local-Acts :
    (app_id : Str) (op : Op) (a : LocalAdapter) → Acts app_id op a (apply_local app_id op a)
unfolding apply_local apply add_socket try_add_socket add_to_channel add_presence_member
    try_add_presence_member add_user
apply_local-Acts app_id (adds_socket conn) a j = ns-insert app_id j _ a
apply_local-Acts app_id (tries_socket conn limit) a j = ns-insert app_id j _ a
apply_local-Acts app_id (removes_socket sid) a j = remove_socket-Acts app_id a sid j
apply_local-Acts app_id (joins sid ch) a j = ns-insert app_id j _ a
apply_local-Acts app_id (leaves sid ch) a j = remove_from_channel-Acts app_id a sid ch j
apply_local-Acts app_id (adds_member ch sid uid info) a j = ns-insert app_id j _ a
apply_local-Acts app_id (tries_member ch sid uid info max) a j = ns-insert app_id j _ a
apply_local-Acts app_id (removes_member ch sid uid) a j =
    remove_presence_member-Acts app_id a ch sid uid j
apply_local-Acts app_id (adds_user uid sid) a j = ns-insert app_id j _ a
apply_local-Acts app_id (removes_user uid sid) a j = remove_user-Acts app_id a uid sid j
