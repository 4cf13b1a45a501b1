-- ===== src/Adapter/Namespace/Admission.antt =====
-- The limit on connections when many tasks call `try_add_socket` (src/adapter/namespace.rs) at once,
-- and sockets leave by `remove_socket`. A task is taken apart into its accesses to the shared
-- counter, and a schedule interleaves the tasks in any way.
use rushsocket.Base.{
  ℕ, zero, suc, ◌+◌, ◌≤◌, ◌<◌, ◌^◌, ◌≡◌, List, [], ◌∷◌, if◌then◌else◌, leb, ◌==◌, arith,
}
use rushsocket.Adapter.Namespace.{fetch_sub}

-- Where a task stands: at the head of the loop; with the value that it loaded; with a reserved slot,
-- before the insertion; in the table; turned away; or removed again.
pub data Task : Type 0 where
  starting reserved inserted refused removed : Task
  loaded : ℕ → Task

-- `fails_spuriously` is `compare_exchange_weak` failing though the counter has the expected value.
pub data Act : Type 0 where
  advances fails_spuriously disconnects : Act

-- One access of one task, with a limit `max` that is not negative.
unfoldable pub act : ℕ → Act → ℕ → Task → ℕ × Task
act max advances count starting = (count, loaded count)
act max advances count (loaded current) =
    if leb max current
    then (count, refused)
    else if count == current
    then (current + 1, reserved)
    else (count, starting)
act max fails_spuriously count (loaded current) =
    if leb max current then (count, refused) else (count, starting)
act max advances count reserved = (count, inserted)
act max disconnects count inserted = (fetch_sub count, removed)
act max _ count task = (count, task)

pub record Shared : Type 0 where
  pub count : ℕ
  pub tasks : List Task

unfoldable pub act_at : ℕ → Act → ℕ → ℕ → List Task → ℕ × List Task
act_at max a i count [] = (count, [])
act_at max a zero count (t ∷ ts) = let next = act max a count t in (next.0, next.1 ∷ ts)
act_at max a (suc i) count (t ∷ ts) = let next = act_at max a i count ts in (next.0, t ∷ next.1)

-- A schedule names the task that moves, and what it does.
unfoldable pub run : ℕ → List (ℕ × Act) → Shared → Shared
run max [] s = s
run max ((i, a) ∷ rest) s =
    let next = act_at max a i s.count s.tasks in
    run max rest (record { count = next.0; tasks = next.1 })

-- 1 for a task that holds a slot, in the table or about to be.
abbrev pub slot : Task → ℕ
slot reserved = 1
slot inserted = 1
slot _ = 0

abbrev pub slots : List Task → ℕ
slots [] = 0
slots (t ∷ ts) = slot t + slots ts

abbrev pub is_inserted : Task → ℕ
is_inserted inserted = 1
is_inserted _ = 0

-- The sockets in the table.
abbrev pub table_size : List Task → ℕ
table_size [] = 0
table_size (t ∷ ts) = is_inserted t + table_size ts

act_counts :
    (max : ℕ) (a : Act) (count : ℕ) (t : Task)
    → max < 2 ^ 64
    → count ≤ max
    → slot t ≤ count
    → ((act max a count t).0 + slot t ≡ count + slot (act max a count t).1)
      × ((act max a count t).0 ≤ max)
unfolding act
act_counts max advances count starting m h k = ground arith
act_counts max advances count (loaded c) m h k = ground arith
act_counts max fails_spuriously count (loaded c) m h k = ground arith
act_counts max disconnects count inserted m h k = ground arith
act_counts max _ count t m h k = ground arith

act_at_counts :
    (max : ℕ) (a : Act) (i count : ℕ) (ts : List Task)
    → max < 2 ^ 64
    → count ≤ max
    → slots ts ≤ count
    → ((act_at max a i count ts).0 + slots ts ≡ count + slots (act_at max a i count ts).1)
      × ((act_at max a i count ts).0 ≤ max)
unfolding act_at
act_at_counts max a i count [] m h k = ground arith
act_at_counts max a zero count (t ∷ ts) m h k = ground (arith, act_counts max a count t m h)
act_at_counts max a (suc i) count (t ∷ ts) m h k =
    ground (arith, act_at_counts max a i count ts m h)

table_size-le-slots : (ts : List Task) → table_size ts ≤ slots ts
table_size-le-slots [] = omega arith
table_size-le-slots (inserted ∷ ts) = omega (arith, table_size-le-slots ts)
table_size-le-slots (t ∷ ts) = omega (arith, table_size-le-slots ts)

-- For a limit that fits a `usize`, from a state in which the counter is the number of slots that
-- are held and within the limit: after any schedule the counter is still the number of slots that
-- are held, and neither it nor the number of sockets in the table exceeds the limit.
pub run_bounded :
    (max : ℕ) (schedule : List (ℕ × Act)) (s : Shared)
    → max < 2 ^ 64
    → s.count ≡ slots s.tasks
    → s.count ≤ max
    → ((run max schedule s).count ≡ slots (run max schedule s).tasks)
      × ((run max schedule s).count ≤ max)
      × (table_size (run max schedule s).tasks ≤ max)
unfolding run
run_bounded max [] s m e h = omega (arith, table_size-le-slots s.tasks)
run_bounded max ((i, a) ∷ rest) s m e h =
    let counts = act_at_counts max a i s.count s.tasks m h (omega arith) in
    run_bounded max rest
      (record {
        count = (act_at max a i s.count s.tasks).0;
        tasks = (act_at max a i s.count s.tasks).1;
      })
      m (omega (arith, counts)) counts.1
