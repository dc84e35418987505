-- ===== src/DeadLockProfiler.antt =====
-- `DeadLockProfiler` of ClientNetworkCore/DeadLockProfiler.h and DeadLockProfiler.cpp: the order in
-- which threads take locks as a graph, and the search for a cycle in it. A name is the `const char*`
-- as a number. `LLockStack` of the calling thread is an argument. `-1` of the source's arrays is
-- `none`. `map<int32, set<int32>>` is an association list of increasing lists. What the source
-- prints and `CRASH`es with is a value. `_lock` is held in each call.
pub mod Graph
pub mod Dfs
pub mod Steps
pub mod Explore
pub mod Cycle
pub mod Order
pub mod Names
pub mod Locks
mod Tests
use jam_client_prototype.Prelude.Maps.{assign, find, member}
use jam_client_prototype.Prelude.{
  ℕ, zero, suc, ◌+◌, Bool, true, false, Option, none, some, List, [], ◌∷◌, ltb, ◌==◌, if◌then◌else◌,
  length, get_or, set, replicate,
}

abbrev pub History : Type 0
History = List (ℕ × List ℕ)

pub record Search : Type 0 where
  pub discovered_order : List (Option ℕ)
  pub discovered_count : ℕ
  pub finished : List Bool
  pub parent : List (Option ℕ)

-- What a search ends with: the arrays, or the lines `first -> second` that are printed before
-- `CRASH("DEADLOCK_DETECTED")`, or a read of `_parent[-1]`.
pub data Verdict : Type 0 where
  clear : Search → Verdict
  deadlock : List (ℕ × ℕ) → Verdict
  bad_index : Verdict
  out_of_fuel : Verdict

infixl 10 ◌>>=◌
unfoldable pub ◌>>=◌ : Verdict → (Search → Verdict) → Verdict
clear s >>= f = f s
deadlock lines >>= f = deadlock lines
bad_index >>= f = bad_index
out_of_fuel >>= f = out_of_fuel

-- `printf` of one line, before what follows.
unfoldable pub print : ℕ × ℕ → Verdict → Verdict
print line (clear s) = clear s
print line (deadlock lines) = deadlock (line ∷ lines)
print line bad_index = bad_index
print line out_of_fuel = out_of_fuel

-- The `while (true)` that prints the way from `now` up to `there`.
unfoldable pub print_parents : ℕ → List (Option ℕ) → ℕ → ℕ → Verdict
unfolding print
print_parents zero parent now there = out_of_fuel
print_parents (suc fuel) parent now there = elim (get_or parent now none) [
  | none ↦ bad_index
  | some up ↦
      print (up, now)
        (elim (up == there) [ true ↦ deadlock [] | false ↦ print_parents fuel parent up there ])
]

abbrev pub order : Search → ℕ → Option ℕ
order s v = get_or s.discovered_order v none

abbrev pub is_finished : Search → ℕ → Bool
is_finished s v = get_or s.finished v false

-- `<` on the entries of `_discoveredOrder`.
unfoldable pub earlier : Option ℕ → Option ℕ → Bool
earlier none none = false
earlier none (some b) = true
earlier (some a) none = false
earlier (some a) (some b) = ltb a b

-- The loop of `Dfs` over the locks taken while `here` was held; `visit` is the recursive call.
unfoldable pub explore : (ℕ → Search → Verdict) → ℕ → List ℕ → Search → Verdict
unfolding ◌>>=◌ print print_parents earlier
explore visit here [] s = clear s
explore visit here (there ∷ rest) s = elim (order s there) [
  | none ↦
      visit there (record s { parent = set s.parent there (some here) }) >>= explore visit here rest
  | some o ↦ elim (earlier (order s here) (some o)) [
    | true ↦ explore visit here rest s
    | false ↦ elim (is_finished s there) [
      | true ↦ explore visit here rest s
      | false ↦ print (here, there) (print_parents (length s.parent) s.parent here there)
    ]
  ]
]

abbrev pub discover : ℕ → Search → Search
discover here s = record s {
  discovered_order = set s.discovered_order here (some s.discovered_count);
  discovered_count = s.discovered_count + 1;
}

abbrev pub finish : ℕ → Search → Search
finish here s = record s { finished = set s.finished here true }

unfoldable pub dfs : History → ℕ → ℕ → Search → Verdict
unfolding ◌>>=◌ explore find
dfs history zero here s = out_of_fuel
dfs history (suc fuel) here s = elim (order s here) [
  | some o ↦ clear s
  | none ↦ elim (find here history) [
    | none ↦ clear (finish here (discover here s))
    | some next_set ↦
        explore (dfs history fuel) here next_set (discover here s) >>= λ t. clear (finish here t)
  ]
]

-- `for (lockId = 0; lockId < lockCount; lockId++)`; `n` rounds are left, from `lock_id` on.
unfoldable pub dfs_all : History → ℕ → ℕ → ℕ → Search → Verdict
unfolding ◌>>=◌ dfs
dfs_all history fuel zero lock_id s = clear s
dfs_all history fuel (suc n) lock_id s =
    dfs history fuel lock_id s >>= dfs_all history fuel n (suc lock_id)

unfoldable pub start : ℕ → Search
start lock_count = record {
  discovered_order = replicate lock_count none;
  discovered_count = 0;
  finished = replicate lock_count false;
  parent = replicate lock_count none;
}

unfoldable pub check_cycle : ℕ → History → Verdict
unfolding dfs_all start
check_cycle lock_count history = dfs_all history (lock_count + 1) lock_count 0 (start lock_count)

pub record Profiler : Type 0 where
  pub name_to_id : List (ℕ × ℕ)
  pub id_to_name : List (ℕ × ℕ)
  pub lock_history : History

unfoldable pub create_profiler : Profiler
create_profiler = record { name_to_id = []; id_to_name = []; lock_history = [] }

-- `set<int32>::insert` of an element that is not there.
unfoldable pub insert_sorted : ℕ → List ℕ → List ℕ
insert_sorted x [] = x ∷ []
insert_sorted x (y ∷ ys) = if ltb x y then x ∷ (y ∷ ys) else y ∷ insert_sorted x ys

-- What a lock was held for: the entry of `_lockHistory`, empty where there is none.
unfoldable pub next_locks : ℕ → History → List ℕ
unfolding find
next_locks lock_id history = elim (find lock_id history) [ none ↦ [] | some ids ↦ ids ]

-- What `PushLock` ends with: the profiler and the thread's stack, or the printed lines of a crash.
pub data Pushed : Type 0 where
  pushed : Profiler → List ℕ → Pushed
  detected : List (ℕ × ℕ) → Pushed
  failed : Pushed

-- The id of a name, issued at its first use.
unfoldable pub identify : ℕ → Profiler → ℕ × Profiler
unfolding find assign
identify name p = elim (find name p.name_to_id) [
  | none ↦
      let lock_id = length p.name_to_id in
      (
        lock_id,
        record p {
          name_to_id = assign name lock_id p.name_to_id;
          id_to_name = assign lock_id name p.id_to_name;
        },
      )
  | some lock_id ↦ (lock_id, p)
]

-- `LLockStack.push(lockId)` after a search that found no cycle.
unfoldable pub push_after : Verdict → ℕ → List ℕ → Profiler → Pushed
push_after (clear _) lock_id stack p = pushed p (lock_id ∷ stack)
push_after (deadlock lines) lock_id stack p = detected lines
push_after bad_index lock_id stack p = failed
push_after out_of_fuel lock_id stack p = failed

-- The part of `PushLock` after the lookup of the id.
unfoldable pub observe : ℕ → List ℕ → Profiler → Pushed
unfolding next_locks member assign insert_sorted check_cycle push_after
observe lock_id [] p = pushed p (lock_id ∷ [])
observe lock_id (prev_id ∷ below) p =
    let ids = next_locks prev_id p.lock_history in
    let touched = record p { lock_history = assign prev_id ids p.lock_history } in
    let known = record p {
      lock_history = assign prev_id (insert_sorted lock_id ids) p.lock_history;
    } in
    elim (lock_id == prev_id) [
      | true ↦ pushed p (lock_id ∷ (prev_id ∷ below))
      | false ↦ elim (member lock_id ids) [
        | true ↦ pushed touched (lock_id ∷ (prev_id ∷ below))
        | false ↦
            push_after (check_cycle (length known.name_to_id) known.lock_history) lock_id
              (prev_id ∷ below) known
      ]
    ]

unfoldable pub push_lock : ℕ → List ℕ → Profiler → Pushed
unfolding identify observe
push_lock name stack p = let found = identify name p in observe found.0 stack found.1

-- What `PopLock` ends with: the profiler and the stack, or the crash.
pub data Popped : Type 0 where
  popped : Profiler → List ℕ → Popped
  multiple_unlock : Popped
  invalid_unlock : Popped

-- `_nameToId[name]` makes an entry 0 for a name that has none.
unfoldable pub pop_lock : ℕ → List ℕ → Profiler → Popped
unfolding find assign
pop_lock name [] p = multiple_unlock
pop_lock name (top ∷ below) p = elim (find name p.name_to_id) [
  | none ↦
      let inserted = record p { name_to_id = assign name 0 p.name_to_id } in
      if top == 0 then popped inserted below else invalid_unlock
  | some lock_id ↦ if top == lock_id then popped p below else invalid_unlock
]
