-- ===== src/ThreadManager/Ids.antt =====
-- The ids that `InitTLS` of ClientNetworkCore/ThreadManager.cpp gives, and what Lock.cpp keeps of them.
use jam_client_prototype.Prelude.{
  ℕ, zero, suc, ◌+◌, ◌^◌, ◌≤◌, ◌<◌, ◌≡◌, refl, ap, ◌≢◌, ◌↔◌, List, [], ◌∷◌, ◌++◌, arith, length,
  get_or, length-append,
}
use jam_client_prototype.Lock.{desired}
use jam_client_prototype.ThreadManager.{ThreadManager, init_tls, create_thread_manager, launch}

-- `n` threads launched one after another.
abbrev pub launch_times : ℕ → ThreadManager → ThreadManager
launch_times zero m = m
launch_times (suc n) m = launch_times n (launch m)

-- The ids from `lo` on, one after another.
abbrev pub AreFrom : ℕ → List ℕ → Type 0
AreFrom lo [] = Unit {0}
AreFrom lo (i ∷ is) = (i ≡ lo) × AreFrom (suc lo) is

AreFrom-append :
    (lo : ℕ) (is : List ℕ) (i : ℕ)
    → AreFrom lo is
    → i ≡ lo + length is
    → AreFrom lo (is ++ (i ∷ []))
AreFrom-append lo [] i h e = (omega (arith, e), tt)
AreFrom-append lo (j ∷ is) i h e = (h.0, AreFrom-append (suc lo) is i h.1 (omega (arith, e)))

launch_times-AreFrom :
    (n : ℕ) (m : ThreadManager)
    → m.thread_id + n < 2 ^ 32
    → m.thread_id ≡ 2 + length m.threads
    → AreFrom 2 m.threads
    → let r = launch_times n m in
      AreFrom 2 r.threads
      × (length r.threads ≡ length m.threads + n)
      × (r.main_thread ≡ m.main_thread)
unfolding launch init_tls
launch_times-AreFrom zero m h e from = (from, omega arith, refl)
launch_times-AreFrom (suc n) m h e from =
    let one_more : length (m.threads ++ (m.thread_id ∷ [])) ≡ length m.threads + 1 =
      length-append m.threads (m.thread_id ∷ []) in
    let (from', size, main) =
      launch_times-AreFrom n (launch m) (omega arith) (omega (arith, one_more))
        (AreFrom-append 2 m.threads m.thread_id from e) in
    (from', omega (arith, size, one_more), main)

get_or-AreFrom :
    (lo : ℕ) (is : List ℕ) (k : ℕ) → AreFrom lo is → k < length is → get_or is k 0 ≡ lo + k
get_or-AreFrom lo [] k h l = absurd (omega arith)
get_or-AreFrom lo (i ∷ is) zero h l = omega (arith, h.0)
get_or-AreFrom lo (i ∷ is) (suc k) h l =
    omega (arith, get_or-AreFrom (suc lo) is k h.1 (omega arith))

-- The main thread, whose constructor call of `InitTLS` came first, and the launched threads.
abbrev pub all_threads : ThreadManager → List ℕ
all_threads m = m.main_thread ∷ m.threads

-- With fewer than 65534 launched threads, each of them and the main thread, alone too, owns a lock
-- under a mark that is not the empty one, and two of them have one mark only if they are the same
-- thread: the low 16 bits that a lock keeps of an id tell them apart.
pub desired-launch :
    (n i j : ℕ)
    → n < 65534
    → i ≤ n
    → j ≤ n
    → let ids = all_threads (launch_times n create_thread_manager) in
      (desired (get_or ids i 0) ≢ 0)
      × ((desired (get_or ids i 0) ≡ desired (get_or ids j 0)) ↔ (i ≡ j))
unfolding create_thread_manager init_tls
desired-launch n i j h hi hj =
    let (from, size, main) =
      launch_times-AreFrom n create_thread_manager (omega arith) (omega arith) tt in
    let ids = all_threads (launch_times n create_thread_manager) in
    let all : AreFrom 1 ids = (main, from) in
    let first : get_or ids i 0 ≡ 1 + i = get_or-AreFrom 1 ids i all (omega (arith, size)) in
    let second : get_or ids j 0 ≡ 1 + j = get_or-AreFrom 1 ids j all (omega (arith, size)) in
    (
      λ e. absurd (omega (arith, e, first)),
      (λ e. omega (arith, e, first, second), λ e. ap (λ k. desired (get_or ids k 0)) e),
    )
