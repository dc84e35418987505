-- ===== src/MovementInterpolator/Tests.antt =====
-- Concrete snapshots, with numbers for the times.
use jam_client_prototype.MovementInterpolator.{Snapshot, add_snapshot, bracket}
use jam_client_prototype.MovementInterpolator.Order.{
  IsSorted, IsAround, add_snapshot-IsSorted, bracket-IsAround,
}
use jam_client_prototype.Prelude.{
  ℕ, ◌-◌, ◌≡◌, refl, true, false, not, List, [], ◌∷◌, ◌++◌, arith, ltb, keep,
}

abbrev at_time : ℕ → Snapshot ℕ ℕ
at_time t = record { timestamp = t; state = t }

ltb_asym : (s t : ℕ) → ltb s t ≡ true → ltb t s ≡ false
ltb_asym s t h = ground arith

ltb_trans : (s t u : ℕ) → ltb t s ≡ false → ltb u t ≡ false → ltb u s ≡ false
ltb_trans s t u h k = ground arith

abbrev three : List (Snapshot ℕ ℕ)
three = at_time 10 ∷ (at_time 20 ∷ (at_time 40 ∷ []))

three-IsSorted : IsSorted ltb three
three-IsSorted = ((refl, (refl, tt)), ((refl, tt), (tt, tt)))

late-placed :
    add_snapshot ltb (λ t. t - 15) (at_time 30) three
    ≡ at_time 20 ∷ (at_time 30 ∷ (at_time 40 ∷ []))
unfolding add_snapshot
late-placed = refl

add_snapshot-IsSorted_example :
    let added = add_snapshot ltb (λ t. t - 15) (at_time 30) three in
    IsSorted ltb added
    × ((front : List (Snapshot ℕ ℕ)) × ((back : List (Snapshot ℕ ℕ)) × ((three ≡ front ++ back)
            × (added
                ≡ keep (λ s. not (ltb s.timestamp (30 - 15))) (front ++ (at_time 30 ∷ back))))))
add_snapshot-IsSorted_example =
    add_snapshot-IsSorted ltb ltb_asym ltb_trans (λ t. t - 15) (at_time 30) three three-IsSorted

bracket-IsAround_example : IsAround ltb 25 three (bracket ltb 25 three)
bracket-IsAround_example = bracket-IsAround ltb ltb_asym ltb_trans 25 three three-IsSorted
