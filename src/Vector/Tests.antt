-- ===== src/Vector/Tests.antt =====
-- Two cells whose sum leaves 32 bits.
use jam_client_prototype.Prelude.{◌-◌, ◌^◌, ◌≡◌, refl, arith}
use jam_client_prototype.Vector.Grid.{Vec2Int, plus, add_assign, sub_assign, cross}
use jam_client_prototype.Vector.Laws.{sub_assign-add_assign}

abbrev corner : Vec2Int
corner = record { x = 2 ^ 32 - 1; y = 7 }

abbrev step : Vec2Int
step = record { x = 3; y = 2 ^ 32 - 2 }

wrapped : add_assign corner step ≡ record { x = 2; y = 5 }
unfolding add_assign plus
wrapped = refl

undone :
    (sub_assign (add_assign corner step) step ≡ corner)
    × (add_assign (sub_assign corner step) step ≡ corner)
    × (plus (cross corner step) (cross step corner) ≡ 0)
undone = sub_assign-add_assign corner step (omega arith, omega arith) (omega arith, omega arith)
