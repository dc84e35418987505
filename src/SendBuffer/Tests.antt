-- ===== src/SendBuffer/Tests.antt =====
-- SendBuffer: a new manager, and a chunk in use.
use jam_client_prototype.Prelude.{ℕ, ◌≡◌, false, some, arith, replicate, length-replicate}
use jam_client_prototype.SendBuffer.{
  ok, SendBufferChunk, SendBuffer, SendBufferManager, open_buffer, create_manager,
}
use jam_client_prototype.SendBuffer.Regions.{IsValid}
use jam_client_prototype.SendBuffer.Manage.{Served, create_manager-IsReady, open_buffer-Served}

-- A chunk with 100 bytes cut from it.
abbrev used : SendBufferChunk
used = record { buffer = replicate 6000 0; is_open = false; used_size = 100 }

used-IsValid : IsValid used
used-IsValid = record { sized = length-replicate {0} {A = ℕ} 6000 0; within = omega arith }

open_buffer-Served_example :
    (b : SendBuffer) × ((t : SendBufferManager) × (open_buffer 40 create_manager ≡ ok (some b, t))
      × Served 40 b t)
open_buffer-Served_example =
    open_buffer-Served 40 create_manager create_manager-IsReady (omega arith)
