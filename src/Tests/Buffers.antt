-- ===== src/Tests/Buffers.antt =====
-- The buffers, the timer's queue and positions at concrete data.
use server_programming.Base.{
  ℕ, ◌+◌, ◌≤◌, ◌≡◌, refl, [], ◌∷◌, ◌++◌, some, arith, true, ◌==◌, if◌then◌else◌,
}
use server_programming.Base.Int.{pos, ◌-ℤ◌}
use server_programming.Network.MemoryPool.{MemoryPool, init}
use server_programming.Network.Overlapped.{recv, send, reset, bytes_of, operator_new}
use server_programming.Network.Overlapped.Batch.{fitting, push_msgs, batch_sends}
use server_programming.Network.Overlapped.Allocation.{make, start, made_once}
use server_programming.Network.MemoryPool.Blocks.{occurs}
use server_programming.Network.BufferQueue.{BufferQueue, Memory}
use server_programming.Network.BufferQueue.Invariant.{IsValid}
use server_programming.Network.BufferQueue.Contents.{window, contents, receive, receive_appends}
use server_programming.Server.PlayerInfo.{PlayerInfo}
use server_programming.Server.Geometry.{is_near, abs}
use server_programming.Server.SectorManager.{
  SectorManager, get_sector_index, get_near_sector_indexes,
}
use server_programming.Server.SectorManager.Cover.{listed, near_sectors_cover}

-- A buffer with a packet of 3 bytes at address 1020.
abbrev late_memory : Memory
late_memory i = if i == 1020 then 3 else 7

abbrev late : BufferQueue
late = record {
  read_index = pos 1020;
  write_index = pos 1021;
  remain_size = pos 1023;
  buffer = late_memory;
}

abbrev late-IsValid : IsValid late
late-IsValid = record {
  read = 1020;
  filled = 1;
  read_eq = refl;
  write_eq = refl;
  remain_eq = refl;
  inside = omega arith;
}

receive_appends_example :
    (v' : IsValid (receive late (8 ∷ 9 ∷ 9 ∷ []))) × (contents v'
      ≡ contents late-IsValid ++ 8 ∷ 9 ∷ 9 ∷ [])
receive_appends_example = receive_appends late-IsValid (8 ∷ 9 ∷ 9 ∷ []) (omega arith)

abbrev at : ℕ → ℕ → PlayerInfo
at x y = record {
  name = [];
  level = pos 1;
  x = pos x;
  y = pos y;
  hp = pos 100;
  max_hp = pos 100;
  exp = pos 0;
}

abbrev grid : SectorManager
grid = record { width = 20; height = 20; ids = λ _. [] }

-- Positions in two sectors that touch at a corner.
near_sectors_cover_example :
    listed
      (get_sector_index grid (pos 20) (pos 20))
      (get_near_sector_indexes grid (pos 19) (pos 19))
    ≡ true
unfolding is_near abs ◌-ℤ◌
near_sectors_cover_example =
    near_sectors_cover grid (refl, refl) (at 19 19) (at 20 20) (refl, omega arith)
      (refl, omega arith) (refl, omega arith) (refl, omega arith) refl

abbrev no_pool : MemoryPool
no_pool = record { pool = 0; mem_addrs = []; block_count = 0; pool_size = 0 }

-- A pool of one block of 8 bytes, from which two records were made, the second one on the heap.
made_once_example :
    let (b, one) = operator_new (init no_pool 8 64 1) 900 in
    let (b', two) = operator_new one 908 in occurs 908 (b' ∷ b ∷ []) + occurs 908 two.mem_addrs ≤ 1
unfolding init operator_new
made_once_example =
    made_once no_pool 8 64 1 _ _ refl (omega arith)
      (make _ _ 908 refl (make [] (init no_pool 8 64 1) 900 refl start)) 908

-- A message of two bytes, to which one of 1023 bytes, which does not fit, and one of one byte are added.
batch_sends_example :
    bytes_of (
      push_msgs
        (reset
          (record { operation = recv; net_buffer = late; wsa_buf = pos 0; wsa_len = 0 })
          send
          (some (1 ∷ 2 ∷ [])))
        (window late_memory 0 1023 ∷ (3 ∷ []) ∷ []))
    ≡ 1 ∷ 2 ∷ 3 ∷ []
unfolding fitting
batch_sends_example =
    batch_sends (record { operation = recv; net_buffer = late; wsa_buf = pos 0; wsa_len = 0 })
      (1 ∷ 2 ∷ []) (window late_memory 0 1023 ∷ (3 ∷ []) ∷ []) (omega arith) (omega arith)
