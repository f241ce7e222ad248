-- ===== src/Network/MemoryPool.antt =====
-- GameServer/Network/MemoryPool.h: the blocks that are free, in the order of the queue. The mutex
-- makes each operation one step. A block is named by its address, and `block_size` is `sizeof(T)`.
pub mod Blocks
use server_programming.Base.{ℕ, zero, suc, ◌+◌, ◌*◌, Option, none, some, List, [], ◌∷◌, ◌++◌}

pub record MemoryPool : Type 0 where
  pub pool : ℕ
  pub mem_addrs : List ℕ
  pub block_count : ℕ
  pub pool_size : ℕ

-- The addresses of `count` blocks from one on.
unfoldable pub blocks : ℕ → ℕ → ℕ → List ℕ
blocks zero block_size address = []
blocks (suc count) block_size address = address ∷ blocks count block_size (address + block_size)

-- `new T[count]` gives `address`.
unfoldable pub init : MemoryPool → ℕ → ℕ → ℕ → MemoryPool
unfolding blocks
init p block_size address count = record {
  pool = address;
  mem_addrs = p.mem_addrs ++ blocks count block_size address;
  block_count = count;
  pool_size = count * block_size;
}

-- `nullptr` is `none`.
unfoldable pub alloc : MemoryPool → Option ℕ × MemoryPool
alloc p = elim p.mem_addrs [
  | [] ↦ (none, p)
  | block ∷ rest ↦ (some block, record p { mem_addrs = rest })
]

unfoldable pub dealloc : MemoryPool → Option ℕ → MemoryPool
dealloc p none = p
dealloc p (some block) = record p { mem_addrs = p.mem_addrs ++ (block ∷ []) }

unfoldable pub get_total_size : MemoryPool → ℕ
get_total_size p = p.pool_size
