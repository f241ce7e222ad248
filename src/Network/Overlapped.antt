-- ===== src/Network/Overlapped.antt =====
-- GameServer/Network/WSAOverlappedEx.h: the record of an overlapped operation, with the buffer that its
-- bytes come from or go to, and the memory that such records take. The structures of Windows are left
-- out. An address is an offset from the start of the record's buffer.
pub mod Batch
pub mod Allocation
use server_programming.Base.{
  ℕ, Bool, true, false, Option, none, some, List, [], ◌∷◌, length, ltb, if◌then◌else◌,
}
use server_programming.Base.Int.{ℤ, pos, pos_part, residue}
use server_programming.Network.BufferQueue.{
  BufferQueue, push, clear, get_left_buf_len, get_filled_buf_len,
}
use server_programming.Network.BufferQueue.Contents.{window}
use server_programming.Network.MemoryPool.{MemoryPool, alloc, dealloc, get_total_size}

-- `enum class OP`
pub data Op : Type 0 where
  recv send accept npc_move player_move : Op

-- The fields of `WSABuffer` are `wsa_buf` and `wsa_len`.
pub record Overlapped : Type 0 where
  pub operation : Op
  pub net_buffer : BufferQueue
  pub wsa_buf : ℤ
  pub wsa_len : ℕ

-- `(ULONG)n`
unfoldable pub to_ulong : ℤ → ℕ
unfolding residue
to_ulong n = residue 4294967296 n

-- Without data the operation has the room behind the bytes that are in the buffer.
unfoldable pub reset_room : Overlapped → Op → Overlapped
unfolding get_left_buf_len to_ulong
reset_room o op = record o {
  operation = op;
  wsa_buf = o.net_buffer.write_index;
  wsa_len = to_ulong (get_left_buf_len o.net_buffer);
}

unfoldable pub reset : Overlapped → Op → Option (List ℕ) → Overlapped
unfolding reset_room clear push to_ulong
reset o op none = reset_room o op
reset o op (some []) = reset_room o op
reset o op (some (b ∷ bytes)) = record {
  operation = op;
  net_buffer = push (clear o.net_buffer) (some (b ∷ bytes));
  wsa_buf = pos 0;
  wsa_len = to_ulong (pos (length (b ∷ bytes)));
}

-- The mutex makes it one step.
unfoldable pub push_msg : Overlapped → Option (List ℕ) → Overlapped
unfolding push get_filled_buf_len to_ulong
push_msg o msg = elim o.operation [
  | send ↦
      let q = push o.net_buffer msg in
      record o { net_buffer = q; wsa_len = to_ulong (get_filled_buf_len q) }
  | recv ↦ o
  | accept ↦ o
  | npc_move ↦ o
  | player_move ↦ o
]

-- The bytes that `WSASend` is given
unfoldable pub bytes_of : Overlapped → List ℕ
bytes_of o = window o.net_buffer.buffer (pos_part o.wsa_buf) o.wsa_len

-- `operator new`, where `::operator new` would give `heap_block`
unfoldable pub operator_new : MemoryPool → (heap_block : ℕ) → ℕ × MemoryPool
unfolding alloc get_total_size
operator_new p heap_block =
    if ltb 0 (get_total_size p)
    then (elim (alloc p).0 [ none ↦ heap_block | some block ↦ block ], (alloc p).1)
    else (heap_block, p)

unfoldable pub operator_delete : MemoryPool → (block : ℕ) → MemoryPool
unfolding dealloc get_total_size
operator_delete p block = if ltb 0 (get_total_size p) then dealloc p (some block) else p
