-- ===== src/Network/Overlapped/Allocation.antt =====
-- The memory of records: no block is in use twice, although blocks that the pool could not give go into the
-- pool when they are given back.
use server_programming.Base.{
  ℕ, ◌+◌, ◌≤◌, ◌<◌, ◌≡◌, ◌⊎◌, sym, subst, ◌∙◌, inl, inr, Bool-cases, List, [], ◌∷◌, ◌++◌, arith,
  ◌==◌, ==_iff, if◌then◌else◌,
}
use server_programming.Network.MemoryPool.{MemoryPool, init, alloc}
use server_programming.Network.MemoryPool.Blocks.{occurs, occurs-append, dealloc-occurs, held_once}
use server_programming.Network.MemoryPool.Blocks
use server_programming.Network.Overlapped.{operator_new, operator_delete}

-- The records that are made and deleted from a pool on, with the list of the blocks of those that live.
-- What `::operator new` would give is no block that is in use or in the pool.
pub data Run (p : MemoryPool) : List ℕ → MemoryPool → Type 0 where
  start : Run p [] p
  make :
      (held : List ℕ) (q : MemoryPool) (heap_block : ℕ)
      → occurs heap_block held + occurs heap_block q.mem_addrs ≡ 0
      → Run p held q
      → Run p ((operator_new q heap_block).0 ∷ held) (operator_new q heap_block).1
  drop :
      (before after : List ℕ) (b : ℕ) (q : MemoryPool)
      → Run p (before ++ (b ∷ after)) q
      → Run p (before ++ after) (operator_delete q b)

-- A record that is made takes its block from the pool or the heap, and the others stay.
operator_new-occurs :
    (q : MemoryPool) (heap_block x : ℕ)
    → let (b, q') = operator_new q heap_block in
      ((if x == b then 1 else 0) + occurs x q'.mem_addrs ≡ occurs x q.mem_addrs)
      ⊎ ((b ≡ heap_block) × (occurs x q'.mem_addrs ≡ occurs x q.mem_addrs))
unfolding operator_new alloc
operator_new-occurs q heap_block x = ground arith

operator_delete-occurs :
    (q : MemoryPool) (b x : ℕ)
    → occurs x (operator_delete q b).mem_addrs ≤ occurs x q.mem_addrs + (if x == b then 1 else 0)
unfolding operator_delete
operator_delete-occurs q b x = ground (arith, dealloc-occurs q b x)

Run-once :
    {p : MemoryPool} {held : List ℕ} {q : MemoryPool} (x : ℕ)
    → ((y : ℕ) → occurs y p.mem_addrs ≤ 1)
    → Run p held q
    → occurs x held + occurs x q.mem_addrs ≤ 1
Run-once x few start = omega (arith, few x)
Run-once x few (make held q heap_block fresh r) = elim (operator_new-occurs q heap_block x) [
  | inl taken ↦ omega (arith, Run-once x few r)
  | inr (other, same) ↦ elim (Bool-cases (x == (operator_new q heap_block).0)) [
    | inl here ↦
        let e : x ≡ heap_block = (==_iff _ _).0 here ∙ other in
        let none_yet : occurs x held + occurs x q.mem_addrs ≡ 0 =
          subst (λ y. occurs y held + occurs y q.mem_addrs ≡ 0) (sym e) fresh in
        rw here (omega arith)
    | inr there ↦ rw there (omega (arith, Run-once x few r))
  ]
]
Run-once x few (drop before after b q r) = omega (
  arith,
  Run-once x few r,
  operator_delete-occurs q b x,
  occurs-append x before after,
  occurs-append x before (b ∷ after),
)

-- From a pool that was empty before it was initialized with blocks that are not empty, whatever records
-- are made and deleted, also more than the pool has blocks: no block is in use twice, and none is in use
-- and in the pool, as long as `::operator new` gives no block that is one of these.
pub made_once :
    (p : MemoryPool) (block_size address count : ℕ) (held : List ℕ) (q : MemoryPool)
    → p.mem_addrs ≡ []
    → 0 < block_size
    → Run (init p block_size address count) held q
    → (x : ℕ) → occurs x held + occurs x q.mem_addrs ≤ 1
made_once p block_size address count held q empty some_bytes r x =
    Run-once x
      (λ y. omega (
        arith,
        held_once p block_size address count [] (init p block_size address count) empty some_bytes
            Blocks.start y,
      ))
      r
