-- ===== src/Network/MemoryPool/Blocks.antt =====
-- A pool and those who hold its blocks: no block is lost, and none is held twice.
use server_programming.Base.{
  ℕ, zero, suc, ◌+◌, ◌≤◌, ◌<◌, ◌≡◌, refl, ap, ◌∙◌, inl, inr, Bool-cases, some, List, [], ◌∷◌, ◌++◌,
  arith, ◌==◌, if◌then◌else◌,
}
use server_programming.Network.MemoryPool.{MemoryPool, blocks, init, alloc, dealloc}

-- How often a block is in a list.
abbrev pub occurs : ℕ → List ℕ → ℕ
occurs x [] = 0
occurs x (b ∷ bs) = (if x == b then 1 else 0) + occurs x bs

pub occurs-append : (x : ℕ) (bs cs : List ℕ) → occurs x (bs ++ cs) ≡ occurs x bs + occurs x cs
occurs-append x [] cs = omega arith
occurs-append x (b ∷ bs) cs = omega (arith, occurs-append x bs cs)

-- The runs of a pool from a start, with the list of the blocks held: a block that the pool gives is
-- held, and a block that is given back is not.
pub data Run (p : MemoryPool) : List ℕ → MemoryPool → Type 0 where
  start : Run p [] p
  take :
      (held : List ℕ) (q : MemoryPool) (b : ℕ) (q' : MemoryPool)
      → alloc q ≡ (some b, q')
      → Run p held q
      → Run p (b ∷ held) q'
  give_back :
      (before after : List ℕ) (b : ℕ) (q : MemoryPool)
      → Run p (before ++ (b ∷ after)) q
      → Run p (before ++ after) (dealloc q (some b))

alloc-occurs :
    (q : MemoryPool) (b : ℕ) (q' : MemoryPool)
    → alloc q ≡ (some b, q')
    → (x : ℕ) → occurs x q.mem_addrs ≡ (if x == b then 1 else 0) + occurs x q'.mem_addrs
unfolding alloc
alloc-occurs q b q' e x = ground arith

pub dealloc-occurs :
    (q : MemoryPool) (b x : ℕ)
    → occurs x (dealloc q (some b)).mem_addrs ≡ occurs x q.mem_addrs + (if x == b then 1 else 0)
unfolding dealloc
dealloc-occurs q b x = occurs-append x q.mem_addrs (b ∷ []) ∙ omega arith

Run-occurs :
    {p : MemoryPool} {held : List ℕ} {q : MemoryPool} (x : ℕ)
    → Run p held q
    → occurs x held + occurs x q.mem_addrs ≡ occurs x p.mem_addrs
Run-occurs x start = omega arith
Run-occurs x (take held q b q' e r) = omega (arith, Run-occurs x r, alloc-occurs q b q' e x)
Run-occurs x (give_back before after b q r) = omega (
  arith,
  Run-occurs x r,
  dealloc-occurs q b x,
  occurs-append x before after,
  occurs-append x before (b ∷ after),
)

module _ (block_size : ℕ) (some_bytes : 0 < block_size) where
  below : (count address x : ℕ) → x < address → occurs x (blocks count block_size address) ≡ 0
  unfolding blocks
  below zero address x h = refl
  below (suc count) address x h =
      let rest : occurs x (blocks count block_size (address + block_size)) ≡ 0 =
        below count (address + block_size) x (omega arith) in
      ground arith

  once : (count address x : ℕ) → occurs x (blocks count block_size address) ≤ 1
  unfolding blocks
  once zero address x = omega arith
  once (suc count) address x = elim (Bool-cases (x == address)) [
    | inl e ↦
        let rest : occurs x (blocks count block_size (address + block_size)) ≡ 0 =
          below count (address + block_size) x (ground arith) in
        ground arith
    | inr ne ↦
        let rest : occurs x (blocks count block_size (address + block_size)) ≤ 1 =
          once count (address + block_size) x in
        ground arith
  ]

-- In every run of a pool that was empty before it was initialized with blocks that are not empty, no
-- block is held twice, and none is held and free at the same time.
pub held_once :
    (p : MemoryPool) (block_size address count : ℕ) (held : List ℕ) (q : MemoryPool)
    → p.mem_addrs ≡ []
    → 0 < block_size
    → Run (init p block_size address count) held q
    → (x : ℕ) → occurs x held + occurs x q.mem_addrs ≤ 1
unfolding init
held_once p block_size address count held q empty some_bytes r x =
    let total = Run-occurs x r in
    let new = occurs-append x p.mem_addrs (blocks count block_size address) in
    let none_old : occurs x p.mem_addrs ≡ 0 = ap (occurs x) empty in
    let few = once block_size some_bytes count address x in omega arith
