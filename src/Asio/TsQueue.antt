-- ===== src/Asio/TsQueue.antt =====
-- Asio/AsioNet/tsqueue.h: a queue with two ends. The mutex makes each operation one step. `none`
-- stands for an element of an empty deque, which the source does not define.
pub mod Fifo
use server_programming.Base.{ℕ, Bool, true, false, Option, none, some, List, [], ◌∷◌, ◌++◌, length}

module _ {ℓ} {A : Type ℓ} where
  unfoldable pub front : List A → Option A
  front [] = none
  front (x ∷ deq) = some x

  unfoldable pub back : List A → Option A
  back [] = none
  back (x ∷ []) = some x
  back (x ∷ y ∷ deq) = back (y ∷ deq)

  unfoldable pub push_back : List A → A → List A
  push_back deq item = deq ++ (item ∷ [])

  unfoldable pub push_front : List A → A → List A
  push_front deq item = item ∷ deq

  unfoldable pub pop_front : List A → Option (A × List A)
  pop_front [] = none
  pop_front (t ∷ deq) = some (t, deq)

  -- An element in front of what is left.
  abbrev keep : A → Option (A × List A) → Option (A × List A)
  keep x none = none
  keep x (some (t, deq)) = some (t, x ∷ deq)

  unfoldable pub pop_back : List A → Option (A × List A)
  pop_back [] = none
  pop_back (t ∷ []) = some (t, [])
  pop_back (x ∷ y ∷ deq) = keep x (pop_back (y ∷ deq))

  unfoldable pub count : List A → ℕ
  count deq = length deq

  unfoldable pub is_empty : List A → Bool
  is_empty [] = true
  is_empty (x ∷ deq) = false

  unfoldable pub clear : List A → List A
  clear deq = []
