-- ===== src/Asio/TsQueue/Fifo.antt =====
-- Items leave the queue in the order in which they came.
use server_programming.Base.{
  ℕ, zero, suc, ◌≡◌, refl, sym, ap, ◌∙◌, Option, none, some, List, [], ◌∷◌, ◌++◌, length,
}
use server_programming.Asio.TsQueue.{push_back, pop_front, pop_back, count, back}

module _ {ℓ} {A : Type ℓ} where
  append-snoc : (xs : List A) (y : A) (zs : List A) → (xs ++ (y ∷ [])) ++ zs ≡ xs ++ (y ∷ zs)
  append-snoc [] y zs = refl
  append-snoc (x ∷ xs) y zs = ap (◌∷◌ x) (append-snoc xs y zs)

  append-nil : (xs : List A) → xs ++ [] ≡ xs
  append-nil [] = refl
  append-nil (x ∷ xs) = ap (◌∷◌ x) (append-nil xs)

  abbrev pub push_many : List A → List A → List A
  push_many deq [] = deq
  push_many deq (x ∷ xs) = push_many (push_back deq x) xs

  push_many-append : (deq xs : List A) → push_many deq xs ≡ deq ++ xs
  unfolding push_back
  push_many-append deq [] = sym (append-nil deq)
  push_many-append deq (x ∷ xs) = push_many-append (push_back deq x) xs ∙ append-snoc deq x xs

  -- The item in front of those that the rest of the run gives.
  abbrev then_pop :
      Option (A × List A) → (List A → Option (List A × List A)) → Option (List A × List A)
  then_pop none run = none
  then_pop (some (x, deq)) run = elim (run deq) [
    | none ↦ none
    | some (xs, deq') ↦ some (x ∷ xs, deq')
  ]

  -- So many items taken from the front.
  abbrev pub drain : ℕ → List A → Option (List A × List A)
  drain zero deq = some ([], deq)
  drain (suc n) deq = then_pop (pop_front deq) (drain n)

  drain-append : (xs ys : List A) → drain (length xs) (xs ++ ys) ≡ some (xs, ys)
  unfolding pop_front
  drain-append [] ys = refl
  drain-append (x ∷ xs) ys = rw (drain-append xs ys)

  -- Of a queue onto which items were pushed at the back, as many items as it had come out first, in
  -- their order, and the pushed ones are left, in theirs.
  pub drain-push_many : (deq xs : List A) → drain (count deq) (push_many deq xs) ≡ some (deq, xs)
  unfolding count
  drain-push_many deq xs = ap (drain (length deq)) (push_many-append deq xs) ∙ drain-append deq xs

  -- What was pushed at the back last is the back, and is popped there first.
  pub pop_back-push_back :
      (deq : List A) (item : A)
      → (back (push_back deq item) ≡ some item) × (pop_back (push_back deq item) ≡ some (item, deq))
  unfolding push_back pop_back back
  pop_back-push_back [] item = (refl, refl)
  pop_back-push_back (x ∷ []) item = (refl, refl)
  pop_back-push_back (x ∷ y ∷ deq) item =
      let (a, b) = pop_back-push_back (y ∷ deq) item in (a, rw b)
