-- ===== src/Asio/Chat/Lines.antt =====
-- The lines that a chat client shows.
use server_programming.Base.{
  ℕ, zero, suc, ◌+◌, ◌-◌, ◌≤◌, ◌≡◌, refl, sym, ap, ◌∙◌, inl, inr, Bool-cases, List, [], ◌∷◌, ◌++◌,
  append_assoc, append-nil, arith, length, drop, length-append, ltb,
}
use server_programming.Asio.Chat.Client.{CustomClient, append_msg}

drop-nil : (n : ℕ) → ◌≡◌ {A = List (List ℕ)} (drop n []) []
drop-nil zero = refl
drop-nil (suc n) = refl

drop-append : (k : ℕ) (l r : List (List ℕ)) → k ≤ length l → drop k l ++ r ≡ drop k (l ++ r)
drop-append zero l r h = refl
drop-append (suc k) [] r h = absurd (omega arith)
drop-append (suc k) (x ∷ l) r h = drop-append k l r (omega arith)

drop-drop : (a b n : ℕ) (l : List (List ℕ)) → n ≡ b + a → drop a (drop b l) ≡ drop n l
drop-drop a zero n l e = ap (λ (k : ℕ). drop k l) (omega arith)
drop-drop a (suc b) n [] e = drop-nil a ∙ sym (drop-nil n)
drop-drop a (suc b) zero (x ∷ l) e = absurd (omega arith)
drop-drop a (suc b) (suc n) (x ∷ l) e = drop-drop a b n l (omega arith)

length-drop : (n : ℕ) (l : List (List ℕ)) → length (drop n l) ≡ length l - n
length-drop zero l = omega arith
length-drop (suc n) [] = omega arith
length-drop (suc n) (x ∷ l) = omega (arith, length-drop n l)

-- The ten newest lines, or all if there are not as many
unfoldable pub last_ten : List (List ℕ) → List (List ℕ)
last_ten l = drop (length l - 10) l

last_ten-append : (l r : List (List ℕ)) → last_ten (last_ten l ++ r) ≡ last_ten (l ++ r)
unfolding last_ten
last_ten-append l r =
    ap last_ten (drop-append (length l - 10) l r (omega arith))
    ∙ drop-drop _ (length l - 10) (length (l ++ r) - 10) (l ++ r)
        (omega (arith, length-drop (length l - 10) (l ++ r), length-append l r))

length-last_ten : (l : List (List ℕ)) → length (last_ten l) ≤ 10
unfolding last_ten
length-last_ten l = omega (arith, length-drop (length l - 10) l)

short_last_ten : (l : List (List ℕ)) → length l ≤ 10 → last_ten l ≡ l
unfolding last_ten
short_last_ten l h = ap (λ (k : ℕ). drop k l) {y = 0} (omega arith)

print_que-append_msg :
    (c : CustomClient) (s : List ℕ)
    → length c.print_que ≤ 10
    → (append_msg c s).print_que ≡ last_ten (c.print_que ++ (s ∷ []))
unfolding append_msg last_ten
print_que-append_msg c s h =
    let all = c.print_que ++ (s ∷ []) in
    let n : length all ≡ length c.print_que + 1 =
      omega (arith, length-append c.print_que (s ∷ [])) in
    elim (Bool-cases (ltb 10 (length all))) [
      | inl more ↦ rw more (ap (λ (k : ℕ). drop k all) {x = 1} (ground arith))
      | inr few ↦ rw few (ap (λ (k : ℕ). drop k all) {x = 0} (ground arith))
    ]

-- The messages one after the other
abbrev pub append_all : CustomClient → List (List ℕ) → CustomClient
append_all c [] = c
append_all c (s ∷ ss) = append_all (append_msg c s) ss

-- A client with ten lines at most who gets any messages shows the ten newest of all lines, in their
-- order, or all lines if there are not more than ten; it never has more than ten.
pub append_all-last_ten :
    (c : CustomClient) (ss : List (List ℕ))
    → length c.print_que ≤ 10
    → ((append_all c ss).print_que ≡ last_ten (c.print_que ++ ss))
      × (length (append_all c ss).print_que ≤ 10)
append_all-last_ten c [] h = (rw append-nil (sym (short_last_ten c.print_que h)), h)
append_all-last_ten c (s ∷ ss) h =
    let e = print_que-append_msg c s h in
    let (rest, few) =
      append_all-last_ten (append_msg c s) ss (rw e (length-last_ten (c.print_que ++ (s ∷ [])))) in
    (
      rest
          ∙ ap (λ (l : List (List ℕ)). last_ten (l ++ ss)) e
          ∙ last_ten-append (c.print_que ++ (s ∷ [])) ss
          ∙ ap last_ten (append_assoc c.print_que (s ∷ []) ss),
      few,
    )
