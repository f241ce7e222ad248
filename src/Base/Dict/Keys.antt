-- ===== src/Base/Dict/Keys.antt =====
-- The keys of a map.
use server_programming.Base.{
  ℕ, ◌≡◌, refl, ◌∙◌, inl, inr, Bool, true, false, not, ◌&&◌, ◌||◌, Bool-cases, none, some,
  Option-cases, List, [], ◌∷◌, arith, ◌==◌, ==_iff,
}
use server_programming.Base.Dict.{lookup, assign, remove, lookup-assign, lookup-remove}

module _ {ℓ} {V : Type ℓ} where
  -- `m.find(k) != m.end()`
  unfoldable pub has : ℕ → List (ℕ × V) → Bool
  unfolding lookup
  has k m = elim (lookup k m) [ none ↦ false | some v ↦ true ]

  pub has-cons : (k j : ℕ) (v : V) (m : List (ℕ × V)) → has j ((k, v) ∷ m) ≡ (j == k || has j m)
  unfolding has lookup
  has-cons k j v m = ground arith

  pub has-assign : (k j : ℕ) (v : V) (m : List (ℕ × V)) → has j (assign k v m) ≡ (j == k || has j m)
  unfolding has
  has-assign k j v m = ground (arith, lookup-assign k j v m)

  pub has-remove : (k j : ℕ) (m : List (ℕ × V)) → has j (remove k m) ≡ (not (j == k) && has j m)
  unfolding has
  has-remove k j m = ground (arith, lookup-remove k j m)

  pub has_found : (k : ℕ) (m : List (ℕ × V)) {v : V} → lookup k m ≡ some v → has k m ≡ true
  unfolding has
  has_found k m found = ground (arith, found)

  pub has_absent : (k : ℕ) (m : List (ℕ × V)) → lookup k m ≡ none → has k m ≡ false
  unfolding has
  has_absent k m absent = ground (arith, absent)

  pub lookup_absent : (k : ℕ) (m : List (ℕ × V)) → has k m ≡ false → lookup k m ≡ none
  unfolding has
  lookup_absent k m absent = elim (Option-cases (lookup k m)) [
    | inl e ↦ e
    | inr (v, found) ↦ absurd (ground (arith, found))
  ]

  -- A key that is there adds nothing.
  pub known_self : (k j : ℕ) (m : List (ℕ × V)) → has k m ≡ true → (j == k || has j m) ≡ has j m
  known_self k j m here = elim (Bool-cases (j == k)) [
    | inl self ↦ ground (arith, (==_iff j k).0 self)
    | inr other ↦ rw other refl
  ]

  pub has_self :
      (k j : ℕ) (m : List (ℕ × V)) {v : V} → lookup k m ≡ some v → (j == k || has j m) ≡ has j m
  has_self k j m found = known_self k j m (has_found k m found)

  pub apart :
      (k j : ℕ) (m : List (ℕ × V)) {v : V}
      → lookup k m ≡ some v
      → has j m ≡ false
      → (j == k) ≡ false
  apart k j m found gone = ground (arith, has_self k j m found)

  -- The keys of a map that was made by `assign` and `remove` differ.
  abbrev pub Distinct : List (ℕ × V) → Type 0
  Distinct [] = Unit {0}
  Distinct ((k, v) ∷ m) = (has k m ≡ false) × Distinct m

  pub assign-Distinct : (k : ℕ) (v : V) (m : List (ℕ × V)) → Distinct m → Distinct (assign k v m)
  unfolding assign has lookup
  assign-Distinct k v [] d = (refl, tt)
  assign-Distinct k v ((j, w) ∷ m) d = elim (Bool-cases (k == j)) [
    | inl same ↦ rw same (rw ((==_iff k j).0 same) (d.0), d.1)
    | inr other ↦ rw other (has-assign k j v m ∙ ground (arith, d.0), assign-Distinct k v m d.1)
  ]

  pub remove-Distinct : (k : ℕ) (m : List (ℕ × V)) → Distinct m → Distinct (remove k m)
  unfolding remove
  remove-Distinct k [] d = tt
  remove-Distinct k ((j, w) ∷ m) d = elim (Bool-cases (k == j)) [
    | inl same ↦ rw same (remove-Distinct k m d.1)
    | inr other ↦ rw other (has-remove k j m ∙ ground (arith, d.0), remove-Distinct k m d.1)
  ]

pub has-nil {ℓ} : (V : Type ℓ) (k : ℕ) → has {V = V} k [] ≡ false
unfolding has lookup
has-nil V k = refl
