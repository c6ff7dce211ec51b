-- ===== src/NumberSet.antt =====
-- Rust's `BTreeSet<u32>`: numbers in rising order.
use stardelt_nova.Prelude.{
  Bool-cases, inl, inr, ℕ, ◌<◌, ◌≡◌, refl, Bool, false, List, [], ◌∷◌, ◌||◌, arith, if◌then◌else◌,
  ltb, ◌==◌, All,
}

-- `set.insert(v)`.
unfoldable pub insert : ℕ → List ℕ → List ℕ
insert v [] = v ∷ []
insert v (x ∷ xs) =
    let later = insert v xs in if v == x then x ∷ xs else if ltb v x then v ∷ x ∷ xs else x ∷ later

-- `set.remove(&v)`, without its answer.
unfoldable pub remove : ℕ → List ℕ → List ℕ
remove v [] = []
remove v (x ∷ xs) = let later = remove v xs in if v == x then xs else x ∷ later

-- `set.contains(&v)`.
unfoldable pub contains : List ℕ → ℕ → Bool
contains [] v = false
contains (x ∷ xs) v = x == v || contains xs v

-- Every number is greater than the one before it.
abbrev pub IsRising : List ℕ → Type 0
IsRising [] = Unit
IsRising (x ∷ xs) = All (λ y. x < y) xs × IsRising xs

pub All-insert : (P : ℕ → Type 0) (v : ℕ) (xs : List ℕ) → P v → All P xs → All P (insert v xs)
unfolding insert
All-insert P v [] p _ = (p, tt)
All-insert P v (x ∷ xs) p (q, qs) = elim (Bool-cases (v == x)) [
  | inl same ↦ rw same (q, qs)
  | inr differs ↦ rw differs (elim (Bool-cases (ltb v x)) [
    | inl less ↦ rw less (p, (q, qs))
    | inr more ↦ rw more (q, All-insert P v xs p qs)
  ])
]

pub All-remove : (P : ℕ → Type 0) (v : ℕ) (xs : List ℕ) → All P xs → All P (remove v xs)
unfolding remove
All-remove P v [] _ = tt
All-remove P v (x ∷ xs) (q, qs) = elim (Bool-cases (v == x)) [
  | inl same ↦ rw same qs
  | inr differs ↦ rw differs (q, All-remove P v xs qs)
]

All-below : (a b : ℕ) (xs : List ℕ) → a < b → All (λ y. b < y) xs → All (λ y. a < y) xs
All-below a b [] h _ = tt
All-below a b (x ∷ xs) h (p, ps) = (omega arith, All-below a b xs h ps)

pub insert-IsRising : (v : ℕ) (xs : List ℕ) → IsRising xs → IsRising (insert v xs)
unfolding insert
insert-IsRising v [] _ = (tt, tt)
insert-IsRising v (x ∷ xs) (first, rest) = elim (Bool-cases (v == x)) [
  | inl same ↦ rw same (first, rest)
  | inr differs ↦ rw differs (elim (Bool-cases (ltb v x)) [
    | inl less ↦
        let lt : v < x = ground arith in rw less ((lt, All-below v x xs lt first), (first, rest))
    | inr more ↦
        rw more (All-insert (λ y. x < y) v xs (ground arith) first, insert-IsRising v xs rest)
  ])
]

pub contains-insert : (v k : ℕ) (xs : List ℕ) → contains (insert v xs) k ≡ (v == k || contains xs k)
unfolding contains insert
contains-insert v k [] = refl
contains-insert v k (x ∷ xs) = ground (arith, contains-insert v k xs)

pub remove-IsRising : (v : ℕ) (xs : List ℕ) → IsRising xs → IsRising (remove v xs)
unfolding remove
remove-IsRising v [] _ = tt
remove-IsRising v (x ∷ xs) (first, rest) = elim (Bool-cases (v == x)) [
  | inl same ↦ rw same rest
  | inr differs ↦ rw differs (All-remove (λ y. x < y) v xs first, remove-IsRising v xs rest)
]
