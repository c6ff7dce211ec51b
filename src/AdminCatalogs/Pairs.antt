-- ===== src/AdminCatalogs/Pairs.antt =====
-- Pairs of a group and a verb: whether a list has one, and Rust's `BTreeSet<(String, String)>` as a
-- list in rising order.
use Prim.Native.Nat.{Ordering}
use stardelt_nova.Prelude.{
  ℕ, suc, ◌+◌, String, ◌≡◌, refl, ap, ◌∙◌, ◌↔◌, Bool, true, false, not, ◌&&◌, ◌||◌, List, [], ◌∷◌,
  map, length, str_eq, eq_iff, if◌then◌else◌, arith, Bool-cases, inl, inr,
}
use stardelt_nova.Text.Order.{cmp, eq_of_cmp}
use stardelt_nova.AdminCatalogs.Types.{CatalogGrant}

abbrev pub Pair : Type 0
Pair = String × String

abbrev pub pair_of : CatalogGrant → Pair
pair_of grant = (grant.group, grant.verb)

unfoldable pub pair_eq : Pair → Pair → Bool
pair_eq (a, b) (c, d) = str_eq a c && str_eq b d

unfoldable pub contains : List Pair → Pair → Bool
unfolding pair_eq
contains [] p = false
contains (q ∷ qs) p = pair_eq q p || contains qs p

abbrev then_with : Ordering → Ordering → Ordering
then_with Ordering.eq o = o
then_with Ordering.lt o = Ordering.lt
then_with Ordering.gt o = Ordering.gt

-- `Ord::cmp` of pairs.
unfoldable pub pair_cmp : Pair → Pair → Ordering
unfolding cmp
pair_cmp (a, b) (c, d) = then_with (cmp a c) (cmp b d)

abbrev pub place : Ordering → Pair → Pair → List Pair → List Pair → List Pair
place Ordering.lt new first rest later = new ∷ first ∷ rest
place Ordering.eq new first rest later = first ∷ rest
place Ordering.gt new first rest later = first ∷ later

-- `set.insert(p)`.
unfoldable pub insert : Pair → List Pair → List Pair
unfolding pair_cmp
insert p [] = p ∷ []
insert p (q ∷ qs) = place (pair_cmp p q) p q qs (insert p qs)

-- `grants.iter().map(..).collect()`.
unfoldable pub pairs_of : List CatalogGrant → List Pair
unfolding insert
pairs_of [] = []
pairs_of (g ∷ gs) = insert (pair_of g) (pairs_of gs)

-- `xs.difference(ys)`.
unfoldable pub difference : List Pair → List Pair → List Pair
unfolding contains
difference [] ys = []
difference (x ∷ xs) ys = let rest = difference xs ys in if contains ys x then rest else x ∷ rest

-- `xs.intersection(ys).count()`.
unfoldable pub common : List Pair → List Pair → ℕ
unfolding contains
common [] ys = 0
common (x ∷ xs) ys = let rest = common xs ys in if contains ys x then suc rest else rest

pub pair_eq_iff : (p q : Pair) → (pair_eq p q ≡ true) ↔ (p ≡ q)
unfolding pair_eq
pair_eq_iff (a, b) (c, d) =
    let (to, from) = eq_iff a c in
    let (too, fro) = eq_iff b d in
    (
      λ h. cc (to (ground arith), too (ground arith)),
      λ e. both (from (ap (λ p. p.0) e)) (fro (ap (λ p. p.1) e)),
    )
  where
    both : str_eq a c ≡ true → str_eq b d ≡ true → (str_eq a c && str_eq b d) ≡ true
    both h k = ground arith

data View (o : Ordering) : Type 0 where
  less : o ≡ Ordering.lt → View o
  same : o ≡ Ordering.eq → View o
  more : o ≡ Ordering.gt → View o

order : (o : Ordering) → View o
order Ordering.lt = less refl
order Ordering.eq = same refl
order Ordering.gt = more refl

eq_of_pair_cmp : (p q : Pair) → pair_cmp p q ≡ Ordering.eq → p ≡ q
unfolding pair_cmp
eq_of_pair_cmp (a, b) (c, d) h =
    cc (eq_of_cmp a c (first (cmp a c) (cmp b d) h), eq_of_cmp b d (second (cmp a c) (cmp b d) h))
  where
    first : (o u : Ordering) → then_with o u ≡ Ordering.eq → o ≡ Ordering.eq
    first Ordering.eq u h = refl
    first Ordering.lt u h = cc
    first Ordering.gt u h = cc

    second : (o u : Ordering) → then_with o u ≡ Ordering.eq → u ≡ Ordering.eq
    second Ordering.eq u h = h
    second Ordering.lt u h = cc
    second Ordering.gt u h = cc

twice : (a b : Bool) → (a || b) ≡ (a || (a || b))
twice a b = ground arith

contains-insert :
    (p q : Pair) (xs : List Pair) → contains (insert p xs) q ≡ (pair_eq p q || contains xs q)
unfolding insert contains
contains-insert p q [] = refl
contains-insert p q (x ∷ xs) = elim (order (pair_cmp p x)) [
  | less e ↦ rw e refl
  | same e ↦ rw (e, eq_of_pair_cmp p x e) (twice (pair_eq x q) (contains xs q))
  | more e ↦ rw e (ground (arith, contains-insert p q xs))
]

pub contains-pairs_of :
    (q : Pair) (gs : List CatalogGrant) → contains (pairs_of gs) q ≡ contains (map pair_of gs) q
unfolding pairs_of contains
contains-pairs_of q [] = refl
contains-pairs_of q (g ∷ gs) =
    contains-insert (pair_of g) q (pairs_of gs)
    ∙ ap (λ b. pair_eq (pair_of g) q || b) (contains-pairs_of q gs)

pub contains-difference :
    (q : Pair) (xs ys : List Pair)
    → contains (difference xs ys) q ≡ (contains xs q && not (contains ys q))
unfolding difference contains
contains-difference q [] ys = refl
contains-difference q (x ∷ xs) ys = elim (Bool-cases (pair_eq x q)) [
  | inl level ↦
      let alike = ap (contains ys) ((pair_eq_iff x q).0 level) in
      ground (arith, level, alike, contains-difference q xs ys)
  | inr apart ↦ ground (arith, apart, contains-difference q xs ys)
]

pub length-difference : (xs ys : List Pair) → length (difference xs ys) + common xs ys ≡ length xs
unfolding difference common
length-difference [] ys = omega arith
length-difference (x ∷ xs) ys = ground (arith, length-difference xs ys)
