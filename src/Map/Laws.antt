-- ===== src/Map/Laws.antt =====
-- The laws of the ordered map.
use Prim.Native.Nat.{Ordering}
use stardelt_nova.Prelude.{
  String, ◌≡◌, refl, none, some, List, [], ◌∷◌, if◌then◌else◌, str_eq, eq_iff, arith, All,
}
use stardelt_nova.Text.Order.{cmp, cmp_refl, eq_of_cmp, IsBefore, IsBefore-trans, IsBefore-of_gt}
use stardelt_nova.Map.Defs.{Map, get, contains_key, insert, extend, keys, IsAscending}

data View (o : Ordering) : Type 0 where
  less : o ≡ Ordering.lt → View o
  same : o ≡ Ordering.eq → View o
  more : o ≡ Ordering.gt → View o

view : (o : Ordering) → View o
view Ordering.lt = less refl
view Ordering.eq = same refl
view Ordering.gt = more refl

All-IsBefore :
    (j k : String) (ks : List String)
    → IsBefore j k
    → All (λ i. IsBefore k i) ks
    → All (λ i. IsBefore j i) ks
All-IsBefore j k [] h _ = tt
All-IsBefore j k (i ∷ ks) h (p, ps) = (IsBefore-trans j k i h p, All-IsBefore j k ks h ps)

module _ {ℓ} {V : Type ℓ} where
  pub get-insert :
      (k j : String) (v : V) (m : Map V)
      → get j (insert k v m) ≡ (if str_eq k j then some v else get j m)
  unfolding get insert
  get-insert k j v [] = refl
  get-insert k j v ((i, w) ∷ m) = elim (view (cmp k i)) [
    | less h ↦ rw h
    | same h ↦ rw h (rw (← eq_of_cmp k i h) (ground (arith, eq_iff k j)))
    | more h ↦
        rw h (ground (arith, eq_iff k j, eq_iff i j, eq_iff k i, h, cmp_refl k, get-insert k j v m))
  ]

  get_of_IsBefore : (k : String) (m : Map V) → All (λ j. IsBefore k j) (keys m) → get k m ≡ none
  unfolding get
  get_of_IsBefore k [] _ = refl
  get_of_IsBefore k ((j, v) ∷ m) (h, hs) =
      ground (arith, eq_iff j k, cmp_refl k, get_of_IsBefore k m hs)

  -- The patch wins, and what it does not name stays.
  pub get-extend :
      (j : String) (m patch : Map V)
      → IsAscending (keys patch)
      → get j (extend m patch) ≡ (if contains_key j patch then get j patch else get j m)
  unfolding get contains_key extend
  get-extend j m [] _ = refl
  get-extend j m ((k, v) ∷ patch) (first, rest) = ground (
    arith,
    eq_iff k j,
    get_of_IsBefore k patch first,
    get-extend j (insert k v m) patch rest,
    get-insert k j v m,
  )

  All-insert :
      (k j : String) (v : V) (m : Map V)
      → IsBefore j k
      → All (λ i. IsBefore j i) (keys m)
      → All (λ i. IsBefore j i) (keys (insert k v m))
  unfolding insert
  All-insert k j v [] h _ = (h, tt)
  All-insert k j v ((i, w) ∷ m) h (p, ps) = elim (view (cmp k i)) [
    | less e ↦ rw e (h, (p, ps))
    | same e ↦ rw e (h, ps)
    | more e ↦ rw e (p, All-insert k j v m h ps)
  ]

  -- Insertion keeps the order of the keys.
  pub insert-IsAscending :
      (k : String) (v : V) (m : Map V) → IsAscending (keys m) → IsAscending (keys (insert k v m))
  unfolding insert
  insert-IsAscending k v [] _ = (tt, tt)
  insert-IsAscending k v ((i, w) ∷ m) (first, rest) = elim (view (cmp k i)) [
    | less e ↦ rw e ((e, All-IsBefore k i (keys m) e first), (first, rest))
    | same e ↦ rw e (rw (eq_of_cmp k i e) first, rest)
    | more e ↦ rw e (All-insert k i v m (IsBefore-of_gt k i e) first, insert-IsAscending k v m rest)
  ]

  pub extend-IsAscending :
      (m patch : Map V) → IsAscending (keys m) → IsAscending (keys (extend m patch))
  unfolding extend
  extend-IsAscending m [] h = h
  extend-IsAscending m ((k, v) ∷ patch) h =
      extend-IsAscending (insert k v m) patch (insert-IsAscending k v m h)
