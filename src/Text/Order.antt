-- ===== src/Text/Order.antt =====
-- The order of texts, by which a `BTreeMap` keeps its keys. The order of UTF-8 bytes is that of
-- code points.
use Prim.Native.Nat.{compare, Ordering}
use text.Mathlib.TextEquality.{codes_equal}
use stardelt_nova.Prelude.{code, String, ◌≡◌, refl, arith}

then_with : Ordering → Ordering → Ordering
then_with Ordering.eq o = o
then_with Ordering.lt o = Ordering.lt
then_with Ordering.gt o = Ordering.gt

-- `Ord::cmp` for `String`.
unfoldable pub cmp : String → String → Ordering
unfolding then_with
cmp String.[] String.[] = Ordering.eq
cmp String.[] (String.◌∷◌ d t) = Ordering.lt
cmp (String.◌∷◌ c s) String.[] = Ordering.gt
cmp (String.◌∷◌ c s) (String.◌∷◌ d t) = then_with (compare (code c) (code d)) (cmp s t)

-- `s` stands before `t`.
abbrev pub IsBefore : String → String → Type 0
IsBefore s t = cmp s t ≡ Ordering.lt

pub cmp_refl : (s : String) → cmp s s ≡ Ordering.eq
unfolding cmp
cmp_refl String.[] = refl
cmp_refl (String.◌∷◌ c s) = ground (arith, cmp_refl s)

pub eq_of_cmp : (s t : String) → cmp s t ≡ Ordering.eq → s ≡ t
unfolding cmp
eq_of_cmp String.[] String.[] h = refl
eq_of_cmp String.[] (String.◌∷◌ d t) h = cc
eq_of_cmp (String.◌∷◌ c s) String.[] h = cc
eq_of_cmp (String.◌∷◌ c s) (String.◌∷◌ d t) h = ground (arith, eq_of_cmp s t, codes_equal c d)

pub IsBefore-trans : (s t u : String) → IsBefore s t → IsBefore t u → IsBefore s u
unfolding cmp
IsBefore-trans String.[] String.[] String.[] h k = h
IsBefore-trans String.[] (String.◌∷◌ d t) String.[] h k = cc
IsBefore-trans String.[] t (String.◌∷◌ e u) h k = refl
IsBefore-trans (String.◌∷◌ c s) String.[] u h k = cc
IsBefore-trans (String.◌∷◌ c s) (String.◌∷◌ d t) String.[] h k = cc
IsBefore-trans (String.◌∷◌ c s) (String.◌∷◌ d t) (String.◌∷◌ e u) h k =
    ground (arith, IsBefore-trans s t u)

pub IsBefore-of_gt : (s t : String) → cmp s t ≡ Ordering.gt → IsBefore t s
unfolding cmp
IsBefore-of_gt String.[] String.[] h = cc
IsBefore-of_gt String.[] (String.◌∷◌ d t) h = cc
IsBefore-of_gt (String.◌∷◌ c s) String.[] h = refl
IsBefore-of_gt (String.◌∷◌ c s) (String.◌∷◌ d t) h = ground (arith, IsBefore-of_gt s t)
