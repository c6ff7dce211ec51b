-- ===== src/Limiter/Windows.antt =====
-- The limit over a whole history of calls: a window never holds more grants than the limit.
use stardelt_nova.Prelude.{
  ℕ, suc, ◌+◌, ◌-◌, ◌≤◌, ◌<◌, ◌≡◌, refl, sym, ◌∙◌, ap, ◌++◌, String, true, List, [], ◌∷◌, leb, ltb,
  ◌&&◌, length, length-append, str_eq, eq_iff, arith, All, All-append, Bool-cases, inl, inr,
  append_assoc, append-nil, if◌then◌else◌,
}
use stardelt_nova.Limiter.{Limiter, no_slots, store, pop_expired, take_slot}
use stardelt_nova.Limiter.Laws.{
  length-pop_expired, pop_expired-split, take_slot_full, take_slot_room,
}

-- The times at which the calls of `key` were granted, for calls made one after another.
unfoldable pub grants : ℕ → ℕ → Limiter → List (ℕ × String) → String → List ℕ
grants window limit limiter [] key = []
grants window limit limiter ((now, sub) ∷ calls) key =
    let (after, granted) = take_slot window limit limiter now sub in
    let rest = grants window limit after calls key in
    if granted && str_eq sub key then now ∷ rest else rest

-- The clock never goes back between calls.
abbrev pub IsOrdered : ℕ → List (ℕ × String) → Type 0
IsOrdered last [] = Unit
IsOrdered last ((now, sub) ∷ calls) = (last ≤ now) × IsOrdered now calls

-- How many of the times lie in the half-open window that begins at `start`.
abbrev pub count_in : ℕ → ℕ → List ℕ → ℕ
count_in window start [] = 0
count_in window start (t ∷ ts) =
    if leb start t && ltb t (start + window)
    then suc (count_in window start ts)
    else count_in window start ts

module _ (window : ℕ) where
  count_in-append :
      (a : ℕ) (xs ys : List ℕ)
      → count_in window a (xs ++ ys) ≡ count_in window a xs + count_in window a ys
  count_in-append a [] ys = omega arith
  count_in-append a (x ∷ xs) ys = ground (arith, count_in-append a xs ys)

  count_in-le-length : (a : ℕ) (xs : List ℕ) → count_in window a xs ≤ length xs
  count_in-le-length a [] = omega arith
  count_in-le-length a (x ∷ xs) = ground (arith, count_in-le-length a xs)

  count_in_old :
      (a now : ℕ) (old : List ℕ)
      → a ≤ now
      → now < a + window
      → All (λ u. window ≤ now - u) old
      → count_in window a old ≡ 0
  count_in_old a now [] p q h = refl
  count_in_old a now (x ∷ xs) p q (hx, hs) = ground (arith, count_in_old a now xs p q hs)

  All-older :
      (last now : ℕ) (old : List ℕ)
      → last ≤ now
      → All (λ u. window ≤ last - u) old
      → All (λ u. window ≤ now - u) old
  All-older last now [] p _ = tt
  All-older last now (x ∷ xs) p (hx, hs) = (omega arith, All-older last now xs p hs)

  -- `past` are the grants so far: those the queue has dropped, and those it holds.
  record Fits (limit last : ℕ) (past queue : List ℕ) : Type 0 where
    old : List ℕ
    whole : past ≡ old ++ queue
    aged : All (λ u. window ≤ last - u) old
    short : length queue ≤ limit
    sparse : (a : ℕ) → count_in window a past ≤ limit

  module _ (limit : ℕ) where
    Fits-later :
        {last : ℕ} (now : ℕ) {past queue : List ℕ}
        → last ≤ now
        → Fits limit last past queue
        → Fits limit now past queue
    Fits-later {last} now le f = record {
      old = f.old;
      whole = f.whole;
      aged = All-older last now f.old le f.aged;
      short = f.short;
      sparse = f.sparse;
    }

    Fits-pop :
        (now : ℕ) {past queue : List ℕ}
        → Fits limit now past queue
        → Fits limit now past (pop_expired window now queue)
    Fits-pop now {past} {queue} f =
        let (gone, e, h) = pop_expired-split window now queue in
        record {
          old = f.old ++ gone;
          whole = f.whole ∙ ap (λ q. f.old ++ q) e ∙ sym (append_assoc f.old gone _);
          aged = All-append (λ u. window ≤ now - u) f.old gone f.aged h;
          short = omega (arith, length-pop_expired window now queue, f.short);
          sparse = f.sparse;
        }

    sparse-grant :
        (now : ℕ) (past queue : List ℕ)
        → Fits limit now past queue
        → length queue < limit
        → (a : ℕ) → count_in window a (past ++ now ∷ []) ≤ limit
    sparse-grant now past queue f room a = elim (Bool-cases (leb a now && ltb now (a + window))) [
      | inl inside ↦
          let zero_old : count_in window a f.old ≡ 0 =
            count_in_old a now f.old (ground arith) (ground arith) f.aged in
          let one : count_in window a (now ∷ []) ≡ 1 = rw inside in
          omega (
            arith,
            count_in-append a past (now ∷ []),
            count_in-append a f.old queue,
            ap (count_in window a) f.whole,
            count_in-le-length a queue,
          )
      | inr outside ↦
          let none_new : count_in window a (now ∷ []) ≡ 0 = rw outside in
          omega (arith, count_in-append a past (now ∷ []), f.sparse a)
    ]

    Fits-grant :
        (now : ℕ) {past queue : List ℕ}
        → Fits limit now past queue
        → length queue < limit
        → Fits limit now (past ++ now ∷ []) (queue ++ now ∷ [])
    Fits-grant now {past} {queue} f room = record {
      old = f.old;
      whole = ap (λ p. p ++ now ∷ []) f.whole ∙ append_assoc f.old queue (now ∷ []);
      aged = f.aged;
      short = omega (arith, length-append queue (now ∷ []));
      sparse = sparse-grant now past queue f room;
    }

    -- The queue of `key` after a call that leaves `slots` under `sub`.
    Fits-store :
        (limiter : Limiter) (sub key : String) (slots : List ℕ) {now : ℕ} {past : List ℕ}
        → (str_eq sub key ≡ true → Fits limit now past slots)
        → Fits limit now past (limiter key)
        → Fits limit now past (store limiter sub slots key)
    Fits-store limiter sub key slots here other = elim (Bool-cases (str_eq sub key)) [
      | inl same ↦ rw same (here same)
      | inr differs ↦ rw differs other
    ]

    Fits-popped :
        (limiter : Limiter) (now : ℕ) (sub key : String) {past : List ℕ}
        → Fits limit now past (limiter key)
        → str_eq sub key ≡ true
        → Fits limit now past (pop_expired window now (limiter sub))
    Fits-popped limiter now sub key f same = rw ((eq_iff sub key).0 same) (Fits-pop now f)

    grants-sparse :
        (calls : List (ℕ × String)) (limiter : Limiter) (key : String) (last : ℕ) (past : List ℕ)
        → IsOrdered last calls
        → Fits limit last past (limiter key)
        → (a : ℕ) → count_in window a (past ++ grants window limit limiter calls key) ≤ limit
    unfolding grants
    grants-sparse [] limiter key last past _ f a = rw append-nil (f.sparse a)
    grants-sparse ((now, sub) ∷ calls) limiter key last past (le, ordered) f a =
        let f' = Fits-later now le f in
        let popped = Fits-popped limiter now sub key f' in
        elim (Bool-cases (leb limit (length (pop_expired window now (limiter sub))))) [
          | inl full ↦ rw (take_slot_full window limit limiter now sub full) (
              grants-sparse calls _ key now past ordered
                (Fits-store limiter sub key (pop_expired window now (limiter sub)) popped f') a)
          | inr room ↦
              rw (take_slot_room window limit limiter now sub room)
                (elim (Bool-cases (str_eq sub key)) [
                  | inl same ↦
                      rw (same, ← append_assoc past (now ∷ []))
                        (grants-sparse calls _ key now (past ++ now ∷ []) ordered
                          (rw same (Fits-grant now (popped same) (ground arith))) a)
                  | inr differs ↦
                      rw differs (grants-sparse calls _ key now past ordered (rw differs f') a)
                ])
        ]

-- Whatever the calls, in the order of a clock that does not go back, no window of the given
-- length holds more grants of one caller than the limit.
pub count_in-grants :
    (window limit : ℕ) (calls : List (ℕ × String)) (key : String) (start : ℕ)
    → IsOrdered 0 calls
    → count_in window start (grants window limit no_slots calls key) ≤ limit
count_in-grants window limit calls key start ordered =
    grants-sparse window limit calls no_slots key 0 [] ordered
      (record { old = []; whole = refl; aged = tt; short = omega arith; sparse = λ a. omega arith })
      start
