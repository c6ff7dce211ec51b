-- ===== src/Limiter/Laws.antt =====
-- One call of the limiter: what it answers, and what it keeps.
use stardelt_nova.Prelude.{
  ◌∙◌, leb→le, suc, ltb, All-append, if◌then◌else◌, ◌↔◌, ℕ, ◌-◌, ◌≤◌, ◌<◌, ◌≡◌, refl, ◌≢◌, ◌++◌,
  String, true, false, List, [], ◌∷◌, leb, length, length-append, str_eq, eq_iff, arith, All,
  Bool-cases, inl, inr,
}
use stardelt_nova.Limiter.{Limiter, pop_expired, take_slot, store}

-- The times of a queue rise, and none is later than the clock.
abbrev pub Rises : ℕ → List ℕ → Type 0
Rises now [] = Unit
Rises now (t ∷ ts) = (t ≤ now) × All (λ u. t ≤ u) ts × Rises now ts

module _ (window now : ℕ) where
  pub length-pop_expired : (slots : List ℕ) → length (pop_expired window now slots) ≤ length slots
  unfolding pop_expired
  length-pop_expired [] = omega arith
  length-pop_expired (t ∷ ts) = ground (arith, length-pop_expired ts)

  All-fresh :
      (t : ℕ) (ts : List ℕ)
      → now - t < window
      → All (λ u. t ≤ u) ts
      → All (λ u. now - u < window) ts
  All-fresh t [] h _ = tt
  All-fresh t (u ∷ us) h (le, more) = (omega arith, All-fresh t us h more)

  -- What is kept is younger than the window.
  pub pop_expired-All_fresh :
      (slots : List ℕ)
      → Rises now slots
      → All (λ u. now - u < window) (pop_expired window now slots)
  unfolding pop_expired
  pop_expired-All_fresh [] _ = tt
  pop_expired-All_fresh (t ∷ ts) (here, above, later) = elim (Bool-cases (leb window (now - t))) [
    | inl old ↦ rw old (pop_expired-All_fresh ts later)
    | inr fresh ↦ rw fresh (ground arith, All-fresh t ts (ground arith) above)
  ]

  -- What is dropped stands in front, and is as old as the window or older.
  pub pop_expired-split :
      (slots : List ℕ)
      → (old : List ℕ) × (slots ≡ old ++ pop_expired window now slots)
        × All (λ u. window ≤ now - u) old
  unfolding pop_expired
  pop_expired-split [] = ([], refl, tt)
  pop_expired-split (t ∷ ts) = elim (Bool-cases (leb window (now - t))) [
    | inl gone ↦
        let (old, e, h) = pop_expired-split ts in (t ∷ old, rw gone (cc), (ground arith, h))
    | inr fresh ↦ ([], rw fresh, tt)
  ]

  -- How many of the times are younger than the window.
  abbrev pub count_fresh : List ℕ → ℕ
  count_fresh [] = 0
  count_fresh (t ∷ ts) = if ltb (now - t) window then suc (count_fresh ts) else count_fresh ts

  count_fresh-All : (ts : List ℕ) → All (λ u. now - u < window) ts → count_fresh ts ≡ length ts
  count_fresh-All [] _ = refl
  count_fresh-All (t ∷ ts) (h, hs) = ground (arith, count_fresh-All ts hs)

  length-pop_expired_fresh :
      (slots : List ℕ) → Rises now slots → length (pop_expired window now slots) ≡ count_fresh slots
  unfolding pop_expired
  length-pop_expired_fresh [] _ = refl
  length-pop_expired_fresh (t ∷ ts) (here, above, later) =
      elim (Bool-cases (leb window (now - t))) [
        | inl old ↦ rw old (ground (arith, length-pop_expired_fresh ts later))
        | inr fresh ↦
            let hs = All-fresh t ts (ground arith) above in
            rw fresh (ground (arith, count_fresh-All ts hs))
      ]

  Rises-later : (last : ℕ) (ts : List ℕ) → last ≤ now → Rises last ts → Rises now ts
  Rises-later last [] le _ = tt
  Rises-later last (t ∷ ts) le (h, above, later) =
      (omega arith, above, Rises-later last ts le later)

  Rises-pop : (ts : List ℕ) → Rises now ts → Rises now (pop_expired window now ts)
  unfolding pop_expired
  Rises-pop [] _ = tt
  Rises-pop (t ∷ ts) (h, above, later) = elim (Bool-cases (leb window (now - t))) [
    | inl old ↦ rw old (Rises-pop ts later)
    | inr fresh ↦ rw fresh (h, above, later)
  ]

  Rises-push : (ts : List ℕ) → Rises now ts → Rises now (ts ++ now ∷ [])
  Rises-push [] _ = (omega arith, tt, tt)
  Rises-push (t ∷ ts) (h, above, later) =
      (h, All-append (λ u. t ≤ u) ts (now ∷ []) above (h, tt), Rises-push ts later)

module _ (window limit : ℕ) (limiter : Limiter) (now : ℕ) (sub : String) where
  pub take_slot_full :
      leb limit (length (pop_expired window now (limiter sub))) ≡ true
      → take_slot window limit limiter now sub
        ≡ (store limiter sub (pop_expired window now (limiter sub)), false)
  unfolding take_slot
  take_slot_full h = rw h

  pub take_slot_room :
      leb limit (length (pop_expired window now (limiter sub))) ≡ false
      → take_slot window limit limiter now sub
        ≡ (store limiter sub (pop_expired window now (limiter sub) ++ now ∷ []), true)
  unfolding take_slot
  take_slot_room h = rw h

  store-Rises :
      (slots : List ℕ)
      → Rises now slots
      → ((key : String) → Rises now (limiter key))
      → (key : String) → Rises now (store limiter sub slots key)
  store-Rises slots h rises key = elim (Bool-cases (str_eq sub key)) [
    | inl same ↦ rw same h
    | inr differs ↦ rw differs (rises key)
  ]

  store_other :
      (slots : List ℕ) (key : String) → sub ≢ key → store limiter sub slots key ≡ limiter key
  store_other slots key h = elim (Bool-cases (str_eq sub key)) [
    | inl same ↦ absurd (h ((eq_iff sub key).0 same))
    | inr differs ↦ rw differs
  ]

  store_self : (slots : List ℕ) → store limiter sub slots sub ≡ slots
  store_self slots = rw ((eq_iff sub sub).1 refl)

module _ (window now : ℕ) (slots : List ℕ) (rises : Rises now slots) where
  count_fresh-pop :
      count_fresh window now (pop_expired window now slots) ≡ count_fresh window now slots
  count_fresh-pop =
      count_fresh-All window now _ (pop_expired-All_fresh window now slots rises)
      ∙ length-pop_expired_fresh window now slots rises

  count_fresh-push :
      0 < window
      → count_fresh window now (pop_expired window now slots ++ now ∷ [])
        ≡ suc (count_fresh window now slots)
  count_fresh-push pos =
      let fresh = pop_expired-All_fresh window now slots rises in
      let whole =
        All-append (λ u. now - u < window) (pop_expired window now slots) (now ∷ []) fresh
          (omega arith, tt) in
      omega (
        arith,
        count_fresh-All window now _ whole,
        length-pop_expired_fresh window now slots rises,
        length-append (pop_expired window now slots) (now ∷ []),
      )

-- Exactly when fewer than `limit` of the caller's slots are younger than the window, the call is
-- granted. In either case every queue still rises up to the new time, the slots of every other
-- caller are untouched, and the caller's own count of young slots grows by one when the call is
-- granted and stays when it is not.
pub take_slot_lem :
    (window limit : ℕ) (limiter : Limiter) (last now : ℕ) (sub : String)
    → 0 < window
    → last ≤ now
    → ((key : String) → Rises last (limiter key))
    → ((take_slot window limit limiter now sub).1 ≡ true
        ↔ (count_fresh window now (limiter sub) < limit))
      × ((key : String) → Rises now ((take_slot window limit limiter now sub).0 key))
      × ((key : String) → sub ≢ key → (take_slot window limit limiter now sub).0 key ≡ limiter key)
      × (count_fresh window now ((take_slot window limit limiter now sub).0 sub) ≡ (
          if (take_slot window limit limiter now sub).1
          then suc (count_fresh window now (limiter sub))
          else count_fresh window now (limiter sub)))
take_slot_lem window limit limiter last now sub pos le rises =
    let here = λ (key : String). Rises-later window now last (limiter key) le (rises key) in
    let size = length-pop_expired_fresh window now (limiter sub) (here sub) in
    elim (Bool-cases (leb limit (length (pop_expired window now (limiter sub))))) [
      | inl full ↦ rw (take_slot_full window limit limiter now sub full) (
        (λ e. cc, λ less. absurd (omega (arith, size, leb→le _ _ full))),
        store-Rises window limit limiter now sub _ (Rises-pop window now _ (here sub)) here,
        store_other window limit limiter now sub _,
        rw (store_self window limit limiter now sub _)
            (count_fresh-pop window now (limiter sub) (here sub)),
      )
      | inr room ↦ rw (take_slot_room window limit limiter now sub room) (
        (λ e. ground (arith, size), λ less. refl),
        store-Rises window limit limiter now sub _
            (Rises-push window now _ (Rises-pop window now _ (here sub))) here,
        store_other window limit limiter now sub _,
        rw (store_self window limit limiter now sub _)
            (count_fresh-push window now (limiter sub) (here sub) pos),
      )
    ]
