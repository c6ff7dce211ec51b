-- ===== src/Auth/Sessions/Pending.antt =====
-- A sign-in under way is finished at most once, and in time.
use stardelt_nova.Prelude.{
  ℕ, ◌-◌, ◌≤◌, String, ◌≡◌, refl, false, none, some, List, [], ◌∷◌, ltb, leb, if◌then◌else◌, str_eq,
  eq_iff, length, arith, Bool-cases, inl, inr,
}
use stardelt_nova.Prelude.Results.{ok}
use stardelt_nova.Map.{get}
use stardelt_nova.Auth.Table.{
  remove, put, retain, IsTable, get-remove, get-put, get-retain, remove-IsTable, put-IsTable,
  retain-IsTable, length-remove, length-retain,
}
use stardelt_nova.Auth.Sessions.{
  PendingLogin, PendingStore, max_pending_logins, login_ttl, is_recent, insert_pending,
  take_pending,
}

-- A request that begins or finishes a sign-in.
pub data Login : Type 0 where
  begin : String → PendingLogin → Login
  finish : String → Login

unfoldable pub after_login : ℕ × Login → PendingStore → PendingStore
unfolding insert_pending take_pending
after_login (now, begin state p) store = (insert_pending now state p store).0
after_login (now, finish state) store = (take_pending now state store).0

unfoldable pub after_logins : List (ℕ × Login) → PendingStore → PendingStore
unfolding after_login
after_logins [] store = store
after_logins (e ∷ es) store = after_logins es (after_login e store)

-- No request begins a sign-in with this state.
abbrev pub Avoids : String → List (ℕ × Login) → Type 0
Avoids state [] = Unit
Avoids state ((now, begin other p) ∷ es) = (str_eq other state ≡ false) × Avoids state es
Avoids state ((now, finish other) ∷ es) = Avoids state es

-- A table of the right size.
abbrev pub IsBounded : PendingStore → Type 0
IsBounded store = IsTable store × (length store ≤ max_pending_logins)

after_login-IsBounded :
    (e : ℕ × Login) (store : PendingStore) → IsBounded store → IsBounded (after_login e store)
unfolding after_login insert_pending take_pending put
after_login-IsBounded (now, begin state p) store (table, size) =
    let kept = retain (is_recent now) store in
    let kept_table = retain-IsTable (is_recent now) store table in
    elim (Bool-cases (leb max_pending_logins (length kept))) [
      | inl full ↦
          rw (after_login, full) (kept_table, omega (arith, length-retain (is_recent now) store))
      | inr room ↦
          rw (after_login, room)
            (put-IsTable state p kept kept_table, ground (arith, length-remove state kept))
    ]
after_login-IsBounded (now, finish state) store (table, size) =
    (remove-IsTable state store table, omega (arith, length-remove state store))

pub after_logins-IsBounded :
    (es : List (ℕ × Login)) (store : PendingStore)
    → IsBounded store
    → IsBounded (after_logins es store)
unfolding after_logins
after_logins-IsBounded [] store h = h
after_logins-IsBounded (e ∷ es) store h =
    after_logins-IsBounded es (after_login e store) (after_login-IsBounded e store h)

after_login-absent :
    (state : String) (e : ℕ × Login) (store : PendingStore)
    → IsTable store
    → Avoids state (e ∷ [])
    → get state store ≡ none
    → get state (after_login e store) ≡ none
unfolding after_login insert_pending take_pending
after_login-absent state (now, begin other p) store table (apart, _) h =
    let kept = retain (is_recent now) store in
    let gone : get state kept ≡ none = rw (get-retain (is_recent now) state store table, h) refl in
    elim (Bool-cases (leb max_pending_logins (length kept))) [
      | inl full ↦ rw (after_login, full) gone
      | inr room ↦ rw (after_login, room, get-put other state p kept, apart) gone
    ]
after_login-absent state (now, finish other) store table _ h =
    ground (arith, get-remove other state store, h)

after_logins-absent :
    (state : String) (es : List (ℕ × Login)) (store : PendingStore)
    → IsBounded store
    → Avoids state es
    → get state store ≡ none
    → get state (after_logins es store) ≡ none
unfolding after_logins
after_logins-absent state [] store bounded avoids h = h
after_logins-absent state ((now, begin other p) ∷ es) store bounded (apart, avoids) h =
    after_logins-absent state es _ (after_login-IsBounded (now, begin other p) store bounded) avoids
      (after_login-absent state (now, begin other p) store bounded.0 (apart, tt) h)
after_logins-absent state ((now, finish other) ∷ es) store bounded avoids h =
    after_logins-absent state es _ (after_login-IsBounded (now, finish other) store bounded) avoids
      (after_login-absent state (now, finish other) store bounded.0 tt h)

-- In a store of at most 10000 sign-ins with distinct states, a state that has been taken is not
-- found again, whatever sign-ins begin and finish in between, unless one begins with that very
-- state.
pub take_pending-once :
    (state : String) (now later : ℕ) (es : List (ℕ × Login)) (store : PendingStore)
    → IsBounded store
    → Avoids state es
    → (take_pending later state (after_logins es (take_pending now state store).0)).1 ≡ none
unfolding take_pending
take_pending-once state now later es store (table, size) avoids =
    let gone : get state (remove state store) ≡ none =
      ground (arith, get-remove state state store, eq_iff state state) in
    rw
      (after_logins-absent state es (remove state store)
        (remove-IsTable state store table, omega (arith, size, length-remove state store)) avoids
        gone)
      refl

pub take-insert_pending :
    (state : String) (now later : ℕ) (p : PendingLogin) (store : PendingStore)
    → (insert_pending now state p store).1 ≡ ok tt
    → (take_pending later state (insert_pending now state p store).0).1
      ≡ (if ltb (later - p.created) login_ttl then some p else none)
unfolding take_pending insert_pending
take-insert_pending state now later p store h =
    let kept = retain (is_recent now) store in
    elim (Bool-cases (leb max_pending_logins (length kept))) [
      | inl full ↦ cc (rw (insert_pending, full) at h)
      | inr room ↦
          rw (insert_pending, room, get-put state state p kept, (eq_iff state state).1 refl) refl
    ]
