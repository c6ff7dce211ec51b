-- ===== src/Auth/Sessions/Entries.antt =====
-- Each call keeps the store in step with the table that it stands for.
use stardelt_nova.Prelude.{
  ℕ, ◌≤◌, String, ◌≡◌, refl, sym, ap, ◌∙◌, inl, inr, Bool, true, false, is_some_and, Option, none,
  some, ltb, leb, if◌then◌else◌, str_eq, eq_iff, arith, Bool-cases, Option-cases,
}
use stardelt_nova.Map.{get}
use stardelt_nova.Auth.Table.{
  put, retain, keep_if, IsTable, get-remove, get-put, get-retain, remove-IsTable, put-IsTable,
  retain-IsTable,
}
use stardelt_nova.Auth.Sessions.{
  Credentials, Session, SessionStore, is_live, find_session, remove_session, with_credentials,
  renewed, renew_session,
}
use stardelt_nova.Auth.Sessions.Calls.{Sessions, with_entry, with_renewed}

-- The store and the table show the same sessions from a time on.
abbrev pub Agrees : ℕ → SessionStore → Sessions → Type 0
Agrees t store f =
    (id : String) (now : ℕ)
    → t ≤ now
    → keep_if (is_live now) (get id store) ≡ keep_if (is_live now) (f id)

keep_if-later :
    (now later : ℕ) (o : Option Session)
    → now ≤ later
    → keep_if (is_live later) (keep_if (is_live now) o) ≡ keep_if (is_live later) o
keep_if-later now later none h = refl
keep_if-later now later (some s) h = ground arith

keep_if-renewed :
    (now : ℕ) (creds : Credentials) (o : Option Session)
    → keep_if (is_live now) (renewed creds o) ≡ renewed creds (keep_if (is_live now) o)
unfolding renewed
keep_if-renewed now creds none = refl
keep_if-renewed now creds (some s) = elim (Bool-cases (ltb now s.expires)) [
  | inl live ↦ rw live refl
  | inr gone ↦ rw gone refl
]

pub found_session :
    (now : ℕ) (id : String) (store : SessionStore)
    → (find_session now id store).1 ≡ keep_if (is_live now) (get id store)
unfolding find_session
found_session now id store = elim (Option-cases (get id store)) [
  | inl absent ↦ rw (absent, absent) refl
  | inr (s, e) ↦ elim (Bool-cases (leb s.expires now)) [
    | inl over ↦ rw (e, over) (ground (arith, get-remove id id store, eq_iff id id, over))
    | inr live ↦ rw (e, live, e) (ground (arith, live))
  ]
]

-- What a look leaves of an entry.
pub get-find_session :
    (now : ℕ) (id other : String) (store : SessionStore)
    → get other (find_session now id store).0
      ≡ (if str_eq id other then keep_if (is_live now) (get other store) else get other store)
unfolding find_session
get-find_session now id other store = elim (Bool-cases (str_eq id other)) [
  | inl same ↦ rw (← (eq_iff id other).0 same, (eq_iff id id).1 refl) (found_session now id store)
  | inr apart ↦ elim (Bool-cases (is_some_and (get id store) (λ s. leb s.expires now))) [
    | inl over ↦ rw (over, apart) (ground (arith, get-remove id other store, apart))
    | inr live ↦ rw (live, apart) refl
  ]
]

find_session-IsTable :
    (now : ℕ) (id : String) (store : SessionStore)
    → IsTable store
    → IsTable (find_session now id store).0
unfolding find_session
find_session-IsTable now id store h =
    elim (Bool-cases (is_some_and (get id store) (λ s. leb s.expires now))) [
      | inl over ↦ rw over (remove-IsTable id store h)
      | inr live ↦ rw live h
    ]

renew_session-IsTable :
    (id : String) (creds : Credentials) (store : SessionStore)
    → IsTable store
    → IsTable (renew_session id creds store)
unfolding renew_session renewed
renew_session-IsTable id creds store h = elim (Option-cases (get id store)) [
  | inl absent ↦ rw (renew_session, absent) h
  | inr (s, e) ↦ rw (renew_session, e) (put-IsTable id (with_credentials creds s) store h)
]

pub get-renew_session :
    (id other : String) (creds : Credentials) (store : SessionStore)
    → get other (renew_session id creds store)
      ≡ (if str_eq id other then renewed creds (get other store) else get other store)
unfolding renew_session renewed
get-renew_session id other creds store = elim (Option-cases (get id store)) [
  | inl absent ↦ rw (renew_session, absent) (ground (arith, eq_iff id other, absent))
  | inr (s, e) ↦
      rw (renew_session, e)
        (ground (arith, eq_iff id other, e, get-put id other (with_credentials creds s) store))
]

abbrev pub Kept : ℕ → SessionStore → Sessions → Type 0
Kept t store f = IsTable store × Agrees t store f

if-agrees :
    (b : Bool) (now : ℕ) (x y u v : Option Session)
    → keep_if (is_live now) x ≡ keep_if (is_live now) y
    → keep_if (is_live now) u ≡ keep_if (is_live now) v
    → keep_if (is_live now) (if b then x else u) ≡ keep_if (is_live now) (if b then y else v)
if-agrees true now x y u v h k = h
if-agrees false now x y u v h k = k

if_same :
    (b : Bool) (x : Option Session) (now : ℕ)
    → keep_if (is_live now) (if b then x else x) ≡ keep_if (is_live now) x
if_same true x now = refl
if_same false x now = refl

module _ (t now : ℕ) (store : SessionStore) (f : Sessions) (later : t ≤ now) where
  pub Kept-later : Kept t store f → Kept now store f
  Kept-later (table, same) = (table, λ id n h. same id n (omega arith))

  -- The sweep of the expired sessions.
  pub Kept-retain : Kept t store f → Kept now (retain (is_live now) store) f
  Kept-retain (table, same) = (
    retain-IsTable (is_live now) store table,
    λ id n h.
        rw (get-retain (is_live now) id store table)
          (keep_if-later now n (get id store) h ∙ same id n (omega arith)),
  )

  pub Kept-look : (id : String) → Kept t store f → Kept now (find_session now id store).0 f
  Kept-look id (table, same) = (
    find_session-IsTable now id store table,
    λ other n h. rw (get-find_session now id other store) (
        if-agrees (str_eq id other) n _ (f other) _ (f other)
          (keep_if-later now n (get other store) h ∙ same other n (omega arith))
          (same other n (omega arith))
        ∙ if_same (str_eq id other) (f other) n),
  )

  pub Kept-renew :
      (id : String) (creds : Credentials)
      → Kept t store f
      → Kept now (renew_session id creds store) (with_renewed f id creds)
  Kept-renew id creds (table, same) = (
    renew_session-IsTable id creds store table,
    λ other n h. rw (get-renew_session id other creds store) (
        if-agrees (str_eq id other) n _ _ _ (f other)
          (keep_if-renewed n creds (get other store)
            ∙ ap (renewed creds) (same other n (omega arith))
            ∙ sym (keep_if-renewed n creds (f other)))
          (same other n (omega arith))),
  )

  pub Kept-remove :
      (id : String) → Kept t store f → Kept now (remove_session id store) (with_entry f id none)
  unfolding remove_session
  Kept-remove id (table, same) = (
    remove-IsTable id store table,
    λ other n h.
        rw (get-remove id other store)
          (if-agrees (str_eq id other) n none none _ (f other) refl (same other n (omega arith))),
  )

pub Kept-put :
    (now : ℕ) (id : String) (session : Session) (store : SessionStore) (f : Sessions)
    → Kept now store f
    → Kept now (put id session store) (with_entry f id (some session))
Kept-put now id session store f (table, same) = (
  put-IsTable id session store table,
  λ other n h. rw (get-put id other session store) (
      if-agrees (str_eq id other) n (some session) (some session) _ (f other) refl
        (same other n h)),
)
