-- ===== src/QueryLog/Pages/Laws.antt =====
-- What a page shows can be opened, and what is opened is the caller's or leaves a trace.
use stardelt_nova.Prelude.{
  ℕ, ◌≤◌, String, ◌≡◌, ◌≢◌, refl, true, false, Option, none, some, List, [], ◌∷◌, length, take,
  length-take, All, str_eq, eq_iff, arith, Bool-cases, ◌⊎◌, inl, inr,
}
use stardelt_nova.Prelude.Results.{Result, ok, err, ok_inj, Result-cases}
use stardelt_nova.Identity.{Identity}
use stardelt_nova.Pipelines.Answers.{Fail}
use stardelt_nova.QueryLog.Records.{Accepted}
use stardelt_nova.QueryLog.Access.{
  Viewer, Scope, mine, team, everything, in_scope, visible, caller_of,
}
use stardelt_nova.QueryLog.Pages.{
  no_such_row, owner_of, retain_scope, Page, page_of, list_page, ReadOther, read_other, detail,
}

-- The caller ran the query, under the name of the sign-in or under the subject.
abbrev pub IsOwn : Viewer → Accepted → Type 0
IsOwn who row = (row.record_of.principal ≡ who.username) ⊎ (row.record_of.principal ≡ who.sub)

abbrev pub IsOthers : Viewer → Accepted → Type 0
IsOthers who row = (row.record_of.principal ≢ who.username) × (row.record_of.principal ≢ who.sub)

module _ (caller : Option Identity) (dev_user : String) where
  abbrev who : Viewer
  who = caller_of caller dev_user

  -- A read of one row.
  pub data IsRead
      : Result Fail (Option Accepted) → Result Fail Accepted × List ReadOther → Type 0 where
    failed : (e : Fail) → IsRead (err e) (err e, [])
    missing : IsRead (ok none) (err no_such_row, [])
    hidden :
        (row : Accepted)
        → IsOthers who row
        → who.is_admin ≡ false
        → IsRead (ok (some row)) (err no_such_row, [])
    own : (row : Accepted) → IsOwn who row → IsRead (ok (some row)) (ok row, [])
    others :
        (row : Accepted)
        → IsOthers who row
        → who.is_admin ≡ true
        → IsRead (ok (some row)) (ok row, read_other who row ∷ [])

  -- A read of one row answers with the row and writes nothing when the caller ran the query; it
  -- answers an administrator with another person's row and writes one audit line about it; and
  -- it answers anybody else as if the row were missing.
  pub detail-IsRead :
      (found : Result Fail (Option Accepted)) → IsRead found (detail caller dev_user found)
  unfolding detail visible in_scope
  detail-IsRead (err e) = failed e
  detail-IsRead (ok none) = missing
  detail-IsRead (ok (some row)) = elim (Bool-cases (str_eq row.record_of.principal who.username)) [
    | inl u ↦ rw u (own row (inl ((eq_iff row.record_of.principal who.username).0 u)))
    | inr u ↦ elim (Bool-cases (str_eq row.record_of.principal who.sub)) [
      | inl s ↦ rw (u, s) (own row (inr ((eq_iff row.record_of.principal who.sub).0 s)))
      | inr s ↦
          let strange : IsOthers who row = (
            λ e. cc ((eq_iff row.record_of.principal who.username).1 e, u),
            λ e. cc ((eq_iff row.record_of.principal who.sub).1 e, s),
          ) in
          elim (Bool-cases who.is_admin) [
            | inl admin ↦ rw (u, s, admin) (others row strange admin)
            | inr plain ↦ rw (u, s, plain) (hidden row strange plain)
          ]
    ]
  ]

  abbrev pub Opens : Accepted → Type 0
  Opens row =
      ((detail caller dev_user (ok (some row))).0 ≡ ok row)
      × ((who.is_admin ≡ true)
          ⊎ (IsOwn who row × ((detail caller dev_user (ok (some row))).1 ≡ [])))

  in_scope-Opens :
      (scope : Scope) (row : Accepted) → in_scope scope (owner_of row) who ≡ true → Opens row
  unfolding detail visible in_scope
  in_scope-Opens mine row h = elim (Bool-cases (str_eq row.record_of.principal who.username)) [
    | inl u ↦ rw u (refl, inr (inl ((eq_iff row.record_of.principal who.username).0 u), refl))
    | inr u ↦
        let s : str_eq row.record_of.principal who.sub ≡ true = rw u at h in
        rw (u, s) (refl, inr (inr ((eq_iff row.record_of.principal who.sub).0 s), refl))
  ]
  in_scope-Opens team row h = cc
  in_scope-Opens everything row h =
      elim (Bool-cases (str_eq row.record_of.principal who.username)) [
        | inl u ↦ rw u (refl, inl h)
        | inr u ↦ elim (Bool-cases (str_eq row.record_of.principal who.sub)) [
          | inl s ↦ rw (u, s) (refl, inl h)
          | inr s ↦ (rw (u, s, h) refl, inl h)
        ]
      ]

  retain-Opens : (scope : Scope) (rows : List Accepted) → All Opens (retain_scope scope who rows)
  unfolding retain_scope
  retain-Opens scope [] = tt
  retain-Opens scope (row ∷ rows) = elim (Bool-cases (in_scope scope (owner_of row) who)) [
    | inl shown ↦ rw shown (in_scope-Opens scope row shown, retain-Opens scope rows)
    | inr dropped ↦ rw dropped (retain-Opens scope rows)
  ]

  length-retain_scope :
      (scope : Scope) (rows : List Accepted) → length (retain_scope scope who rows) ≤ length rows
  unfolding retain_scope
  length-retain_scope scope [] = omega arith
  length-retain_scope scope (row ∷ rows) = ground (arith, length-retain_scope scope rows)

  abbrev Shows : ℕ → Page → Type 0
  Shows limit page = (length page.items ≤ limit) × All Opens page.items

  page_of-Shows :
      (scope : Scope) (limit : ℕ) (rows : List Accepted)
      → Shows limit (page_of scope who limit rows)
  unfolding page_of
  page_of-Shows scope limit rows = (
    omega (arith, length-retain_scope scope (take limit rows), length-take limit rows),
    retain-Opens scope (take limit rows),
  )

  -- A page has at most as many rows as were asked for; the caller can open each of them; and the
  -- rows of somebody who is no administrator are that person's own and are opened without a trace.
  pub list_page-Opens :
      (scope : Scope) (limit : ℕ) (fetched : Result Fail (List Accepted)) (page : Page)
      → list_page caller dev_user scope limit fetched ≡ ok page
      → (length page.items ≤ limit) × All Opens page.items
  unfolding list_page
  list_page-Opens mine limit (err e) page h = cc
  list_page-Opens mine limit (ok rows) page h = rw (← ok_inj h) (page_of-Shows mine limit rows)
  list_page-Opens team limit fetched page h = rw (← ok_inj h) (omega arith, tt)
  list_page-Opens everything limit fetched page h = elim (Bool-cases who.is_admin) [
    | inl admin ↦ elim (Result-cases fetched) [
      | inl (e, lost) ↦ cc (rw (admin, lost) at h)
      | inr (rows, found) ↦
          let opened : Path (Result Fail Page) (ok (page_of everything who limit rows)) (ok page) =
            rw (admin, found) at h in
          rw (← ok_inj opened) (page_of-Shows everything limit rows)
    ]
    | inr plain ↦ cc (rw plain at h)
  ]
