-- ===== src/AdminCatalogs/Update/Versions.antt =====
-- Of two administrators who edit the same version only one changes the row.
use stardelt_nova.Prelude.{
  ℕ, suc, ◌+◌, ◌-◌, ◌≤◌, ◌⊎◌, List, [], ◌∷◌, length, ◌^◌, ◌<◌, String, ◌≡◌, refl, sym, ap, ◌∙◌, ◌≢◌,
  false, unwrap_or, str_eq, eq_iff, arith, Bool-cases, inl, inr,
}
use stardelt_nova.Prelude.Results.{ok, err}
use stardelt_nova.Identity.{Identity}
use stardelt_nova.Limiter.{take_access_change_slot}
use stardelt_nova.AdminCatalogs.Types.{AdminCatalog, CatalogAccessUpdate, catalog_changed}
use stardelt_nova.AdminCatalogs.Demo.{Desk, changed_row, current_row, demo_update}
use stardelt_nova.AdminCatalogs.Update.Numbers.{IsAfter, next-IsAfter_one, next-IsAfter, IsAfter-ne}

-- The version that a change of a row has to name.
abbrev version_of : AdminCatalog → String
version_of row = unwrap_or "1" row.resource_version

demo_update-ok :
    (desk : Desk) (now : ℕ) (name : String) (update : CatalogAccessUpdate) (who : Identity)
    (row : AdminCatalog)
    → (demo_update desk now name update who).1 ≡ ok row
    → (current_row (demo_update desk now name update who).0 ≡ changed_row (current_row desk) update)
      × ((current_row desk).name ≡ name)
      × (update.resource_version ≡ version_of (current_row desk))
unfolding demo_update
demo_update-ok desk now name update who row h =
    elim (Bool-cases (str_eq (current_row desk).name name)) [
      | inr other ↦ cc (rw (demo_update, other) at h)
      | inl here ↦
          elim (Bool-cases (str_eq update.resource_version (version_of (current_row desk)))) [
            | inr stale ↦ cc (rw (demo_update, here, stale) at h)
            | inl current ↦ elim (Bool-cases (take_access_change_slot desk.limiter now who.sub).1) [
              | inr spent ↦ cc (rw (demo_update, here, current, spent) at h)
              | inl granted ↦
                  rw (demo_update, here, current, granted)
                    (
                      refl,
                      (eq_iff (current_row desk).name name).0 here,
                      (eq_iff update.resource_version (version_of (current_row desk))).0 current,
                    )
            ]
          ]
    ]

apart : (s t : String) → s ≢ t → str_eq s t ≡ false
apart s t h = elim (Bool-cases (str_eq s t)) [
  | inl same ↦ absurd (h ((eq_iff s t).0 same))
  | inr other ↦ other
]

demo_update-stale :
    (desk : Desk) (now : ℕ) (name : String) (update : CatalogAccessUpdate) (who : Identity)
    → (current_row desk).name ≡ name
    → update.resource_version ≢ version_of (current_row desk)
    → demo_update desk now name update who ≡ (desk, err catalog_changed)
unfolding demo_update
demo_update-stale desk now name update who here stale =
    rw (demo_update, (eq_iff (current_row desk).name name).1 here, apart _ _ stale) refl

-- A call leaves the row, or replaces it by the changed one.
demo_update-row :
    (desk : Desk) (now : ℕ) (name : String) (update : CatalogAccessUpdate) (who : Identity)
    → (current_row (demo_update desk now name update who).0 ≡ current_row desk)
      ⊎ (current_row (demo_update desk now name update who).0
          ≡ changed_row (current_row desk) update)
unfolding demo_update
demo_update-row desk now name update who = elim (Bool-cases (str_eq (current_row desk).name name)) [
  | inr other ↦ rw (demo_update, other) (inl refl)
  | inl here ↦ elim (Bool-cases (str_eq update.resource_version (version_of (current_row desk)))) [
    | inr stale ↦ rw (demo_update, here, stale) (inl refl)
    | inl current ↦ elim (Bool-cases (take_access_change_slot desk.limiter now who.sub).1) [
      | inr spent ↦ rw (demo_update, here, current, spent) (inl refl)
      | inl granted ↦ rw (demo_update, here, current, granted) (inr refl)
    ]
  ]
]

-- A call of `demo_update`.
abbrev pub DemoCall : Type 0
DemoCall = ℕ × String × CatalogAccessUpdate × Identity

-- What calls in turn leave.
unfoldable pub demo_updates : List DemoCall → Desk → Desk
unfolding demo_update
demo_updates [] desk = desk
demo_updates ((now, name, update, who) ∷ calls) desk =
    demo_updates calls (demo_update desk now name update who).0

-- The row is called `name`, and between one and `most` changes have passed since version `v`.
record IsPast (v name : String) (most : ℕ) (desk : Desk) : Type 0 where
  changes : ℕ
  some_change : 1 ≤ changes
  few : changes ≤ most
  named : (current_row desk).name ≡ name
  version : IsAfter v changes (version_of (current_row desk))

demo_update-IsPast :
    (v name : String) (most : ℕ) (desk : Desk) (now : ℕ) (asked : String)
    (update : CatalogAccessUpdate) (who : Identity)
    → IsPast v name most desk
    → IsPast v name (suc most) (demo_update desk now asked update who).0
unfolding changed_row
demo_update-IsPast v name most desk now asked update who p =
    elim (demo_update-row desk now asked update who) [
      | inl same ↦ record {
        changes = p.changes;
        some_change = p.some_change;
        few = omega (arith, p.few);
        named = ap (λ r. r.name) same ∙ p.named;
        version = rw same p.version;
      }
      | inr new ↦ record {
        changes = suc p.changes;
        some_change = omega arith;
        few = omega (arith, p.few);
        named = ap (λ r. r.name) new ∙ p.named;
        version = rw new (next-IsAfter v p.changes (version_of (current_row desk)) p.version);
      }
    ]

demo_updates-IsPast :
    (v name : String) (most : ℕ) (calls : List DemoCall) (desk : Desk)
    → IsPast v name most desk
    → IsPast v name (most + length calls) (demo_updates calls desk)
unfolding demo_updates
demo_updates-IsPast v name most [] desk p = let same : most + 0 ≡ most = omega arith in rw same p
demo_updates-IsPast v name most ((now, asked, update, who) ∷ calls) desk p =
    let count : most + suc (length calls) ≡ suc most + length calls = omega arith in
    rw count (
      demo_updates-IsPast v name (suc most) calls (demo_update desk now asked update who).0
        (demo_update-IsPast v name most desk now asked update who p))

-- When a change of the demo catalog has succeeded, and after any further calls, fewer than
-- 2 ^ 64 - 1 of them, a change that names the version that the first one replaced is answered with
-- the conflict and changes nothing.
pub demo_update-changed :
    (desk : Desk) (now later : ℕ) (name : String) (update second : CatalogAccessUpdate)
    (who other : Identity) (row : AdminCatalog) (calls : List DemoCall)
    → (demo_update desk now name update who).1 ≡ ok row
    → length calls < 2 ^ 64 - 1
    → second.resource_version ≡ update.resource_version
    → let after = demo_updates calls (demo_update desk now name update who).0 in
      demo_update after later name second other ≡ (after, err catalog_changed)
unfolding changed_row
demo_update-changed desk now later name update second who other row calls h few same =
    let (new, here, version) = demo_update-ok desk now name update who row h in
    let first : IsPast (version_of (current_row desk)) name 1
        (demo_update desk now name update who).0 =
      record {
        changes = 1;
        some_change = omega arith;
        few = omega arith;
        named = ap (λ r. r.name) new ∙ here;
        version = rw new (next-IsAfter_one (version_of (current_row desk)));
      } in
    let past = demo_updates-IsPast (version_of (current_row desk)) name 1 calls _ first in
    demo_update-stale (demo_updates calls (demo_update desk now name update who).0) later name
      second other past.named
      (λ e.
        IsAfter-ne (version_of (current_row desk)) past.changes _ past.some_change
          (omega (arith, past.few, few)) past.version (sym e ∙ same ∙ version))
