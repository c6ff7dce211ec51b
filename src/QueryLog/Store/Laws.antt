-- ===== src/QueryLog/Store/Laws.antt =====
-- Which of a query's events its row keeps.
use stardelt_nova.Prelude.{
  String, ◌≡◌, refl, ◌∙◌, Bool, true, false, not, ◌&&◌, ◌||◌, Option, none, some, ◌or_else◌, List,
  [], ◌∷◌, if◌then◌else◌, str_eq, eq_iff, arith, Bool-cases, Option-cases, inl, inr,
}
use stardelt_nova.Map.{get}
use stardelt_nova.Auth.Table.{put, keep_if, get-put}
use stardelt_nova.QueryLog.Records.{
  QueryState, queued, finished, failed, canceled, Accepted, as_str,
}
use stardelt_nova.QueryLog.Store.{QueryLog, replaces, write, upserts}

abbrev pub ends : QueryState → Bool
ends queued = false
ends finished = true
ends failed = true
ends canceled = true

-- The query has ended.
abbrev pub is_terminal : Accepted → Bool
is_terminal a = ends a.record_of.state

-- The last item that passes a test.
unfoldable pub last_of {ℓ} : {A : Type ℓ} → (A → Bool) → List A → Option A
last_of p [] = none
last_of p (x ∷ xs) = last_of p xs or_else (if p x then some x else none)

is_queued : (s : QueryState) → str_eq (as_str s) "QUEUED" ≡ not (ends s)
unfolding as_str
is_queued queued = refl
is_queued finished = refl
is_queued failed = refl
is_queued canceled = refl

-- What a written event makes of the row of its query.
abbrev next_row : Accepted → Bool → Option Accepted → Option Accepted
next_row a about none = if about then some a else none
next_row a about (some old) =
    if about && (is_terminal a || not (is_terminal old)) then some a else some old

abbrev row_after : Option Accepted → Option Accepted → Option Accepted → Option Accepted
row_after closing last row = closing or_else (keep_if is_terminal row or_else (last or_else row))

row_after-next_row :
    (a : Accepted) (about : Bool) (closing last row : Option Accepted)
    → row_after closing last (next_row a about row)
      ≡ row_after
          (closing or_else (if about && is_terminal a then some a else none))
          (last or_else (if about then some a else none))
          row
row_after-next_row a about (some c) last row = refl
row_after-next_row a false none none none = refl
row_after-next_row a false none none (some old) = refl
row_after-next_row a false none (some l) none = refl
row_after-next_row a false none (some l) (some old) = refl
row_after-next_row a true none none none = elim (Bool-cases (is_terminal a)) [
  | inl e ↦ rw e refl
  | inr e ↦ rw e refl
]
row_after-next_row a true none (some l) none = elim (Bool-cases (is_terminal a)) [
  | inl e ↦ rw e refl
  | inr e ↦ rw e refl
]
row_after-next_row a true none none (some old) = ground arith
row_after-next_row a true none (some l) (some old) = ground arith

row_after-none : (row : Option Accepted) → row ≡ row_after none none row
row_after-none none = refl
row_after-none (some old) = ground arith

row_after-fresh :
    (closing last : Option Accepted) → row_after closing last none ≡ closing or_else last
row_after-fresh (some c) last = refl
row_after-fresh none none = refl
row_after-fresh none (some l) = refl

replaces_lem : (new old : Accepted) → replaces new old ≡ (is_terminal new || not (is_terminal old))
unfolding replaces
replaces_lem new old =
    rw (is_queued new.record_of.state, is_queued old.record_of.state) (ground arith)

next_row_other : (a : Accepted) (row : Option Accepted) → next_row a false row ≡ row
next_row_other a none = refl
next_row_other a (some old) = refl

get-put_row :
    (id : String) (a : Accepted) (log : QueryLog)
    → get id (put a.record_of.query_id a log)
      ≡ (if str_eq a.record_of.query_id id then some a else get id log)
get-put_row id a log = get-put a.record_of.query_id id a log

get-write :
    (id : String) (a : Accepted) (log : QueryLog)
    → get id (write a log) ≡ next_row a (str_eq a.record_of.query_id id) (get id log)
unfolding write
get-write id a log = elim (Bool-cases (str_eq a.record_of.query_id id)) [
  | inl same ↦
      let here = (eq_iff a.record_of.query_id id).0 same in
      elim (Option-cases (get a.record_of.query_id log)) [
        | inl absent ↦
            let gone : get id log ≡ none = rw here at absent in
            rw (write, absent, get-put_row id a log, same, gone) refl
        | inr (old, e) ↦
            let there : get id log ≡ some old = rw here at e in
            rw (write, e, replaces_lem a old, same, there)
              (ground (arith, get-put_row id a log, same, there))
      ]
  | inr other ↦
      rw (other, next_row_other a (get id log))
        (elim (Option-cases (get a.record_of.query_id log)) [
          | inl absent ↦ rw (write, absent, get-put_row id a log, other) refl
          | inr (old, e) ↦ rw (write, e) (ground (arith, get-put_row id a log, other))
        ])
]

-- The events that the database takes.
unfoldable pub taken : List (Option String × Accepted) → List Accepted
taken [] = []
taken ((none, a) ∷ events) = a ∷ taken events
taken ((some e, a) ∷ events) = taken events

module _ (id : String) where
  -- An event of the query.
  abbrev pub is_about : Accepted → Bool
  is_about a = str_eq a.record_of.query_id id

  abbrev pub is_end : Accepted → Bool
  is_end a = is_about a && is_terminal a

  get-upserts :
      (events : List (Option String × Accepted)) (log : QueryLog)
      → get id (upserts events log)
        ≡ row_after (last_of is_end (taken events)) (last_of is_about (taken events)) (get id log)
  unfolding upserts last_of taken
  get-upserts [] log = row_after-none (get id log)
  get-upserts ((some e, a) ∷ events) log = get-upserts events log
  get-upserts ((none, a) ∷ events) log =
      get-upserts events (write a log)
      ∙ (rw (get-write id a log) (
          row_after-next_row a (is_about a) (last_of is_end (taken events))
            (last_of is_about (taken events)) (get id log)))

  -- From an empty log, after any events in any order, the row of a query is its last event that
  -- ends it, and while there is none its last event; the events that the database refuses, each by
  -- its own answer, do not count. An event of the start that arrives after the end therefore
  -- changes nothing.
  pub upserts-row :
      (events : List (Option String × Accepted))
      → get id (upserts events [])
        ≡ last_of is_end (taken events) or_else last_of is_about (taken events)
  unfolding get
  upserts-row events =
      get-upserts events []
      ∙ row_after-fresh (last_of is_end (taken events)) (last_of is_about (taken events))
