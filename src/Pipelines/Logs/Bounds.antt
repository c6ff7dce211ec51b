-- ===== src/Pipelines/Logs/Bounds.antt =====
-- How much of a log one answer carries.
use stardelt_nova.Prelude.{
  ℕ, suc, ◌+◌, ◌≤◌, ◌≡◌, refl, inl, inr, Bool, false, ◌||◌, List, [], ◌∷◌, ◌++◌, arith, leb, ltb,
  length, Bool-cases, if◌then◌else◌,
}
use stardelt_nova.Text.{byte_len}
use stardelt_nova.Pipelines.Logs.{
  LogEvent, LogPage, LogLine, line_of, is_group_marker, take_lines, log_view, max_log_lines,
  max_log_bytes,
}

abbrev pub total_bytes : List LogLine → ℕ
total_bytes [] = 0
total_bytes (line ∷ lines) = byte_len line.text + total_bytes lines

-- The lines of all events that are no group marker, in order.
abbrev pub all_lines : List LogEvent → List LogLine
all_lines [] = []
all_lines (event ∷ events) =
    let rest = all_lines events in if is_group_marker event then rest else line_of event ∷ rest

-- `lines` are the first ones of `whole`, and all of it unless it was cut.
abbrev pub IsStart : List LogLine → List LogLine → Bool → Type 0
IsStart lines whole truncated =
    (rest : List LogLine) × (whole ≡ lines ++ rest) × (truncated ≡ false → rest ≡ [])

take_lines-IsStart :
    (events : List LogEvent) (count bytes : ℕ)
    → IsStart
        ((take_lines events count bytes).0)
        (all_lines events)
        ((take_lines events count bytes).1)
unfolding take_lines
take_lines-IsStart [] count bytes = ([], refl, λ _. refl)
take_lines-IsStart (event ∷ events) count bytes = elim (Bool-cases (is_group_marker event)) [
  | inl marker ↦ rw marker (take_lines-IsStart events count bytes)
  | inr plain ↦
      let size = bytes + byte_len ((line_of event).text) in
      elim (Bool-cases (leb max_log_lines count || ltb max_log_bytes size)) [
        | inl full ↦ rw (plain, full) (line_of event ∷ all_lines events, refl, λ e. cc)
        | inr room ↦
            let (rest, whole, ends) = take_lines-IsStart events (suc count) size in
            rw (plain, room) (rest, cc whole, ends)
      ]
]

take_lines-bounds :
    (events : List LogEvent) (count bytes : ℕ)
    → count ≤ max_log_lines
    → bytes ≤ max_log_bytes
    → (length ((take_lines events count bytes).0) + count ≤ max_log_lines)
      × (total_bytes ((take_lines events count bytes).0) + bytes ≤ max_log_bytes)
unfolding take_lines
take_lines-bounds [] count bytes p q = (omega arith, omega arith)
take_lines-bounds (event ∷ events) count bytes p q = elim (Bool-cases (is_group_marker event)) [
  | inl marker ↦ rw marker (take_lines-bounds events count bytes p q)
  | inr plain ↦
      let size = bytes + byte_len ((line_of event).text) in
      elim (Bool-cases (leb max_log_lines count || ltb max_log_bytes size)) [
        | inl full ↦ rw (plain, full) (omega arith, omega arith)
        | inr room ↦
            let (a, b) = take_lines-bounds events (suc count) size (ground arith) (ground arith) in
            rw (plain, room) (omega arith, omega arith)
      ]
]

-- The answer carries at most 2000 lines and 524288 bytes of text. Its lines are the first lines
-- of the page, in order, without the group markers, and all of them unless the answer says that
-- it was truncated.
pub log_view-IsStart :
    (page : LogPage)
    → (length (log_view page).lines ≤ max_log_lines)
      × (total_bytes (log_view page).lines ≤ max_log_bytes)
      × IsStart (log_view page).lines (all_lines page.content) (log_view page).truncated
unfolding log_view
log_view-IsStart page =
    let (a, b) = take_lines-bounds page.content 0 0 (omega arith) (omega arith) in
    (omega arith, omega arith, take_lines-IsStart page.content 0 0)
