-- ===== src/Pipelines/Logs/Tests.antt =====
-- A page of a marker and one coloured line.
use stardelt_nova.Prelude.{◌≤◌, ◌≡◌, refl, none, some, [], ◌∷◌, length}
use stardelt_nova.Text.{strip_prefix, trim_start, byte_len}
use stardelt_nova.Pipelines.Logs.{
  LogPage, log_view, max_log_lines, max_log_bytes, take_lines, is_group_marker, line_of, strip_ansi,
}
use stardelt_nova.Pipelines.Logs.Bounds.{total_bytes, all_lines, IsStart, log_view-IsStart}

abbrev page : LogPage
page = record {
  content =
      record { timestamp = none; level = none; event = some " ::group::x"; sources = [] }
      ∷ record { timestamp = none; level = some "info"; event = some "all done"; sources = [] }
      ∷ [];
  continuation_token = none;
}

one_line : length (log_view page).lines ≡ 1
unfolding log_view take_lines is_group_marker strip_prefix trim_start byte_len line_of strip_ansi
one_line = refl

log_view-IsStart_example :
    (length (log_view page).lines ≤ max_log_lines)
    × (total_bytes (log_view page).lines ≤ max_log_bytes)
    × IsStart (log_view page).lines (all_lines page.content) (log_view page).truncated
log_view-IsStart_example = log_view-IsStart page
