-- ===== src/Tui/Model/Keys.antt =====
-- The case labels of the switches over `msg.String()` in tui/model.go and tui/analytics.go.
use grpc_tap.Prelude.{Bytes, codes, Bool, ◌||◌, if◌then◌else◌, eq_bytes}
use Prim.Native.String.{String}

abbrev is : Bytes → String → Bool
is name label = eq_bytes name (codes label)

-- `updateList`.
pub data ListKey : Type 0 where
  quit_key enter_key search_key errors_key analytics_key write_key sort_key esc_key : ListKey
  down_key up_key page_down_key page_up_key other_key : ListKey

unfoldable pub list_key : Bytes → ListKey
list_key name =
    if is name "q" || is name "ctrl+c"
    then quit_key
    else if is name "enter"
    then enter_key
    else if is name "/"
    then search_key
    else if is name "e"
    then errors_key
    else if is name "a"
    then analytics_key
    else if is name "w"
    then write_key
    else if is name "s"
    then sort_key
    else if is name "esc"
    then esc_key
    else if is name "j" || is name "down"
    then down_key
    else if is name "k" || is name "up"
    then up_key
    else if is name "ctrl+d" || is name "pgdown"
    then page_down_key
    else if is name "ctrl+u" || is name "pgup"
    then page_up_key
    else other_key

-- `updateSearch`.
pub data PromptKey : Type 0 where
  accept_key cancel_key erase_key abort_key text_key : PromptKey

unfoldable pub prompt_key : Bytes → PromptKey
prompt_key name =
    if is name "enter"
    then accept_key
    else if is name "esc"
    then cancel_key
    else if is name "backspace"
    then erase_key
    else if is name "ctrl+c"
    then abort_key
    else text_key

-- `updateWrite`.
pub data FormatKey : Type 0 where
  json_key markdown_key no_format_key : FormatKey

unfoldable pub format_key : Bytes → FormatKey
format_key name =
    if is name "j" then json_key else if is name "m" then markdown_key else no_format_key

-- `updateInspect`.
pub data InspectKey : Type 0 where
  abort_key back_key edit_key copy_request_key copy_response_key : InspectKey
  down_key up_key other_key : InspectKey

unfoldable pub inspect_key : Bytes → InspectKey
inspect_key name =
    if is name "ctrl+c"
    then abort_key
    else if is name "q"
    then back_key
    else if is name "e"
    then edit_key
    else if is name "c"
    then copy_request_key
    else if is name "C"
    then copy_response_key
    else if is name "j" || is name "down"
    then down_key
    else if is name "k" || is name "up"
    then up_key
    else other_key

-- `updateAnalytics`.
pub data AnalyticsKey : Type 0 where
  abort_key back_key down_key up_key page_down_key page_up_key sort_key other_key : AnalyticsKey

unfoldable pub analytics_key_of : Bytes → AnalyticsKey
analytics_key_of name =
    if is name "ctrl+c"
    then abort_key
    else if is name "q"
    then back_key
    else if is name "j" || is name "down"
    then down_key
    else if is name "k" || is name "up"
    then up_key
    else if is name "ctrl+d" || is name "pgdown"
    then page_down_key
    else if is name "ctrl+u" || is name "pgup"
    then page_up_key
    else if is name "s"
    then sort_key
    else other_key
