-- ===== src/Report.antt =====
-- `report_token` of src/token.cpp, which reads the line of a token again from the start of its
-- file, and the warnings of src/warnings.cpp.
use pars_c.Config.{Config}
use pars_c.Common.{
  List, ◌+◌, ℕ, zero, suc, ◌≤◌, Bool, true, false, Option, none, some, [], ◌∷◌, ◌++◌, append-nil,
  Bytes, leb, if◌then◌else◌, ◌≡◌, refl, arith, while-false, not, ◌&&◌, ◌==◌,
}
use mathlib.Core.Path.{subst}
use pars_c.TextReader
use pars_c.TextReader.{
  Source, TextReader, remaining, skip, at_end, get_line, skip_insignificant, peek, u32,
}
use pars_c.TextReader.View.{View, at_end-nil, line_from}
use pars_c.TextReader.Scan.{skip_insignificant-View}
use pars_c.Token.{Token}
use pars_c.Lexer.State.{SourceFile}

pub data ReportType : Type 0 where
  warning : ReportType
  error : ReportType

-- `CLI_RED` and `CLI_YELLOW`
pub data Color : Type 0 where
  red : Color
  yellow : Color

-- What is formatted into the message.
pub record Report : Type 0 where
  pub color : Color
  pub type : ReportType
  pub path : Bytes
  pub token : Token
  pub line : Bytes
  pub message : Bytes

abbrev pub color_of : ReportType → Color
color_of error = red
color_of warning = yellow

-- The loop, for as many rounds as there is fuel; `none`: it has not ended by then.
unfoldable pub find_line : ℕ → ℕ → Bytes → TextReader → Option Bytes
find_line zero line text reader = if leb reader.current_line line then none else some text
find_line (suc fuel) line text reader =
    let (read, reader') = get_line reader in
    let later = find_line fuel line read (skip_insignificant false reader') in
    if leb reader.current_line line then later else some text

abbrev pub report_with : ReportType → Bytes → Token → Bytes → Option Bytes → Option Report
report_with type path token message none = none
report_with type path token message (some line) = some (record {
  color = color_of type;
  type = type;
  path = path;
  token = token;
  line = line;
  message = message;
})

unfoldable pub report_token : ℕ → SourceFile → Token → Bytes → ReportType → Option Report
report_token fuel source_file token message type =
    report_with type source_file.path token message
      (find_line fuel token.location.line [] (TextReader.set_source source_file.contents))

get_line-nil :
    {s : Source} {r : TextReader} {done lexeme : Bytes}
    → View s r done lexeme []
    → (get_line r).1 ≡ r
unfolding get_line
get_line-nil {r} v =
    rw
      (while-false {State = TextReader × ℕ} (remaining r)
        (λ (s, i). not (at_end s) && not (peek s == b'\n')) (λ (s, i). (skip s, i + 1))
        {now = (r, 0)} (rw (at_end-nil v) refl))
      refl

not_passed :
    {s : Source} {r : TextReader} {done : Bytes} (line : ℕ)
    → View s r done [] []
    → u32 (line_from 1 done) ≤ line
    → leb r.current_line line ≡ true
not_passed {done} line v h = rw (v.line_is, append-nil done) (ground (arith, h))

stays :
    {s : Source} {r : TextReader} {done : Bytes}
    → View s r done [] []
    → View s (skip_insignificant false (get_line r).1) done [] []
stays {s} {r} {done} v = rw (get_line-nil v) (
    subst (λ d. View s (skip_insignificant false r) d [] []) (append-nil done)
      (skip_insignificant-View v false))

-- At the end of the text the loop goes on for ever, if the reader has not passed the line: no number
-- of rounds ends it. A token on the last line is such a case.
pub find_line-never :
    (fuel line : ℕ) (text : Bytes) {s : Source} {r : TextReader} {done : Bytes}
    → View s r done [] []
    → u32 (line_from 1 done) ≤ line
    → find_line fuel line text r ≡ none
unfolding find_line
find_line-never zero line text v h = rw (not_passed line v h) refl
find_line-never (suc fuel) line text {r} v h =
    rw (not_passed line v h) (find_line-never fuel line (get_line r).0 (stays v) h)

-- `g_warnings` of src/warnings.cpp: a report, or a message for no token.
pub data Warning : Type 0 where
  reported : Report → Warning
  plain : Bytes → Warning

-- `report` is what `report_token` makes of the message, if there is a token.
unfoldable pub warn : Config → Bytes → Option Report → List Warning → List Warning
warn config message none g_warnings =
    if config.do_not_warn then g_warnings else g_warnings ++ plain message ∷ []
warn config message (some report) g_warnings =
    if config.do_not_warn then g_warnings else g_warnings ++ reported report ∷ []

abbrev is_nil : List Warning → Bool
is_nil [] = true
is_nil (w ∷ ws) = false

-- What is printed, and whether the compiler stops then.
unfoldable pub display_warnings : Config → List Warning → List Warning × Bool
display_warnings config g_warnings = (g_warnings, not (is_nil g_warnings) && config.fail_on_warning)

-- After a warning, and none before it, the compiler stops just if it fails on warnings and does not
-- suppress them.
pub display_warnings-warn :
    (config : Config) (message : Bytes) (report : Option Report)
    → (display_warnings config (warn config message report [])).1
      ≡ (config.fail_on_warning && not config.do_not_warn)
unfolding display_warnings warn
display_warnings-warn config message none = ground arith
display_warnings-warn config message (some report) = ground arith
