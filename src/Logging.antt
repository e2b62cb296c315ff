-- ===== src/Logging.antt =====
-- The default handler of src/Common/Logging.cpp, in the builds with and without _DEBUG.
--
-- A string is the list of its characters. What is written to stderr, or what OutputDebugStringW is
-- called with, in the order of the calls, is the result. MultiByteToWideChar is a parameter: for the room in the buffer, which is 0
-- for the call with NULL, it gives its result and what the buffer holds then. The formatting of
-- vsprintf_s is a parameter, too.
pub mod Debugger
pub mod Handler
mod Tests
use winsock_tut.Base.{
  ℕ, zero, suc, ◌+◌, ◌-◌, Bool, ◌++◌, not, ◌&&◌, List, [], ◌∷◌, Option, none, some, map, ltb, leb,
  ◌==◌, if◌then◌else◌, length, take, drop, i32_negative,
}
use mathlib.Core.Option
use winsock_tut.Outcome.{Outcome, ok, out_of_fuel, ◌>>=◌}
use winsock_tut.Text.{string_printf}

abbrev pub max_output_len : ℕ
max_output_len = 4032

-- The string that a pointer to characters stands for: up to the first null.
unfoldable pub c_string : List ℕ → List ℕ
c_string [] = []
c_string (x ∷ xs) = let rest = c_string xs in if x == 0 then [] else x ∷ rest

-- wcsncpy_s of at most `count` characters into a buffer of `size` characters, which it leaves empty
-- where they and the null do not fit.
unfoldable pub wcsncpy_s : ℕ → List ℕ → ℕ → List ℕ
wcsncpy_s size source count =
    let copied = c_string (take count source) in if ltb (length copied) size then copied else []

-- std::min
abbrev pub min : ℕ → ℕ → ℕ
min a b = if ltb b a then b else a

-- Utf8ToWide
unfoldable pub utf8_to_wide : (List ℕ → ℕ → ℕ × List ℕ) → List ℕ → List ℕ
utf8_to_wide multi_byte_to_wide_char message =
    let (count, none_written) = multi_byte_to_wide_char message 0 in
    if not (i32_negative count) && not (count == 0)
    then (multi_byte_to_wide_char message count).1
    else []

-- The loop of OutputStringToDebugger.
unfoldable pub output_loop : ℕ → ℕ → List ℕ → Option (List (List ℕ))
output_loop zero outputed text = none
output_loop (suc fuel) outputed text =
    let left : ℕ = length text - outputed in
    let buf = wcsncpy_s max_output_len (drop outputed text) (min left (max_output_len - 1)) in
    let next =
      output_loop fuel
        (if leb (max_output_len - 1) left then outputed + (max_output_len - 1) else outputed + left)
        text in
    if ltb outputed (length text) then Option.map (λ rest. buf ∷ rest) next else some []

-- OutputStringToDebugger after Utf8ToWide
unfoldable pub output_string_to_debugger : ℕ → List ℕ → Option (List (List ℕ))
output_string_to_debugger fuel text =
    if ltb (length text) max_output_len then some (c_string text ∷ []) else output_loop fuel 0 text

-- The part of a path after its last backslash, or the path if it has none.
unfoldable pub after_last : List ℕ → List ℕ → List ℕ
after_last whole [] = whole
after_last whole (x ∷ xs) = if x == 92 then after_last xs xs else after_last whole xs

-- What the format "[%s %s:%d] %s\n" is filled with; the level is the name at its place in level_names.
pub record Entry : Type 0 where
  pub level : ℕ
  pub filename : List ℕ
  pub line : ℕ
  pub message : List ℕ

-- What is put out: a text on stderr, or the calls of OutputDebugStringW.
pub data Shown : Type 0 where
  on_stderr : List ℕ → Shown
  on_debugger : List (List ℕ) → Shown

-- OutputStringToDebugger, whose loop is on fuel.
unfoldable pub debugged : Option (List (List ℕ)) → Outcome Shown
debugged none = out_of_fuel
debugged (some outs) = ok (on_debugger outs)

-- The end of DefaultLogHandler; the flag is whether _DEBUG is defined. "%s\n" prints the string up to
-- its first null and a line feed.
unfoldable pub shown : Bool → (List ℕ → ℕ → ℕ × List ℕ) → ℕ → List ℕ → Outcome Shown
shown debug multi_byte_to_wide_char fuel msg =
    if debug
    then ok (on_stderr (c_string msg ++ 10 ∷ []))
    else debugged (output_string_to_debugger fuel (utf8_to_wide multi_byte_to_wide_char msg))

-- DefaultLogHandler
unfoldable pub default_log_handler :
    Bool
    → (List ℕ → ℕ → ℕ × List ℕ)
    → (Entry → ℕ → Outcome (ℕ × List ℕ))
    → ℕ
    → Entry
    → Outcome Shown
default_log_handler debug multi_byte_to_wide_char vsprintf_s fuel e =
    let line : Entry = record e {
      filename = after_last e.filename e.filename;
      message = c_string e.message;
    } in
    string_printf (vsprintf_s line) >>= shown debug multi_byte_to_wide_char fuel
