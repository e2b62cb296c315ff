-- ===== src/Logging/Tests.antt =====
-- The theorems of Logging at inputs.
use winsock_tut.Base.{
  ℕ, zero, suc, ap, ◌+◌, ◌-◌, ◌*◌, ◌<◌, ◌≡◌, refl, false, List, [], ◌∷◌, some, arith, ltb,
  if◌then◌else◌, length,
}
use winsock_tut.Outcome.{ok, check_failed}
use winsock_tut.Text.{space_length}
use winsock_tut.Text.Tests.{bounded, bounded-IsBounded}
use winsock_tut.Logging.{max_output_len, Entry, output_string_to_debugger, default_log_handler}
use winsock_tut.Logging.Debugger.{NoNull, concat, AllShown, output_string_to_debugger_lem}
use winsock_tut.Logging.Handler.{IsWide, line_shown, default_log_handler_lem}

abbrev word : List ℕ
word = 111 ∷ 107 ∷ []

word-NoNull : NoNull word
word-NoNull = ((λ e. omega (arith, e)), ((λ e. omega (arith, e)), tt))

-- A text of one character many times.
filled : ℕ → List ℕ
filled zero = []
filled (suc n) = 97 ∷ filled n

length-filled : (n : ℕ) → length (filled n) ≡ n
unfolding filled
length-filled zero = refl
length-filled (suc n) = ap suc (length-filled n)

filled-NoNull : (n : ℕ) → NoNull (filled n)
unfolding filled
filled-NoNull zero = tt
filled-NoNull (suc n) = ((λ e. omega (arith, e)), filled-NoNull n)

output_string_to_debugger_lem_example :
    (outs : List (List ℕ)) × (output_string_to_debugger 3 (filled 5000) ≡ some outs)
    × (concat outs ≡ filled 5000)
    × (0 < length (filled 5000) → AllShown outs)
    × (0 < length (filled 5000)
        → ((max_output_len - 1) * length outs < length (filled 5000) + (max_output_len - 1)))
output_string_to_debugger_lem_example =
    output_string_to_debugger_lem 3 (filled 5000) (filled-NoNull 5000)
      (omega (arith, length-filled 5000))

-- Each byte is a character.
abbrev widen : List ℕ → ℕ → ℕ × List ℕ
widen s size = (length s, s)

widen-IsWide : IsWide widen (λ s. s)
widen-IsWide = record {
  counts = λ s. refl;
  writes = λ s. refl;
  fewer = λ s. omega arith;
  clean = λ s h. h;
}

-- The path a\b and an empty message.
abbrev entry : Entry
entry = record { level = 1; filename = 97 ∷ 92 ∷ 98 ∷ []; line = 7; message = [] }

default_log_handler_lem_example :
    default_log_handler false widen (λ e. bounded false word) 2 entry ≡ (
      if ltb (length word) space_length
      then ok (line_shown widen (λ s. s) widen-IsWide false word)
      else check_failed)
default_log_handler_lem_example =
    default_log_handler_lem widen (λ s. s) widen-IsWide false false (λ e. bounded false word) word 2
      entry (bounded-IsBounded false word) word-NoNull
