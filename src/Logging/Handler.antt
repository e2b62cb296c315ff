-- ===== src/Logging/Handler.antt =====
-- What DefaultLogHandler of src/Common/Logging.cpp puts out for a message.
use winsock_tut.Base.{
  ℕ, ◌≤◌, ◌<◌, ◌≡◌, refl, Bool, ◌++◌, sym, true, false, List, [], ◌∷◌, some, arith, ltb, ◌==◌,
  if◌then◌else◌, length, Bool-cases, inl, inr, i32_negative,
}
use winsock_tut.Outcome.{Outcome, ok, check_failed}
use winsock_tut.Text.{space_length, string_printf}
use winsock_tut.Text.Append.{IsBounded, string_append_v_lem}
use winsock_tut.Logging.{
  max_output_len, Entry, c_string, after_last, utf8_to_wide, output_string_to_debugger, Shown,
  on_stderr, on_debugger, debugged, shown, default_log_handler,
}
use winsock_tut.Logging.Debugger.{NoNull, c_string-NoNull}

-- What is documented of MultiByteToWideChar, for the wide characters of a text: the call with NULL
-- counts them, and a call with room for them writes them. They are not more than the bytes, and none
-- is a null if none of the bytes is.
pub record IsWide (multi_byte_to_wide_char : List ℕ → ℕ → ℕ × List ℕ) (wide : List ℕ → List ℕ)
    : Type 0 where
  pub counts : (s : List ℕ) → (multi_byte_to_wide_char s 0).0 ≡ length (wide s)
  pub writes : (s : List ℕ) → (multi_byte_to_wide_char s (length (wide s))).1 ≡ wide s
  pub fewer : (s : List ℕ) → length (wide s) ≤ length s
  pub clean : (s : List ℕ) → NoNull s → NoNull (wide s)

length-zero : (xs : List ℕ) → length xs ≤ 0 → xs ≡ []
length-zero [] h = refl
length-zero (x ∷ xs) h = absurd (omega arith)

module _ (mb : List ℕ → ℕ → ℕ × List ℕ) (wide : List ℕ → List ℕ) (known : IsWide mb wide) where
  utf8_to_wide_lem : (s : List ℕ) → length s < 1024 → utf8_to_wide mb s ≡ wide s
  unfolding utf8_to_wide
  utf8_to_wide_lem s small =
      let low : i32_negative (length (wide s)) ≡ false = ground (arith, known.fewer s) in
      elim (Bool-cases (length (wide s) == 0)) [
        | inl empty ↦ rw (known.counts s, low, empty) (sym (length-zero (wide s) (ground arith)))
        | inr filled ↦ rw (known.counts s, low, filled) (known.writes s)
      ]

  output_lem :
      (fuel : ℕ) (s : List ℕ)
      → NoNull s
      → length s < 1024
      → output_string_to_debugger fuel (utf8_to_wide mb s) ≡ some (wide s ∷ [])
  unfolding output_string_to_debugger
  output_lem fuel s clean small =
      let short : ltb (length (wide s)) max_output_len ≡ true = ground (arith, known.fewer s) in
      rw (utf8_to_wide_lem s small, short, c_string-NoNull (wide s) (known.clean s clean)) refl

  -- What a line comes to that was formatted.
  abbrev pub line_shown : Bool → List ℕ → Shown
  line_shown debug msg = if debug then on_stderr (msg ++ 10 ∷ []) else on_debugger (wide msg ∷ [])

  shown_lem :
      (debug : Bool) (fuel : ℕ) (s : List ℕ)
      → NoNull s
      → length s < 1024
      → shown debug mb fuel s ≡ ok (line_shown debug s)
  unfolding shown debugged
  shown_lem true fuel s clean small = rw (c_string-NoNull s clean) refl
  shown_lem false fuel s clean small = rw (output_lem fuel s clean small) refl

  -- DefaultLogHandler puts the whole line out if it has less than 1024 characters: on stderr with a line
  -- feed where _DEBUG is defined, and in one call of OutputDebugStringW where it is not. For a longer
  -- line the program ends, if the handler of invalid parameters does not return, and the empty line is
  -- put out, if it does. So the loop of OutputStringToDebugger is never entered for a message.
  pub default_log_handler_lem :
      (debug returns : Bool) (vsprintf_s : Entry → ℕ → Outcome (ℕ × List ℕ)) (text : List ℕ)
      (fuel : ℕ) (e : Entry)
      → IsBounded returns
          (vsprintf_s (record e {
            filename = after_last e.filename e.filename;
            message = c_string e.message;
          }))
          text
      → NoNull text
      → default_log_handler debug mb vsprintf_s fuel e ≡ (
          if ltb (length text) space_length
          then ok (line_shown debug text)
          else if returns
          then ok (line_shown debug [])
          else check_failed)
  unfolding default_log_handler string_printf
  default_log_handler_lem debug returns vsprintf_s text fuel e bounded clean =
      let line : Entry = record e {
        filename = after_last e.filename e.filename;
        message = c_string e.message;
      } in
      let printed = string_append_v_lem (vsprintf_s line) text returns [] bounded in
      elim (Bool-cases (ltb (length text) space_length)) [
        | inl small ↦ rw (printed, small) (shown_lem debug fuel text clean (ground arith))
        | inr large ↦ elim (Bool-cases returns) [
          | inl back ↦ rw (printed, large, back) (shown_lem debug fuel [] tt (omega arith))
          | inr ended ↦ rw (printed, large, ended) refl
        ]
      ]
