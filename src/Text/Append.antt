-- ===== src/Text/Append.antt =====
-- What StringAppendV of src/Common/StringUtil.cpp makes of a text.
use winsock_tut.Base.{
  ℕ, ◌+◌, ◌-◌, ◌%◌, ◌^◌, ◌≤◌, ◌<◌, ◌≡◌, refl, Bool, true, false, List, [], ◌∷◌, ◌++◌, arith, ltb,
  if◌then◌else◌, length, take, ap, Bool-cases, inl, inr, i32_negative,
}
use winsock_tut.Outcome.{Outcome, ok, check_failed}
use winsock_tut.Text.{space_length, append_large, string_append_v}

take-length-append : (xs ys : List ℕ) → take (length xs) (xs ++ ys) ≡ xs
take-length-append [] ys = refl
take-length-append (x ∷ xs) ys = ap (◌∷◌ x) (take-length-append xs ys)

-- A call of vsprintf_s with a buffer that is null or too small calls the handler of invalid parameters,
-- which ends the program by default; where a handler is set that returns, the result is -1.
abbrev pub Refused : Bool → Outcome (ℕ × List ℕ) → Type 0
Refused true o = (buf : List ℕ) × (o ≡ ok (2 ^ 32 - 1, buf))
Refused false o = o ≡ check_failed

-- What is documented of vsprintf_s, where the flag says whether the handler of invalid parameters returns:
-- a text with its closing null is written if the buffer has room for both, and refused if not.
pub record IsBounded (returns : Bool) (vsprintf_s : ℕ → Outcome (ℕ × List ℕ)) (text : List ℕ)
    : Type 0 where
  pub writes :
      (size : ℕ)
      → length text < size
      → (rest : List ℕ) × (vsprintf_s size ≡ ok (length text, text ++ rest))
  pub refuses : (size : ℕ) → size ≤ length text → Refused returns (vsprintf_s size)

-- What is documented of the standard's vsnprintf: the length of the text comes back in any case.
pub record IsMeasured (vsnprintf : ℕ → Outcome (ℕ × List ℕ)) (text : List ℕ) : Type 0 where
  pub writes :
      (size : ℕ)
      → length text < size
      → (rest : List ℕ) × (vsnprintf size ≡ ok (length text, text ++ rest))
  pub measures : (size : ℕ) → (buf : List ℕ) × (vsnprintf size ≡ ok (length text, buf))

-- What becomes of a text that is too long.
abbrev pub dropped : Bool → List ℕ → Outcome (List ℕ)
dropped returns dst = if returns then ok dst else check_failed

module _ (print : ℕ → Outcome (ℕ × List ℕ)) (text : List ℕ) where
  append_small :
      (dst rest : List ℕ)
      → length text < space_length
      → print space_length ≡ ok (length text, text ++ rest)
      → string_append_v print dst ≡ ok (dst ++ text)
  unfolding string_append_v
  append_small dst rest small writes =
      let low : i32_negative (length text) ≡ false = ground arith in
      let fits : ltb (length text) space_length ≡ true = ground arith in
      rw (writes, low, fits, take-length-append text rest) refl

  refused_lem :
      (returns : Bool) (dst : List ℕ)
      → Refused returns (print space_length)
      → Refused returns (print 0)
      → string_append_v print dst ≡ dropped returns dst
  unfolding string_append_v
  refused_lem true dst (b, first) (c, second) = rw (first, second) refl
  refused_lem false dst ended second = rw ended refl

  -- StringAppendV appends a text of less than 1024 characters. A longer one ends the program, if the
  -- handler of invalid parameters does not return, and is dropped, if it does: vsprintf_s then gives -1
  -- for the small buffer and for the call that is to measure the text.
  pub string_append_v_lem :
      (returns : Bool) (dst : List ℕ)
      → IsBounded returns print text
      → string_append_v print dst
        ≡ (if ltb (length text) space_length then ok (dst ++ text) else dropped returns dst)
  string_append_v_lem returns dst known = elim (Bool-cases (ltb (length text) space_length)) [
    | inl fits ↦
        let small : length text < space_length = ground arith in
        let (rest, writes) = known.writes space_length small in
        rw fits (append_small dst rest small writes)
    | inr large ↦ rw large (
        refused_lem returns dst (known.refuses space_length (ground arith))
          (known.refuses 0 (omega arith)))
  ]

  -- With the standard's vsnprintf in its place, StringAppendV appends each text that an int can measure.
  pub string_append_v-measured :
      (dst : List ℕ)
      → length text + 1 < 2 ^ 31
      → IsMeasured print text
      → string_append_v print dst ≡ ok (dst ++ text)
  unfolding string_append_v append_large
  string_append_v-measured dst fits known = elim (Bool-cases (ltb (length text) space_length)) [
    | inl small ↦
        let (rest, writes) = known.writes space_length (ground arith) in
        append_small dst rest (ground arith) writes
    | inr large ↦
        let n = length text in
        let (buf, measured) = known.measures space_length in
        let (rest, writes) = known.writes ((n + 1) % 2 ^ 32) (omega arith) in
        let low : i32_negative n ≡ false = ground arith in
        let room : ltb n ((n + 1) % 2 ^ 32) ≡ true = ground arith in
        let small : i32_negative ((n + 1) % 2 ^ 32) ≡ false = ground arith in
        rw (measured, large, low, writes, low, room, small, take-length-append text rest) refl
  ]
