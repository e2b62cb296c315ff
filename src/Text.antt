-- ===== src/Text.antt =====
-- src/Common/StringUtil.cpp.
--
-- vsprintf_s is a parameter: for the size of the buffer, which is 0 for the call with NULL, it gives
-- its result and what stands in the buffer then, or it ends the program, as the handler of invalid
-- parameters does by default. The format and the arguments are fixed. An int is its bit pattern, and `va_copy` gives the same arguments again. A length that overflows the int, for
-- which `new` fails, is taken for a buffer that is too small.
pub mod Append
pub mod Tests
use winsock_tut.Outcome.{Outcome, ok, ◌>>=◌}
use winsock_tut.Base.{
  ℕ, ◌+◌, ◌%◌, ◌^◌, not, ◌&&◌, ◌||◌, List, [], ◌++◌, ltb, if◌then◌else◌, take, i32_negative,
}

-- kSpaceLength
abbrev pub space_length : ℕ
space_length = 1024

module _ (vsprintf_s : ℕ → Outcome (ℕ × List ℕ)) where
  -- The end of StringAppendV, on a buffer for a text of `result` characters.
  unfoldable pub append_large : ℕ → List ℕ → Outcome (List ℕ)
  append_large result dst =
      let length' : ℕ = (result + 1) % 2 ^ 32 in
      vsprintf_s length' >>= λ t.
      if not (i32_negative t.0) && (ltb t.0 length' && not (i32_negative length'))
      then ok (dst ++ take t.0 t.1)
      else ok dst

  -- StringAppendV: the new contents of `dst`.
  unfoldable pub string_append_v : List ℕ → Outcome (List ℕ)
  string_append_v dst = vsprintf_s space_length >>= λ s.
      if i32_negative s.0 || ltb s.0 space_length
      then (if not (i32_negative s.0)
          then ok (dst ++ take s.0 s.1)
          else (vsprintf_s 0 >>= λ m. if i32_negative m.0 then ok dst else append_large m.0 dst))
      else append_large s.0 dst

  -- StringPrintf
  unfoldable pub string_printf : Outcome (List ℕ)
  string_printf = string_append_v []

  -- SStringPrintf: the new contents of `dst`, which it clears first.
  unfoldable pub s_string_printf : List ℕ → Outcome (List ℕ)
  s_string_printf dst = string_append_v []
