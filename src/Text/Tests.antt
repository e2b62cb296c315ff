-- ===== src/Text/Tests.antt =====
-- The theorems of Text at inputs.
use winsock_tut.Base.{
  ℕ, ◌-◌, ◌^◌, ◌≡◌, refl, Bool, true, false, List, [], ◌∷◌, ◌++◌, arith, ltb, if◌then◌else◌, length,
}
use winsock_tut.Outcome.{Outcome, ok, check_failed}
use winsock_tut.Text.{space_length, string_append_v}
use winsock_tut.Text.Append.{IsBounded, dropped, string_append_v_lem}

-- A vsprintf_s for one text.
abbrev pub bounded : Bool → List ℕ → ℕ → Outcome (ℕ × List ℕ)
bounded returns text size =
    if ltb (length text) size
    then ok (length text, text ++ 0 ∷ [])
    else if returns
    then ok (2 ^ 32 - 1, [])
    else check_failed

pub bounded-IsBounded :
    (returns : Bool) (text : List ℕ) → IsBounded returns (bounded returns text) text
bounded-IsBounded true text = record {
  writes = λ size room.
      let fits : ltb (length text) size ≡ true = ground arith in rw fits (0 ∷ [], refl);
  refuses =
      λ size full. let large : ltb (length text) size ≡ false = ground arith in rw large ([], refl);
}
bounded-IsBounded false text = record {
  writes = λ size room.
      let fits : ltb (length text) size ≡ true = ground arith in rw fits (0 ∷ [], refl);
  refuses = λ size full. let large : ltb (length text) size ≡ false = ground arith in rw large refl;
}

string_append_v_lem_example : string_append_v (bounded false (111 ∷ 107 ∷ [])) (58 ∷ []) ≡ (
    if ltb (length {A = ℕ} (111 ∷ 107 ∷ [])) space_length
    then ok (58 ∷ 111 ∷ 107 ∷ [])
    else dropped false (58 ∷ []))
string_append_v_lem_example =
    string_append_v_lem (bounded false (111 ∷ 107 ∷ [])) (111 ∷ 107 ∷ []) false (58 ∷ [])
      (bounded-IsBounded false (111 ∷ 107 ∷ []))
