-- ===== src/Logging/Debugger.antt =====
-- What OutputStringToDebugger of src/Common/Logging.cpp puts out.
use mathlib.Core.List.{append-nil}
use winsock_tut.Base.{
  ℕ, zero, suc, ◌+◌, ◌-◌, ◌*◌, ◌≤◌, ◌<◌, ◌≡◌, ◌≢◌, refl, sym, ap, ◌∙◌, true, List, [], ◌∷◌, ◌++◌,
  some, arith, ltb, leb, if◌then◌else◌, length, take, drop, length-take, length-drop, drop-nil,
  Bool-cases, inl, inr,
}
use winsock_tut.Logging.{
  max_output_len, c_string, wcsncpy_s, min, output_loop, output_string_to_debugger,
}

-- No character is a null.
abbrev pub NoNull : List ℕ → Type 0
NoNull [] = Unit {0}
NoNull (x ∷ xs) = (x ≢ 0) × NoNull xs

abbrev pub concat : List (List ℕ) → List ℕ
concat [] = []
concat (xs ∷ rest) = xs ++ concat rest

-- Each is within what a call can show, and is not empty.
abbrev pub AllShown : List (List ℕ) → Type 0
AllShown [] = Unit {0}
AllShown (xs ∷ rest) = (0 < length xs) × (length xs < max_output_len) × AllShown rest

pub c_string-NoNull : (xs : List ℕ) → NoNull xs → c_string xs ≡ xs
unfolding c_string
c_string-NoNull [] h = refl
c_string-NoNull (x ∷ xs) h = ground (arith, c_string-NoNull xs h.1)

NoNull-take : (n : ℕ) (xs : List ℕ) → NoNull xs → NoNull (take n xs)
NoNull-take zero xs h = tt
NoNull-take (suc n) [] h = tt
NoNull-take (suc n) (x ∷ xs) h = (h.0, NoNull-take n xs h.1)

NoNull-drop : (n : ℕ) (xs : List ℕ) → NoNull xs → NoNull (drop n xs)
NoNull-drop zero xs h = h
NoNull-drop (suc n) [] h = tt
NoNull-drop (suc n) (x ∷ xs) h = NoNull-drop n xs h.1

drop-add : (k n : ℕ) (xs : List ℕ) → drop (k + n) xs ≡ drop n (drop k xs)
drop-add zero n xs = let e : 0 + n ≡ n = omega arith in ap (λ m. drop m xs) e
drop-add (suc k) n [] = drop-nil (suc k + n) [] (omega arith) ∙ sym (drop-nil n [] (omega arith))
drop-add (suc k) n (x ∷ xs) =
    let e : suc k + n ≡ suc (k + n) = omega arith in ap (λ m. drop m (x ∷ xs)) e ∙ drop-add k n xs

take-drop : (n : ℕ) (xs : List ℕ) → take n xs ++ drop n xs ≡ xs
take-drop zero xs = refl
take-drop (suc n) [] = refl
take-drop (suc n) (x ∷ xs) = ap (◌∷◌ x) (take-drop n xs)

-- A chunk of the text.
chunk_lem :
    (k n : ℕ) (text : List ℕ)
    → NoNull text
    → k + n ≤ length text
    → n < max_output_len
    → wcsncpy_s max_output_len (drop k text) n ≡ take n (drop k text)
unfolding wcsncpy_s
chunk_lem k n text clean inside small =
    let same : c_string (take n (drop k text)) ≡ take n (drop k text) =
      c_string-NoNull _ (NoNull-take n _ (NoNull-drop k text clean)) in
    let size : length (take n (drop k text)) ≡ n =
      length-take n (drop k text) (omega (arith, length-drop k text)) in
    let fits : ltb (length (take n (drop k text))) max_output_len ≡ true = ground (arith, size) in
    rw (same, fits) refl

-- The number of characters that a round puts out.
abbrev advance : ℕ → ℕ
advance left = if leb (max_output_len - 1) left then max_output_len - 1 else left

output_loop-next :
    (fuel k : ℕ) (text : List ℕ) (outs : List (List ℕ))
    → NoNull text
    → k < length text
    → output_loop fuel (k + advance (length text - k)) text ≡ some outs
    → output_loop (suc fuel) k text ≡ some (take (advance (length text - k)) (drop k text) ∷ outs)
unfolding output_loop
output_loop-next fuel k text outs clean more rest =
    let left : ℕ = length text - k in
    let in_text : ltb k (length text) ≡ true = ground arith in
    let least : min left (max_output_len - 1) ≡ advance left = ground arith in
    let later : (if leb (max_output_len - 1) left then k + (max_output_len - 1) else k + left)
        ≡ k + advance left =
      ground arith in
    let chunk = chunk_lem k (advance left) text clean (ground arith) (ground arith) in
    rw (in_text, later, rest, least, chunk) refl

joined :
    (rest : List ℕ) (n : ℕ) (outs : List (List ℕ))
    → concat outs ≡ drop n rest
    → concat (take n rest ∷ outs) ≡ rest
joined rest n outs e = ap (◌++◌ (take n rest)) e ∙ take-drop n rest

-- The loop puts the rest of the text out.
output_loop_lem :
    (fuel k : ℕ) (text : List ℕ)
    → NoNull text
    → k ≤ length text
    → (length text - k) + (max_output_len - 1) ≤ (max_output_len - 1) * fuel
    → (outs : List (List ℕ)) × (output_loop fuel k text ≡ some outs)
      × (concat outs ≡ drop k text)
      × AllShown outs
      × (length text - k ≤ (max_output_len - 1) * length outs)
      × ((max_output_len - 1) * length outs < (length text - k) + (max_output_len - 1))
unfolding output_loop
output_loop_lem zero k text clean inside enough = absurd (omega arith)
output_loop_lem (suc fuel) k text clean inside enough = elim (Bool-cases (ltb k (length text))) [
  | inr done ↦
      ([], rw done refl, sym (drop-nil k text (ground arith)), tt, ground arith, ground arith)
  | inl more ↦
      let step = advance (length text - k) in
      let some_left : 0 < step = ground arith in
      let few : step < max_output_len = ground arith in
      let within : k + step ≤ length text = ground arith in
      let (outs, run, all, shown, low, high) =
        output_loop_lem fuel (k + step) text clean within (ground arith) in
      let size : length (take step (drop k text)) ≡ step =
        length-take step (drop k text) (omega (arith, length-drop k text)) in
      (
        take step (drop k text) ∷ outs,
        output_loop-next fuel k text outs clean (ground arith) run,
        joined (drop k text) step outs (all ∙ drop-add k step text),
        (omega (arith, size, some_left), omega (arith, size, few), shown),
        ground arith,
        ground arith,
      )
]

-- OutputStringToDebugger of a text without nulls returns, if it has a round for each 4031 characters and
-- one more: its calls put the whole text out, in order, each call is for less than 4032 characters,
-- and there are no more calls than the text needs, except that an empty text has one.
pub output_string_to_debugger_lem :
    (fuel : ℕ) (text : List ℕ)
    → NoNull text
    → length text + (max_output_len - 1) ≤ (max_output_len - 1) * fuel
    → (outs : List (List ℕ)) × (output_string_to_debugger fuel text ≡ some outs)
      × (concat outs ≡ text)
      × (0 < length text → AllShown outs)
      × (0 < length text
          → ((max_output_len - 1) * length outs < length text + (max_output_len - 1)))
unfolding output_string_to_debugger
output_string_to_debugger_lem fuel text clean enough =
    elim (Bool-cases (ltb (length text) max_output_len)) [
      | inl short ↦ (
        text ∷ [],
        rw (short, c_string-NoNull text clean) refl,
        append-nil text,
        (λ filled. (filled, ground arith, tt)),
        λ filled. ground arith,
      )
      | inr long ↦
          let (outs, run, all, shown, low, high) =
            output_loop_lem fuel 0 text clean (omega arith) (omega arith) in
          (outs, rw long run, all, (λ filled. shown), λ filled. omega arith)
    ]
