-- ===== src/Heap.antt =====
-- The objects that the program makes by `new` and ends by `delete`, under their addresses.
--
-- A pointer is an address, with 0 for the null pointer; `new` takes an address that no object has,
-- and what the program reads or writes through a pointer needs the object to be there.
use winsock_tut.Base.{
  ℕ, suc, ◌≤◌, ◌<◌, ◌≡◌, ◌≢◌, ◌⊎◌, refl, true, false, List, [], ◌∷◌, ◌++◌, Option, none, some,
  arith, ◌==◌, leb, if◌then◌else◌, Bool-cases, inl, inr, some_eq, sym, ap, ◌∙◌,
}
use winsock_tut.Outcome.{Outcome, ok, bad_pointer, Ends}
use winsock_tut.Table.{update_entry, remove_all, has_entry}

abbrev pub Heap : Type 0 → Type 0
Heap A = List (ℕ × A)

-- What a read through a pointer gives.
abbrev pub found : {A : Type 0} → Option A → Outcome A
found none = bad_pointer
found (some x) = ok x

pub found-Ends : {A : Type 0} (o : Option A) → Ends (found o)
found-Ends none = tt
found-Ends (some x) = tt

module _ {A : Type 0} where
  abbrev pub address : ℕ × A → ℕ
  address e = e.0

  -- The address that `new` takes: it is above all that are in use.
  unfoldable pub fresh : Heap A → ℕ
  fresh [] = 1
  fresh (e ∷ es) = if leb (fresh es) e.0 then suc e.0 else fresh es

  unfoldable pub read : ℕ → Heap A → Option A
  read a [] = none
  read a (e ∷ es) = if e.0 == a then some e.1 else read a es

  abbrev pub write : ℕ → (A → A) → Heap A → Heap A
  write a f = update_entry address a (λ e. (e.0, f e.1))

  abbrev pub delete : ℕ → Heap A → Heap A
  delete a = remove_all address a

  Above : ℕ → Heap A → Type 0
  Above a [] = Unit {0}
  Above a (e ∷ es) = (e.0 < a) × Above a es

  Above-mono : (a b : ℕ) (es : Heap A) → a ≤ b → Above a es → Above b es
  unfolding Above
  Above-mono a b [] h k = tt
  Above-mono a b (e ∷ es) h k = (omega (arith, k.0), Above-mono a b es h k.1)

  Above-fresh : (es : Heap A) → Above (fresh es) es
  unfolding Above fresh
  Above-fresh [] = tt
  Above-fresh (e ∷ es) = ground (arith, Above-fresh es, Above-mono (fresh es) (suc e.0) es)

  has_entry-Above : (a : ℕ) (es : Heap A) → Above a es → has_entry address a es ≡ false
  unfolding Above has_entry
  has_entry-Above a [] h = refl
  has_entry-Above a (e ∷ es) h = ground (arith, h.0, has_entry-Above a es h.1)

  pub has_entry-fresh : (es : Heap A) → has_entry address (fresh es) es ≡ false
  has_entry-fresh es = has_entry-Above (fresh es) es (Above-fresh es)

  read-missing : (a : ℕ) (es : Heap A) → has_entry address a es ≡ false → read a es ≡ none
  unfolding read has_entry
  read-missing a [] h = refl
  read-missing a (e ∷ es) h = ground (arith, read-missing a es)

  pub read-fresh : (es : Heap A) → read (fresh es) es ≡ none
  read-fresh es = read-missing (fresh es) es (has_entry-fresh es)

  pub fresh-ne-zero : (es : Heap A) → fresh es ≢ 0
  unfolding fresh
  fresh-ne-zero [] e = omega (arith, e)
  fresh-ne-zero (x ∷ es) e = ground (arith, fresh-ne-zero es)

  pub has_entry-read :
      (a : ℕ) (x : A) (es : Heap A) → read a es ≡ some x → has_entry address a es ≡ true
  unfolding has_entry read
  has_entry-read a x [] h = absurd (ground arith)
  has_entry-read a x (e ∷ es) h = ground (arith, has_entry-read a x es)

  pub read-append :
      (a : ℕ) (x : A) (es : Heap A)
      → has_entry address a es ≡ false
      → read a (es ++ (a, x) ∷ []) ≡ some x
  unfolding has_entry read
  read-append a x [] h = ground arith
  read-append a x (e ∷ es) h = ground (arith, read-append a x es)

  pub read-append_ne :
      (a k : ℕ) (x : A) (es : Heap A) → k ≢ a → read k (es ++ (a, x) ∷ []) ≡ read k es
  unfolding read
  read-append_ne a k x [] h = ground arith
  read-append_ne a k x (e ∷ es) h = ground (arith, read-append_ne a k x es h)

  pub read-append_old :
      (a k : ℕ) (x y : A) (es : Heap A) → read k es ≡ some y → read k (es ++ (a, x) ∷ []) ≡ some y
  unfolding read
  read-append_old a k x y [] h = absurd (ground arith)
  read-append_old a k x y (e ∷ es) h = ground (arith, read-append_old a k x y es)

  pub write-append :
      (a : ℕ) (f : A → A) (x : A) (es : Heap A)
      → has_entry address a es ≡ false
      → write a f (es ++ (a, x) ∷ []) ≡ es ++ (a, f x) ∷ []
  unfolding has_entry update_entry
  write-append a f x [] h = ground arith
  write-append a f x (e ∷ es) h = ground (arith, write-append a f x es)

  -- An object in the longer heap is the new one or an old one.
  pub read-append_cases :
      (a k : ℕ) (x y : A) (es : Heap A)
      → read k (es ++ (a, x) ∷ []) ≡ some y
      → (read k es ≡ some y) ⊎ (k ≡ a) × (x ≡ y)
  unfolding read
  read-append_cases a k x y [] h = ground arith
  read-append_cases a k x y (e ∷ es) h = ground (arith, read-append_cases a k x y es)

  pub delete-append :
      (a : ℕ) (x : A) (es : Heap A)
      → has_entry address a es ≡ false
      → delete a (es ++ (a, x) ∷ []) ≡ es
  unfolding has_entry remove_all
  delete-append a x [] h = ground arith
  delete-append a x (e ∷ es) h = ground (arith, delete-append a x es)

  pub read-delete : (a : ℕ) (es : Heap A) → read a (delete a es) ≡ none
  unfolding read remove_all
  read-delete a [] = refl
  read-delete a (e ∷ es) = ground (arith, read-delete a es)

  pub read-delete_ne : (a k : ℕ) (es : Heap A) → k ≢ a → read k (delete a es) ≡ read k es
  unfolding read remove_all
  read-delete_ne a k [] h = refl
  read-delete_ne a k (e ∷ es) h = ground (arith, read-delete_ne a k es h)

  pub read-write :
      (a : ℕ) (f : A → A) (x : A) (es : Heap A)
      → read a es ≡ some x
      → read a (write a f es) ≡ some (f x)
  unfolding read update_entry
  read-write a f x [] h = absurd (ground arith)
  read-write a f x (e ∷ es) h = ground (arith, read-write a f x es)

  pub read-write_ne :
      (a k : ℕ) (f : A → A) (es : Heap A) → k ≢ a → read k (write a f es) ≡ read k es
  unfolding read update_entry
  read-write_ne a k f [] h = refl
  read-write_ne a k f (e ∷ es) h = ground (arith, read-write_ne a k f es h)

  -- Deleting an object makes a write to it before go away.
  pub delete-write : (a : ℕ) (f : A → A) (es : Heap A) → delete a (write a f es) ≡ delete a es
  unfolding remove_all update_entry
  delete-write a f [] = refl
  delete-write a f (e ∷ es) = ground (arith, delete-write a f es)

  -- An object after a write was there before, and what the write keeps is the same.
  pub read-write_old :
      {B : Type 0} (a k : ℕ) (f : A → A) (g : A → B)
      → ((y : A) → g (f y) ≡ g y)
      → (x : A) (es : Heap A) → read k (write a f es) ≡ some x
      → (y : A) × (read k es ≡ some y) × (g x ≡ g y)
  unfolding read update_entry
  read-write_old a k f g keeps x [] h = absurd (ground arith)
  read-write_old a k f g keeps x (e ∷ es) h = elim (Bool-cases (e.0 == a)) [
    | inl hit ↦ elim (Bool-cases (e.0 == k)) [
      | inl here ↦
          (e.1, rw here refl, sym (ap g (some_eq (f e.1) x (rw (hit, here) at h))) ∙ keeps e.1)
      | inr there ↦ (x, rw there (rw (hit, there) at h), refl)
    ]
    | inr miss ↦ elim (Bool-cases (e.0 == k)) [
      | inl here ↦ (e.1, rw here refl, sym (ap g (some_eq e.1 x (rw (miss, here) at h))))
      | inr there ↦
          let (y, old, same) = read-write_old a k f g keeps x es (rw (miss, there) at h) in
          (y, rw there old, same)
    ]
  ]
