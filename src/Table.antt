-- ===== src/Table.antt =====
-- Vectors of entries with a key, as the pollers of src/ search and compact their descriptors.
use winsock_tut.Base.{
  ℕ, ◌≤◌, ◌≡◌, ◌≢◌, refl, Bool, true, false, List, [], ◌∷◌, ◌++◌, Option, none, some, arith, ◌==◌,
  if◌then◌else◌, length,
}

-- An entry type has a descriptor, and its invalid value marks the entry as retired.
module _ {A : Type 0} (fd_of : A → ℕ) where
  -- FindEntry: the first entry with the descriptor.
  unfoldable pub find_entry : ℕ → List A → Option A
  find_entry fd [] = none
  find_entry fd (e ∷ es) = if fd_of e == fd then some e else find_entry fd es

  -- A write through the pointer that FindEntry returns.
  unfoldable pub update_entry : ℕ → (A → A) → List A → List A
  update_entry fd f [] = []
  update_entry fd f (e ∷ es) = if fd_of e == fd then f e ∷ es else e ∷ update_entry fd f es

  -- std::remove_if for one descriptor, and the erase of the tail.
  unfoldable pub remove_all : ℕ → List A → List A
  remove_all fd [] = []
  remove_all fd (e ∷ es) = if fd_of e == fd then remove_all fd es else e ∷ remove_all fd es

  -- Is the descriptor in the vector?
  unfoldable pub has_entry : ℕ → List A → Bool
  has_entry fd [] = false
  has_entry fd (e ∷ es) = if fd_of e == fd then true else has_entry fd es

  pub length-update_entry :
      (fd : ℕ) (f : A → A) (es : List A) → length (update_entry fd f es) ≡ length es
  unfolding update_entry
  length-update_entry fd f [] = refl
  length-update_entry fd f (e ∷ es) = ground (arith, length-update_entry fd f es)

  pub length-remove_all : (fd : ℕ) (es : List A) → length (remove_all fd es) ≤ length es
  unfolding remove_all
  length-remove_all fd [] = omega arith
  length-remove_all fd (e ∷ es) = ground (arith, length-remove_all fd es)

  pub has_entry-remove_all : (fd : ℕ) (es : List A) → has_entry fd (remove_all fd es) ≡ false
  unfolding has_entry remove_all
  has_entry-remove_all fd [] = refl
  has_entry-remove_all fd (e ∷ es) = ground (arith, has_entry-remove_all fd es)

  pub find_entry-remove_all :
      (fd k : ℕ) (es : List A) → k ≢ fd → find_entry k (remove_all fd es) ≡ find_entry k es
  unfolding find_entry remove_all
  find_entry-remove_all fd k [] h = refl
  find_entry-remove_all fd k (e ∷ es) h = ground (arith, find_entry-remove_all fd k es h)

  pub find_entry-remove_all_self : (fd : ℕ) (es : List A) → find_entry fd (remove_all fd es) ≡ none
  unfolding find_entry remove_all
  find_entry-remove_all_self fd [] = refl
  find_entry-remove_all_self fd (e ∷ es) = ground (arith, find_entry-remove_all_self fd es)

  pub has_entry-find_entry :
      (fd : ℕ) (es : List A) → find_entry fd es ≡ none → has_entry fd es ≡ false
  unfolding find_entry has_entry
  has_entry-find_entry fd [] h = refl
  has_entry-find_entry fd (e ∷ es) h = ground (arith, has_entry-find_entry fd es)

  pub find_entry-missing :
      (fd : ℕ) (es : List A) → has_entry fd es ≡ false → find_entry fd es ≡ none
  unfolding find_entry has_entry
  find_entry-missing fd [] h = refl
  find_entry-missing fd (e ∷ es) h = ground (arith, find_entry-missing fd es)

  pub has_entry-found :
      (fd : ℕ) (e : A) (es : List A) → find_entry fd es ≡ some e → has_entry fd es ≡ true
  unfolding find_entry has_entry
  has_entry-found fd e [] h = absurd (ground arith)
  has_entry-found fd e (x ∷ es) h = ground (arith, has_entry-found fd e es)

  pub find_entry-append :
      (fd k : ℕ) (x : A) (es : List A)
      → fd_of x ≡ fd
      → find_entry fd es ≡ none
      → find_entry k (es ++ x ∷ []) ≡ (if fd == k then some x else find_entry k es)
  unfolding find_entry
  find_entry-append fd k x [] h none' = ground arith
  find_entry-append fd k x (e ∷ es) h none' = ground (arith, find_entry-append fd k x es h)

  module _ (f : A → A) (keeps : (e : A) → fd_of (f e) ≡ fd_of e) where
    pub find_entry-update_entry :
        (fd k : ℕ) (es : List A) (e : A)
        → find_entry fd es ≡ some e
        → find_entry k (update_entry fd f es) ≡ (if fd == k then some (f e) else find_entry k es)
    unfolding find_entry update_entry
    find_entry-update_entry fd k [] e found = cc
    find_entry-update_entry fd k (x ∷ es) e found =
        ground (arith, keeps x, find_entry-update_entry fd k es e)
