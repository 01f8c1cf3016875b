-- ===== src/Provider/Indices.antt =====
-- model/provider: the accumulators by index, and their order.
use simple_agent_framework.Prelude.{
  ◌≡◌, refl, ap, sym, ◌∙◌, true, false, if◌then◌else◌, List, [], ◌∷◌, Option, none, some,
  Bool-cases, inl, inr, arith,
}
use simple_agent_framework.Prelude.Int.{ℤ, pos, negsuc, int_eq}
use simple_agent_framework.Provider.Transport.{
  int_le, find_index, update_index, insert_sorted, by_index,
}

pub int_eq_refl : (i : ℤ) → int_eq i i ≡ true
int_eq_refl (pos n) = ground arith
int_eq_refl (negsuc n) = ground arith

pub int_eq-≡ : (i j : ℤ) → int_eq i j ≡ true → i ≡ j
int_eq-≡ (pos m) (pos n) h = ap pos (ground (arith, h))
int_eq-≡ (negsuc m) (negsuc n) h = ap negsuc (ground (arith, h))
int_eq-≡ (pos m) (negsuc n) h = absurd (ground (arith, h))
int_eq-≡ (negsuc m) (pos n) h = absurd (ground (arith, h))

int_eq_comm : (i j : ℤ) → int_eq i j ≡ int_eq j i
int_eq_comm (pos m) (pos n) = ground arith
int_eq_comm (negsuc m) (negsuc n) = ground arith
int_eq_comm (pos m) (negsuc n) = refl
int_eq_comm (negsuc m) (pos n) = refl

-- Two integers that both equal a third.
pub int_eq_both : (i j k : ℤ) → int_eq j k ≡ true → int_eq i k ≡ true → int_eq j i ≡ true
int_eq_both i j k h h' = ap (int_eq j) (int_eq-≡ i k h' ∙ sym (int_eq-≡ j k h)) ∙ int_eq_refl j

int_le_refl : (i : ℤ) → int_le i i ≡ true
int_le_refl (pos n) = ground arith
int_le_refl (negsuc n) = ground arith

-- Of two different integers that are in order, the other order is not.
int_le_antisym : (i j : ℤ) → int_le i j ≡ true → int_eq j i ≡ false → int_le j i ≡ false
int_le_antisym (pos m) (pos n) h d = ground (arith, h, d)
int_le_antisym (negsuc m) (negsuc n) h d = ground (arith, h, d)
int_le_antisym (pos m) (negsuc n) h d = ground (arith, h)
int_le_antisym (negsuc m) (pos n) h d = refl

int_le_trans : (i j k : ℤ) → int_le i j ≡ true → int_le k j ≡ false → int_le k i ≡ false
int_le_trans (pos a) (pos b) (pos c) h d = ground (arith, h, d)
int_le_trans (pos a) (pos b) (negsuc c) h d = ground (arith, h, d)
int_le_trans (pos a) (negsuc b) k h d = absurd (ground (arith, h))
int_le_trans (negsuc a) (pos b) (pos c) h d = ground (arith, h, d)
int_le_trans (negsuc a) (pos b) (negsuc c) h d = absurd (ground (arith, d))
int_le_trans (negsuc a) (negsuc b) (pos c) h d = refl
int_le_trans (negsuc a) (negsuc b) (negsuc c) h d = ground (arith, h, d)

out_of_order : (i j k : ℤ) → int_le i j ≡ false → int_eq j k ≡ true → int_eq i k ≡ false
out_of_order i j k later h = elim (Bool-cases (int_eq i k)) [
  | inr differs ↦ differs
  | inl same ↦
      (let e : i ≡ j = int_eq-≡ i k same ∙ sym (int_eq-≡ j k h) in
        absurd (cc (later, int_le_refl i, ap (int_le i) e)))
]

module _ {A : Type 0} where
  abbrev pub changed : A → (A → A) → Option A → Option A
  changed fresh f none = some (f fresh)
  changed fresh f (some a) = some (f a)

  pub find_index-update_index :
      (i k : ℤ) (fresh : A) (f : A → A) (l : List (ℤ × A))
      → find_index k (update_index i fresh f l)
        ≡ (if int_eq i k then changed fresh f (find_index k l) else find_index k l)
  unfolding find_index update_index
  find_index-update_index i k fresh f [] = ground arith
  find_index-update_index i k fresh f ((j, a) ∷ l) = elim (Bool-cases (int_eq j i)) [
    | inl same ↦
        (let equal = ap (λ x. int_eq x k) (int_eq-≡ j i same) in
          rw (update_index, same) (ground (arith, equal)))
    | inr differs ↦
        (let ih = find_index-update_index i k fresh f l in
          let apart = int_eq_both i j k in rw (update_index, differs) (ground (arith, ih)))
  ]

  -- Sorting by index changes no entry.
  find_index-insert_sorted :
      (i k : ℤ) (a : A) (l : List (ℤ × A))
      → find_index k (insert_sorted (i, a) l) ≡ (if int_eq i k then some a else find_index k l)
  unfolding find_index insert_sorted
  find_index-insert_sorted i k a [] = refl
  find_index-insert_sorted i k a ((j, b) ∷ l) = elim (Bool-cases (int_le i j)) [
    | inl first ↦ rw (insert_sorted, first) refl
    | inr later ↦
        (let ih = find_index-insert_sorted i k a l in
          let apart = out_of_order i j k later in rw (insert_sorted, later) (ground (arith, ih)))
  ]

  pub find_index-by_index : (k : ℤ) (l : List (ℤ × A)) → find_index k (by_index l) ≡ find_index k l
  unfolding find_index by_index
  find_index-by_index k [] = refl
  find_index-by_index k ((i, a) ∷ l) =
      find_index-insert_sorted i k a (by_index l)
      ∙ ap (λ o. if int_eq i k then some a else o) (find_index-by_index k l)

  abbrev IsAbove : ℤ → List (ℤ × A) → Type 0
  IsAbove i [] = Unit {0}
  IsAbove i ((j, a) ∷ l) = (int_le j i ≡ false) × IsAbove i l

  -- In the order of the indices, each index once.
  abbrev pub IsSorted : List (ℤ × A) → Type 0
  IsSorted [] = Unit {0}
  IsSorted ((i, a) ∷ l) = IsAbove i l × IsSorted l

  abbrev pub IsDistinct : List (ℤ × A) → Type 0
  IsDistinct [] = Unit {0}
  IsDistinct ((i, a) ∷ l) = (find_index i l ≡ none) × IsDistinct l

  insert_sorted-IsAbove :
      (k i : ℤ) (a : A) (l : List (ℤ × A))
      → int_le i k ≡ false
      → IsAbove k l
      → IsAbove k (insert_sorted (i, a) l)
  unfolding insert_sorted
  insert_sorted-IsAbove k i a [] h above = (h, tt)
  insert_sorted-IsAbove k i a ((j, b) ∷ l) h (h', above) = elim (Bool-cases (int_le i j)) [
    | inl first ↦ rw (insert_sorted, first) (h, (h', above))
    | inr later ↦ rw (insert_sorted, later) (h', insert_sorted-IsAbove k i a l h above)
  ]

  IsAbove-all : (i j : ℤ) (l : List (ℤ × A)) → int_le i j ≡ true → IsAbove j l → IsAbove i l
  IsAbove-all i j [] h above = tt
  IsAbove-all i j ((k, b) ∷ l) h (h', above) = (int_le_trans i j k h h', IsAbove-all i j l h above)

  insert_sorted-IsSorted :
      (i : ℤ) (a : A) (l : List (ℤ × A))
      → find_index i l ≡ none
      → IsSorted l
      → IsSorted (insert_sorted (i, a) l)
  unfolding insert_sorted find_index
  insert_sorted-IsSorted i a [] absent sorted = (tt, tt)
  insert_sorted-IsSorted i a ((j, b) ∷ l) absent (above, sorted) = elim (Bool-cases (int_eq j i)) [
    | inl same ↦ absurd (cc (rw same at absent))
    | inr differs ↦ elim (Bool-cases (int_le i j)) [
      | inl first ↦
          rw (insert_sorted, first)
            ((int_le_antisym i j first differs, IsAbove-all i j l first above), (above, sorted))
      | inr later ↦
          rw (insert_sorted, later)
            (
              insert_sorted-IsAbove j i a l later above,
              insert_sorted-IsSorted i a l (rw differs at absent) sorted,
            )
    ]
  ]

  pub by_index-IsSorted : (l : List (ℤ × A)) → IsDistinct l → IsSorted (by_index l)
  unfolding by_index
  by_index-IsSorted [] d = tt
  by_index-IsSorted ((i, a) ∷ l) (absent, d) =
      insert_sorted-IsSorted i a (by_index l) (find_index-by_index i l ∙ absent)
        (by_index-IsSorted l d)

  pub update_index-IsDistinct :
      (i : ℤ) (fresh : A) (f : A → A) (l : List (ℤ × A))
      → IsDistinct l
      → IsDistinct (update_index i fresh f l)
  unfolding update_index find_index
  update_index-IsDistinct i fresh f [] d = (refl, tt)
  update_index-IsDistinct i fresh f ((j, a) ∷ l) (absent, d) = elim (Bool-cases (int_eq j i)) [
    | inl same ↦ rw (update_index, same) (absent, d)
    | inr differs ↦
        rw (update_index, differs)
          (
            find_index-update_index i j fresh f l ∙ rw (int_eq_comm i j, differs) absent,
            update_index-IsDistinct i fresh f l d,
          )
  ]
