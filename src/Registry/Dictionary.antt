-- ===== src/Registry/Dictionary.antt =====
-- The registries as dictionaries that keep the order of insertion.
use simple_agent_framework.Prelude.{
  ◌≡◌, refl, ap, sym, ◌∙◌, Bool, true, false, not, ◌&&◌, ◌||◌, if◌then◌else◌, List, [], ◌∷◌, ◌++◌,
  Option, none, some, Bool-cases, Option-cases, inl, inr, arith,
}
use simple_agent_framework.Prelude.Text.{Text, text_eq, text_eq_iff, text_eq_refl, text_eq_comm}
use simple_agent_framework.Registry.{Registry, Table, put, erased, without, items, new_registry}

abbrev pub mem : Text → List Text → Bool
mem name [] = false
mem name (n ∷ ns) = text_eq n name || mem name ns

abbrev pub distinct : List Text → Bool
distinct [] = true
distinct (n ∷ ns) = not (mem n ns) && distinct ns

abbrev pub has_value {ℓ} : {A : Type ℓ} → Option A → Bool
has_value none = false
has_value (some a) = true

pub mem-snoc :
    (name key : Text) (o : List Text) → mem name (o ++ key ∷ []) ≡ (mem name o || text_eq key name)
mem-snoc name key [] = ground arith
mem-snoc name key (n ∷ o) = ground (arith, mem-snoc name key o)

pub distinct-snoc :
    (key : Text) (o : List Text)
    → distinct o ≡ true
    → mem key o ≡ false
    → distinct (o ++ key ∷ []) ≡ true
distinct-snoc key [] d out = refl
distinct-snoc key (n ∷ o) d out =
    ground (arith, distinct-snoc key o, mem-snoc n key o, text_eq_comm key n)

module _ {A : Type 0} (name_of : A → Text) where
  -- The item takes the place of the first one with its name, or comes last.
  abbrev pub insert : A → List A → List A
  insert a [] = a ∷ []
  insert a (b ∷ l) = if text_eq (name_of b) (name_of a) then a ∷ l else b ∷ insert a l

  abbrev pub insert_all : List (Option A) → List A → List A
  insert_all [] l = l
  insert_all (none ∷ xs) l = insert_all xs l
  insert_all (some a ∷ xs) l = insert_all xs (insert a l)

  abbrev pub erase : Text → List A → List A
  erase name [] = []
  erase name (b ∷ l) = if text_eq (name_of b) name then l else b ∷ erase name l

  abbrev pub find : Text → List A → Option A
  find name [] = none
  find name (b ∷ l) = if text_eq (name_of b) name then some b else find name l

  -- No name comes twice, the names in the order are those of the table, and each item stands under
  -- its own name.
  pub record IsValid (r : Registry A) : Type 0 where
    pub once : distinct r.order ≡ true
    pub covered : (n : Text) → mem n r.order ≡ has_value (r.table n)
    pub named : (n : Text) (a : A) → r.table n ≡ some a → name_of a ≡ n

  pub new-IsValid : IsValid new_registry
  new-IsValid = record { once = refl; covered = λ n. refl; named = λ n a e. ground (arith, e) }

  module _ (t : Table A) (named : (n : Text) (a : A) → t n ≡ some a → name_of a ≡ n) where
    -- Every name has a value.
    abbrev Covered : List Text → Type 0
    Covered o = (n : Text) → mem n o ≡ true → has_value (t n) ≡ true

    -- The first name has a value, and so have the others.
    first : (n : Text) (o : List Text) → Covered (n ∷ o) → (b : A) × (t n ≡ some b)
    first n o c = elim (Option-cases (t n)) [
      | inl absent ↦
          (let here : has_value (t n) ≡ true = c n (rw (text_eq_refl n) refl) in
            ground (arith, ap has_value absent, here))
      | inr found ↦ found
    ]

    rest : (n : Text) (o : List Text) → Covered (n ∷ o) → Covered o
    rest n o c k m = c k (ground (arith, m))

    items-put_other :
        (key : Text) (a : A) (o : List Text) → mem key o ≡ false → items (put key a t) o ≡ items t o
    unfolding items
    items-put_other key a [] out = refl
    items-put_other key a (n ∷ o) out =
        (let differ : text_eq n key ≡ false = ground (arith, out) in
          let ih = items-put_other key a o (ground (arith, out)) in rw (items, differ, ih) refl)

    items-erased_other :
        (key : Text) (o : List Text) → mem key o ≡ false → items (erased key t) o ≡ items t o
    unfolding items
    items-erased_other key [] out = refl
    items-erased_other key (n ∷ o) out =
        (let differ : text_eq n key ≡ false = ground (arith, out) in
          let ih = items-erased_other key o (ground (arith, out)) in rw (items, differ, ih) refl)

    -- A name that is known keeps its place.
    pub items-put :
        (key : Text) (a : A) (o : List Text)
        → name_of a ≡ key
        → Covered o
        → distinct o ≡ true
        → mem key o ≡ true
        → items (put key a t) o ≡ insert a (items t o)
    unfolding items
    items-put key a [] name c d inside = ground (arith, inside)
    items-put key a (n ∷ o) name c d inside = elim (Bool-cases (text_eq n key)) [
      | inl same ↦
          (let (b, found) = first n o c in
            let e : n ≡ key = (text_eq_iff n key).0 same in
            let apart : mem n o ≡ false = ground (arith, d) in
            let others = items-put_other key a o (ap (λ k. mem k o) (sym e) ∙ apart) in
            rw (items, found, same, others, named n b found, name, same) refl)
      | inr differ ↦
          (let (b, found) = first n o c in
            let ih =
              items-put key a o name (rest n o c) (ground (arith, d))
                (ground (arith, inside, differ)) in
            rw (items, found, differ, ih, named n b found, name, differ) refl)
    ]

    -- A new name comes last.
    pub items-put_new :
        (key : Text) (a : A) (o : List Text)
        → name_of a ≡ key
        → Covered o
        → mem key o ≡ false
        → items (put key a t) (o ++ key ∷ []) ≡ insert a (items t o)
    unfolding items
    items-put_new key a [] name c out = rw (items, text_eq_refl key) refl
    items-put_new key a (n ∷ o) name c out =
        (let (b, found) = first n o c in
          let differ : text_eq n key ≡ false = ground (arith, out) in
          let ih = items-put_new key a o name (rest n o c) (ground (arith, out)) in
          rw (items, found, differ, ih, named n b found, name, differ) refl)

    pub items-erased :
        (key : Text) (o : List Text)
        → Covered o
        → distinct o ≡ true
        → items (erased key t) (without key o) ≡ erase key (items t o)
    unfolding items without
    items-erased key [] c d = refl
    items-erased key (n ∷ o) c d = elim (Bool-cases (text_eq n key)) [
      | inl same ↦
          (let (b, found) = first n o c in
            let e : n ≡ key = (text_eq_iff n key).0 same in
            let apart : mem n o ≡ false = ground (arith, d) in
            let others = items-erased_other key o (ap (λ k. mem k o) (sym e) ∙ apart) in
            rw (items, without, same, found, others, named n b found, same) refl)
      | inr differ ↦
          (let (b, found) = first n o c in
            let ih = items-erased key o (rest n o c) (ground (arith, d)) in
            rw (items, without, differ, found, items, differ, ih, named n b found, differ) refl)
    ]

    -- A name that is not there is not erased.
    pub erase_other :
        (key : Text) (o : List Text)
        → Covered o
        → mem key o ≡ false
        → erase key (items t o) ≡ items t o
    unfolding items
    erase_other key [] c out = refl
    erase_other key (n ∷ o) c out =
        (let (b, found) = first n o c in
          let differ : text_eq n key ≡ false = ground (arith, out) in
          let ih = erase_other key o (rest n o c) (ground (arith, out)) in
          rw (items, found, named n b found, differ, ih) refl)

    pub find-items :
        (key : Text) (o : List Text)
        → Covered o
        → find key (items t o) ≡ (if mem key o then t key else none)
    unfolding items
    find-items key [] c = refl
    find-items key (n ∷ o) c = elim (Bool-cases (text_eq n key)) [
      | inl same ↦
          (let (b, found) = first n o c in
            let here : t key ≡ some b = ap t (sym ((text_eq_iff n key).0 same)) ∙ found in
            rw (items, found, named n b found, same, here) refl)
      | inr differ ↦
          (let (b, found) = first n o c in
            let ih = find-items key o (rest n o c) in rw (items, found, named n b found, differ) ih)
    ]
