-- ===== src/Registry/Refine.antt =====
-- The registries keep their representation valid, and act as the dictionaries do.
use simple_agent_framework.Prelude.{
  ◌≡◌, refl, ap, sym, ◌∙◌, true, false, ◌||◌, if◌then◌else◌, List, [], ◌∷◌, Option, none, some,
  Bool-cases, Option-cases, some-injective, inl, inr, arith,
}
use simple_agent_framework.Prelude.Text.{Text, text_eq, text_eq_iff, text_eq_comm}
use simple_agent_framework.Registry.{
  Registry, put, erased, without, add_named, remove, get, list, add,
}
use simple_agent_framework.Registry.Dictionary.{
  mem, distinct, has_value, mem-snoc, distinct-snoc, insert, insert_all, erase, find, IsValid,
  items-put, items-put_new, items-erased, erase_other, find-items,
}

mem-without :
    (n key : Text) (o : List Text)
    → distinct o ≡ true
    → mem n (without key o) ≡ (if text_eq n key then false else mem n o)
unfolding without
mem-without n key [] d = ground arith
mem-without n key (k ∷ o) d = elim (Bool-cases (text_eq k key)) [
  | inl same ↦ elim (Bool-cases (text_eq n key)) [
    | inl found ↦
        (let e : n ≡ k = (text_eq_iff n key).0 found ∙ sym ((text_eq_iff k key).0 same) in
          let apart = ap (λ j. mem j o) e in rw (without, same, found) (ground (arith, apart, d)))
    | inr other ↦
        (let differ =
            ap (λ j. text_eq j n) ((text_eq_iff k key).0 same) ∙ text_eq_comm key n ∙ other in
          rw (without, same, other, differ) refl)
  ]
  | inr differ ↦ elim (Bool-cases (text_eq n key)) [
    | inl found ↦
        (let ih = mem-without n key o (ground (arith, d)) in
          let apart = ap (text_eq k) ((text_eq_iff n key).0 found) ∙ differ in
          rw (without, differ, found, apart) (ih ∙ rw found refl))
    | inr other ↦
        (let ih = mem-without n key o (ground (arith, d)) in
          rw (without, differ, other) (ap (λ b. text_eq k n || b) (ih ∙ rw other refl)))
  ]
]

distinct-without :
    (key : Text) (o : List Text) → distinct o ≡ true → distinct (without key o) ≡ true
unfolding without
distinct-without key [] d = refl
distinct-without key (k ∷ o) d = elim (Bool-cases (text_eq k key)) [
  | inl same ↦ rw (without, same) (ground (arith, d))
  | inr differ ↦
      (let ih = distinct-without key o (ground (arith, d)) in
        let m = mem-without k key o (ground (arith, d)) in
        rw (without, differ) (ground (arith, ih, m, d, differ)))
]

module _ {A : Type 0} (name_of : A → Text) where
  -- What is in the order has a value.
  covered_by :
      (r : Registry A)
      → IsValid name_of r
      → (n : Text) → mem n r.order ≡ true
      → has_value (r.table n) ≡ true
  covered_by r v n m = sym (v.covered n) ∙ m

  put-named :
      (a : A) (r : Registry A)
      → IsValid name_of r
      → (n : Text) (b : A) → put (name_of a) a r.table n ≡ some b
      → name_of b ≡ n
  put-named a r v n b found = elim (Bool-cases (text_eq n (name_of a))) [
    | inl same ↦
        (let e : some a ≡ some b = sym (rw same refl) ∙ found in
          ap name_of (sym (some-injective a b e)) ∙ sym ((text_eq_iff n (name_of a)).0 same))
    | inr differ ↦ v.named n b (sym (rw differ refl) ∙ found)
  ]

  put-has_value :
      (key : Text) (a : A) (r : Registry A) (n : Text)
      → has_value (put key a r.table n) ≡ (has_value (r.table n) || text_eq key n)
  put-has_value key a r n = elim (Bool-cases (text_eq n key)) [
    | inl same ↦ rw (text_eq_comm key n, same) (ground arith)
    | inr differ ↦ rw (text_eq_comm key n, differ) (ground arith)
  ]

  put-present :
      (key : Text) (a old : A) (r : Registry A)
      → r.table key ≡ some old
      → (n : Text) → has_value (put key a r.table n) ≡ has_value (r.table n)
  put-present key a old r present n = elim (Bool-cases (text_eq n key)) [
    | inl same ↦
        (let there = ap has_value (ap r.table ((text_eq_iff n key).0 same) ∙ present) in
          rw (same, there) refl)
    | inr differ ↦ rw differ refl
  ]

  erased-has_value :
      (key : Text) (r : Registry A) (n : Text)
      → (if text_eq n key then false else has_value (r.table n)) ≡ has_value (erased key r.table n)
  erased-has_value key r n = elim (Bool-cases (text_eq n key)) [
    | inl same ↦ rw same refl
    | inr differ ↦ rw differ refl
  ]

  erased-named :
      (key : Text) (r : Registry A)
      → IsValid name_of r
      → (n : Text) (b : A) → erased key r.table n ≡ some b
      → name_of b ≡ n
  erased-named key r v n b found = elim (Bool-cases (text_eq n key)) [
    | inl same ↦
        (let clash : none ≡ some b = sym (rw same refl) ∙ found in
          ground (arith, ap has_value clash))
    | inr differ ↦ v.named n b (sym (rw differ refl) ∙ found)
  ]

  -- A name that is absent is not in the order, and one that is present is.
  absent-mem :
      (r : Registry A) (key : Text)
      → IsValid name_of r
      → r.table key ≡ none
      → mem key r.order ≡ false
  absent-mem r key v absent = v.covered key ∙ ap has_value absent

  present-mem :
      (r : Registry A) (key : Text) (a : A)
      → IsValid name_of r
      → r.table key ≡ some a
      → mem key r.order ≡ true
  present-mem r key a v present = v.covered key ∙ ap has_value present

  pub add_named-refines :
      (a : A) (r : Registry A)
      → IsValid name_of r
      → IsValid name_of (add_named (name_of a) a r)
        × (list (add_named (name_of a) a r) ≡ insert name_of a (list r))
  unfolding add_named list
  add_named-refines a r v = elim (Option-cases (r.table (name_of a))) [
    | inl absent ↦
        (let out = absent-mem r (name_of a) v absent in
          rw (add_named, absent)
            (
              record {
                once = distinct-snoc (name_of a) r.order v.once out;
                covered = λ n.
                    mem-snoc n (name_of a) r.order
                    ∙ ap (λ b. b || text_eq (name_of a) n) (v.covered n)
                    ∙ sym (put-has_value (name_of a) a r n);
                named = put-named a r v;
              },
              items-put_new name_of r.table v.named (name_of a) a r.order refl (covered_by r v) out,
            ))
    | inr (old, present) ↦
        (let inside = present-mem r (name_of a) old v present in
          rw (add_named, present)
            (
              record {
                once = v.once;
                covered = λ n. v.covered n ∙ sym (put-present (name_of a) a old r present n);
                named = put-named a r v;
              },
              items-put name_of r.table v.named (name_of a) a r.order refl (covered_by r v) v.once
                  inside,
            ))
  ]

  pub remove-refines :
      (name : Text) (r : Registry A)
      → IsValid name_of r
      → IsValid name_of (remove name r) × (list (remove name r) ≡ erase name_of name (list r))
  unfolding remove list
  remove-refines name r v = elim (Option-cases (r.table name)) [
    | inl absent ↦
        rw (remove, absent)
          (
            v,
            sym (
                erase_other name_of r.table v.named name r.order (covered_by r v)
                  (absent-mem r name v absent)),
          )
    | inr (old, present) ↦
        rw (remove, present)
          (
            record {
              once = distinct-without name r.order v.once;
              covered = λ n.
                  mem-without n name r.order v.once
                  ∙ ap (λ m. if text_eq n name then false else m) (v.covered n)
                  ∙ erased-has_value name r n;
              named = erased-named name r v;
            },
            items-erased name_of r.table v.named name r.order (covered_by r v) v.once,
          )
  ]

  pub add-refines :
      (xs : List (Option A)) (r : Registry A)
      → IsValid name_of r
      → IsValid name_of (add name_of xs r)
        × (list (add name_of xs r) ≡ insert_all name_of xs (list r))
  unfolding add
  add-refines [] r v = (v, refl)
  add-refines (none ∷ xs) r v = add-refines xs r v
  add-refines (some a ∷ xs) r v =
      (let (valid, same) = add_named-refines a r v in
        let (valid', same') = add-refines xs (add_named (name_of a) a r) valid in
        (valid', same' ∙ ap (insert_all name_of xs) same))

  pub get-list :
      (name : Text) (r : Registry A) → IsValid name_of r → get name r ≡ find name_of name (list r)
  unfolding get list
  get-list name r v = elim (Option-cases (r.table name)) [
    | inl absent ↦
        (let out = absent-mem r name v absent in
          absent
          ∙ sym (find-items name_of r.table v.named name r.order (covered_by r v) ∙ rw out refl))
    | inr (a, present) ↦
        (let inside = present-mem r name a v present in
          sym (find-items name_of r.table v.named name r.order (covered_by r v) ∙ rw inside refl))
  ]
