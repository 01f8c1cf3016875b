-- ===== src/Retriever/Hybrid/Fused.antt =====
-- retriever/hybrid.go: `Merge` lists each identifier once, with all of its contributions.
use simple_agent_framework.Prelude.{
  ◌≡◌, refl, ap, sym, ◌∙◌, Bool, true, false, ◌||◌, if◌then◌else◌, List, [], ◌∷◌, ◌++◌, map,
  Bool-cases, inl, inr, arith,
}
use simple_agent_framework.Prelude.Text.{Text, text_eq, text_eq_iff}
use simple_agent_framework.Retriever.{Document}
use simple_agent_framework.Retriever.Hybrid.{
  Weights, RrfMerger, has, bump, add_ranked, finished, sides, merge,
}
use mathlib.Core.List.{Perm, append_assoc}
use mathlib.Core.List.Perm

module _ {F : Type 0} (f : Weights F) where
  -- A score with the contributions that the entries make to an identifier, in their order.
  abbrev pub total : Text → F → List (Document F × F) → F
  total id s [] = s
  total id s ((d, c) ∷ es) = total id (if text_eq id d.id then f.plus s c else s) es

  abbrev pub among : Text → List Text → Bool
  among id [] = false
  among id (x ∷ l) = text_eq x id || among id l

  -- The first document of each identifier that is not among those seen, with the sum of all
  -- contributions to it.
  unfoldable pub fused : List Text → List (Document F × F) → List (Document F × F)
  fused seen [] = []
  fused seen ((d, c) ∷ es) =
      let rest = fused (d.id ∷ seen) es in
      if among d.id seen then rest else (d, total d.id c es) ∷ rest

  abbrev totalled : List (Document F × F) → Document F × F → Document F × F
  totalled es (d, s) = (d, total d.id s es)

  has-bump :
      (id x : Text) (c : F) (l : List (Document F × F)) → has f id (map (bump f x c) l) ≡ has f id l
  has-bump id x c [] = refl
  has-bump id x c ((d, s) ∷ l) = ap (λ b. text_eq d.id id || b) (has-bump id x c l)

  has-snoc :
      (id : Text) (d : Document F) (c : F) (l : List (Document F × F))
      → has f id (l ++ (d, c) ∷ []) ≡ (text_eq d.id id || has f id l)
  has-snoc id d c [] = refl
  has-snoc id d c ((e, s) ∷ l) = (let ih = has-snoc id d c l in ground arith)

  totalled-bump :
      (d : Document F) (c : F) (es l : List (Document F × F))
      → map (totalled es) (map (bump f d.id c) l) ≡ map (totalled ((d, c) ∷ es)) l
  totalled-bump d c es [] = refl
  totalled-bump d c es ((e, s) ∷ l) =
      ap (◌∷◌ (totalled es (bump f d.id c (e, s)))) (totalled-bump d c es l)

  totalled-absent :
      (d : Document F) (c : F) (es l : List (Document F × F))
      → has f d.id l ≡ false
      → map (totalled es) l ≡ map (totalled ((d, c) ∷ es)) l
  totalled-absent d c es [] h = refl
  totalled-absent d c es ((e, s) ∷ l) h = elim (Bool-cases (text_eq e.id d.id)) [
    | inl same ↦ absurd (ground (arith, h, same))
    | inr differs ↦
        (let ih = totalled-absent d c es l (ground (arith, h)) in
          rw differs (ap (◌∷◌ (e, total e.id s es)) ih))
  ]

  map-snoc :
      (es l : List (Document F × F)) (x : Document F × F)
      → map (totalled es) (l ++ x ∷ []) ≡ map (totalled es) l ++ totalled es x ∷ []
  map-snoc es [] x = refl
  map-snoc es (y ∷ l) x = ap (◌∷◌ (totalled es y)) (map-snoc es l x)

  -- What has been seen is what has an entry.
  abbrev IsSeen : List Text → List (Document F × F) → Type 0
  IsSeen seen agg = (id : Text) → among id seen ≡ has f id agg

  IsSeen-bump :
      (seen : List Text) (d : Document F) (c : F) (agg : List (Document F × F))
      → IsSeen seen agg
      → has f d.id agg ≡ true
      → IsSeen (d.id ∷ seen) (map (bump f d.id c) agg)
  IsSeen-bump seen d c agg h old id = elim (Bool-cases (text_eq d.id id)) [
    | inr differs ↦ rw differs (h id ∙ sym (has-bump id d.id c agg))
    | inl same ↦ rw same (
        sym old
        ∙ ap (λ x. has f x agg) ((text_eq_iff d.id id).0 same)
        ∙ sym (has-bump id d.id c agg))
  ]

  add_ranked-fused :
      (es agg : List (Document F × F)) (seen : List Text)
      → IsSeen seen agg
      → add_ranked f es agg ≡ map (totalled es) agg ++ fused seen es
  unfolding add_ranked fused
  add_ranked-fused [] agg seen h = kept agg
    where
      kept : (l : List (Document F × F)) → l ≡ map (totalled []) l ++ []
      kept [] = refl
      kept (x ∷ l) = ap (◌∷◌ x) (kept l)
  add_ranked-fused ((d, c) ∷ es) agg seen h = elim (Bool-cases (has f d.id agg)) [
    | inl old ↦
        rw (old, h d.id ∙ old)
          (add_ranked-fused es (map (bump f d.id c) agg) (d.id ∷ seen)
              (IsSeen-bump seen d c agg h old)
            ∙ ap (λ l. l ++ fused (d.id ∷ seen) es) (totalled-bump d c es agg))
    | inr new ↦
        rw (new, h d.id ∙ new)
          (add_ranked-fused es (agg ++ (d, c) ∷ []) (d.id ∷ seen)
              (λ id. ap (λ b. text_eq d.id id || b) (h id) ∙ sym (has-snoc id d c agg))
            ∙ ap (λ l. l ++ fused (d.id ∷ seen) es)
                (map-snoc es agg (d, c)
                  ∙ ap (λ l. l ++ (d, total d.id c es) ∷ []) (totalled-absent d c es agg new))
            ∙ append_assoc (map (totalled ((d, c) ∷ es)) agg) ((d, total d.id c es) ∷ [])
                (fused (d.id ∷ seen) es))
  ]

  add_ranked-append :
      (es es' agg : List (Document F × F))
      → add_ranked f (es ++ es') agg ≡ add_ranked f es' (add_ranked f es agg)
  unfolding add_ranked
  add_ranked-append [] es' agg = refl
  add_ranked-append ((d, c) ∷ es) es' agg =
      add_ranked-append es es'
        (if has f d.id agg then map (bump f d.id c) agg else agg ++ (d, c) ∷ [])

  -- In whatever order the map is visited and the results are sorted, where neither loses or repeats
  -- an item, `Merge` lists each identifier that either side found once: with the first document that
  -- has it, those of the semantic side coming first, and with the sum of what all documents that have
  -- it contribute, or 0 where that is not finite.
  pub merge-fused :
      (visited : List (Document F × F) → List (Document F × F))
      (sorted : List (Document F) → List (Document F)) (m : RrfMerger F)
      (semantic keyword : List (Document F))
      → ((l : List (Document F × F)) → Perm (visited l) l)
      → ((l : List (Document F)) → Perm (sorted l) l)
      → let (first, second) = sides f m semantic keyword in
        Perm
          (merge f visited sorted m semantic keyword)
          (map (finished f) (fused [] (first ++ second)))
  unfolding merge
  merge-fused visited sorted m semantic keyword visits sorts =
      let (first, second) = sides f m semantic keyword in
      let e =
        sym (add_ranked-append first second [])
        ∙ add_ranked-fused (first ++ second) [] [] (λ id. refl) in
      rw⁻¹ e (
        Perm.trans
          (sorts (map (finished f) (visited (add_ranked f second (add_ranked f first [])))))
          (Perm.map (finished f) (visits (add_ranked f second (add_ranked f first [])))))
