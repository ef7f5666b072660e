-- ===== src/Memtable/Added.antt =====
-- The insertion of a new key into a valid tree of memtable/inner.rs.
use mathlib.Core.Path.{subst}
use lsmlite.Base.{ℕ, suc, ◌+◌, ◌≤◌, ◌<◌, ◌≡◌, refl, sym, ap, ◌∙◌, arith, some}
use lsmlite.Base.{
  List, [], ◌∷◌, ◌++◌, length, length-append, get_elem?-lt, ltb, if◌then◌else◌, ◌>>=◌,
}
use lsmlite.Base.{get_elem?-append_left, get_elem?-append_length}
use lsmlite.Base.Bytes.{Blob}
use lsmlite.Record
use lsmlite.Record.{Record, get_key}
use lsmlite.Memtable.{Tree, Child, red, with_parent, new_from_record}
use lsmlite.Memtable.Insert.{insert_new}
use lsmlite.Memtable.Kept.{payloads}
use lsmlite.Memtable.Shape.{leaf, node, plug, hit, occ, occ_in, occ-plug, size}
use lsmlite.Memtable.Shape.{
  size-plug, depth, depth-le-size_in, inorder, before, after, inorder-plug,
}
use lsmlite.Memtable.Balance.{is_red, RedBlack, RedBlackIn}
use lsmlite.Memtable.Keys.{key_in, All-map, Sorted, Sorted-insert, Sorted-same}
use lsmlite.Memtable.Position.{Gap}
use lsmlite.Memtable.Valid.{IsTree, length-payloads}
use lsmlite.Memtable.Unplug.{unplug}
use lsmlite.Memtable.Grow.{attach_lem, push_lem, payloads-push, with_node}
use lsmlite.Memtable.FixTree.{insert_fix_tree_lem}
use lsmlite.Memtable.Refines.{record_at}

-- A record at the end leaves the other keys in their places.
key_in-append :
    (rs : List Record) (r : Record) (j : ℕ) (a : Blob)
    → key_in rs j ≡ some a
    → key_in (rs ++ (r ∷ [])) j ≡ some a
key_in-append rs r j a e =
    let (q, at_q, key_q) = record_at rs j a e in
    ap (λ o. o >>= get_key) (get_elem?-append_left rs (r ∷ []) j (get_elem?-lt rs j at_q) ∙ at_q)
    ∙ key_q

pub key_in-last :
    (rs : List Record) (r : Record) (i : ℕ) (a : Blob)
    → length rs ≡ i
    → get_key r ≡ some a
    → key_in (rs ++ (r ∷ [])) i ≡ some a
key_in-last rs r i a e k = rw (← e) (ap (λ o. o >>= get_key) (get_elem?-append_length rs r []) ∙ k)

ascending_after :
    (t : Tree) (v : IsTree t) (r : Record) (key : Blob) (p : ℕ) (side : Child)
    → get_key r ≡ some key
    → (g : Gap t key v.shape p side)
    → Sorted
        (payloads t ++ (r ∷ []))
        (inorder (plug g.context (node leaf (length t.arena) red leaf)))
ascending_after t v r key p side known g =
    let rs = payloads t in
    let rs' = rs ++ (r ∷ []) in
    let i = length t.arena in
    let C = g.context in
    let old : inorder v.shape ≡ before C ++ after C =
      ap inorder (sym g.filled) ∙ inorder-plug C leaf in
    let s' : Sorted rs' (before C ++ after C) =
      Sorted-same rs rs' _ (key_in-append rs r) (subst (Sorted rs) old v.sorted) in
    let grown =
      Sorted-insert rs' (before C) i (after C) key
        (key_in-last rs r i key (length-payloads t) known)
        (All-map (before C) (λ j (a, e, k). (a, key_in-append rs r j a e, k)) g.less)
        (All-map (after C) (λ j (a, e, k). (a, key_in-append rs r j a e, k)) g.greater) s' in
    subst (Sorted rs') (sym (inorder-plug C (node leaf i red leaf))) grown

pub cover_after :
    (i n j a b : ℕ)
    → n ≡ suc i
    → b ≡ a + hit j i
    → a ≡ (if ltb j i then 1 else 0)
    → b ≡ (if ltb j n then 1 else 0)
unfolding hit
cover_after i n j a b e f g = ground arith

module _ (t : Tree) (v : IsTree t) (r : Record) (key : Blob) (p : ℕ) (side : Child)
    (known : get_key r ≡ some key) (g : Gap t key v.shape p side) where
  old_occ : (j : ℕ) → occ_in j g.context ≡ (if ltb j (length t.arena) then 1 else 0)
  old_occ j = omega (arith, occ-plug j g.context leaf, ap (occ j) g.filled) ∙ v.cover j

  old_once : (j : ℕ) → occ_in j g.context ≤ 1
  old_once j = let o = old_occ j in ground arith

  old_inside : (j : ℕ) → 1 ≤ occ_in j g.context → j < length t.arena
  old_inside j h = let o = old_occ j in ground arith

  old_outside : occ_in (length t.arena) g.context ≡ 0
  old_outside = let o = old_occ (length t.arena) in ground arith

  room : depth g.context ≤ length t.arena
  room =
      omega (arith, depth-le-size_in g.context, size-plug g.context leaf, ap size g.filled, v.count)

  rules_in : RedBlackIn 0 g.context
  rules_in =
      let (h, k, e, _) =
        unplug g.context leaf v.height (subst (RedBlack v.height) (sym g.filled) v.rules)
          (ap is_red g.filled ∙ v.dark) in
      subst (λ n. RedBlackIn n g.context) e k

  -- The tree with the new node is valid, and its records are the old ones and the new one.
  pub insert_new_lem :
      (t' : Tree) × (insert_new t (new_from_record r) p side ≡ some (t', Record.size r))
      × IsTree t'
      × (payloads t' ≡ payloads t ++ (r ∷ []))
  unfolding insert_new new_from_record
  insert_new_lem =
      let i = length t.arena in
      let C = g.context in
      let x = with_parent (some p) (new_from_record r) in
      let (t₁, m₁, C₁, len₁, pay₁) = attach_lem t C p side i g.stands g.open_at old_once in
      let t₂ = with_node t₁ x in
      let st = push_lem t₁ C p i r len₁ C₁ old_inside in
      let len₂ : length t₂.arena ≡ suc i = omega (arith, length-append t₁.arena (x ∷ [])) in
      let (t₃, m₃, b, pay₃) =
        insert_fix_tree_lem t₂ C (some p) leaf leaf i 0 (omega (arith, room)) st (λ j. new_once j)
          rules_in (refl, refl, refl, refl) in
      let pay : payloads t₃ ≡ payloads t ++ (r ∷ []) =
        pay₃ ∙ payloads-push t₁ x ∙ ap (λ l. l ++ (r ∷ [])) pay₁ in
      (
        t₃,
        rw (m₁, m₃) refl,
        record {
          shape = b.shape;
          repr = b.repr;
          cover = λ j.
              cover_after i (length t₃.arena) j (occ_in j C) (occ j b.shape) (b.len ∙ len₂)
                (omega (arith, b.alike.once j, occ-plug j C (node leaf i red leaf))) (old_occ j);
          count = omega (
            arith,
            b.alike.count,
            size-plug C (node leaf i red leaf),
            size-plug C leaf,
            ap size g.filled,
            v.count,
            b.len,
          );
          sorted =
              subst (λ l. Sorted l (inorder b.shape)) (sym pay)
                (subst (Sorted _) (sym b.alike.order) (ascending_after t v r key p side known g));
          height = b.height;
          rules = b.rules;
          dark = b.dark;
        },
        pay,
      )
    where
      new_once : (j : ℕ) → occ_in j g.context + occ j (node leaf (length t.arena) red leaf) ≤ 1
      new_once j = let o = old_occ j in unfold hit in ground arith
