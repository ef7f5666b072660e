-- ===== src/Memtable/Start.antt =====
-- The first node of the tree of memtable/inner.rs.
use mathlib.Core.Path.{subst}
use lsmlite.Base.{suc, ◌≡◌, refl, sym, ◌∙◌, arith, none, some, [], ◌∷◌, ◌++◌, length}
use lsmlite.Base.{length-append, get_elem?-append_length}
use lsmlite.Base.Bytes.{Blob}
use lsmlite.Record.{Record, get_key}
use lsmlite.Memtable.{Tree, black, with_color, new_from_record, at}
use lsmlite.Memtable.Insert.{set_root}
use lsmlite.Memtable.Kept.{payloads}
use lsmlite.Memtable.Shape.{Shape, leaf, node, size, Repr}
use lsmlite.Memtable.Keys.{key_in}
use lsmlite.Memtable.Grow.{payloads-push}
use lsmlite.Memtable.Valid.{IsTree, length-payloads}
use lsmlite.Memtable.Added.{cover_after, key_in-last}

-- Without a root there are no nodes.
pub no_nodes : (t : Tree) → IsTree t → t.root_node ≡ none → length t.arena ≡ 0
no_nodes t v e = go v.shape v.repr v.count
  where
    go : (s : Shape) → Repr t none t.root_node s → size s ≡ length t.arena → length t.arena ≡ 0
    go leaf h n = omega arith
    go (node l i c r) (q, _, _, _, _, _) n = let clash : none ≡ some i = sym e ∙ q in cc

pub empty-IsTree : IsTree (record { arena = []; root_node = none })
empty-IsTree = record {
  shape = leaf;
  repr = refl;
  cover = λ j. ground arith;
  count = refl;
  sorted = tt;
  height = 0;
  rules = refl;
  dark = refl;
}

pub set_root_lem :
    (t : Tree) (r : Record) (key : Blob)
    → IsTree t
    → get_key r ≡ some key
    → t.root_node ≡ none
    → (IsTree (set_root t (new_from_record r) (length t.arena)))
      × (payloads (set_root t (new_from_record r) (length t.arena)) ≡ payloads t ++ (r ∷ []))
unfolding set_root new_from_record at
set_root_lem t r key v known e =
    let i = length t.arena in
    let x = with_color black (new_from_record r) in
    let t' = set_root t (new_from_record r) i in
    let z = no_nodes t v e in
    let len : length t'.arena ≡ suc i = omega (arith, length-append t.arena (x ∷ [])) in
    let pay : payloads t' ≡ payloads t ++ (r ∷ []) = payloads-push t x in
    (
      record {
        shape = node leaf i black leaf;
        repr = (
          refl,
          none,
          none,
          record {
            cell = x;
            here = get_elem?-append_length t.arena x [];
            its_left = refl;
            its_right = refl;
            its_parent = refl;
            its_color = refl;
          },
          refl,
          refl,
        );
        cover = λ j. cover_after i (length t'.arena) j 0 _ len (omega arith) (ground (arith, z));
        count = omega arith;
        sorted = (
          key,
          subst (λ l. key_in l i ≡ some key) (sym pay)
              (key_in-last (payloads t) r i key (length-payloads t) known),
          tt,
          tt,
        );
        height = 1;
        rules = (0, refl, refl, refl);
        dark = refl;
      },
      pay,
    )
