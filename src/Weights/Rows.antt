-- ===== src/Weights/Rows.antt =====
-- Weights survive their way through the database: `to_rows` and `from_rows` of `ScanWeights` in
-- src/blockchecks/engine/adaptive_queue.py.
use mathlib.Core.Path.{subst}
use mathlib.Core.List.{append_assoc, append-nil}
use blockcheck_s.Prelude.{[], ◌∷◌, ◌++◌, string_eq, ◌≡◌, refl, sym, ap, ◌∙◌}
use blockcheck_s.Prelude.Dict.{insert, keys, Distinct, insert_new, Distinct-split}
use blockcheck_s.Prelude.Text.{remove_prefix}
use blockcheck_s.Weights.{
  Table, ScanWeights, rows_of, to_rows, read_row, read_rows, from_rows, fresh,
}

read_rows-append :
    (w : ScanWeights) (xs ys : Table) → read_rows w (xs ++ ys) ≡ read_rows (read_rows w xs) ys
unfolding read_rows
read_rows-append w [] ys = refl
read_rows-append w (x ∷ xs) ys = read_rows-append (read_row w x) xs ys

-- A table whose rows are read one by one onto another.
abbrev load : Table → Table → Table
load acc [] = acc
load acc ((k, v) ∷ t) = load (insert k v acc) t

read_family :
    (w : ScanWeights) (t : Table)
    → read_rows w (rows_of "family:" t) ≡ record w { family = load w.family t }
unfolding read_rows rows_of read_row remove_prefix
read_family w [] = refl
read_family w ((k, v) ∷ t) = read_family (record w { family = insert k v w.family }) t

read_blob :
    (w : ScanWeights) (t : Table)
    → read_rows w (rows_of "blob:" t) ≡ record w { blob = load w.blob t }
unfolding read_rows rows_of read_row remove_prefix
read_blob w [] = refl
read_blob w ((k, v) ∷ t) = read_blob (record w { blob = insert k v w.blob }) t

read_trait :
    (w : ScanWeights) (t : Table)
    → read_rows w (rows_of "trait:" t) ≡ record w { trait = load w.trait t }
unfolding read_rows rows_of read_row remove_prefix
read_trait w [] = refl
read_trait w ((k, v) ∷ t) = read_trait (record w { trait = insert k v w.trait }) t

load_lem : (acc t : Table) → Distinct (keys (acc ++ t)) → load acc t ≡ acc ++ t
load_lem acc [] d = sym (append-nil acc)
load_lem acc ((k, v) ∷ t) d =
    ap (λ a. load a t) (insert_new k v acc (Distinct-split acc t k v d))
    ∙ load_lem (acc ++ (k, v) ∷ []) t
        (subst (λ m. Distinct (keys m)) (sym (append_assoc acc ((k, v) ∷ []) t)) d)
    ∙ append_assoc acc ((k, v) ∷ []) t

-- A dict has no key twice.
pub record IsDict (w : ScanWeights) : Type 0 where
  pub family : Distinct (keys w.family)
  pub blob : Distinct (keys w.blob)
  pub trait : Distinct (keys w.trait)

-- Reading back what `to_rows` wrote gives the same three tables, order included, with the default
-- boosts and no provider boosts.
pub from_rows-to_rows :
    (w : ScanWeights)
    → IsDict w
    → from_rows (to_rows w) ≡ record fresh { family = w.family; blob = w.blob; trait = w.trait }
unfolding from_rows to_rows
from_rows-to_rows w d =
    simp (read_rows-append, read_family, read_blob, read_trait)
      (rw (load_lem [] w.family d.family, load_lem [] w.blob d.blob, load_lem [] w.trait d.trait))
