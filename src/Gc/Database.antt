-- ===== src/Gc/Database.antt =====
-- `prune_db_results` of src/blockchecks/engine/gc.py. Of a table the rows are kept with the columns that
-- the statements read; a table that is missing is `none`. A statement on a missing table raises, and
-- then the connection rolls the deletions back.
use blockcheck_s.Prelude.{
  ℕ, suc, Bool, false, ◌&&◌, ◌||◌, not, String, Option, none, some, List, [], ◌∷◌, string_eq, eqb,
  ltb, ◌==◌, if◌then◌else◌,
}
use blockcheck_s.Prelude.Text.{text_less}

pub record ResultRow : Type 0 where
  pub strategy_id : Option ℕ
  pub epoch_ms : Option ℕ
  pub timestamp : Option String

pub record Database : Type 0 where
  pub tcp_results : Option (List ResultRow)
  pub udp_results : Option (List ResultRow)
  pub strategies : Option (List ℕ)

-- What `_age_cutoffs` gives.
pub record Cutoffs : Type 0 where
  pub cutoff_ms : ℕ
  pub cutoff_iso : String

pub record DbGcStats : Type 0 where
  pub tcp_rows : ℕ
  pub udp_rows : ℕ
  pub orphan_strategies : ℕ
  pub skipped_lock : Bool
  pub dry_run : Bool

-- `_RESULT_AGE_SQL`
unfoldable pub is_aged : Cutoffs → ResultRow → Bool
is_aged c row = elim row.epoch_ms [
  | some ms ↦ ltb ms c.cutoff_ms
  | none ↦ elim row.timestamp [
    | none ↦ false
    | some at ↦ not (at == "") && text_less at c.cutoff_iso
  ]
]

module _ {A : Type 0} (test : A → Bool) where
  -- `SELECT COUNT(*) … WHERE`
  unfoldable pub count_where : List A → ℕ
  count_where [] = 0
  count_where (x ∷ xs) = let more = count_where xs in if test x then suc more else more

  -- `DELETE … WHERE`
  unfoldable pub delete_where : List A → List A
  delete_where [] = []
  delete_where (x ∷ xs) = let more = delete_where xs in if test x then more else x ∷ more

  unfoldable pub exists_where : List A → Bool
  exists_where [] = false
  exists_where (x ∷ xs) = test x || exists_where xs

abbrev pub is_of : ℕ → ResultRow → Bool
is_of id row = elim row.strategy_id [ none ↦ false | some s ↦ eqb s id ]

-- `_KEEP_TCP_SQL` and `_KEEP_UDP_SQL`: a row of the strategy that is not aged.
abbrev pub keeps : Cutoffs → ℕ → ResultRow → Bool
keeps c id row = is_of id row && not (is_aged c row)

abbrev pub rows_of : Option (List ResultRow) → List ResultRow
rows_of none = []
rows_of (some rows) = rows

abbrev pub ids_of : Option (List ℕ) → List ℕ
ids_of none = []
ids_of (some ids) = ids

-- The strategies that `_count_orphan_strategies` counts.
abbrev pub will_be_orphan : Cutoffs → Database → ℕ → Bool
will_be_orphan c db id =
    not (exists_where (keeps c id) (rows_of db.tcp_results))
    && not (exists_where (keeps c id) (rows_of db.udp_results))

unfoldable pub count_orphan_strategies : Cutoffs → Database → ℕ
count_orphan_strategies c db = count_where (will_be_orphan c db) (ids_of db.strategies)

-- Without rows at all: the test of `_ORPHAN_DELETE_SQL`.
abbrev pub is_orphan : List ResultRow → List ResultRow → ℕ → Bool
is_orphan tcp udp id = not (exists_where (is_of id) tcp) && not (exists_where (is_of id) udp)

-- `_ORPHAN_DELETE_SQL`, which names all the tables: `none` where one is missing.
unfoldable pub delete_orphans : Database → Option Database
delete_orphans db = elim db.tcp_results [
  | none ↦ none
  | some tcp ↦ elim db.udp_results [
    | none ↦ none
    | some udp ↦ elim db.strategies [
      | none ↦ none
      | some ids ↦ some (record db { strategies = some (delete_where (is_orphan tcp udp) ids) })
    ]
  ]
]

-- The deletion of the aged rows of one table, which is left out where none was counted.
abbrev pub delete_aged : Cutoffs → ℕ → Option (List ResultRow) → Option (List ResultRow)
delete_aged c n none = none
delete_aged c n (some rows) = if eqb n 0 then some rows else some (delete_where (is_aged c) rows)

unfoldable pub db_stats : Cutoffs → Bool → Bool → Bool → Database → DbGcStats
db_stats c dry_run orphans locked db = record {
  tcp_rows = count_where (is_aged c) (rows_of db.tcp_results);
  udp_rows = count_where (is_aged c) (rows_of db.udp_results);
  orphan_strategies = if orphans then count_orphan_strategies c db else 0;
  skipped_lock = locked && not dry_run;
  dry_run = dry_run;
}

-- The last statement: if it raises, the database `db` from before is restored.
unfoldable pub remove_orphans : Bool → ℕ → Database → Database → Database
remove_orphans orphans n db pruned =
    if orphans && not (eqb n 0)
    then elim (delete_orphans pruned) [ none ↦ db | some after ↦ after ]
    else pruned

-- `prune_db_results` of a file that is there: the database after it, and the statistics.
unfoldable pub prune_db_results : Cutoffs → Bool → Bool → Bool → Database → Database × DbGcStats
prune_db_results c dry_run orphans locked db =
    let stats = db_stats c dry_run orphans locked db in
    let pruned : Database = record db {
      tcp_results = delete_aged c stats.tcp_rows db.tcp_results;
      udp_results = delete_aged c stats.udp_rows db.udp_results;
    } in
    (
      if locked || dry_run then db else remove_orphans orphans stats.orphan_strategies db pruned,
      stats,
    )
