-- ===== src/Gc/Pruned.antt =====
-- What `prune_db_results` of src/blockchecks/engine/gc.py removes, and what it says of it.
use mathlib.Core.Path.{subst}
use blockcheck_s.Prelude.{
  ℕ, ◌+◌, Bool, true, false, ◌&&◌, not, Option, none, some, List, [], ◌∷◌, eqb, if◌then◌else◌, ◌≡◌,
  refl, sym, ◌∙◌, ap, arith, if_split,
}
use blockcheck_s.Prelude.Lists.{length}
use blockcheck_s.Gc.Database.{
  ResultRow, Database, Cutoffs, DbGcStats, is_aged, count_where, delete_where, exists_where, is_of,
  keeps, rows_of, ids_of, will_be_orphan, count_orphan_strategies, is_orphan, delete_orphans,
  delete_aged, remove_orphans, db_stats, prune_db_results,
}

module _ {A : Type 0} (test : A → Bool) where
  count_where-delete_where :
      (xs : List A) → count_where test xs + length (delete_where test xs) ≡ length xs
  unfolding count_where delete_where
  count_where-delete_where [] = omega arith
  count_where-delete_where (x ∷ xs) = ground (arith, count_where-delete_where xs)

  delete_where-none : (xs : List A) → count_where test xs ≡ 0 → delete_where test xs ≡ xs
  unfolding count_where delete_where
  delete_where-none [] e = refl
  delete_where-none (x ∷ xs) e = ground (arith, delete_where-none xs, e)

  delete_where-same :
      (other : A → Bool)
      → ((x : A) → other x ≡ test x)
      → (xs : List A) → delete_where other xs ≡ delete_where test xs
  unfolding delete_where
  delete_where-same other same [] = refl
  delete_where-same other same (x ∷ xs) = ground (arith, same x, delete_where-same other same xs)

-- The rows that are left have one of the strategy, exactly if it had one that is not aged.
exists_where-delete_where :
    (c : Cutoffs) (id : ℕ) (rows : List ResultRow)
    → exists_where (is_of id) (delete_where (is_aged c) rows) ≡ exists_where (keeps c id) rows
unfolding exists_where delete_where
exists_where-delete_where c id [] = refl
exists_where-delete_where c id (row ∷ rows) = ground (arith, exists_where-delete_where c id rows)

delete_aged-some :
    (c : Cutoffs) (rows : List ResultRow)
    → delete_aged c (count_where (is_aged c) rows) (some rows)
      ≡ some (delete_where (is_aged c) rows)
delete_aged-some c rows =
    if_split (λ o. o ≡ some (delete_where (is_aged c) rows)) (eqb (count_where (is_aged c) rows) 0)
      _ _
      (λ z.
        ap {B = Option (List ResultRow)} some
          (sym (delete_where-none (is_aged c) rows (ground (arith, z)))))
      (λ n. refl)

-- What is announced and what is removed.
abbrev pub IsPruned :
    Cutoffs → Bool → List ResultRow → List ResultRow → List ℕ → Database × DbGcStats → Type 0
IsPruned c orphans tcp udp ids (after, stats) =
    let orphan =
      λ (id : ℕ). not (exists_where (keeps c id) tcp) && not (exists_where (keeps c id) udp) in
    (after.tcp_results ≡ some (delete_where (is_aged c) tcp))
    × (after.udp_results ≡ some (delete_where (is_aged c) udp))
    × (after.strategies ≡ some (if orphans then delete_where orphan ids else ids))
    × (stats.tcp_rows + length (rows_of after.tcp_results) ≡ length tcp)
    × (stats.udp_rows + length (rows_of after.udp_results) ≡ length udp)
    × (stats.orphan_strategies + length (ids_of after.strategies) ≡ length ids)

module _ (c : Cutoffs) (orphans : Bool) (tcp udp : List ResultRow) (ids : List ℕ) where
  abbrev whole : Database
  whole = record { tcp_results = some tcp; udp_results = some udp; strategies = some ids }

  abbrev emptied : Database
  emptied = record {
    tcp_results = some (delete_where (is_aged c) tcp);
    udp_results = some (delete_where (is_aged c) udp);
    strategies = some ids;
  }

  abbrev orphan : ℕ → Bool
  orphan = will_be_orphan c whole

  -- The deletion of orphans agrees with their count.
  delete_orphans-emptied :
      delete_orphans emptied ≡ some (record emptied { strategies = some (delete_where orphan ids) })
  unfolding delete_orphans
  delete_orphans-emptied =
      let e =
        delete_where-same orphan
          (is_orphan (delete_where (is_aged c) tcp) (delete_where (is_aged c) udp))
          (λ id.
            ground (arith, exists_where-delete_where c id tcp, exists_where-delete_where c id udp))
          ids in
      ap {B = Option Database} (λ left. some (record emptied { strategies = some left })) e

  abbrev final : Database
  final = record emptied { strategies = some (if orphans then delete_where orphan ids else ids) }

  remove_orphans-emptied :
      remove_orphans orphans (if orphans then count_orphan_strategies c whole else 0) whole emptied
      ≡ final
  unfolding remove_orphans count_orphan_strategies
  remove_orphans-emptied =
      elim orphans
        as (λ b.
          remove_orphans b (if b then count_where orphan ids else 0) whole emptied
          ≡ record emptied { strategies = some (if b then delete_where orphan ids else ids) }) [
            | false ↦ refl
            | true ↦
                if_split {A = Database}
                  (λ d. d ≡ record emptied { strategies = some (delete_where orphan ids) })
                  (not (eqb (count_where orphan ids) 0)) _ _
                  (λ some_left.
                    ap
                      (λ (o : Option Database). elim o as (λ x. Database) [
                        | none ↦ whole
                        | some after ↦ after
                      ])
                      delete_orphans-emptied)
                  (λ z.
                    ap {B = Database} (λ left. record emptied { strategies = some left })
                      (sym (delete_where-none orphan ids (ground (arith, z)))))
          ]

  real_run :
      prune_db_results c false orphans false whole ≡ (final, db_stats c false orphans false whole)
  unfolding prune_db_results db_stats
  real_run =
      let start : Database = record {
        tcp_results = delete_aged c (count_where (is_aged c) tcp) (some tcp);
        udp_results = delete_aged c (count_where (is_aged c) udp) (some udp);
        strategies = some ids;
      } in
      let e : start ≡ emptied = λ i. record {
        tcp_results = delete_aged-some c tcp i;
        udp_results = delete_aged-some c udp i;
        strategies = some ids;
      } in
      let n = if orphans then count_orphan_strategies c whole else 0 in
      ap {B = Database × DbGcStats} (λ d. (d, db_stats c false orphans false whole))
        (ap (remove_orphans orphans n whole) e ∙ remove_orphans-emptied)

  -- The dry run and a run under the lock change nothing. A real run on a database with its three tables
  -- leaves the rows that are not aged and, if it is to remove orphans, the strategies that have such a
  -- row; and the statistics, which are those of the dry run, are the numbers of what is gone.
  pub prune_db_results-IsPruned :
      IsPruned c orphans tcp udp ids (prune_db_results c false orphans false whole)
      × ((prune_db_results c true orphans false whole).0 ≡ whole)
      × ((prune_db_results c false orphans true whole).0 ≡ whole)
      × ((prune_db_results c true orphans false whole).1
          ≡ record (prune_db_results c false orphans false whole).1 { dry_run = true })
  unfolding prune_db_results db_stats count_orphan_strategies
  prune_db_results-IsPruned = (
    subst (IsPruned c orphans tcp udp ids) (sym real_run) (
      refl,
      refl,
      refl,
      count_where-delete_where (is_aged c) tcp,
      count_where-delete_where (is_aged c) udp,
      elim orphans
          as (λ b.
            (if b then count_where orphan ids else 0)
              + length (if b then delete_where orphan ids else ids)
            ≡ length ids) [ true ↦ count_where-delete_where orphan ids | false ↦ omega arith ],
    ),
    refl,
    refl,
    refl,
  )
