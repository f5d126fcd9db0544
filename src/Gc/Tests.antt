-- ===== src/Gc/Tests.antt =====
-- Runs of the clean-up of files and of results.
use blockcheck_s.Prelude.{
  ℕ, true, false, String, none, some, List, [], ◌∷◌, ◌≡◌, refl, string_eq, ◌==◌, ◌<◌, ◌≤◌, ◌-◌,
  if◌then◌else◌,
}
use blockcheck_s.Prelude.Lists.{All, length, weigh}
use blockcheck_s.Gc.Files.{
  FilePath, Root, Disk, Places, GcPlan, is_protected, files_of, collect_gc, apply_gc,
  prune_nfqws2_debug_logs, add_all_found, all_found, log_roots, scan_log_root, old_files,
  scan_cache, scan_tmp_nfqws2_artifacts, scan_shm_staging, scan_jsonl_old, scan_sqlite_wal_shm,
  distinct_roots, without, globs, add_found, age_ok, old_dirs,
}
use blockcheck_s.Families.Sorting.{sorted, insert_sorted}
use blockcheck_s.Prelude.Dict.{contains}
use blockcheck_s.Prelude.Text.{contains_text, ends_with}
use blockcheck_s.Gc.Database.{
  ResultRow, Database, Cutoffs, prune_db_results, remove_orphans, db_stats, count_orphan_strategies,
  count_where, exists_where, is_aged, delete_orphans,
}
use blockcheck_s.Gc.Safe.{IsSafe, collect_gc-IsSafe}
use blockcheck_s.Gc.Newest.{not_older, prune_nfqws2_debug_logs-keep}
use blockcheck_s.Gc.Pruned.{IsPruned, prune_db_results-IsPruned}

abbrev log_at : String → ℕ → FilePath
log_at text mtime = record {
  text = text;
  name = text;
  resolved = some text;
  mtime = mtime;
  bytes = 7;
  is_file = true;
  is_dir = false;
}

abbrev three_logs : List FilePath
three_logs =
    log_at "logs/nfqws2_a.log" 30
    ∷ log_at "logs/nfqws2_b.log" 10
    ∷ log_at "logs/week_cov/nfqws2_c.log" 5
    ∷ []

abbrev one_dir : Disk
one_dir = record {
  now = 100;
  is_dir = λ at. at == "logs";
  glob = λ at pattern. if pattern == "nfqws2_*.log" then three_logs else [];
  rglob = λ at pattern. [];
  live_run = false;
}

abbrev logs_dir : Root
logs_dir = record { at = "logs"; name = "logs" }

abbrev places : Places
places = record {
  cache = record { at = "cache"; name = "cache" };
  logs = logs_dir;
  state = record { at = "state"; name = "state" };
  data_dir = record { at = "data"; name = "data" };
}

-- The newest log is kept, the second goes once though it is found twice, the protected one is skipped.
abbrev plan : GcPlan
plan = collect_gc one_dir places 50 1 (logs_dir ∷ logs_dir ∷ [])

plan_of_two_roots : plan ≡ record {
  deletes =
      record { path = log_at "logs/nfqws2_b.log" 10; bytes = 7; reason = "nfqws2_log_over_keep" }
      ∷ [];
  skipped =
      record {
        path = log_at "logs/week_cov/nfqws2_c.log" 5;
        bytes = 7;
        reason = "nfqws2_log_over_keep";
      }
      ∷ [];
}
unfolding collect_gc add_all_found all_found log_roots scan_log_root sorted files_of insert_sorted
    old_files scan_cache scan_tmp_nfqws2_artifacts scan_shm_staging scan_jsonl_old
    scan_sqlite_wal_shm distinct_roots without globs add_found age_ok old_dirs contains
    contains_text ends_with
plan_of_two_roots = refl

dry_run_removes_nothing : apply_gc (λ p. true) plan true ≡ []
unfolding apply_gc
dry_run_removes_nothing = refl

collect_gc-IsSafe_example : IsSafe one_dir places 50 1 (logs_dir ∷ logs_dir ∷ []) plan
collect_gc-IsSafe_example = collect_gc-IsSafe one_dir places 50 1 (logs_dir ∷ logs_dir ∷ [])

prune_nfqws2_debug_logs-keep_example :
    All
      (λ p. (is_protected p ≡ false) × (1 < weigh (not_older p) (files_of three_logs)))
      (prune_nfqws2_debug_logs (λ p. true) 1 three_logs)
    × (length (prune_nfqws2_debug_logs (λ p. true) 1 three_logs) ≤ length (files_of three_logs) - 1)
prune_nfqws2_debug_logs-keep_example = prune_nfqws2_debug_logs-keep (λ p. true) 1 three_logs

abbrev cutoffs : Cutoffs
cutoffs = record { cutoff_ms = 1000; cutoff_iso = "2026-01-01T00:00:00" }

abbrev old_row : ResultRow
old_row = record { strategy_id = some 1; epoch_ms = some 999; timestamp = none }

abbrev new_row : ResultRow
new_row = record { strategy_id = some 2; epoch_ms = none; timestamp = some "2026-02-01T00:00:00" }

abbrev full_db : Database
full_db = record {
  tcp_results = some (old_row ∷ new_row ∷ []);
  udp_results = some (old_row ∷ []);
  strategies = some (1 ∷ 2 ∷ []);
}

prune_db_results-IsPruned_example :
    IsPruned cutoffs true
      (old_row ∷ new_row ∷ [])
      (old_row ∷ [])
      (1 ∷ 2 ∷ [])
      (prune_db_results cutoffs false true false full_db)
    × ((prune_db_results cutoffs true true false full_db).0 ≡ full_db)
    × ((prune_db_results cutoffs false true true full_db).0 ≡ full_db)
    × ((prune_db_results cutoffs true true false full_db).1
        ≡ record (prune_db_results cutoffs false true false full_db).1 { dry_run = true })
prune_db_results-IsPruned_example =
    prune_db_results-IsPruned cutoffs true (old_row ∷ new_row ∷ []) (old_row ∷ []) (1 ∷ 2 ∷ [])

-- Without the UDP table, the statement for orphans raises: all is rolled back and yet reported.
abbrev tcp_only : Database
tcp_only = record {
  tcp_results = some (old_row ∷ []);
  udp_results = none;
  strategies = some (1 ∷ []);
}

rolled_back : prune_db_results cutoffs false true false tcp_only ≡ (
  tcp_only,
  record {
    tcp_rows = 1;
    udp_rows = 0;
    orphan_strategies = 1;
    skipped_lock = false;
    dry_run = false;
  },
)
unfolding prune_db_results remove_orphans db_stats count_orphan_strategies count_where exists_where
    is_aged delete_orphans
rolled_back = refl
