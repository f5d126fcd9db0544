-- ===== src/Weights/Tests.antt =====
-- The weights of src/blockchecks/engine/adaptive_queue.py at small inputs.
use blockcheck_s.Prelude.{◌≤◌, [], ◌∷◌, string_eq, ◌≡◌, refl}
use blockcheck_s.Prelude.Dict.{lookup, insert, keys, contains}
use blockcheck_s.Weights.{
  ScanWeights, fresh, get, get_or, total, raise, raise_all, boost_pass, from_rows, to_rows,
}
use blockcheck_s.Weights.Bounds.{fresh-IsBounded, get-boost_pass}
use blockcheck_s.Weights.Rows.{from_rows-to_rows}

abbrev boosted : ScanWeights
boosted = boost_pass fresh "fake" ("tls" ∷ []) ("repeats" ∷ "ttl" ∷ [])

boosts : get boosted "fake" ("tls" ∷ []) ("ttl" ∷ []) ≡ 29
unfolding boost_pass get total get_or lookup raise insert raise_all
boosts = refl

get-boost_pass_example :
    get fresh "split" ("tls" ∷ []) []
    ≤ get (boost_pass fresh "fake" ("tls" ∷ []) ("ttl" ∷ [])) "split" ("tls" ∷ []) []
get-boost_pass_example =
    get-boost_pass fresh "fake" ("tls" ∷ []) ("ttl" ∷ []) "split" ("tls" ∷ []) [] fresh-IsBounded

abbrev stored : ScanWeights
stored = record fresh { family = ("fake", 20) ∷ ("split", 10) ∷ []; blob = ("tls", 5) ∷ [] }

from_rows-to_rows_example : from_rows (to_rows stored) ≡ stored
unfolding keys contains
from_rows-to_rows_example =
    from_rows-to_rows stored (record { family = (refl, (refl, tt)); blob = (refl, tt); trait = tt })
