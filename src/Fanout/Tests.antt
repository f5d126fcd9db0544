-- ===== src/Fanout/Tests.antt =====
-- The batches of src/blockchecks/engine/tcp_fanout.py at small inputs.
use blockcheck_s.Prelude.{true, false, String, List, [], ◌∷◌, ◌↔◌, ◌≡◌}
use blockcheck_s.Prelude.Int.{pos}
use blockcheck_s.Fanout.{CurlProfile, profiles_compatible}
use blockcheck_s.Fanout.Partition.{IsPartition, fanout_batches_lem, profiles_compatible_iff}

abbrev domains : List String
domains = "a.com" ∷ "r1.googlevideo.com" ∷ "b.com" ∷ "c.com" ∷ "d.com" ∷ []

fanout_batches_lem_example : IsPartition domains "tls12" false (pos 2)
fanout_batches_lem_example = fanout_batches_lem domains "tls12" false (pos 2)

abbrev plain : CurlProfile
plain = record { use_ech = true; headers_extra = ""; special = false }

abbrev without_ech : CurlProfile
without_ech = record { use_ech = false; headers_extra = ""; special = false }

compatible_without_ech : (profiles_compatible plain without_ech ≡ true) ↔ (plain ≡ without_ech)
compatible_without_ech = profiles_compatible_iff plain without_ech
