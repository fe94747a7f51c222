-- ===== src/Analysis/Mapping.antt =====
-- The words that the mapping reads.
use sherlock.Prelude.{◌≤◌, String, arith}
use sherlock.Analysis.{map_confidence}

pub map_confidence-cases :
    (level : String) → (40 ≤ map_confidence level) × (map_confidence level ≤ 85)
unfolding map_confidence
map_confidence-cases level = (ground arith, ground arith)
