-- ===== src/Tool/Output/Tests.antt =====
-- Outputs within the limit, over it, and with a limit that the marker does not fit.
use embedded_agent.Base.{◌≡◌, ◌⊎◌, ◌≤◌, ◌<◌, refl, codes, ℕ, ◌++◌, take, length, max}
use embedded_agent.Tool.Output.{truncate_output}
use embedded_agent.Tool.Output.Bounds.{truncate_output_bounds}

cut_test : truncate_output (codes "abcdefgh") 6 (codes "..") ≡ codes "abcd.."
unfolding truncate_output
cut_test = refl

short_limit_test : truncate_output (codes "abcdefgh") 1 (codes "..") ≡ codes ".."
unfolding truncate_output
short_limit_test = refl

truncate_output_bounds_example :
    ((length (codes "abcdefgh") ≤ 6)
      × (truncate_output (codes "abcdefgh") 6 (codes "..") ≡ codes "abcdefgh"))
    ⊎ ((6 < length (codes "abcdefgh"))
        × (k : ℕ) × (truncate_output (codes "abcdefgh") 6 (codes "..")
            ≡ take k (codes "abcdefgh") ++ codes "..")
        × (length (truncate_output (codes "abcdefgh") 6 (codes ".."))
            ≡ max 6 (length (codes ".."))))
truncate_output_bounds_example = truncate_output_bounds (codes "abcdefgh") (codes "..") 6
