-- ===== src/Tool/Output/Bounds.antt =====
-- How long a truncated output is, and what it keeps.
use embedded_agent.Base.{
  ◌-◌, ◌⊎◌, leb, ℕ, ◌≤◌, ◌<◌, ◌≡◌, Bytes, ◌++◌, length, take, arith, length-append, length-take,
  max, inl, inr, Bool-cases, ltb,
}
use embedded_agent.Tool.Output.{truncate_output}

-- An output within the limit is passed on as it is. A longer one becomes a prefix of it and the
-- marker, as long as the limit exactly, or as the marker where that is longer than the limit.
pub truncate_output_bounds :
    (output marker : Bytes) (limit : ℕ)
    → ((length output ≤ limit) × (truncate_output output limit marker ≡ output))
      ⊎ ((limit < length output)
          × (k : ℕ) × (truncate_output output limit marker ≡ take k output ++ marker)
          × (length (truncate_output output limit marker) ≡ max limit (length marker)))
unfolding truncate_output
truncate_output_bounds output marker limit = elim (Bool-cases (leb (length output) limit)) [
  | inl h ↦ inl (ground arith, ground arith)
  | inr h ↦ elim (Bool-cases (ltb (length marker) limit)) [
    | inl e ↦ inr (
      ground arith,
      limit - length marker,
      ground arith,
      ground (
        arith,
        length-append (take (limit - length marker) output) marker,
        length-take (limit - length marker) output,
      ),
    )
    | inr e ↦
        inr (ground arith, 0, ground arith, ground (arith, length-append (take 0 output) marker))
  ]
]
