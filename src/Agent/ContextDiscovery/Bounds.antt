-- ===== src/Agent/ContextDiscovery/Bounds.antt =====
-- What a cut context file keeps.
use embedded_agent.Base.{
  ℕ, ◌+◌, ◌-◌, ◌≤◌, ◌<◌, ◌≡◌, refl, sym, ap, ◌∙◌, Bytes, true, false, ◌++◌, codes, length,
  length-take, length-drop, take, drop, take-append-drop, take-append, leb, arith, to_string,
}
use embedded_agent.Agent.ContextDiscovery.{ContextDiscoveryConfig, truncate}

-- The notice that stands for the middle of a file.
abbrev pub notice : Bytes → Bytes → Bytes
notice middle filename =
    codes "\n... ["
    ++ to_string (length middle)
    ++ codes " chars truncated from "
    ++ filename
    ++ codes "] ...\n"

-- Where the two shares of the limit together are no more than the limit: a content within the limit is
-- passed on as it is, and of a longer one a beginning and an end remain, as long as the two shares of the
-- limit say, with a notice between them that tells exactly how many bytes of it are missing.
pub truncate-keeps :
    (head_of tail_of : ℕ → ℕ) (config : ContextDiscoveryConfig) (content filename : Bytes)
    → head_of config.max_chars + tail_of config.max_chars ≤ config.max_chars
    → (length content ≤ config.max_chars
        → truncate head_of tail_of config content filename ≡ content)
      × (config.max_chars < length content
          → (front : Bytes) × (middle : Bytes) × (back : Bytes) × (content
              ≡ front ++ middle ++ back)
            × (length front ≡ head_of config.max_chars)
            × (length back ≡ tail_of config.max_chars)
            × (truncate head_of tail_of config content filename
                ≡ front ++ notice middle filename ++ back))
unfolding truncate
truncate-keeps head_of tail_of config content filename fits =
    let h = head_of config.max_chars in
    let t = tail_of config.max_chars in
    let m = length content - t in
    let before = take m content in
    let after = drop m content in
    let whole = take-append-drop m content in
    let long_before = length-take m content in
    (
      (λ within.
          let e : leb (length content) config.max_chars ≡ true = ground arith in
          rw (truncate, e) refl),
      λ long.
          let e : leb (length content) config.max_chars ≡ false = ground arith in
          let front_same : take h before ≡ take h content =
            sym (take-append h before after (omega arith)) ∙ ap (take h) whole in
          let middle_length = length-drop h before in
          let omitted : length (drop h before) ≡ (length content - h) - t = omega arith in
          (
            take h content,
            drop h before,
            after,
            sym whole
                ∙ ap (λ x. x ++ after)
                    (sym (take-append-drop h before) ∙ ap (λ x. x ++ drop h before) front_same),
            length-take h content ∙ omega arith,
            length-drop m content ∙ omega arith,
            rw (truncate, e, omitted) refl,
          ),
    )
