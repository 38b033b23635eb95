-- ===== src/Agent/Loop/Legacy.antt =====
-- Restored messages of the user hold no onboarding directive.
use embedded_agent.Base.{
  ℕ, suc, ◌-◌, ◌≤◌, ◌<◌, ◌≡◌, refl, sym, ap, ◌∙◌, Bytes, true, Bool-cases, inl, inr, Option-cases,
  none, some, List, [], ◌∷◌, All, codes, length, take, drop, take-append-drop, length-take, arith,
  find, find-append, find-le, bytes_eq, leb, if-both, ◌&&◌,
}
use embedded_agent.Core.Types.{Message}
use embedded_agent.Agent.Loop.{
  is_user, legacy_marker, strip_content, strip_legacy_onboarding_directive,
}

-- What stands in front of the first place of a text does not hold it.
find-take :
    (n s : Bytes) (pos k : ℕ)
    → find n s ≡ some pos
    → 0 < length n
    → k ≤ pos
    → find n (take k s) ≡ none
find-take n s pos k h solid short = elim (Option-cases (find n (take k s))) [
  | inl e ↦ e
  | inr (q, e) ↦
      let later = find-append n (take k s) (drop k s) q e in
      let same : find n s ≡ some q = sym (ap (find n) (take-append-drop k s)) ∙ later in
      let early = find-le n (take k s) q e in let bounded = length-take k s in absurd (ground arith)
]

strip_content-clean : (content : Bytes) → find legacy_marker (strip_content content) ≡ none
unfolding strip_content
strip_content-clean content = elim (Option-cases (find legacy_marker content)) [
  | inl e ↦ rw (strip_content, e) e
  | inr (pos, e) ↦
      let solid : 0 < length legacy_marker = omega arith in
      rw (strip_content, e)
        (if-both (λ x. find legacy_marker x ≡ none)
          (leb 2 pos && bytes_eq (take 2 (drop (pos - 2) content)) (codes "\n\n"))
          (find-take legacy_marker content pos (pos - 2) e solid (omega arith))
          (find-take legacy_marker content pos pos e solid (omega arith)))
]

-- A message of the user is free of the marker.
unfoldable pub IsClean : {J : Type 0} → Message J → Type 0
unfolding legacy_marker find
IsClean msg = is_user msg.role ≡ true → find legacy_marker msg.content ≡ none

-- After the directive is stripped no message of the user holds its marker any more, however often it
-- stood in a message, and the number of the messages is the same.
pub strip_legacy_onboarding_directive-IsClean :
    {J : Type 0} (messages : List (Message J))
    → All IsClean (strip_legacy_onboarding_directive messages)
      × (length (strip_legacy_onboarding_directive messages) ≡ length messages)
unfolding strip_legacy_onboarding_directive IsClean
strip_legacy_onboarding_directive-IsClean [] = (tt, refl)
strip_legacy_onboarding_directive-IsClean (msg ∷ messages) =
    let (clean, same) = strip_legacy_onboarding_directive-IsClean messages in
    (
      (
        elim (Bool-cases (is_user msg.role)) [
          | inl e ↦ rw e (λ k. strip_content-clean msg.content)
          | inr e ↦ rw e (λ k. cc)
        ],
        clean,
      ),
      ap suc same,
    )
