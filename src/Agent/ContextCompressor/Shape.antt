-- ===== src/Agent/ContextCompressor/Shape.antt =====
-- The shape of a compressed history.
use embedded_agent.Base.{
  ℕ, suc, ◌≤◌, ◌<◌, ◌≡◌, ◌≢◌, refl, ap, ◌⊎◌, inl, inr, Bytes, false, not, ◌||◌, Option, Bool-cases,
  List, [], ◌∷◌, ◌++◌, length, take, drop, get_elem?, arith, length-append, length-take,
  length-drop, leb,
}
use embedded_agent.Core.Error.{Result, ok, err, returned, thrown, Outcome-cases}
use embedded_agent.Core.Json.{JsonLib}
use embedded_agent.Core.Types.{Message, Role}
use embedded_agent.Provider.Interface.{Provider}
use embedded_agent.Agent.ContextCompressor.{
  ContextCompressor, find_tail_cut, protect_head_size, estimate_tokens,
}
use embedded_agent.Agent.ContextCompressor.Tail.{find_tail_cut_bounds}
use embedded_agent.Agent.ContextCompressor.Prune.{prune_old_tool_results}
use embedded_agent.Agent.ContextCompressor.Summary.{summarize}
use embedded_agent.Agent.ContextCompressor.Compress.{
  last_head_role, role_or_user, summary_role, summary_message, assemble, finish, compress_pruned,
  compress,
}
use embedded_agent.Agent.ContextCompressor.Pruned.{
  ArePruned, ArePruned-length, prune_loop-ArePruned,
}

-- The role of the summary is not that of the last message of the head, and it is that of the first
-- message of the tail only where one of these two is the user's and the other the assistant's, so
-- that no role would differ from both.
abbrev pub IsFitting : Role → Role → Role → Type 0
IsFitting last_head first_tail role =
    (role ≢ last_head)
    × ((role ≢ first_tail)
        ⊎ (((last_head ≡ Role.user) × (first_tail ≡ Role.assistant))
            ⊎ ((last_head ≡ Role.assistant) × (first_tail ≡ Role.user))))

-- `out` is the head of `pruned`, one summary, and the messages of `pruned` from the cut of its tail on.
pub record IsSummarised (L : JsonLib) (c : ContextCompressor) (pruned out : List (Message L.Json))
    : Type 0 where
  pub head_end : ℕ
  pub cut : ℕ
  pub role : Role
  pub summary : Bytes
  pub behind_head : head_end ≡ protect_head_size c pruned
  pub at_tail : cut ≡ find_tail_cut L c pruned head_end
  pub in_order : head_end < cut
  pub in_range : cut ≤ length pruned
  pub is_user_or_assistant : (role ≡ Role.user) ⊎ (role ≡ Role.assistant)
  pub fits : IsFitting (last_head_role pruned head_end) (role_or_user (get_elem? pruned cut)) role
  pub parts : out ≡ take head_end pruned ++ summary_message role summary ∷ drop cut pruned

summary_role-speaks :
    (a b : Role) → (summary_role a b ≡ Role.user) ⊎ (summary_role a b ≡ Role.assistant)
unfolding summary_role
summary_role-speaks a b = ground arith

summary_role-IsFitting : (a b : Role) → IsFitting a b (summary_role a b)
unfolding summary_role
summary_role-IsFitting a b = (λ e. ground arith, ground arith)

assemble-IsSummarised :
    (L : JsonLib) (c : ContextCompressor) (pruned : List (Message L.Json)) (summary : Bytes)
    → let head_end = protect_head_size c pruned in
      let cut = find_tail_cut L c pruned head_end in
      head_end < cut
      → cut ≤ length pruned
      → IsSummarised L c pruned (assemble pruned head_end cut summary)
unfolding assemble
assemble-IsSummarised L c pruned summary a b =
    let head_end = protect_head_size c pruned in
    let cut = find_tail_cut L c pruned head_end in
    let before = last_head_role pruned head_end in
    let behind = role_or_user (get_elem? pruned cut) in
    record {
      head_end = head_end;
      cut = cut;
      role = summary_role before behind;
      summary = summary;
      behind_head = refl;
      at_tail = refl;
      in_order = a;
      in_range = b;
      is_user_or_assistant = summary_role-speaks before behind;
      fits = summary_role-IsFitting before behind;
      parts = refl;
    }

finish-IsSummarised :
    (L : JsonLib) (c after : ContextCompressor) (messages pruned : List (Message L.Json))
    (r : Result Bytes)
    → let head_end = protect_head_size c pruned in
      let cut = find_tail_cut L c pruned head_end in
      head_end < cut
      → cut ≤ length pruned
      → ((finish L after messages pruned head_end cut r).0 ≡ messages)
        ⊎ IsSummarised L c pruned (finish L after messages pruned head_end cut r).0
unfolding finish
finish-IsSummarised L c after messages pruned (ok summary) a b =
    inr (assemble-IsSummarised L c pruned summary a b)
finish-IsSummarised L c after messages pruned (err e) a b =
    elim (Bool-cases after.abort_on_summary_failure) [
      | inl q ↦ inl (rw (q) refl)
      | inr q ↦ inr (rw (q) (assemble-IsSummarised L c pruned _ a b))
    ]

find_tail_cut-length :
    (L : JsonLib) (c : ContextCompressor) (messages : List (Message L.Json)) (head_end : ℕ)
    → find_tail_cut L c messages head_end ≤ length messages
unfolding find_tail_cut
find_tail_cut-length L c messages head_end =
    elim (Bool-cases (leb (length messages) (suc head_end))) [
      | inl h ↦ ground arith
      | inr h ↦ omega (arith, find_tail_cut_bounds L c messages head_end (ground arith))
    ]

-- The compressor as a call of `compress` starts with it.
abbrev pub begun : ContextCompressor → ContextCompressor
begun c = record c { last_compressed = false }

-- What `compress` gives back, where it gives something back.
abbrev pub IsShape :
    (L : JsonLib) → ContextCompressor → List (Message L.Json) → List (Message L.Json) → Type 0
IsShape L c messages out =
    (out ≡ messages)
    ⊎ ((pruned : List (Message L.Json)) × ArePruned
          (find_tail_cut L (begun c) messages (protect_head_size (begun c) messages)) messages
          pruned
        × ((out ≡ pruned) ⊎ IsSummarised L (begun c) pruned out))

compress_pruned-IsShape :
    (L : JsonLib) {S : Type 0} (provider : Option (Provider L.Json S)) (c : ContextCompressor)
    (messages pruned : List (Message L.Json)) (focus_topic : Bytes) (s : S)
    → ((compress_pruned L provider c messages pruned focus_topic s).0 ≡ thrown)
      ⊎ ((out : List (Message L.Json)) × ((compress_pruned L provider c messages pruned focus_topic
              s).0
            ≡ returned out)
          × ((out ≡ messages) ⊎ ((out ≡ pruned) ⊎ IsSummarised L c pruned out)))
unfolding compress_pruned
compress_pruned-IsShape L provider c messages pruned focus_topic s =
    let head_end = protect_head_size c pruned in
    let cut = find_tail_cut L c pruned head_end in
    let summed = summarize L provider c (drop head_end (take cut pruned)) focus_topic s in
    elim (Bool-cases (leb cut head_end)) [
      | inl q ↦ inr (pruned, rw (compress_pruned, q) refl, inr (inl refl))
      | inr q ↦ elim (Outcome-cases summed.0) [
        | inr e ↦ inl (rw (compress_pruned, q, e) refl)
        | inl (r, e) ↦ inr (
          (finish L summed.1 messages pruned head_end cut r).0,
          rw (compress_pruned, q, e) refl,
          elim (finish-IsSummarised L c summed.1 messages pruned r (ground arith)
              (find_tail_cut-length L c pruned head_end)) [
                | inl kept ↦ inl kept
                | inr summarised ↦ inr (inr summarised)
              ],
        )
      ]
    ]

-- `compress` throws, or it gives back the history as it came; or the history with messages in front of
-- the cut of its tail pruned: long results of tools put in one line or marked as duplicates, and calls of
-- the assistant with other arguments, each message and each call at its place and all else unchanged;
-- or the pruned history with one summary, of the user's or the assistant's role, in the place of
-- the one or more messages between the protected head and the cut of the tail. The summary's role fits
-- between its neighbours.
pub compress-IsShape :
    (L : JsonLib) {S : Type 0} (provider : Option (Provider L.Json S)) (c : ContextCompressor)
    (messages : List (Message L.Json)) (focus_topic : Bytes) (s : S)
    → ((compress L provider c messages focus_topic s).0 ≡ thrown)
      ⊎ ((out : List (Message L.Json)) × ((compress L provider c messages focus_topic s).0
            ≡ returned out)
          × IsShape L c messages out)
unfolding compress prune_old_tool_results
compress-IsShape L provider c messages focus_topic s =
    elim (Bool-cases (not c.enable || leb (estimate_tokens L messages) c.threshold_tokens)) [
      | inl q ↦ inr (messages, rw (compress, q) refl, inl refl)
      | inr q ↦ elim (Outcome-cases (prune_old_tool_results L (begun c) messages)) [
        | inr e ↦ inl (rw (compress, q, e) refl)
        | inl (pruned, e) ↦
            let cut = find_tail_cut L (begun c) messages (protect_head_size (begun c) messages) in
            let by_one = prune_loop-ArePruned L cut [] messages pruned e in
            rw (compress, q, e)
              (elim (compress_pruned-IsShape L provider (begun c) messages pruned focus_topic s) [
                | inl threw ↦ inl threw
                | inr (out, gave, shape) ↦ inr (
                  out,
                  gave,
                  elim shape [ inl kept ↦ inl kept | inr more ↦ inr (pruned, by_one, more) ],
                )
              ])
      ]
    ]

IsSummarised-length :
    (L : JsonLib) (c : ContextCompressor) (pruned out : List (Message L.Json))
    → IsSummarised L c pruned out
    → length out ≤ length pruned
IsSummarised-length L c pruned out f = omega (
  arith,
  ap length f.parts,
  length-append (take f.head_end pruned) (summary_message f.role f.summary ∷ drop f.cut pruned),
  length-take f.head_end pruned,
  length-drop f.cut pruned,
  f.in_order,
  f.in_range,
)

-- What `compress` gives back is never longer, in messages, than what came in.
pub IsShape-length :
    (L : JsonLib) (c : ContextCompressor) (messages out : List (Message L.Json))
    → IsShape L c messages out
    → length out ≤ length messages
IsShape-length L c messages out (inl e) = omega (arith, ap length e)
IsShape-length L c messages out (inr (pruned, e, inl f)) =
    omega (arith, ap length f, ArePruned-length _ messages pruned e)
IsShape-length L c messages out (inr (pruned, e, inr f)) =
    omega
      (arith, IsSummarised-length L (begun c) pruned out f, ArePruned-length _ messages pruned e)
