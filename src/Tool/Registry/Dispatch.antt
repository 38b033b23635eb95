-- ===== src/Tool/Registry/Dispatch.antt =====
-- Which tool a call by name runs.
use embedded_agent.Base.{
  map-append, false, ◌≡◌, ◌≢◌, refl, ap, sym, subst, ◌∙◌, ◌⊎◌, inl, inr, Bytes, true, false, none,
  some, Option, Option-cases, Bool-cases, List, [], ◌∷◌, ◌++◌, codes, arith, All, map, bytes_eq,
  bytes_eq_iff,
}
use embedded_agent.Base.Map.{lookup, set_has, set_has-append}
use embedded_agent.Core.Error.{Result, err, error_of, ErrorCode, Outcome, returned}
use embedded_agent.Core.Types.{ToolResult}
use embedded_agent.Tool.Interface.{Tool}
use embedded_agent.Tool.Toolset
use embedded_agent.Tool.Toolset.{entry_specs, Toolset, Entry, has_tool, find_tool, find_entry}
use embedded_agent.Tool.Registry.{
  specs_in, active_specs, get_all_names, ToolRegistry, execute, execute_in,
}

abbrev pub not_found : {S : Type 0} → Bytes → S → Outcome (Result ToolResult) × S
not_found n s = (returned (err (error_of ErrorCode.tool_error (codes "Tool not found: " ++ n))), s)

module _ {J S : Type 0} where
  -- The tool `tool` is the first one named `n` of the entries.
  pub record IsFirstOf (n : Bytes) (entries : List (Entry J S)) (tool : Tool J S) : Type 0 where
    pub front : List (Entry J S)
    pub entry : Entry J S
    pub back : List (Entry J S)
    pub split : entries ≡ front ++ entry ∷ back
    pub passed : All (λ e. e.tool.name ≢ n) front
    pub is_it : entry.tool ≡ tool
    pub named : tool.name ≡ n

  -- No toolset is registered as `k`, or none of its tools is named `n`.
  abbrev pub LacksTool : List (Bytes × Toolset J S) → Bytes → Bytes → Type 0
  LacksTool toolsets n k =
      (set : Toolset J S) → lookup k toolsets ≡ some set → All (λ e. e.tool.name ≢ n) set.entries

  -- The toolset `k` is the first of the names that has a tool `n`, and `tool` is its first one.
  pub record IsFirst (toolsets : List (Bytes × Toolset J S)) (names : List Bytes) (n : Bytes)
      (tool : Tool J S) : Type 0 where
    pub before : List Bytes
    pub after : List Bytes
    pub k : Bytes
    pub set : Toolset J S
    pub parts : names ≡ before ++ k ∷ after
    pub skipped : All (LacksTool toolsets n) before
    pub found : lookup k toolsets ≡ some set
    pub holds : IsFirstOf n set.entries tool

  -- What a call of `n` does.
  abbrev pub Dispatches :
      List (Bytes × Toolset J S)
      → List Bytes
      → Bytes
      → J
      → S
      → Outcome (Result ToolResult) × S
      → Type 0
  Dispatches toolsets names n args s result =
      ((tool : Tool J S) × IsFirst toolsets names n tool × (result ≡ tool.execute args s))
      ⊎ (All (LacksTool toolsets n) names × (result ≡ not_found n s))

  -- What the search through the entries finds.
  abbrev Finds : Bytes → List (Entry J S) → Option (Entry J S) → Type 0
  Finds n es none = All (λ e. e.tool.name ≢ n) es
  Finds n es (some e) = IsFirstOf n es e.tool

  Finds-skip :
      (n : Bytes) (e : Entry J S) (es : List (Entry J S)) (r : Option (Entry J S))
      → e.tool.name ≢ n
      → Finds n es r
      → Finds n (e ∷ es) r
  Finds-skip n e es none h f = (h, f)
  Finds-skip n e es (some d) h f = record {
    front = e ∷ f.front;
    entry = f.entry;
    back = f.back;
    split = ap (◌∷◌ e) f.split;
    passed = (h, f.passed);
    is_it = f.is_it;
    named = f.named;
  }

  find_entry-Finds : (n : Bytes) (es : List (Entry J S)) → Finds n es (find_entry n es)
  unfolding find_entry
  find_entry-Finds n [] = tt
  find_entry-Finds n (e ∷ es) = elim (Bool-cases (bytes_eq e.tool.name n)) [
    | inl t ↦
        rw (find_entry, t)
          (record {
            front = [];
            entry = e;
            back = es;
            split = refl;
            passed = tt;
            is_it = refl;
            named = (bytes_eq_iff e.tool.name n).0 t;
          })
    | inr f ↦
        rw (find_entry, f)
          (Finds-skip n e es (find_entry n es) (ground (arith, bytes_eq_iff e.tool.name n))
            (find_entry-Finds n es))
  ]

  -- A toolset in which the search finds nothing lacks the tool.
  none_found :
      (toolsets : List (Bytes × Toolset J S)) (n k : Bytes) (set : Toolset J S)
      → lookup k toolsets ≡ some set
      → find_entry n set.entries ≡ none
      → LacksTool toolsets n k
  none_found toolsets n k set e g other at =
      subst (λ o. All (λ d. d.tool.name ≢ n) (entries_of o)) (sym e ∙ at)
        (subst (Finds n set.entries) g (find_entry-Finds n set.entries))
    where
      entries_of : Option (Toolset J S) → List (Entry J S)
      entries_of none = []
      entries_of (some s) = s.entries

  shift :
      (toolsets : List (Bytes × Toolset J S)) (name : Bytes) (names : List Bytes) (n : Bytes)
      (args : J) (s : S) (result later : Outcome (Result ToolResult) × S)
      → LacksTool toolsets n name
      → result ≡ later
      → Dispatches toolsets names n args s later
      → Dispatches toolsets (name ∷ names) n args s result
  shift toolsets name names n args s result later l q (inl (tool, f, e)) = inl (
    tool,
    record {
      before = name ∷ f.before;
      after = f.after;
      k = f.k;
      parts = ap (◌∷◌ name) f.parts;
      skipped = (l, f.skipped);
      set = f.set;
      found = f.found;
      holds = f.holds;
    },
    q ∙ e,
  )
  shift toolsets name names n args s result later l q (inr (a, e)) = inr ((l, a), q ∙ e)

  pub execute_in_lem :
      (toolsets : List (Bytes × Toolset J S)) (names : List Bytes) (n : Bytes) (args : J) (s : S)
      → Dispatches toolsets names n args s (execute_in toolsets names n args s)
  unfolding execute_in has_tool find_tool embedded_agent.Tool.Toolset.execute
  execute_in_lem toolsets [] n args s = inr (tt, refl)
  execute_in_lem toolsets (name ∷ names) n args s = elim (Option-cases (lookup name toolsets)) [
    | inl e ↦
        shift toolsets name names n args s _ _ (λ set at. cc) (ground arith)
          (execute_in_lem toolsets names n args s)
    | inr (set, e) ↦ elim (Option-cases (find_entry n set.entries)) [
      | inl g ↦
          shift toolsets name names n args s _ _ (none_found toolsets n name set e g) (ground arith)
            (execute_in_lem toolsets names n args s)
      | inr (entry, g) ↦ inl (
        entry.tool,
        record {
          before = [];
          after = names;
          k = name;
          parts = refl;
          set = set;
          skipped = tt;
          found = e;
          holds = subst (Finds n set.entries) g (find_entry-Finds n set.entries);
        },
        ground arith,
      )
    ]
  ]

  -- A call of `n` runs the first tool named `n` of the first active toolset, in the order of the
  -- names, that has one, on the arguments it was given; where no active toolset has one, it returns
  -- the error "Tool not found" and changes nothing.
  pub execute-Dispatches :
      (r : ToolRegistry J S) (n : Bytes) (args : J) (s : S)
      → Dispatches r.toolsets r.active_sets n args s (execute r n args s)
  unfolding execute
  execute-Dispatches r n args s = execute_in_lem r.toolsets r.active_sets n args s

  entry_specs-lacks :
      (n : Bytes) (es : List (Entry J S)) (s : S)
      → All (λ e. e.tool.name ≢ n) es
      → set_has n (map (λ spec. spec.name) (entry_specs es s)) ≡ false
  unfolding set_has entry_specs
  entry_specs-lacks n [] s h = refl
  entry_specs-lacks n (e ∷ es) s h =
      ground (arith, bytes_eq_iff e.tool.name n, entry_specs-lacks n es s h.1, h.0)

  -- What an active toolset offers, it has.
  pub specs_in-LacksTool :
      (toolsets : List (Bytes × Toolset J S)) (names : List Bytes) (n : Bytes) (s : S)
      → All (LacksTool toolsets n) names
      → set_has n (map (λ spec. spec.name) (specs_in toolsets names s)) ≡ false
  unfolding specs_in embedded_agent.Tool.Toolset.active_specs set_has
  specs_in-LacksTool toolsets [] n s h = refl
  specs_in-LacksTool toolsets (name ∷ names) n s h = elim (Option-cases (lookup name toolsets)) [
    | inl e ↦ ground (arith, specs_in-LacksTool toolsets names n s h.1)
    | inr (set, e) ↦
        rw (e, specs_in, map-append, set_has-append)
          (ground (
            arith,
            entry_specs-lacks n set.entries s (h.0 set e),
            specs_in-LacksTool toolsets names n s h.1,
          ))
  ]

  -- In any state, a tool that is offered then runs when it is called: the call returns what a tool
  -- of that name returns, in any later state and on any arguments.
  pub offered_runs :
      (r : ToolRegistry J S) (n : Bytes) (s : S)
      → set_has n (get_all_names r s) ≡ true
      → (args : J) (t : S)
      → (tool : Tool J S) × IsFirst r.toolsets r.active_sets n tool
        × (execute r n args t ≡ tool.execute args t)
  unfolding get_all_names active_specs
  offered_runs r n s h args t = elim (execute-Dispatches r n args t) [
    | inl found ↦ found
    | inr (l, e) ↦ absurd (ground (arith, specs_in-LacksTool r.toolsets r.active_sets n s l))
  ]
