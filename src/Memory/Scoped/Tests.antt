-- ===== src/Memory/Scoped/Tests.antt =====
-- Two agents that share a memory.
use embedded_agent.Base.{◌≡◌, ◌↔◌, ◌⊎◌, true, false, refl, [], ◌∷◌, codes}
use embedded_agent.Base.Map.{set_has}
use embedded_agent.Memory.Scoped.{MemoryScope, can_read, scoped_category}
use embedded_agent.Memory.Scoped.Isolation.{can_read_iff}

abbrev coder : MemoryScope
coder = record { agent_id = codes "coder"; read_allowlist = codes "planner" ∷ [] }

abbrev planner : MemoryScope
planner = record { agent_id = codes "planner"; read_allowlist = [] }

planner_sees_nothing :
    can_read planner
      (record { content = codes "x"; category = scoped_category coder (codes "core") })
    ≡ false
unfolding can_read scoped_category
planner_sees_nothing = refl

can_read_iff_example :
    (can_read coder
        (record { content = codes "x"; category = scoped_category planner (codes "core") })
      ≡ true)
    ↔ ((codes "planner" ≡ codes "coder")
        ⊎ (set_has (codes "planner") (codes "planner" ∷ []) ≡ true))
can_read_iff_example =
    can_read_iff coder planner (codes "x") (codes "core")
      ((λ e. cc), ((λ e. cc), ((λ e. cc), ((λ e. cc), ((λ e. cc), tt)))))
      (
        (
          (λ e. cc),
          ((λ e. cc), ((λ e. cc), ((λ e. cc), ((λ e. cc), ((λ e. cc), ((λ e. cc), tt)))))),
        ),
        tt,
      )
      ((λ e. cc), ((λ e. cc), ((λ e. cc), ((λ e. cc), ((λ e. cc), ((λ e. cc), ((λ e. cc), tt)))))))
