-- ===== src/Memory/FtsSanitizer/Tests.antt =====
-- A query with operators and stop words.
use embedded_agent.Base.{◌≡◌, refl, codes}
use embedded_agent.Memory.FtsSanitizer.{sanitize}

sanitize_test :
    sanitize (codes "What is NEAR the (Build*) AND my_file?") ≡ codes "near OR build OR my_file"
unfolding sanitize
sanitize_test = refl
