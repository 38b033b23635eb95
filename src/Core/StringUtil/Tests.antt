-- ===== src/Core/StringUtil/Tests.antt =====
-- Runs of the string helpers.
use embedded_agent.Base.{◌≡◌, refl, [], ◌∷◌, codes, true, find, find_byte}
use embedded_agent.Core.StringUtil.{split, trim, ends_with, replace_all, to_lower}

split_run : split (codes "a,,b") b',' ≡ codes "a" ∷ [] ∷ codes "b" ∷ []
unfolding split find_byte
split_run = refl

trim_run : trim (codes " \t a b \n") ≡ codes "a b"
unfolding trim
trim_run = refl

ends_with_run : ends_with (codes "agent.log") (codes ".log") ≡ true
unfolding ends_with
ends_with_run = refl

replace_all_run : replace_all (codes "aXbXc") (codes "X") (codes "--") ≡ codes "a--b--c"
unfolding replace_all find
replace_all_run = refl

to_lower_run : to_lower (codes "RM -rf") ≡ codes "rm -rf"
unfolding to_lower
to_lower_run = refl
