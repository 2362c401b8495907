-- ===== src/Text/Tests.antt =====
-- Runs of the text functions.
use adversarial_agent_runtim.Prelude.{◌≡◌, refl}
use adversarial_agent_runtim.Text.{split, join, decimal}

join-split : join " " (split "  a\tbc \n d ") ≡ "a bc d"
unfolding split join
join-split = refl

decimal_runs : decimal 8070 ≡ "8070"
unfolding decimal
decimal_runs = refl
