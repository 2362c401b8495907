-- ===== src/Tokenizer/Tests.antt =====
-- Runs of the token counter.
use adversarial_agent_runtim.Prelude.{◌≡◌, refl}
use adversarial_agent_runtim.Tokenizer.{count_tokens}

counts_words_and_marks : count_tokens "call f(x_1), then\tstop." ≡ 9
unfolding count_tokens
counts_words_and_marks = refl
