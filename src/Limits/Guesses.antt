-- ===== src/Limits/Guesses.antt =====
-- gateway/src/limits.ts: session codes that do not exist, by the address that tried them. Redis keeps
-- a sorted set for each address; here they are one list, and Redis answers.
use rmcollab_model.Common.{ℕ, ◌-◌, String, Bool, not, ◌&&◌, List, ◌∷◌, filter, length, leb, ◌==◌}

pub record CodeMiss : Type 0 where
  pub address : String
  pub at : ℕ

abbrev pub miss_window_ms : ℕ
miss_window_ms = 600000

unfoldable pub code_guesses_blocked : ℕ → List CodeMiss → String → ℕ → Bool
code_guesses_blocked limit misses address now = leb limit (
    length
      (filter (λ (m : CodeMiss). m.address == address && leb (now - miss_window_ms) m.at) misses))

-- `within`, which first drops what left the window
unfoldable pub record_code_miss : List CodeMiss → String → ℕ → List CodeMiss
record_code_miss misses address now =
    record { address = address; at = now }
    ∷ filter (λ (m : CodeMiss). not (m.address == address && leb m.at (now - miss_window_ms)))
        misses
