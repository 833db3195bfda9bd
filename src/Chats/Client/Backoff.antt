-- ===== src/Chats/Client/Backoff.antt =====
-- The waits between retries.
use repossess.Prelude.{ℕ, suc, zero}

-- 2^n for n ≤ 5, by cases.
doubled : ℕ → ℕ
doubled zero = 1
doubled (suc zero) = 2
doubled (suc (suc zero)) = 4
doubled (suc (suc (suc zero))) = 8
doubled (suc (suc (suc (suc zero)))) = 16
doubled (suc (suc (suc (suc (suc n))))) = 32
