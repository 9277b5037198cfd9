-- ===== src/WifiRateMatching/Counts.antt =====
-- The counts of src/wifi_rate_matching.rs balance the codeword.
use syndrome.Prelude.{ℕ, ◌+◌, ◌≤◌, ◌↔◌, ok, ◌≡◌, arith}
use syndrome.WifiRateMatching.{shortening_and_puncture_counts}

-- The counts are returned exactly when the code and the target have room, K at most N and the
-- payload at most the target, and then payload and shortened bits make K, and target, punctured
-- and shortened bits make N; all else is refused.
pub shortening_and_puncture_counts_iff :
    (k n payload target shortened punctured : ℕ)
    → (shortening_and_puncture_counts k n payload target ≡ ok (shortened, punctured)) ↔ (
        (k ≤ n)
        × (payload ≤ target)
        × (payload + shortened ≡ k)
        × (target + punctured + shortened ≡ n))
unfolding shortening_and_puncture_counts
shortening_and_puncture_counts_iff k n payload target shortened punctured =
    (λ h. (ground arith, ground arith, ground arith, ground arith), λ h. ground arith)
