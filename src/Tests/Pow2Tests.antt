-- ===== src/Tests/Pow2Tests.antt =====
-- Powers of two.
use ps.Base.{ℕ, ◌^◌, ◌≤◌, ◌≡◌, refl, arith}
use ps.Pow2.{ps_rndpow2, ps_rndpow2-least, shiftr32, smear}

ps_rndpow2_one_more : ps_rndpow2 65 ≡ 128
unfolding ps_rndpow2 shiftr32 smear
ps_rndpow2_one_more = refl

ps_rndpow2_same : ps_rndpow2 64 ≡ 64
unfolding ps_rndpow2 shiftr32 smear
ps_rndpow2_same = refl

-- 0 is its own result, by the wrap-around.
ps_rndpow2_zero : ps_rndpow2 0 ≡ 0
unfolding ps_rndpow2 shiftr32 smear
ps_rndpow2_zero = refl

ps_rndpow2-least_example :
    (b : ℕ) × (ps_rndpow2 72 ≡ 2 ^ b) × (72 ≤ 2 ^ b) × ((c : ℕ) → 72 ≤ 2 ^ c → 2 ^ b ≤ 2 ^ c)
ps_rndpow2-least_example = ps_rndpow2-least 72 (omega arith) (omega arith)
