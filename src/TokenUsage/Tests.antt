-- ===== src/TokenUsage/Tests.antt =====
-- The rounding of doubles at the weight 0.07.
use aivirteach_server.Common.{ℕ, ◌*◌, ◌^◌, ◌≡◌, refl}
use aivirteach_server.Database.Rows.{TokenUsage}
use aivirteach_server.TokenUsage.Double.{one, last_digit, nearest, ceil}
use aivirteach_server.TokenUsage.{TokenWeights, weighted_consumption}

-- 0.07 is the double 1261007895663739 * 2^-54
abbrev sevens : TokenWeights
sevens = record {
  input_cache_hit = 0;
  input_cache_miss = 1_261_007_895_663_739 * 2 ^ 1020;
  output = 0;
}

abbrev asked : ℕ → TokenUsage
asked n = record { input_cache_hit_tokens = 0; input_cache_miss_tokens = n; output_tokens = 0 }

two_hundred : weighted_consumption (asked 200) sevens ≡ 15
unfolding weighted_consumption one last_digit nearest ceil
two_hundred = refl

three_hundred : weighted_consumption (asked 300) sevens ≡ 22
unfolding weighted_consumption one last_digit nearest ceil
three_hundred = refl

five_hundred : weighted_consumption (asked 500) sevens ≡ 35
unfolding weighted_consumption one last_digit nearest ceil
five_hundred = refl

thousand : weighted_consumption (asked 1000) sevens ≡ 70
unfolding weighted_consumption one last_digit nearest ceil
thousand = refl

all : weighted_consumption (asked 1500) sevens ≡ 106
unfolding weighted_consumption one last_digit nearest ceil
all = refl
