-- ===== src/Api/Tests/Limits.antt =====
-- The theorems of the limiter of requests at concrete inputs: buckets that hold two tokens and are
-- never filled again, and no trusted proxies.
use agent_comm_platform.Base.{
  ℕ, zero, suc, ◌≤◌, ◌≡◌, refl, Bool, true, false, some, List, [], ◌∷◌, length, arith,
}
use agent_comm_platform.Base.Bytes.{Bytes, ◌==◌}
use agent_comm_platform.Registry.Tests.{alice, bob}
use agent_comm_platform.Base.Table.{select_row, delete, update}
use agent_comm_platform.Api.Limiter.{
  Rate, Tracked, IpRateLimiter, Request, max_tracked_ips, minute, has_ip, clean_up, allow_first,
  allow_new, allow_tracked, allow_ip, is_trusted, effective_ip, limit_middleware,
}
use agent_comm_platform.Api.Limits.{
  answers, run, IsActive, alone, times, answers-alone, run-IsBounded,
}

abbrev take_token : ℕ → Bool × ℕ
take_token zero = (false, 0)
take_token (suc n) = (true, n)

abbrev rate : Rate ℕ Bytes
rate = record {
  new_limiter = 2;
  allow = λ b t. take_token b;
  contains = λ network ip. false;
  parse_ip = λ ip. some ip;
}

abbrev from : Bytes → ℕ → Request
from ip now = record { peer = ip; x_real_ip = []; now = now; spent = now }

-- Alice's first request has taken one of two tokens.
abbrev alice_tracked : Tracked ℕ
alice_tracked = record { ip = alice; bucket = 1; last_seen = 0 }

abbrev limiter : IpRateLimiter ℕ Bytes
limiter = record {
  ips = alice_tracked ∷ [];
  next_cleanup = minute;
  overflow = 2;
  trusted_proxies = [];
}

abbrev requests : List Request
requests = from bob 1 ∷ from alice minute ∷ from bob minute ∷ from alice minute ∷ []

-- The first answer to alice after bob's request is her bucket's last token.
one_left : answers rate alice requests limiter ≡ true ∷ false ∷ []
unfolding answers limit_middleware allow_ip allow_tracked allow_new allow_first clean_up
    effective_ip is_trusted select_row delete update ◌==◌
one_left = refl

alice_found : select_row (has_ip alice) limiter.ips ≡ some alice_tracked
unfolding select_row ◌==◌
alice_found = refl

alice-IsActive : IsActive rate alice [] 0 requests
unfolding effective_ip is_trusted ◌==◌
alice-IsActive = (omega arith, (omega arith, (omega arith, (omega arith, tt))))

answers-alone_example :
    answers rate alice requests limiter ≡ alone rate 1 (times rate alice [] requests)
answers-alone_example =
    answers-alone rate alice requests alice_tracked [] limiter refl alice_found alice-IsActive

run-IsBounded_example : length (run rate requests limiter).ips ≤ max_tracked_ips
run-IsBounded_example = run-IsBounded rate requests limiter (omega arith)
