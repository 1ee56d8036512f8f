-- ===== src/Api/Limiter.antt =====
-- The limiter of requests: IPRateLimiter, GetLimiter and limitMiddleware of internal/api/server.go. The
-- package golang.org/x/time/rate, and net for addresses, are parameters.
use agent_comm_platform.Base.{
  ℕ, ◌+◌, ◌*◌, ◌^◌, Bool, false, ◌||◌, Option, none, some, List, [], ◌∷◌, ◌++◌, length, leb, ltb,
  if◌then◌else◌,
}
use agent_comm_platform.Base.Bytes.{Bytes, ◌==◌}
use agent_comm_platform.Base.Table.{select_row, delete, update}

-- `new_limiter` is rate.NewLimiter of the limiter's rate and burst; `allow` is Allow at a time.
pub record Rate (Bucket Network : Type 0) : Type 0 where
  pub new_limiter : Bucket
  pub allow : Bucket → ℕ → Bool × Bucket
  pub contains : Network → Bytes → Bool
  -- net.ParseIP with String.
  pub parse_ip : Bytes → Option Bytes

-- An address in the maps `ips` and `lastSeen`, which have the same keys.
pub record Tracked (Bucket : Type 0) : Type 0 where
  pub ip : Bytes
  pub bucket : Bucket
  pub last_seen : ℕ

pub record IpRateLimiter (Bucket Network : Type 0) : Type 0 where
  pub ips : List (Tracked Bucket)
  pub next_cleanup : ℕ
  pub overflow : Bucket
  pub trusted_proxies : List Network

-- The address of the connection, the header X-Real-IP, and the readings of the clock.
pub record Request : Type 0 where
  pub peer : Bytes
  pub x_real_ip : Bytes
  pub now : ℕ
  pub spent : ℕ

abbrev pub max_tracked_ips : ℕ
max_tracked_ips = 10000

abbrev pub minute : ℕ
minute = 60 * 10 ^ 9

abbrev pub idle_time : ℕ
idle_time = 10 * minute

abbrev pub has_ip : {Bucket : Type 0} → Bytes → Tracked Bucket → Bool
has_ip ip t = t.ip == ip

abbrev pub is_idle : {Bucket : Type 0} → ℕ → Tracked Bucket → Bool
is_idle now t = ltb (t.last_seen + idle_time) now

-- The bucket that GetLimiter returned is what Allow leaves of it.
abbrev pub spend : {Bucket : Type 0} → Bucket → ℕ → Tracked Bucket → Tracked Bucket
spend left now t = record t { bucket = left; last_seen = now }

module _ {Bucket Network : Type 0} (rate : Rate Bucket Network) where
  unfoldable pub new_ip_rate_limiter : IpRateLimiter Bucket Network
  new_ip_rate_limiter = record {
    ips = [];
    next_cleanup = 0;
    overflow = rate.new_limiter;
    trusted_proxies = [];
  }

  unfoldable pub clean_up : ℕ → IpRateLimiter Bucket Network → IpRateLimiter Bucket Network
  clean_up now l =
      if ltb now l.next_cleanup
      then l
      else record l { ips = delete (is_idle now) l.ips; next_cleanup = now + minute }

  unfoldable pub allow_overflow :
      ℕ → IpRateLimiter Bucket Network → Bool × IpRateLimiter Bucket Network
  allow_overflow spent l = let a = rate.allow l.overflow spent in (a.0, record l { overflow = a.1 })

  unfoldable pub allow_first :
      Bytes → ℕ → ℕ → IpRateLimiter Bucket Network → Bool × IpRateLimiter Bucket Network
  allow_first ip now spent l =
      let a = rate.allow rate.new_limiter spent in
      (a.0, record l { ips = l.ips ++ record { ip = ip; bucket = a.1; last_seen = now } ∷ [] })

  -- Of an address that is not in the maps.
  unfoldable pub allow_new :
      Bytes → ℕ → ℕ → IpRateLimiter Bucket Network → Bool × IpRateLimiter Bucket Network
  allow_new ip now spent l =
      if leb max_tracked_ips (length l.ips)
      then allow_overflow spent l
      else allow_first ip now spent l

  unfoldable pub allow_tracked :
      Bytes
      → ℕ
      → ℕ
      → IpRateLimiter Bucket Network
      → Option (Tracked Bucket)
      → Bool × IpRateLimiter Bucket Network
  allow_tracked ip now spent l none = allow_new ip now spent l
  allow_tracked ip now spent l (some t) =
      let a = rate.allow t.bucket spent in
      (a.0, record l { ips = update (has_ip ip) (spend a.1 now) l.ips })

  -- `GetLimiter(ip).Allow()`: the first reads the clock as `now`, the second as `spent`.
  unfoldable pub allow_ip :
      Bytes → ℕ → ℕ → IpRateLimiter Bucket Network → Bool × IpRateLimiter Bucket Network
  allow_ip ip now spent l =
      let cleaned = clean_up now l in
      allow_tracked ip now spent cleaned (select_row (has_ip ip) cleaned.ips)

  unfoldable pub is_trusted : Bytes → List Network → Bool
  is_trusted ip [] = false
  is_trusted ip (n ∷ networks) = rate.contains n ip || is_trusted ip networks

  unfoldable pub forwarded_ip : Bytes → Option Bytes → Bytes
  forwarded_ip peer none = peer
  forwarded_ip peer (some ip) = ip

  -- A trusted proxy names its client in X-Real-IP.
  unfoldable pub effective_ip : Bytes → Bytes → List Network → Bytes
  effective_ip peer x_real_ip networks =
      if is_trusted peer networks then forwarded_ip peer (rate.parse_ip x_real_ip) else peer

  -- Whether the request reaches the next handler; otherwise the status is 429.
  unfoldable pub limit_middleware :
      Request → IpRateLimiter Bucket Network → Bool × IpRateLimiter Bucket Network
  limit_middleware r l =
      allow_ip (effective_ip r.peer r.x_real_ip l.trusted_proxies) r.now r.spent l
