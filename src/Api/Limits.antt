-- ===== src/Api/Limits.antt =====
-- Two clients of the limiter of requests do not disturb each other, and it tracks a bounded number of them:
-- GetLimiter of internal/api/server.go.
mod Rows
use agent_comm_platform.Base.{
  ℕ, ◌+◌, ◌≤◌, ◌≡◌, refl, ap, sym, subst, ◌∙◌, inl, inr, Bool, true, false, Bool-cases, Option,
  none, some, List, [], ◌∷◌, ◌++◌, length, length-append, leb, ltb, arith, if◌then◌else◌,
}
use agent_comm_platform.Base.Bytes.{Bytes, ◌==◌, eq→≡, eq_refl, eq_iff}
use agent_comm_platform.Base.Table.{select_row, delete, update}
use agent_comm_platform.Api.Limits.Rows.{
  length-delete, length-update, select_row-delete_kept, select_row-append_kept,
  select_row-update_self, select_row-update_ne,
}
use agent_comm_platform.Api.Limiter.{
  Rate, Tracked, IpRateLimiter, Request, max_tracked_ips, minute, idle_time, has_ip, is_idle, spend,
  new_ip_rate_limiter, clean_up, allow_overflow, allow_first, allow_new, allow_tracked, allow_ip,
  is_trusted, forwarded_ip, effective_ip, limit_middleware,
}

module _ {Bucket Network : Type 0} (rate : Rate Bucket Network) where
  -- What the requests of `ip` get.
  unfoldable pub answers : Bytes → List Request → IpRateLimiter Bucket Network → List Bool
  answers ip [] l = []
  answers ip (r ∷ rs) l =
      let a = limit_middleware rate r l in
      let more = answers ip rs a.1 in
      if effective_ip rate r.peer r.x_real_ip l.trusted_proxies == ip then a.0 ∷ more else more

  unfoldable pub run : List Request → IpRateLimiter Bucket Network → IpRateLimiter Bucket Network
  run [] l = l
  run (r ∷ rs) l = run rs (limit_middleware rate r l).1

  -- What the requests at these times get of a bucket that is all theirs.
  unfoldable pub alone : Bucket → List ℕ → List Bool
  alone b [] = []
  alone b (t ∷ ts) = let a = rate.allow b t in a.0 ∷ alone a.1 ts

  unfoldable pub times : Bytes → List Network → List Request → List ℕ
  times ip networks [] = []
  times ip networks (r ∷ rs) =
      let more = times ip networks rs in
      if effective_ip rate r.peer r.x_real_ip networks == ip then r.spent ∷ more else more

  -- No request comes later than the idle time after the last one of `ip`.
  abbrev pub IsActive : Bytes → List Network → ℕ → List Request → Type 0
  IsActive ip networks seen [] = Unit
  IsActive ip networks seen (r ∷ rs) =
      (r.now ≤ seen + idle_time)
      × IsActive ip networks
          (if effective_ip rate r.peer r.x_real_ip networks == ip then r.now else seen) rs

  clean_up_kept :
      (ip : Bytes) (now : ℕ) (t : Tracked Bucket) (l : IpRateLimiter Bucket Network)
      → select_row (has_ip ip) l.ips ≡ some t
      → now ≤ t.last_seen + idle_time
      → select_row (has_ip ip) (clean_up rate now l).ips ≡ some t
  unfolding clean_up
  clean_up_kept ip now t l h k = elim (Bool-cases (ltb now l.next_cleanup)) [
    | inl early ↦ rw early h
    | inr due ↦ rw due (select_row-delete_kept (has_ip ip) (is_idle now) t l.ips h (ground arith))
  ]

  allow_tracked_self :
      (ip : Bytes) (now spent : ℕ) (t : Tracked Bucket) (l : IpRateLimiter Bucket Network)
      → select_row (has_ip ip) l.ips ≡ some t
      → select_row (has_ip ip) (allow_tracked rate ip now spent l (some t)).1.ips
        ≡ some (spend (rate.allow t.bucket spent).1 now t)
  unfolding allow_tracked
  allow_tracked_self ip now spent t l h =
      select_row-update_self (has_ip ip) (spend (rate.allow t.bucket spent).1 now) t l.ips
        (λ u. refl) h

  allow_new_ne :
      (ip c : Bytes) (now spent : ℕ) (t : Tracked Bucket) (l : IpRateLimiter Bucket Network)
      → select_row (has_ip ip) l.ips ≡ some t
      → select_row (has_ip ip) (allow_new rate c now spent l).1.ips ≡ some t
  unfolding allow_new allow_overflow allow_first
  allow_new_ne ip c now spent t l h = elim (Bool-cases (leb max_tracked_ips (length l.ips))) [
    | inl full ↦ rw full h
    | inr free ↦ rw free (select_row-append_kept (has_ip ip) t _ l.ips h)
  ]

  allow_tracked_ne :
      (ip c : Bytes) (now spent : ℕ) (t : Tracked Bucket) (l : IpRateLimiter Bucket Network)
      (o : Option (Tracked Bucket))
      → (c == ip) ≡ false
      → select_row (has_ip ip) l.ips ≡ some t
      → select_row (has_ip ip) (allow_tracked rate c now spent l o).1.ips ≡ some t
  unfolding allow_tracked
  allow_tracked_ne ip c now spent t l none k h = allow_new_ne ip c now spent t l h
  allow_tracked_ne ip c now spent t l (some u) k h =
      select_row-update_ne (has_ip ip) (has_ip c) (spend (rate.allow u.bucket spent).1 now) l.ips
        (λ v same. ground (arith, eq_iff v.ip c, eq_iff v.ip ip, eq_iff c ip)) (λ v. refl)
      ∙ h

  allow_tracked-trusted_proxies :
      (c : Bytes) (now spent : ℕ) (l : IpRateLimiter Bucket Network) (o : Option (Tracked Bucket))
      → (allow_tracked rate c now spent l o).1.trusted_proxies ≡ l.trusted_proxies
  unfolding allow_tracked allow_new allow_overflow allow_first
  allow_tracked-trusted_proxies c now spent l none = ground arith
  allow_tracked-trusted_proxies c now spent l (some t) = refl

  clean_up-trusted_proxies :
      (now : ℕ) (l : IpRateLimiter Bucket Network)
      → (clean_up rate now l).trusted_proxies ≡ l.trusted_proxies
  unfolding clean_up
  clean_up-trusted_proxies now l = ground arith

  allow_tracked_answer :
      (ip : Bytes) (now spent : ℕ) (t : Tracked Bucket) (l : IpRateLimiter Bucket Network)
      → (allow_tracked rate ip now spent l (some t)).0 ≡ (rate.allow t.bucket spent).0
  unfolding allow_tracked
  allow_tracked_answer ip now spent t l = refl

  allow_ip_self :
      (ip : Bytes) (now spent : ℕ) (t : Tracked Bucket) (l : IpRateLimiter Bucket Network)
      → select_row (has_ip ip) l.ips ≡ some t
      → now ≤ t.last_seen + idle_time
      → ((allow_ip rate ip now spent l).0 ≡ (rate.allow t.bucket spent).0)
        × (select_row (has_ip ip) (allow_ip rate ip now spent l).1.ips
            ≡ some (spend (rate.allow t.bucket spent).1 now t))
  unfolding allow_ip
  allow_ip_self ip now spent t l h k =
      let kept = clean_up_kept ip now t l h k in
      rw kept (
        allow_tracked_answer ip now spent t (clean_up rate now l),
        allow_tracked_self ip now spent t (clean_up rate now l) kept,
      )

  allow_ip_ne :
      (ip c : Bytes) (now spent : ℕ) (t : Tracked Bucket) (l : IpRateLimiter Bucket Network)
      → (c == ip) ≡ false
      → select_row (has_ip ip) l.ips ≡ some t
      → now ≤ t.last_seen + idle_time
      → select_row (has_ip ip) (allow_ip rate c now spent l).1.ips ≡ some t
  unfolding allow_ip
  allow_ip_ne ip c now spent t l k h m =
      allow_tracked_ne ip c now spent t (clean_up rate now l) _ k (clean_up_kept ip now t l h m)

  allow_ip-trusted_proxies :
      (c : Bytes) (now spent : ℕ) (l : IpRateLimiter Bucket Network)
      → (allow_ip rate c now spent l).1.trusted_proxies ≡ l.trusted_proxies
  unfolding allow_ip
  allow_ip-trusted_proxies c now spent l =
      allow_tracked-trusted_proxies c now spent (clean_up rate now l) _
      ∙ clean_up-trusted_proxies now l

  -- While an address is tracked, and no request comes later than ten minutes after its last one,
  -- its requests get what a bucket of their own would give them, whatever other clients send in
  -- between.
  pub answers-alone :
      (ip : Bytes) (rs : List Request) (t : Tracked Bucket) (networks : List Network)
      (l : IpRateLimiter Bucket Network)
      → l.trusted_proxies ≡ networks
      → select_row (has_ip ip) l.ips ≡ some t
      → IsActive ip networks t.last_seen rs
      → answers ip rs l ≡ alone t.bucket (times ip networks rs)
  unfolding answers alone times limit_middleware
  answers-alone ip [] t networks l e h active = refl
  answers-alone ip (r ∷ rs) t networks l e h active =
      let c = effective_ip rate r.peer r.x_real_ip l.trusted_proxies in
      elim (Bool-cases (c == ip)) [
        | inl own ↦
            let step = allow_ip_self ip r.now r.spent t l h active.0 in
            let own_too =
              subst (λ x. (effective_ip rate r.peer r.x_real_ip x == ip) ≡ true) e own in
            rw (own, own_too, eq→≡ c ip own, step.0)
              (ap (λ more. (rate.allow t.bucket r.spent).0 ∷ more)
                (answers-alone ip rs (spend (rate.allow t.bucket r.spent).1 r.now t) networks _
                  (allow_ip-trusted_proxies ip r.now r.spent l ∙ e) step.1
                  (rw own_too at active.1)))
        | inr other ↦
            let other_too =
              subst (λ x. (effective_ip rate r.peer r.x_real_ip x == ip) ≡ false) e other in
            rw (other, other_too)
              (answers-alone ip rs t networks _ (allow_ip-trusted_proxies c r.now r.spent l ∙ e)
                (allow_ip_ne ip c r.now r.spent t l other h active.0) (rw other_too at active.1))
      ]

  -- At most 10,000 addresses are tracked.
  abbrev pub IsBounded : IpRateLimiter Bucket Network → Type 0
  IsBounded l = length l.ips ≤ max_tracked_ips

  allow_tracked-IsBounded :
      (c : Bytes) (now spent : ℕ) (l : IpRateLimiter Bucket Network) (o : Option (Tracked Bucket))
      → IsBounded l
      → IsBounded (allow_tracked rate c now spent l o).1
  unfolding allow_tracked allow_new allow_overflow allow_first
  allow_tracked-IsBounded c now spent l none h =
      elim (Bool-cases (leb max_tracked_ips (length l.ips))) [
        | inl full ↦ rw full h
        | inr free ↦ rw free (
            rw
              (length-append l.ips (
                record { ip = c; bucket = (rate.allow rate.new_limiter spent).1; last_seen = now }
                ∷ []))
              (ground arith))
      ]
  allow_tracked-IsBounded c now spent l (some t) h =
      rw (length-update (has_ip c) (spend (rate.allow t.bucket spent).1 now) l.ips) h

  clean_up-IsBounded :
      (now : ℕ) (l : IpRateLimiter Bucket Network) → IsBounded l → IsBounded (clean_up rate now l)
  unfolding clean_up
  clean_up-IsBounded now l h = elim (Bool-cases (ltb now l.next_cleanup)) [
    | inl early ↦ rw early h
    | inr due ↦ rw due (omega (arith, length-delete (is_idle now) l.ips))
  ]

  -- Over any sequence of requests, from a limiter that tracks at most 10,000 addresses, it tracks
  -- at most 10,000.
  pub run-IsBounded :
      (rs : List Request) (l : IpRateLimiter Bucket Network) → IsBounded l → IsBounded (run rs l)
  unfolding run limit_middleware allow_ip
  run-IsBounded [] l h = h
  run-IsBounded (r ∷ rs) l h = run-IsBounded rs _ (
      allow_tracked-IsBounded _ r.now r.spent (clean_up rate r.now l) _
        (clean_up-IsBounded r.now l h))
