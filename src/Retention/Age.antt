-- ===== src/Retention/Age.antt =====
-- internal/store/retention.go: when an archived run is old enough to be collected.
use diffdossier.Prelude.{ℕ, ◌+◌, ◌*◌, ◌^◌, ◌≤◌, ◌<◌, false, ◌↔◌, ◌≡◌, arith}
use diffdossier.Retention.{day, retention, is_recent}

-- Up to 106751 days the retention is what it says.
retention-exact :
    (days : ℕ) → days ≤ 106751 → (retention days ≡ days * day) × (retention days < 2 ^ 63)
unfolding retention
retention-exact days h = (omega arith, omega arith)

-- Up to 106751 days, a run is kept from its archiving for exactly that long.
pub is_recent_iff :
    (days as_of archived_at : ℕ)
    → days ≤ 106751
    → (is_recent days as_of archived_at ≡ false) ↔ (archived_at + days * day ≤ as_of)
unfolding is_recent
is_recent_iff days as_of archived_at h = let (e, l) = retention-exact days h in ground (arith, e, l)

-- A retention of 106752 up to 213503 days overflows to a negative one: then nothing is recent, and
-- a run that was archived just now is as good as any to collect.
pub is_recent-overflow :
    (days as_of archived_at : ℕ)
    → 106752 ≤ days
    → days ≤ 213503
    → archived_at ≤ as_of
    → is_recent days as_of archived_at ≡ false
unfolding is_recent retention
is_recent-overflow days as_of archived_at h k a = ground arith
