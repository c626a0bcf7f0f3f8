-- ===== src/Ports.antt =====
-- The data of ports/idempotency/idempotency.go and ports/ratelimit/ratelimit.go, and Chain of
-- transport/http/http.go, over the handlers `H` of net/http. Durations and times are in nanoseconds;
-- a zero time is none. `Response` is a byte slice, by its number, or nil.
pub mod Suite
pub mod Contexts
pub mod Slices
pub mod Inbox
pub mod Storage
pub mod Ratelimit
pub mod Cache
pub mod Idempotency
pub mod Jobs
pub mod Auth
pub mod Logger
use go_ddd_core.Prelude.{ℕ, String, Bool, Option, List, [], ◌∷◌, reverse}
use go_ddd_core.Prelude.Int.{ℤ, pos, negsuc, leb_ℤ}

-- `idempotency.Status` by its constants; any other number has the name of the unknown status.
pub data ReservationStatus : Type 0 where
  status_unknown : ReservationStatus
  status_new : ReservationStatus
  status_in_progress : ReservationStatus
  status_completed : ReservationStatus
  status_mismatch : ReservationStatus

-- `s.String()`
unfoldable pub reservation_status_text : ReservationStatus → String
reservation_status_text status_new = "new"
reservation_status_text status_in_progress = "in_progress"
reservation_status_text status_completed = "completed"
reservation_status_text status_mismatch = "mismatch"
reservation_status_text status_unknown = "unknown"

pub record Reservation : Type 0 where
  pub scope : String
  pub key : String
  pub lease_token : String
  pub lease_ttl : ℤ
  pub status : ReservationStatus
  pub response : Option ℕ

-- `ratelimit.UnknownCount`
abbrev pub unknown_count : ℤ
unknown_count = negsuc 0

-- `ratelimit.Result`
pub record LimitResult : Type 0 where
  pub allowed : Bool
  pub retry_after : ℤ
  pub limit : ℤ
  pub remaining : ℤ
  pub reset_at : Option ℕ

-- `r.HasLimit()` and `r.HasRemaining()`
unfoldable pub has_limit : LimitResult → Bool
has_limit r = leb_ℤ (pos 0) r.limit

unfoldable pub has_remaining : LimitResult → Bool
has_remaining r = leb_ℤ (pos 0) r.remaining

module _ {H : Type 0} where
  -- The loop of `Chain`, over the middlewares from the last to the first.
  unfoldable pub http_chain_loop : List (H → H) → H → H
  http_chain_loop [] next = next
  http_chain_loop (m ∷ ms) next = http_chain_loop ms (m next)

  -- `Chain(mws...)`
  unfoldable pub http_chain : List (H → H) → H → H
  http_chain mws next = http_chain_loop (reverse mws) next
