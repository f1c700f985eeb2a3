-- ===== src/Capacity/Storage.antt =====
-- `calculateStorageReservationCapacity` of packages/runtime/src/server-capacity.ts. `Date.parse` is a
-- parameter, and so is the floating-point share of a disk that is kept free (`Ratios`).
use nouva_agent.Prelude.{
  ℕ, ◌+◌, ◌-◌, ◌*◌, min, max, leb, String, Bool, true, false, ◌&&◌, Option, none, some, List, [],
  ◌∷◌, if◌then◌else◌,
}
use nouva_agent.Prelude.Number.{Number}
use nouva_agent.Capacity.Budget.{
  Ratios, gibibyte, to_finite_positive_integer, to_finite_non_negative_integer,
}

abbrev pub telemetry_freshness_ms : ℕ
telemetry_freshness_ms = 90000

abbrev pub usage_freshness_ms : ℕ
usage_freshness_ms = 900000

abbrev pub min_disk_safety_reserve_bytes : ℕ
min_disk_safety_reserve_bytes = 5 * gibibyte

pub data TelemetryStatus : Type 0 where
  fresh stale missing : TelemetryStatus

-- A `Date`, by its time unless that is NaN, a text, or neither.
pub data Stamp : Type 0 where
  date : (ms : Option ℕ) → Stamp
  text : String → Stamp
  no_stamp : Stamp

-- A finite number of gibibytes.
pub data Size : Type 0 where
  size : (negative : Bool) (whole rest : ℕ) → Size

-- `Math.max(0, Math.trunc(sizeGb)) * GIBIBYTE`
abbrev pub reserved_bytes : Size → ℕ
reserved_bytes (size true whole rest) = 0
reserved_bytes (size false whole rest) = whole * gibibyte

pub record Volume : Type 0 where
  pub size_gb : Size
  pub used_bytes : Option Number
  pub usage_refreshed_at : Stamp

pub record Reservation : Type 0 where
  pub telemetry_status : TelemetryStatus
  pub disk_total_bytes : Option ℕ
  pub disk_available_bytes : Option ℕ
  pub safety_reserve_bytes : Option ℕ
  pub committed_reservation_bytes : ℕ
  pub credited_usage_bytes : ℕ
  pub reservable_bytes : Option ℕ
  pub available_reservation_bytes : Option ℕ
  pub overcommit_bytes : ℕ

unfoldable pub calculate_disk_safety_reserve_bytes : Ratios → ℕ → ℕ
calculate_disk_safety_reserve_bytes r total = max min_disk_safety_reserve_bytes (r.twentieth total)

module _ (date_parse : String → Option ℕ) (now : ℕ) where
  abbrev pub to_timestamp : Stamp → Option ℕ
  to_timestamp (date ms) = ms
  to_timestamp (text s) = date_parse s
  to_timestamp no_stamp = none

  abbrev pub is_fresh_time : ℕ → Option ℕ → Bool
  is_fresh_time freshness none = false
  is_fresh_time freshness (some t) = leb t now && leb (now - t) freshness

  abbrev pub is_fresh : ℕ → Stamp → Bool
  is_fresh freshness stamp = is_fresh_time freshness (to_timestamp stamp)

  abbrev pub credit : ℕ → Option ℕ → ℕ
  credit reserved none = 0
  credit reserved (some used) = min used reserved

  unfoldable pub credited_usage : List Volume → ℕ
  unfolding to_finite_non_negative_integer
  credited_usage [] = 0
  credited_usage (v ∷ vs) =
      let rest = credited_usage vs in
      (if is_fresh usage_freshness_ms v.usage_refreshed_at
        then credit (reserved_bytes v.size_gb) (to_finite_non_negative_integer v.used_bytes)
        else 0)
      + rest

  unfoldable pub committed_reservation : List Volume → ℕ
  committed_reservation [] = 0
  committed_reservation (v ∷ vs) = reserved_bytes v.size_gb + committed_reservation vs

  abbrev pub status_of : Option ℕ → Option ℕ → Stamp → TelemetryStatus
  status_of none available stamp = missing
  status_of (some total) none stamp = missing
  status_of (some total) (some available) stamp = elim (to_timestamp stamp) [
    | none ↦ missing
    | some t ↦ if is_fresh telemetry_freshness_ms stamp then fresh else stale
  ]

  abbrev reserve_of : Ratios → Option ℕ → Option ℕ
  reserve_of r none = none
  reserve_of r (some total) = some (calculate_disk_safety_reserve_bytes r total)

  -- The result without fresh telemetry.
  abbrev pub unknown : Ratios → TelemetryStatus → Option ℕ → Option ℕ → ℕ → ℕ → Reservation
  unknown r status total available committed credited = record {
    telemetry_status = status;
    disk_total_bytes = total;
    disk_available_bytes = available;
    safety_reserve_bytes = reserve_of r total;
    committed_reservation_bytes = committed;
    credited_usage_bytes = credited;
    reservable_bytes = none;
    available_reservation_bytes = none;
    overcommit_bytes = 0;
  }

  abbrev pub known : Ratios → ℕ → ℕ → ℕ → ℕ → Reservation
  known r total available committed credited =
      let reserve = calculate_disk_safety_reserve_bytes r total in
      let reservable = available + credited - reserve in
      record {
        telemetry_status = fresh;
        disk_total_bytes = some total;
        disk_available_bytes = some available;
        safety_reserve_bytes = some reserve;
        committed_reservation_bytes = committed;
        credited_usage_bytes = credited;
        reservable_bytes = some reservable;
        available_reservation_bytes = some (reservable - committed);
        overcommit_bytes = committed - reservable;
      }

  abbrev pub reservation_of : Ratios → TelemetryStatus → Option ℕ → Option ℕ → ℕ → ℕ → Reservation
  reservation_of r fresh (some total) (some available) committed credited =
      known r total available committed credited
  reservation_of r status total available committed credited =
      unknown r status total available committed credited

  unfoldable pub calculate_storage_reservation_capacity :
      Ratios → Option Number → Option Number → Stamp → List Volume → Reservation
  unfolding to_finite_positive_integer to_finite_non_negative_integer credited_usage
      committed_reservation
  calculate_storage_reservation_capacity r disk_total disk_available refreshed_at volumes =
      let total = to_finite_positive_integer disk_total in
      let available = to_finite_non_negative_integer disk_available in
      reservation_of r (status_of total available refreshed_at) total available
        (committed_reservation volumes) (credited_usage volumes)
