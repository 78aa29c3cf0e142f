-- ===== src/Detector/Corrupt.antt =====
-- Stored states that no worker wrote: which of them `_decode_state` takes, and which escape it.
use adaptive_gateway.Prelude.{◌≡◌, false, Option}
use adaptive_gateway.Prelude.Floats.{Float}
use adaptive_gateway.Prelude.Ints.{ℤ}
use adaptive_gateway.Json.{Json, real}
use adaptive_gateway.Rtt.{Tier, RttState}

module _ (fl : Float) where
  open fl use {F, is_finite, is_nan}

  -- An infinite number, as JSON's Infinity and 1e999 are read.
  abbrev pub IsInfinite : Json F → Type 0
  IsInfinite (real x) = (is_nan x ≡ false) × (is_finite x ≡ false)
  IsInfinite _ = ⊥

  abbrev counted : Tier → Option Tier → Option F → ℤ → RttState fl
  counted t p e n = record { ewma = e; tier = t; pending_tier = p; pending_count = n }
