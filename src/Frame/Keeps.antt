-- ===== src/Frame/Keeps.antt =====
-- Predicates on the device, through the loop of onReadyRead.
use homed_service_esphome.Prelude.{ℕ, zero, suc, Bytes, true, false}
use homed_service_esphome.Frame.{
  Next, wait, bad_indicator, cut, next_frame, drain, Verdict, proceed, leave, Drained,
}

module _ {S : Type 0} (on_bad : S → S) (on_frame : S → Bytes → S × Verdict) (P : S → Type 0) where
  -- What the handlers keep, the loop keeps.
  pub drain_keeps :
      ((s : S) → P s → P (on_bad s))
      → ((s : S) (b : Bytes) → P s → P (on_frame s b).0)
      → (fuel : ℕ) (s : S) (buf : Bytes) → P s
      → P (drain on_bad on_frame fuel s buf).device
  unfolding drain
  drain_keeps bad frame zero s buf h = h
  drain_keeps bad frame (suc fuel) s buf h = go (drain_keeps bad frame fuel) (next_frame buf)
    where
      cut_keeps :
          ((s : S) (buf : Bytes) → P s → P (drain on_bad on_frame fuel s buf).device)
          → (payload rest : Bytes) (v : Verdict)
          → P
              (elim v as (λ _. Drained S) [
                | proceed ↦ drain on_bad on_frame fuel (on_frame s payload).0 rest
                | leave ↦ record { device = (on_frame s payload).0; rx_buf = rest; left = true }
              ]).device
      cut_keeps rec payload rest proceed = rec (on_frame s payload).0 rest (frame s payload h)
      cut_keeps rec payload rest leave = frame s payload h

      go :
          ((s : S) (buf : Bytes) → P s → P (drain on_bad on_frame fuel s buf).device)
          → (n : Next)
          → P
              (elim n as (λ _. Drained S) [
                | wait ↦ record { device = s; rx_buf = buf; left = false }
                | bad_indicator ↦ record { device = on_bad s; rx_buf = buf; left = true }
                | cut payload rest ↦ elim ((on_frame s payload).1) as (λ _. Drained S) [
                  | proceed ↦ drain on_bad on_frame fuel (on_frame s payload).0 rest
                  | leave ↦ record { device = (on_frame s payload).0; rx_buf = rest; left = true }
                ]
              ]).device
      go rec wait = h
      go rec bad_indicator = bad s h
      go rec (cut payload rest) = cut_keeps rec payload rest (on_frame s payload).1
