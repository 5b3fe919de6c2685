-- ===== src/Frame/Chunks.antt =====
-- The loop of onReadyRead and the way in which TCP cuts the stream into reads.
use homed_service_esphome.Prelude.{
  ℕ, zero, suc, ◌+◌, ◌≤◌, ◌<◌, ◌≡◌, refl, sym, ap, ◌∙◌, ◌⊎◌, inl, inr, List, [], ◌∷◌, ◌++◌, Bytes,
  if◌then◌else◌, Bool-cases, false, arith, length, length-append, length-drop, take-append,
  drop-append,
}
use homed_service_esphome.Frame.{
  Next, wait, bad_indicator, cut, cut_sized, next_frame, read_size, Verdict, proceed, leave,
  Drained, drain, read_ready,
}
use mathlib.Core.List.{append_assoc, append-nil, flatten}

Next-cases :
    (n : Next)
    → (n ≡ wait) ⊎ (n ≡ bad_indicator) ⊎ ((p : Bytes) × (rest : Bytes) × (n ≡ cut p rest))
Next-cases wait = inl refl
Next-cases bad_indicator = inr (inl refl)
Next-cases (cut p rest) = inr (inr (p, rest, refl))

Verdict-cases : (v : Verdict) → (v ≡ proceed) ⊎ (v ≡ leave)
Verdict-cases proceed = inl refl
Verdict-cases leave = inr refl

-- A frame is shorter than the buffer that it is cut from.
next_frame_shrinks :
    (buf p rest : Bytes) → next_frame buf ≡ cut p rest → length rest + 3 ≤ length buf
unfolding next_frame cut_sized
next_frame_shrinks [] p rest e = cc
next_frame_shrinks (i ∷ []) p rest e = cc
next_frame_shrinks (i ∷ hi ∷ []) p rest e = cc
next_frame_shrinks (i ∷ hi ∷ lo ∷ body) p rest e =
    ground (arith, length-drop (read_size hi lo) body)

-- Bytes that arrive later do not change a frame that is complete.
next_frame-append :
    (buf more p rest : Bytes)
    → next_frame buf ≡ cut p rest
    → next_frame (buf ++ more) ≡ cut p (rest ++ more)
unfolding next_frame cut_sized
next_frame-append [] more p rest e = cc
next_frame-append (i ∷ []) more p rest e = cc
next_frame-append (i ∷ hi ∷ []) more p rest e = cc
next_frame-append (i ∷ hi ∷ lo ∷ body) more p rest e = ground (
  arith,
  length-append body more,
  take-append (read_size hi lo) body more,
  drop-append (read_size hi lo) body more,
)

module _ {S : Type 0} (on_bad : S → S) (on_frame : S → Bytes → S × Verdict) where
  abbrev run : ℕ → S → Bytes → Drained S
  run = drain on_bad on_frame

  abbrev Continues : Drained S → Type 0
  Continues r = r.left ≡ false

  drain_wait :
      (f : ℕ) (s : S) (buf : Bytes)
      → next_frame buf ≡ wait
      → run f s buf ≡ record { device = s; rx_buf = buf; left = false }
  unfolding drain
  drain_wait zero s buf e = refl
  drain_wait (suc f) s buf e = rw (e, drain)

  drain_cut :
      (f : ℕ) (s : S) (buf p rest : Bytes)
      → next_frame buf ≡ cut p rest
      → (on_frame s p).1 ≡ proceed
      → run (suc f) s buf ≡ run f (on_frame s p).0 rest
  unfolding drain
  drain_cut f s buf p rest e v = rw (e, v, drain)

  -- A round that does not return early waits for more bytes, or handles a frame and goes on.
  drain_inv :
      (f : ℕ) (s : S) (buf : Bytes)
      → Continues (run (suc f) s buf)
      → (next_frame buf ≡ wait)
        ⊎ ((p : Bytes) × (rest : Bytes) × (next_frame buf ≡ cut p rest)
            × ((on_frame s p).1 ≡ proceed))
  unfolding drain
  drain_inv f s buf c = elim (Next-cases (next_frame buf)) [
    | inl e ↦ inl e
    | inr (inl e) ↦ absurd (ground arith)
    | inr (inr (p, rest, e)) ↦ elim (Verdict-cases (on_frame s p).1) [
      | inl v ↦ inr (p, rest, e, v)
      | inr v ↦ absurd (ground arith)
    ]
  ]

  rx_buf_le : (f : ℕ) (s : S) (buf : Bytes) → length (run f s buf).rx_buf ≤ length buf
  unfolding drain
  rx_buf_le zero s buf = omega arith
  rx_buf_le (suc f) s buf = elim (Next-cases (next_frame buf)) [
    | inl e ↦ rw (e, drain) (omega arith)
    | inr (inl e) ↦ rw (e, drain) (omega arith)
    | inr (inr (p, rest, e)) ↦ elim (Verdict-cases (on_frame s p).1) [
      | inl v ↦
          rw (e, v, drain)
            (omega (arith, next_frame_shrinks buf p rest e, rx_buf_le f (on_frame s p).0 rest))
      | inr v ↦ rw (e, v, drain) (omega (arith, next_frame_shrinks buf p rest e))
    ]
  ]

  -- Fuel beyond the length of the buffer makes no difference.
  drain_fuel :
      (f g : ℕ) (s : S) (buf : Bytes) → length buf < f → length buf < g → run f s buf ≡ run g s buf
  unfolding drain
  drain_fuel zero g s buf hf hg = absurd (omega arith)
  drain_fuel (suc f) zero s buf hf hg = absurd (omega arith)
  drain_fuel (suc f) (suc g) s buf hf hg = elim (Next-cases (next_frame buf)) [
    | inl e ↦ rw (e, drain)
    | inr (inl e) ↦ rw (e, drain)
    | inr (inr (p, rest, e)) ↦ elim (Verdict-cases (on_frame s p).1) [
      | inl v ↦
          let shorter = next_frame_shrinks buf p rest e in
          rw (e, v, drain) (drain_fuel f g (on_frame s p).0 rest (omega arith) (omega arith))
      | inr v ↦ rw (e, v, drain)
    ]
  ]

  -- Where the loop waits for bytes, the rest of the stream is read from the buffer that it left.
  drain-append :
      (f g : ℕ) (s : S) (buf more : Bytes)
      → length buf < f
      → length (buf ++ more) < g
      → Continues (run f s buf)
      → run g s (buf ++ more) ≡ run g (run f s buf).device ((run f s buf).rx_buf ++ more)
  drain-append zero g s buf more hf hg c = absurd (omega arith)
  drain-append (suc f) zero s buf more hf hg c = absurd (omega arith)
  drain-append (suc f) (suc g) s buf more hf hg c = elim (drain_inv f s buf c) [
    | inl e ↦ rw (drain_wait (suc f) s buf e)
    | inr (p, rest, e, v) ↦
        let t : S = (on_frame s p).0 in
        let step = drain_cut f s buf p rest e v in
        let shorter = next_frame_shrinks buf p rest e in
        let sizes : length (rest ++ more) < g =
          omega (arith, length-append rest more, length-append buf more) in
        let kept : length ((run f t rest).rx_buf ++ more) < g = omega (
          arith,
          length-append (run f t rest).rx_buf more,
          length-append rest more,
          rx_buf_le f t rest,
        ) in
        drain_cut g s (buf ++ more) p (rest ++ more) (next_frame-append buf more p rest e) v
        ∙ drain-append f g t rest more (omega arith) sizes
            (sym (ap (λ (r : Drained S). r.left) step) ∙ c)
        ∙ drain_fuel g (suc g) _ _ kept (omega arith)
        ∙ ap (λ (r : Drained S). run (suc g) r.device (r.rx_buf ++ more)) (sym step)
  ]

  abbrev ready : S → Bytes → Bytes → Drained S
  ready = read_ready on_bad on_frame

  -- Let a read of the bytes `a` not return early. Then reading `b` after it leaves the device, the
  -- buffer and the outcome that one read of `a ++ b` leaves.
  pub read_ready-append :
      (s : S) (buf a b : Bytes)
      → Continues (ready s buf a)
      → ready (ready s buf a).device (ready s buf a).rx_buf b ≡ ready s buf (a ++ b)
  unfolding read_ready
  read_ready-append s buf a b c =
      let r : Drained S = run (length (buf ++ a) + 1) s (buf ++ a) in
      let n : ℕ = length ((buf ++ a) ++ b) + 1 in
      let fits : length (r.rx_buf ++ b) < n = omega (
        arith,
        length-append r.rx_buf b,
        length-append (buf ++ a) b,
        rx_buf_le (length (buf ++ a) + 1) s (buf ++ a),
      ) in
      drain_fuel (length (r.rx_buf ++ b) + 1) n r.device (r.rx_buf ++ b) (omega arith) fits
      ∙ sym (drain-append (length (buf ++ a) + 1) n s (buf ++ a) b (omega arith) (omega arith) c)
      ∙ ap (λ (t : Bytes). run (length t + 1) s t) (append_assoc buf a b)

  drain_waits :
      (f : ℕ) (s : S) (buf : Bytes)
      → length buf < f
      → Continues (run f s buf)
      → next_frame (run f s buf).rx_buf ≡ wait
  drain_waits zero s buf hf c = absurd (omega arith)
  drain_waits (suc f) s buf hf c = elim (drain_inv f s buf c) [
    | inl e ↦ rw (drain_wait (suc f) s buf e) e
    | inr (p, rest, e, v) ↦
        let step = drain_cut f s buf p rest e v in
        let shorter = next_frame_shrinks buf p rest e in
        rw step (
          drain_waits f (on_frame s p).0 rest (omega arith)
            (sym (ap (λ (r : Drained S). r.left) step) ∙ c))
  ]

  read_ready_waits :
      (s : S) (buf a : Bytes) → Continues (ready s buf a) → next_frame (ready s buf a).rx_buf ≡ wait
  unfolding read_ready
  read_ready_waits s buf a c = drain_waits (length (buf ++ a) + 1) s (buf ++ a) (omega arith) c

  -- readyRead comes once for each chunk, until the handler returns early.
  abbrev pub feed : S → Bytes → List Bytes → Drained S
  feed s buf [] = record { device = s; rx_buf = buf; left = false }
  feed s buf (a ∷ chunks) =
      let more = feed (ready s buf a).device (ready s buf a).rx_buf chunks in
      if (ready s buf a).left then ready s buf a else more

  -- Any cut of the stream into chunks, the first of which finds no complete frame in the buffer,
  -- leaves what one read of the whole stream leaves, if no handler returns early on the way.
  pub feed-flatten :
      (s : S) (buf : Bytes) (chunks : List Bytes)
      → next_frame buf ≡ wait
      → Continues (feed s buf chunks)
      → feed s buf chunks ≡ ready s buf (flatten chunks)
  unfolding drain flatten
  feed-flatten s buf [] e c =
      unfold read_ready in rw (append-nil buf) (sym (drain_wait (length buf + 1) s buf e))
  feed-flatten s buf (a ∷ chunks) e c = elim (Bool-cases (ready s buf a).left) [
    | inl stopped ↦ absurd (ground arith)
    | inr on ↦
        let r : Drained S = ready s buf a in
        let c' : Continues (feed r.device r.rx_buf chunks) = ground arith in
        rw on (
          feed-flatten r.device r.rx_buf chunks (read_ready_waits s buf a on) c'
          ∙ read_ready-append s buf a (flatten chunks) on)
  ]
