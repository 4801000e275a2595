-- ===== src/Ktls/Setup/Draining.antt =====
-- `drain` (ktls/src/lib.rs) hands on what rustls had decrypted, and ends.
use proxy_printer.Base.{
  ℕ, zero, suc, ◌+◌, ◌-◌, ◌≤◌, ◌<◌, ◌≡◌, sym, ap, ◌∙◌, List, [], ◌∷◌, ◌++◌, Option, some, none,
  length, length-append, append_assoc, append-nil, arith, Bool-cases, inl, inr,
}
use proxy_printer.Ktls.Results.{Outcome, returned, failed_with, panics, out_of_fuel, and_then}
use proxy_printer.Ktls.Setup.{
  Answer, got, fails, bytes_of, TlsStream, buffer_size, is_eof, absorb, drain_loop, maybe_drained,
  drain,
}

module _ (tls : TlsStream) where
  open tls use {Tls, read, taken, fits, logs}

  -- The bytes that were handed on.
  abbrev pub handed_on : Option (List ℕ) → List ℕ
  handed_on none = []
  handed_on (some bs) = bs

  -- With `past` taken before the loop.
  abbrev Collects : List ℕ → Outcome (List ℕ) × Tls → Type 0
  Collects past (returned bs, t) = (taken t ≡ past ++ bs) × (length bs ≤ buffer_size)
  Collects past (failed_with e, t) = Unit
  Collects past (out_of_fuel, t) = ⊥
  Collects past (panics, t) = ⊥

  absorb-Collects :
      (again : List ℕ → Tls → Outcome (List ℕ) × Tls) (past so_far : List ℕ) (q : Answer × Tls)
      → ((more : List ℕ) (t : Tls)
          → length so_far < length more
          → length more ≤ buffer_size
          → taken t ≡ past ++ more
          → Collects past (again more t))
      → length so_far ≤ buffer_size
      → length (bytes_of q.0) ≤ buffer_size - length so_far
      → taken q.1 ≡ (past ++ so_far) ++ bytes_of q.0
      → Collects past (absorb tls again so_far q)
  unfolding absorb
  absorb-Collects again past so_far (got [], t) ih small fit log =
      (log ∙ append-nil (past ++ so_far), small)
  absorb-Collects again past so_far (got (b ∷ bs), t) ih small fit log =
      ih (so_far ++ b ∷ bs) t (omega (arith, length-append so_far (b ∷ bs)))
        (omega (arith, length-append so_far (b ∷ bs))) (log ∙ append_assoc past so_far (b ∷ bs))
  absorb-Collects again past so_far (fails e, t) ih small fit log = elim (Bool-cases (is_eof e)) [
    | inl eof ↦ rw (eof, absorb) (log ∙ append-nil (past ++ so_far), small)
    | inr other ↦ rw (other, absorb) tt
  ]

  drain_loop-Collects :
      (fuel : ℕ) (past so_far : List ℕ) (t : Tls)
      → length so_far ≤ buffer_size
      → buffer_size < fuel + length so_far
      → taken t ≡ past ++ so_far
      → Collects past (drain_loop tls fuel so_far t)
  unfolding drain_loop
  drain_loop-Collects zero past so_far t small enough log = absurd (omega arith)
  drain_loop-Collects (suc fuel) past so_far t small enough log =
      absorb-Collects (drain_loop tls fuel) past so_far _
        (λ more t' l s m. drain_loop-Collects fuel past more t' s (omega arith) m) small
        (fits (buffer_size - length so_far) t)
        (logs (buffer_size - length so_far) t
          ∙ ap (λ x. x ++ bytes_of (read (buffer_size - length so_far) t).0) log)

  -- What a drain may end with: the bytes taken since, or an error.
  abbrev pub Drains : List ℕ → Outcome (Option (List ℕ)) × Tls → Type 0
  Drains past (returned d, t) =
      (taken t ≡ past ++ handed_on d) × (length (handed_on d) ≤ buffer_size)
  Drains past (failed_with e, t) = Unit
  Drains past (out_of_fuel, t) = ⊥
  Drains past (panics, t) = ⊥

  maybe-Drains :
      (past : List ℕ) (q : Outcome (List ℕ) × Tls)
      → Collects past q
      → Drains past (and_then q.0 (λ bs. returned (maybe_drained tls bs)), q.1)
  maybe-Drains past (returned [], t) c = c
  maybe-Drains past (returned (b ∷ bs), t) c = c
  maybe-Drains past (failed_with e, t) c = tt
  maybe-Drains past (out_of_fuel, t) c = c
  maybe-Drains past (panics, t) c = c

  -- The drain ends: its loop never uses up the rounds. Without an error it returns exactly the bytes
  -- that were taken from rustls meanwhile, in order, and no more than the buffer's 128 KiB.
  pub drain-Drains : (t : Tls) → Drains (taken t) (drain tls t)
  unfolding drain
  drain-Drains t = maybe-Drains (taken t) (drain_loop tls (suc buffer_size) [] t) (
      drain_loop-Collects (suc buffer_size) (taken t) [] t (omega arith) (omega arith)
        (sym (append-nil (taken t))))
