-- ===== src/D1/Smhc/Commands/Waits.antt =====
-- The wait for an interrupt: when it ends, and with what.
use upstream_oreboot.Prelude.{
  ℕ, zero, suc, ◌+◌, ◌<◌, ◌≡◌, ◌≢◌, refl, sym, ap, ◌∙◌, arith, ◌⊎◌, inl, inr,
}
use upstream_oreboot.Prelude.{false, Option, none, some, List, [], ◌∷◌, ◌++◌}
use upstream_oreboot.Prelude.{bit_and}
use upstream_oreboot.D1.Smhc.Host.{Reg, Write, Device, Host, Error, Outcome}
use upstream_oreboot.D1.Smhc.Commands.{
  Interrupt, into_u32, Verdict, verdict, result_of, settle, wait_loop, wait_for_interrupt,
}

-- No error bit of a reading of the status is set.
pub record IsClean (dev : Device) (rint : ℕ) : Type 0 where
  pub rto_back : dev.rto_back rint ≡ false
  pub rce : dev.rce rint ≡ false
  pub re : dev.re rint ≡ false
  pub dsto_vsd : dev.dsto_vsd rint ≡ false
  pub dto_bds : dev.dto_bds rint ≡ false
  pub dce : dev.dce rint ≡ false
  pub fu_fo : dev.fu_fo rint ≡ false
  pub cb_iw : dev.cb_iw rint ≡ false
  pub dse_bc : dev.dse_bc rint ≡ false
  pub dee : dev.dee rint ≡ false

lt_or_eq : (i n : ℕ) → i < suc n → (i < n) ⊎ (i ≡ n)
lt_or_eq i n h = omega arith

-- One of the first `fuel` readings of the status answers the wait without an error, and none
-- before it ends the wait.
abbrev pub IsAnswering : Device → ℕ → Interrupt → Type 0
IsAnswering dev fuel int =
    (trace : List Write) (reads : ℕ)
    → (n : ℕ) × (n < fuel)
      × ((i : ℕ)
          → i < n
          → verdict dev (into_u32 int) (dev.value trace Reg.rintsts (reads + i)) ≡ Verdict.keep)
      × (verdict dev (into_u32 int) (dev.value trace Reg.rintsts (reads + n)) ≡ Verdict.leave none)

-- Either no value below `fuel` leaves, or there is a first one that does.
first_leave :
    (f : ℕ → Verdict) (fuel : ℕ)
    → ((i : ℕ) → i < fuel → f i ≡ Verdict.keep)
      ⊎ ((n : ℕ) × (r : Option Error) × (n < fuel)
          × ((i : ℕ) → i < n → f i ≡ Verdict.keep)
          × (f n ≡ Verdict.leave r))
first_leave f zero = inl (λ i h. elim h [ ])
first_leave f (suc fuel) = after_last (first_leave f fuel) (f fuel) refl
  where
    after_last :
        ((i : ℕ) → i < fuel → f i ≡ Verdict.keep)
          ⊎ ((n : ℕ) × (r : Option Error) × (n < fuel)
              × ((i : ℕ) → i < n → f i ≡ Verdict.keep)
              × (f n ≡ Verdict.leave r))
        → (v : Verdict) → f fuel ≡ v
        → ((i : ℕ) → i < suc fuel → f i ≡ Verdict.keep)
          ⊎ ((n : ℕ) × (r : Option Error) × (n < suc fuel)
              × ((i : ℕ) → i < n → f i ≡ Verdict.keep)
              × (f n ≡ Verdict.leave r))
    after_last (inr (n, r, h, quiet, e)) v last = inr (n, r, omega arith, quiet, e)
    after_last (inl quiet) Verdict.keep last = inl (λ i h. elim (lt_or_eq i fuel h) [
      | inl below ↦ quiet i below
      | inr same ↦ ap f same ∙ last
    ])
    after_last (inl quiet) (Verdict.leave r) last = inr (fuel, r, omega arith, quiet, last)

module _ (dev : Device) where
  -- A reading ends the wait without an error exactly when no error bit is set and the bit waited
  -- for is.
  pub verdict-IsClean :
      (int rint : ℕ)
      → verdict dev int rint ≡ Verdict.leave none
      → IsClean dev rint × (bit_and rint int ≡ int)
  unfolding verdict
  verdict-IsClean int rint h = ground arith

  -- The n-th reading from now on.
  abbrev pub reading : Host → ℕ → ℕ
  reading h n = dev.value h.trace Reg.rintsts (h.reads + n)

  abbrev pub after_wait : Host → ℕ → ℕ → Host
  after_wait h int n = record {
    trace = h.trace ++ (Write.clear_rintsts int ∷ []);
    reads = h.reads + suc n;
  }

  again_at :
      (fuel int : ℕ) (trace : List Write) (reads n : ℕ) (r : Option Error)
      → n < fuel
      → ((i : ℕ) → i < n → verdict dev int (dev.value trace Reg.rintsts (reads + i)) ≡ Verdict.keep)
      → verdict dev int (dev.value trace Reg.rintsts (reads + n)) ≡ Verdict.leave r
      → wait_loop dev fuel int (record { trace = trace; reads = reads })
        ≡ result_of r
            (record { trace = trace ++ (Write.clear_rintsts int ∷ []); reads = reads + suc n })
  unfolding wait_loop
  again_at zero int trace reads n r fits quiet ends = absurd (elim fits [ ])
  again_at (suc fuel) int trace reads zero r fits quiet ends =
      ap (λ v. settle int v (wait_loop dev fuel int) (record { trace = trace; reads = suc reads }))
        (ap (λ k. verdict dev int (dev.value trace Reg.rintsts k)) (omega arith) ∙ ends)
      ∙ ap
          (λ k. result_of r (record { trace = trace ++ (Write.clear_rintsts int ∷ []); reads = k }))
          (omega arith)
  again_at (suc fuel) int trace reads (suc n) r fits quiet ends =
      ap (λ v. settle int v (wait_loop dev fuel int) (record { trace = trace; reads = suc reads }))
        (ap (λ k. verdict dev int (dev.value trace Reg.rintsts k)) (omega arith)
          ∙ quiet 0 (omega arith))
      ∙ again_at fuel int trace (suc reads) n r (omega arith)
          (λ i h.
            ap (λ k. verdict dev int (dev.value trace Reg.rintsts k)) (omega arith)
            ∙ quiet (suc i) (omega arith))
          (ap (λ k. verdict dev int (dev.value trace Reg.rintsts k)) (omega arith) ∙ ends)
      ∙ ap
          (λ k. result_of r (record { trace = trace ++ (Write.clear_rintsts int ∷ []); reads = k }))
          (omega arith)

  -- A wait ends at the first reading of the status that has an error bit or the bit waited for,
  -- if the fuel reaches it: the bit is cleared by one write, whether the wait ends with an error
  -- or not, and no other register is written.
  pub wait_for_interrupt_ends :
      (n fuel : ℕ) (int : Interrupt) (h : Host) (r : Option Error)
      → n < fuel
      → ((i : ℕ) → i < n → verdict dev (into_u32 int) (reading h i) ≡ Verdict.keep)
      → verdict dev (into_u32 int) (reading h n) ≡ Verdict.leave r
      → wait_for_interrupt dev fuel int h ≡ result_of r (after_wait h (into_u32 int) n)
  unfolding wait_for_interrupt
  wait_for_interrupt_ends n fuel int h r fits quiet ends =
      again_at fuel (into_u32 int) h.trace h.reads n r fits quiet ends

  waits :
      (fuel int : ℕ) (trace : List Write) (reads : ℕ)
      → ((i : ℕ)
          → i < fuel
          → verdict dev int (dev.value trace Reg.rintsts (reads + i)) ≡ Verdict.keep)
      → wait_loop dev fuel int (record { trace = trace; reads = reads }) ≡ Outcome.waiting
  unfolding wait_loop
  waits zero int trace reads quiet = refl
  waits (suc fuel) int trace reads quiet =
      ap (λ v. settle int v (wait_loop dev fuel int) (record { trace = trace; reads = suc reads }))
        (ap (λ k. verdict dev int (dev.value trace Reg.rintsts k)) (omega arith)
          ∙ quiet 0 (omega arith))
      ∙ waits fuel int trace (suc reads) (λ i h.
        ap (λ k. verdict dev int (dev.value trace Reg.rintsts k)) (omega arith)
        ∙ quiet (suc i) (omega arith))

  -- What a wait that returned without an error has seen: a reading with no error bit and with
  -- the bit waited for, and before it readings with neither.
  pub record IsAnswered (int : Interrupt) (before after : Host) : Type 0 where
    pub last : ℕ
    pub quiet : (i : ℕ) → i < last → verdict dev (into_u32 int) (reading before i) ≡ Verdict.keep
    pub clean : IsClean dev (reading before last)
    pub bit : bit_and (reading before last) (into_u32 int) ≡ into_u32 int
    pub same : after ≡ after_wait before (into_u32 int) last

  result_of_done :
      (r : Option Error) (h h' : Host) → result_of r h ≡ Outcome.done tt h' → (r ≡ none) × (h ≡ h')
  result_of_done none h h' e = (refl, cc)
  result_of_done (some e1) h h' e = cc

  -- A wait that returns without an error ends at a reading of the status in which the bit waited
  -- for is set and no error bit is, after readings that did not end it; it clears that bit.
  pub wait_for_interrupt-IsAnswered :
      (fuel : ℕ) (int : Interrupt) (h h' : Host)
      → wait_for_interrupt dev fuel int h ≡ Outcome.done tt h'
      → IsAnswered int h h'
  unfolding wait_for_interrupt
  wait_for_interrupt-IsAnswered fuel int h h' e =
      elim (first_leave (λ i. verdict dev (into_u32 int) (reading h i)) fuel) [
        | inl quiet ↦ absurd (not_done (sym (waits fuel (into_u32 int) h.trace h.reads quiet) ∙ e))
        | inr (n, r, fits, quiet, ends) ↦ answered n r quiet ends (
            result_of_done r (after_wait h (into_u32 int) n) h'
              (sym (wait_for_interrupt_ends n fuel int h r fits quiet ends) ∙ e))
      ]
    where
      not_done : ◌≢◌ {A = Outcome (Unit {0})} Outcome.waiting (Outcome.done tt h')
      not_done x = cc

      answered :
          (n : ℕ) (r : Option Error)
          → ((i : ℕ) → i < n → verdict dev (into_u32 int) (reading h i) ≡ Verdict.keep)
          → verdict dev (into_u32 int) (reading h n) ≡ Verdict.leave r
          → (r ≡ none) × (after_wait h (into_u32 int) n ≡ h')
          → IsAnswered int h h'
      answered n r quiet ends (none_here, final) =
          let seen =
            verdict-IsClean (into_u32 int) (reading h n) (ends ∙ ap Verdict.leave none_here) in
          record { last = n; quiet = quiet; clean = seen.0; bit = seen.1; same = sym final }
