-- ===== src/D1/Smhc/Cards/Start.antt =====
-- The start of a card comes to an end.
use upstream_oreboot.Prelude.{
  ℕ, zero, suc, ◌+◌, ◌≤◌, ◌<◌, ◌≡◌, ap, ◌∙◌, arith, ◌⊎◌, inl, inr, Bool, true, false, Bool-cases,
}
use upstream_oreboot.Prelude.{List, [], ◌∷◌, ◌++◌, ◌==◌, ==_iff, if◌then◌else◌, bit_and, none}
use upstream_oreboot.D1.Smhc.Card.{CardType}
use upstream_oreboot.D1.Smhc.Host.{
  Reg, Write, Device, Host, Outcome, Driver, pure, and_then, ◌>>=◌, ◌>>◌, read,
}
use upstream_oreboot.D1.Smhc.Commands.{
  Interrupt, into_u32, CommandOptions, cmd_fields, init_cmd, Proto, card_command, wait_for_cc,
}
use upstream_oreboot.D1.Smhc.Commands.Waits.{IsAnswering, wait_for_interrupt_ends, after_wait}
use upstream_oreboot.D1.Smhc.Cards.{
  ocr_nbusy, first_type, last_type, op_cond_arg, app_op_cond, ocr_loop, initialize,
}
use upstream_oreboot.D1.Smhc.Cards.Types.{IsIdentified, initialize-IsIdentified}

module _ (dev : Device) (fuel : ℕ)
    (answering : IsAnswering dev fuel Interrupt.command_complete) where
  -- A command is sent, and its end is awaited with at least one reading.
  sends :
      {B : Type 0} (opt : CommandOptions) (k : Driver B) (h : Host)
      → (h1 : Host) × (h.reads < h1.reads)
        × ((card_command opt >> (wait_for_cc dev fuel >> k)) h ≡ k h1)
  unfolding card_command
  sends opt k h =
      let sent : Host = record h {
        trace = (h.trace ++ (Write.cmdarg opt.arg ∷ [])) ++ (Write.cmd (cmd_fields opt) ∷ []);
      } in
      let (n, below, quiet, e) = answering sent.trace sent.reads in
      (
        after_wait dev sent (into_u32 Interrupt.command_complete) n,
        omega arith,
        ap (λ (r : Outcome (Unit {0})). and_then r (λ _. k))
            (wait_for_interrupt_ends dev n fuel Interrupt.command_complete sent none below quiet e),
      )

  module _ (proto : Proto) (late : ℕ)
      (powers_up : (trace : List Write) (reads : ℕ)
        → late ≤ reads
        → bit_and (dev.value trace Reg.resp0 reads) ocr_nbusy ≡ ocr_nbusy) where
    app_op_cond_ends :
        (t : CardType) (h : Host)
        → (h2 : Host) × (h.reads < h2.reads)
          × (app_op_cond proto dev fuel t h
              ≡ Outcome.done
                  (dev.value h2.trace Reg.resp0 h2.reads)
                  (record h2 { reads = suc h2.reads }))
    unfolding app_op_cond
    app_op_cond_ends t h =
        let opt = init_cmd proto.acmd41 (op_cond_arg t) false in
        let (h1, more1, e1) =
          sends (init_cmd proto.cmd55 0 true)
            (card_command opt >> (wait_for_cc dev fuel >> read dev Reg.resp0)) h in
        let (h2, more2, e2) = sends opt (read dev Reg.resp0) h1 in (h2, omega arith, e1 ∙ e2)

    late_or_early : (n : ℕ) → (late ≤ n) ⊎ (n < late)
    late_or_early n = omega arith

    ocr_loop_ends :
        (attempts : ℕ) (t : CardType) (h : Host)
        → 0 < attempts
        → late ≤ h.reads + attempts
        → (ocr : ℕ) × (h' : Host) × (ocr_loop proto dev fuel attempts t h ≡ Outcome.done ocr h')
    unfolding ocr_loop
    ocr_loop_ends zero t h some_try enough = absurd (elim some_try [ ])
    ocr_loop_ends (suc attempts) t h some_try enough =
        let (h2, more, e) = app_op_cond_ends t h in
        let ocr = dev.value h2.trace Reg.resp0 h2.reads in
        let h3 : Host = record h2 { reads = suc h2.reads } in
        let choose =
          λ (b : Bool). (if b then pure ocr else ocr_loop proto dev fuel attempts t) h3 in
        let start =
          ap
            (λ (r : Outcome ℕ). and_then r (λ w.
              if bit_and w ocr_nbusy == ocr_nbusy
              then pure w
              else ocr_loop proto dev fuel attempts t))
            e in
        elim (late_or_early h2.reads) [
          | inl is_late ↦ (
            ocr,
            h3,
            start
                ∙ ap choose (
                    (==_iff (bit_and ocr ocr_nbusy) ocr_nbusy).1
                      (powers_up h2.trace h2.reads is_late)),
          )
          | inr early ↦ elim (Bool-cases (bit_and ocr ocr_nbusy == ocr_nbusy)) [
            | inl powered ↦ (ocr, h3, start ∙ ap choose powered)
            | inr unpowered ↦
                let (ocr', h', e') = ocr_loop_ends attempts t h3 (omega arith) (omega arith) in
                (ocr', h', start ∙ ap choose unpowered ∙ e')
          ]
        ]

    returns :
        (attempts : ℕ) (h : Host)
        → 0 < attempts
        → late ≤ h.reads + attempts
        → (t : CardType) × (h' : Host) × (initialize proto dev fuel attempts h ≡ Outcome.done t h')
    unfolding initialize
    returns attempts h some_try enough =
        let later = λ (echo : ℕ). ocr_loop proto dev fuel attempts (first_type echo) >>= λ ocr.
        pure (last_type ocr (first_type echo)) in
        let (h1, more, e1) =
          sends (init_cmd proto.cmd8 0x1aa true) (read dev Reg.resp0 >>= later) h in
        let echo = dev.value h1.trace Reg.resp0 h1.reads in
        let (ocr, h', e2) =
          ocr_loop_ends attempts (first_type echo) (record h1 { reads = suc h1.reads }) some_try
            (omega arith) in
        (
          last_type ocr (first_type echo),
          h',
          e1 ∙ ap (λ (r : Outcome ℕ). and_then r (λ w. pure (last_type w (first_type echo)))) e2,
        )

    -- If each command is answered within the fuel, and the power-up bit is set in each response
    -- from the reading number `late` on, then `initialize` returns a type, once it is allowed as
    -- many attempts as readings are missing then. The type follows from two answers of the card:
    -- that to CMD8, the first command, and that to the last ACMD41, which asked for high capacity
    -- if CMD8 was echoed; in it the card has finished its power up.
    pub initialize_completes :
        (attempts : ℕ) (h : Host)
        → 0 < attempts
        → late ≤ h.reads + attempts
        → (t : CardType) × (h' : Host) × (initialize proto dev fuel attempts h ≡ Outcome.done t h')
          × IsIdentified dev proto h t
    initialize_completes attempts h some_try enough =
        let (t, h', e) = returns attempts h some_try enough in
        (t, h', e, initialize-IsIdentified dev proto fuel attempts h h' t e)
