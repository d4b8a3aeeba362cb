-- ===== src/D1/Smhc/Cards/Types.antt =====
-- What the start of a card finds out, and the order of the bytes of its data.
use upstream_oreboot.Prelude.{
  ℕ, zero, suc, ◌+◌, ◌*◌, ◌^◌, ◌<◌, ◌≡◌, ◌≢◌, sym, ap, ◌∙◌, arith, Bool, true, false,
}
use upstream_oreboot.Prelude.{
  ◌⊎◌, inl, inr, Bool-cases, List, [], ◌∷◌, ◌++◌, ◌==◌, ==_iff, if◌then◌else◌, bit_and,
  append_assoc,
}
use mathlib.Core.Path.{subst}
use upstream_oreboot.D1.Smhc.Card.{CardType}
use upstream_oreboot.D1.Smhc.Host.{
  Reg, Write, Device, Host, Outcome, Driver, pure, ◌>>=◌, ◌>>◌, read,
}
use upstream_oreboot.D1.Smhc.Commands.{
  Interrupt, into_u32, CommandOptions, init_cmd, Proto, card_command, wait_for_cc,
}
use upstream_oreboot.D1.Smhc.Commands.Traces.{
  done-inv, command_writes, Wrote-card_command, Wrote-wait,
}
use upstream_oreboot.D1.Smhc.Cards.{
  ocr_hcs, ocr_nbusy, csd_bytes, first_type, last_type, op_cond_arg, app_op_cond, ocr_loop,
  initialize,
}

-- The number whose bytes are `xs`, the highest first.
abbrev pub be_value : List ℕ → ℕ → ℕ
be_value [] acc = acc
be_value (x ∷ xs) acc = be_value xs (acc * 256 + x)

-- The 16 bytes of the card specific data are those of its 128-bit number, the highest first; its
-- lowest word is the first response.
pub be_value-csd_bytes :
    (d0 d1 d2 d3 : ℕ)
    → d0 < 2 ^ 32
    → d1 < 2 ^ 32
    → d2 < 2 ^ 32
    → d3 < 2 ^ 32
    → be_value (csd_bytes d0 d1 d2 d3) 0 ≡ d0 + 2 ^ 32 * d1 + 2 ^ 64 * d2 + 2 ^ 96 * d3
unfolding csd_bytes
be_value-csd_bytes d0 d1 d2 d3 h0 h1 h2 h3 = omega arith

-- The writes of a command whose end is awaited.
abbrev sent : CommandOptions → List Write
sent opt = command_writes opt ++ (Write.clear_rintsts (into_u32 Interrupt.command_complete) ∷ [])

-- The type of a card by its last answer to ACMD41 and its answer to CMD8.
abbrev Kind : ℕ → ℕ → CardType → Type 0
Kind ocr echo t =
    ((bit_and ocr ocr_hcs ≡ ocr_hcs) × (t ≡ CardType.sdhc))
    ⊎ (((bit_and ocr ocr_hcs ≢ ocr_hcs) × (echo ≡ 0x1aa) × (t ≡ CardType.sd2))
        ⊎ ((bit_and ocr ocr_hcs ≢ ocr_hcs) × (echo ≢ 0x1aa) × (t ≡ CardType.sd1)))

kind_of : (ocr echo : ℕ) → Kind ocr echo (last_type ocr (first_type echo))
kind_of ocr echo = by_bits (bit_and ocr ocr_hcs)
  where
    by_bits :
        (bits : ℕ)
        → ((bits ≡ ocr_hcs)
            × ((if bits == ocr_hcs then CardType.sdhc else first_type echo) ≡ CardType.sdhc))
          ⊎ (((bits ≢ ocr_hcs)
                × (echo ≡ 0x1aa)
                × ((if bits == ocr_hcs then CardType.sdhc else first_type echo) ≡ CardType.sd2))
              ⊎ ((bits ≢ ocr_hcs)
                  × (echo ≢ 0x1aa)
                  × ((if bits == ocr_hcs then CardType.sdhc else first_type echo) ≡ CardType.sd1)))
    by_bits bits = ground arith

module _ (dev : Device) where
  -- `word` was read from the first response register, and the last writes before it were `ws`.
  pub record IsResponse (ws : List Write) (word : ℕ) : Type 0 where
    pub before : List Write
    pub at_read : ℕ
    pub value : word ≡ dev.value (before ++ ws) Reg.resp0 at_read

  after_command :
      {B : Type 0} (opt : CommandOptions) (fuel : ℕ) (k : Driver B) (h h' : Host) (b : B)
      → (card_command opt >> (wait_for_cc dev fuel >> k)) h ≡ Outcome.done b h'
      → (h1 : Host) × (h1.trace ≡ h.trace ++ sent opt) × (k h1 ≡ Outcome.done b h')
  after_command opt fuel k h h' b e =
      let (u, h1, e1, rest) =
        done-inv (card_command opt h) (λ _. wait_for_cc dev fuel >> k) b h' e in
      let (v, h2, e2, last) = done-inv (wait_for_cc dev fuel h1) (λ _. k) b h' rest in
      (
        h2,
        Wrote-wait dev fuel Interrupt.command_complete h1 h2 v e2
            ∙ ap (λ (t : List Write). t ++ waited) (Wrote-card_command opt h h1 u e1)
            ∙ append_assoc h.trace (command_writes opt) waited,
        last,
      )
    where
      waited : List Write
      waited = Write.clear_rintsts (into_u32 Interrupt.command_complete) ∷ []

  read-IsResponse :
      (h h' : Host) (ws : List Write) (before : List Write) (word : ℕ)
      → h.trace ≡ before ++ ws
      → read dev Reg.resp0 h ≡ Outcome.done word h'
      → IsResponse ws word
  read-IsResponse h h' ws before word at_trace e =
      let same : dev.value h.trace Reg.resp0 h.reads ≡ word = cc in
      record {
        before = before;
        at_read = h.reads;
        value = sym same ∙ ap (λ (t : List Write). dev.value t Reg.resp0 h.reads) at_trace;
      }

  module _ (proto : Proto) where
    abbrev op_cond : CardType → CommandOptions
    op_cond t = init_cmd proto.acmd41 (op_cond_arg t) false

    app_op_cond-IsResponse :
        (fuel : ℕ) (t : CardType) (h h' : Host) (ocr : ℕ)
        → app_op_cond proto dev fuel t h ≡ Outcome.done ocr h'
        → IsResponse (sent (op_cond t)) ocr
    unfolding app_op_cond
    app_op_cond-IsResponse fuel t h h' ocr e =
        let (h1, t1, e1) =
          after_command (init_cmd proto.cmd55 0 true) fuel
            (card_command (op_cond t) >> (wait_for_cc dev fuel >> read dev Reg.resp0)) h h' ocr e in
        let (h2, t2, e2) = after_command (op_cond t) fuel (read dev Reg.resp0) h1 h' ocr e1 in
        read-IsResponse h2 h' (sent (op_cond t)) h1.trace ocr t2 e2

    -- The loop ends with a response whose power-up bit is set.
    ocr_loop-IsResponse :
        (fuel attempts : ℕ) (t : CardType) (h h' : Host) (ocr : ℕ)
        → ocr_loop proto dev fuel attempts t h ≡ Outcome.done ocr h'
        → IsResponse (sent (op_cond t)) ocr × (bit_and ocr ocr_nbusy ≡ ocr_nbusy)
    unfolding ocr_loop
    ocr_loop-IsResponse fuel zero t h h' ocr e = cc
    ocr_loop-IsResponse fuel (suc attempts) t h h' ocr e =
        let (word, h1, e1, rest) =
          done-inv (app_op_cond proto dev fuel t h)
            (λ w.
              if bit_and w ocr_nbusy == ocr_nbusy
              then pure w
              else ocr_loop proto dev fuel attempts t)
            ocr h' e in
        elim (Bool-cases (bit_and word ocr_nbusy == ocr_nbusy)) [
          | inl powered ↦
              let chosen : Outcome.done word h1 ≡ Outcome.done ocr h' =
                ap (λ (b : Bool). (if b then pure word else ocr_loop proto dev fuel attempts t) h1)
                  (sym powered)
                ∙ rest in
              let same : word ≡ ocr = cc in
              subst (λ w. IsResponse (sent (op_cond t)) w × (bit_and w ocr_nbusy ≡ ocr_nbusy)) same
                (
                  app_op_cond-IsResponse fuel t h h1 word e1,
                  (==_iff (bit_and word ocr_nbusy) ocr_nbusy).0 powered,
                )
          | inr unpowered ↦ ocr_loop-IsResponse fuel attempts t h1 h' ocr (
              ap (λ (b : Bool). (if b then pure word else ocr_loop proto dev fuel attempts t) h1)
                (sym unpowered)
              ∙ rest)
        ]

    -- How a card was identified: its answer to CMD8, which was sent first, and its answer to the
    -- last ACMD41, which asked for high capacity if CMD8 was echoed; the card has finished its
    -- power up, and its type follows from the two answers.
    pub record IsIdentified (before : Host) (t : CardType) : Type 0 where
      pub echo : ℕ
      pub ocr : ℕ
      pub echo_read :
          (at_read : ℕ) × (echo
            ≡ dev.value (before.trace ++ sent (init_cmd proto.cmd8 0x1aa true)) Reg.resp0 at_read)
      pub ocr_read : IsResponse (sent (op_cond (first_type echo))) ocr
      pub powered : bit_and ocr ocr_nbusy ≡ ocr_nbusy
      pub kind : Kind ocr echo t

    -- A card that `initialize` returns a type for was identified so.
    pub initialize-IsIdentified :
        (fuel attempts : ℕ) (h h' : Host) (t : CardType)
        → initialize proto dev fuel attempts h ≡ Outcome.done t h'
        → IsIdentified h t
    unfolding initialize
    initialize-IsIdentified fuel attempts h h' t e =
        let (h1, t1, e1) =
          after_command (init_cmd proto.cmd8 0x1aa true) fuel
            (read dev Reg.resp0 >>= λ echo.
              ocr_loop proto dev fuel attempts (first_type echo) >>= λ ocr.
              pure (last_type ocr (first_type echo)))
            h h' t e in
        let echo = dev.value h1.trace Reg.resp0 h1.reads in
        let (ocr, h2, e2, last) =
          done-inv
            (ocr_loop proto dev fuel attempts (first_type echo)
              (record h1 { reads = suc h1.reads }))
            (λ ocr. pure (last_type ocr (first_type echo))) t h' e1 in
        let (response, powered) =
          ocr_loop-IsResponse fuel attempts (first_type echo) (record h1 { reads = suc h1.reads })
            h2 ocr e2 in
        let same : last_type ocr (first_type echo) ≡ t = cc in
        record {
          echo = echo;
          ocr = ocr;
          echo_read = (h1.reads, ap (λ (tr : List Write). dev.value tr Reg.resp0 h1.reads) t1);
          ocr_read = response;
          powered = powered;
          kind = subst (Kind ocr echo) same (kind_of ocr echo);
        }
