-- ===== src/D1/Smhc/Commands/Traces.antt =====
-- What the operations write, in order, when they return a value.
use upstream_oreboot.Prelude.{ℕ, zero, suc, ◌≡◌, refl, sym, ap, ◌∙◌, Bool, inl, inr, Bool-cases}
use upstream_oreboot.Prelude.{List, [], ◌∷◌, ◌++◌, if◌then◌else◌}
use upstream_oreboot.Prelude.{append_assoc, append_nil}
use upstream_oreboot.D1.Smhc.Host.{
  Reg, Write, Device, Host, Outcome, Driver, pure, and_then, write, read, spin,
}
use upstream_oreboot.D1.Smhc.Commands.{
  Interrupt, CommandOptions, cmd_fields, into_u32, card_command, wait_for_interrupt, reset_fifo,
}
use upstream_oreboot.D1.Smhc.Commands.Waits.{wait_for_interrupt-IsAnswered}

module _ {A : Type 0} where
  -- Whenever the operation returns a value, it has made the writes `ws`, in this order.
  abbrev pub Wrote : Driver A → List Write → Type 0
  Wrote p ws = (h h' : Host) (a : A) → p h ≡ Outcome.done a h' → h'.trace ≡ h.trace ++ ws

module _ {A B : Type 0} where
  pub done-inv :
      (m : Outcome A) (k : A → Driver B) (b : B) (h' : Host)
      → and_then m k ≡ Outcome.done b h'
      → (a : A) × (h1 : Host) × (m ≡ Outcome.done a h1) × (k a h1 ≡ Outcome.done b h')
  done-inv (Outcome.done a h1) k b h' e = (a, h1, refl, e)
  done-inv (Outcome.failed x h1) k b h' e = cc
  done-inv Outcome.waiting k b h' e = cc
  done-inv Outcome.panicked k b h' e = cc

  pub Wrote-bind :
      (m : Driver A) (k : A → Driver B) (ws vs : List Write)
      → Wrote m ws
      → ((a : A) → Wrote (k a) vs)
      → Wrote (λ h. and_then (m h) k) (ws ++ vs)
  Wrote-bind m k ws vs first next h h' b e = chain (done-inv (m h) k b h' e)
    where
      chain :
          (a : A) × (h1 : Host) × (m h ≡ Outcome.done a h1) × (k a h1 ≡ Outcome.done b h')
          → h'.trace ≡ h.trace ++ (ws ++ vs)
      chain (a, h1, e1, e2) =
          next a h1 h' b e2 ∙ ap (λ t. t ++ vs) (first h h1 a e1) ∙ append_assoc h.trace ws vs

module _ {A : Type 0} where
  pub Wrote-pure : (a : A) → Wrote (pure a) []
  Wrote-pure a h h' b e =
      let same : h ≡ h' = cc in ap (λ (x : Host). x.trace) (sym same) ∙ sym (append_nil h.trace)

pub Wrote-write : (w : Write) → Wrote (write w) (w ∷ [])
Wrote-write w h h' a e =
    let same : record h { trace = h.trace ++ (w ∷ []) } ≡ h' = cc in
    ap (λ (x : Host). x.trace) (sym same)

module _ (dev : Device) where
  pub Wrote-read : (r : Reg) → Wrote (read dev r) []
  Wrote-read r h h' a e =
      let same : record h { reads = suc h.reads } ≡ h' = cc in
      ap (λ (x : Host). x.trace) (sym same) ∙ sym (append_nil h.trace)

  pub Wrote-spin : (fuel : ℕ) (r : Reg) (busy : ℕ → Bool) → Wrote (spin dev fuel r busy) []
  unfolding spin
  Wrote-spin zero r busy h h' a e = cc
  Wrote-spin (suc fuel) r busy h h' a e =
      let now = busy (dev.value h.trace r h.reads) in
      let h1 : Host = record h { reads = suc h.reads } in
      elim (Bool-cases now) [
        | inl busy_now ↦ Wrote-spin fuel r busy h1 h' a (
            ap (λ (b : Bool). if b then spin dev fuel r busy h1 else Outcome.done tt h1)
              (sym busy_now)
            ∙ e)
        | inr free_now ↦ Wrote-pure tt h1 h' a (
            ap (λ (b : Bool). if b then spin dev fuel r busy h1 else Outcome.done tt h1)
              (sym free_now)
            ∙ e)
      ]

  pub Wrote-wait :
      (fuel : ℕ) (int : Interrupt)
      → Wrote (wait_for_interrupt dev fuel int) (Write.clear_rintsts (into_u32 int) ∷ [])
  Wrote-wait fuel int h h' a e =
      let answer = wait_for_interrupt-IsAnswered dev fuel int h h' e in
      ap (λ (x : Host). x.trace) answer.same

  pub Wrote-reset_fifo : (fuel : ℕ) → Wrote (reset_fifo dev fuel) (Write.fifo_set_bit ∷ [])
  unfolding reset_fifo
  Wrote-reset_fifo fuel =
      Wrote-bind (write Write.fifo_set_bit) (λ _. spin dev fuel Reg.ctrl dev.fifo_rst_is_reset)
        (Write.fifo_set_bit ∷ []) [] (Wrote-write Write.fifo_set_bit)
        (λ _. Wrote-spin fuel Reg.ctrl dev.fifo_rst_is_reset)

-- The two writes of a command.
abbrev pub command_writes : CommandOptions → List Write
command_writes opt = Write.cmdarg opt.arg ∷ Write.cmd (cmd_fields opt) ∷ []

pub Wrote-card_command : (opt : CommandOptions) → Wrote (card_command opt) (command_writes opt)
unfolding card_command
Wrote-card_command opt =
    Wrote-bind (write (Write.cmdarg opt.arg)) (λ _. write (Write.cmd (cmd_fields opt)))
      (Write.cmdarg opt.arg ∷ []) (Write.cmd (cmd_fields opt) ∷ [])
      (Wrote-write (Write.cmdarg opt.arg)) (λ _. Wrote-write (Write.cmd (cmd_fields opt)))
