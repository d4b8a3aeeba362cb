-- ===== src/Nezha/Dram/Bus.antt =====
-- Reads and writes of memory-mapped words, src/mainboard/sunxi/nezha/bt0/src/mctl.rs.
use upstream_oreboot.Prelude.{ℕ, zero, suc, ◌*◌, Bool, List, if◌then◌else◌}

-- What the hardware does: the value of a word, and the effects of a read, a write and a delay.
pub record Bus (S : Type 0) : Type 0 where
  pub value : ℕ → S → ℕ
  pub after_read : ℕ → S → S
  pub after_write : ℕ → ℕ → S → S
  pub after_delay : ℕ → S → S

-- The hardware, and the static table of the address lines.
pub record Board (S : Type 0) : Type 0 where
  pub world : S
  pub phy_cfg0 : List ℕ

-- The messages of the errors.
pub data DramError : Type 0 where
  zq_calibration dqs_gate base offs rank_width : DramError

-- `waiting` is a loop whose condition has not come within the fuel.
pub data Run (S A : Type 0) : Type 0 where
  done : A → Board S → Run S A
  failed : DramError → Board S → Run S A
  waiting : Run S A

abbrev pub Step : Type 0 → Type 0 → Type 0
Step S A = Board S → Run S A

abbrev pub Proc : Type 0 → Type 0
Proc S = Step S (Unit {0})

module _ {S A : Type 0} where
  abbrev pub pure : A → Step S A
  pure = Run.done

  abbrev pub throw : DramError → Step S A
  throw = Run.failed

module _ {S A B : Type 0} where
  abbrev pub and_then : Run S A → (A → Step S B) → Run S B
  and_then (done a b) k = k a b
  and_then (failed e b) k = Run.failed e b
  and_then waiting k = Run.waiting

  infixl 5 ◌>>=◌ ◌>>◌
  abbrev pub ◌>>=◌ : Step S A → (A → Step S B) → Step S B
  m >>= k = λ b. and_then (m b) k

  abbrev pub ◌>>◌ : Step S A → Step S B → Step S B
  m >> n = m >>= λ _. n

module _ {S : Type 0} where
  abbrev pub when : Bool → Proc S → Proc S
  when test body = if test then body else pure tt

  -- `for i in first..first + count`
  unfoldable pub for_range : ℕ → ℕ → (ℕ → Proc S) → Proc S
  for_range zero i body = pure tt
  for_range (suc count) i body = body i >> for_range count (suc i) body

module _ {S : Type 0} (bus : Bus S) where
  abbrev pub readl : ℕ → Step S ℕ
  readl reg b = Run.done (bus.value reg b.world) (record b { world = bus.after_read reg b.world })

  abbrev pub writel : ℕ → ℕ → Proc S
  writel reg val b = Run.done tt (record b { world = bus.after_write reg val b.world })

  abbrev pub sdelay : ℕ → Proc S
  sdelay micros b = Run.done tt (record b { world = bus.after_delay (micros * 1000) b.world })

  -- `writel(reg, f(readl(reg)))`
  abbrev pub change : ℕ → (ℕ → ℕ) → Proc S
  change reg f = do val ← readl reg; writel reg (f val)

  -- `while busy(readl(reg)) {}`, with fuel.
  unfoldable pub poll : ℕ → ℕ → (ℕ → Bool) → Proc S
  poll zero reg busy b = Run.waiting
  poll (suc fuel) reg busy b =
      let b1 = record b { world = bus.after_read reg b.world } in
      let again = poll fuel reg busy b1 in
      if busy (bus.value reg b.world) then again else Run.done tt b1
