-- ===== src/Nezha/Dram/Ranks.antt =====
-- The ranks and the width that the strobe gates tell, src/mainboard/sunxi/nezha/bt0/src/mctl.rs.
use upstream_oreboot.Prelude.{
  ℕ, ◌/◌, ◌%◌, ◌^◌, ◌≡◌, ◌≢◌, ◌⊎◌, inl, inr, refl, arith, Bool, true, false,
}
use upstream_oreboot.Prelude.{if◌then◌else◌, any_of, ◌>>>◌, ◌|||◌, ◌&&&◌, Option, some, none}
use upstream_oreboot.Prelude.Bits.{
  bit_and_step, bit_or_step, bit_and_split, bit_and-le, bit_of_bit_or, bit_and_bit, bit_and_mask,
}
use upstream_oreboot.Nezha.Dram.Bus.{Bus, Board, Run, Step, done, failed, waiting, and_then}
use upstream_oreboot.Nezha.Dram.Ends.{seen}
use upstream_oreboot.Nezha.Dram.Params.{DramParameters}
use upstream_oreboot.Nezha.Dram.Size.{dqs_gate_detect, detected, with_detected}
use upstream_oreboot.Nezha.Dram.Registers.{pgsr0, unknown4, unknown5}
use upstream_oreboot.Nezha.Dram.Kept.{Gives}

-- Bit 12 of `dram_para2` says that there are two ranks, bit 0 that the width is half.
pub record Says (ranks half new : ℕ) : Type 0 where
  pub two_ranks : new / 2 ^ 12 % 2 ≡ ranks
  pub half_width : new % 2 ≡ half

-- What the gates tell: without the error bit 22 of the status, two ranks of full width; with it, the
-- gate of the first lane is 2 for one rank, of full width if the gate of the second is 2 too and else
-- of half width, and 0 for two ranks of half width.
pub record IsFound (status lane0 lane1 new : ℕ) : Type 0 where
  pub no_error : status / 2 ^ 22 % 2 ≡ 0 → Says 1 0 new
  pub error :
      status / 2 ^ 22 % 2 ≡ 1
      → ((lane0 ≡ 2) × (lane1 ≡ 2) × Says 0 0 new)
        ⊎ ((lane0 ≡ 2) × (lane1 ≢ 2) × Says 0 1 new)
        ⊎ ((lane0 ≡ 0) × Says 1 1 new)

single_full : (p : ℕ) → Says 0 0 (p &&& 0xffff0ff0)
single_full p = record {
  two_ranks = omega (
    arith,
    bit_and_split 12 p 0xffff0ff0,
    bit_and-le (p % 2 ^ 12) (0xffff0ff0 % 2 ^ 12),
    bit_and_step (p / 2 ^ 12) (0xffff0ff0 / 2 ^ 12),
  );
  half_width = omega (arith, bit_and_step p 0xffff0ff0);
}

single_half : (p : ℕ) → Says 0 1 ((p &&& 0xffff0ff0) ||| 0x1)
single_half p =
    let full = single_full p in
    record {
      two_ranks = omega (arith, bit_of_bit_or 12 (p &&& 0xffff0ff0) 0x1, full.two_ranks);
      half_width = omega (arith, bit_or_step (p &&& 0xffff0ff0) 0x1);
    }

dual_half : (p : ℕ) → Says 1 1 ((p &&& 0xfffffff0) ||| 0x1001)
dual_half p = record {
  two_ranks = omega (arith, bit_of_bit_or 12 (p &&& 0xfffffff0) 0x1001);
  half_width = omega (arith, bit_or_step (p &&& 0xfffffff0) 0x1001);
}

dual_full : (p : ℕ) → Says 1 0 ((p &&& 0xfffffff0) ||| 0x1000)
dual_full p = record {
  two_ranks = omega (arith, bit_of_bit_or 12 (p &&& 0xfffffff0) 0x1000);
  half_width = omega (arith, bit_or_step (p &&& 0xfffffff0) 0x1000, bit_and_step p 0xfffffff0);
}

-- The three ways in which the lanes are taken.
detected-cases :
    (p dx0 dx1 : ℕ) {new : ℕ}
    → detected p dx0 dx1 ≡ some new
    → ((dx0 ≡ 2) × (dx1 ≡ 2) × (new ≡ p &&& 0xffff0ff0))
      ⊎ ((dx0 ≡ 2) × (dx1 ≢ 2) × (new ≡ (p &&& 0xffff0ff0) ||| 0x1))
      ⊎ ((dx0 ≡ 0) × (new ≡ (p &&& 0xfffffff0) ||| 0x1001))
unfolding detected
detected-cases p dx0 dx1 e = ground arith

detected-IsFound :
    (p status lane0 lane1 : ℕ) {new : ℕ}
    → any_of status 0x400000 ≡ true
    → detected p ((lane0 >>> 24) &&& 0x3) ((lane1 >>> 24) &&& 0x3) ≡ some new
    → IsFound status (lane0 / 2 ^ 24 % 4) (lane1 / 2 ^ 24 % 4) new
detected-IsFound p status lane0 lane1 set e =
    let m0 = bit_and_mask 2 (lane0 / 2 ^ 24) in
    let m1 = bit_and_mask 2 (lane1 / 2 ^ 24) in
    record {
      no_error = λ clear. absurd (ground (arith, bit_and_bit 22 status));
      error = λ _. elim (detected-cases p _ _ e) [
        | inl (a, b, same) ↦
            inl (omega (arith, a, m0), omega (arith, b, m1), rw same (single_full p))
        | inr (inl (a, b, same)) ↦ inr (
            inl (
              omega (arith, a, m0),
              (λ two. absurd (omega (arith, two, b, m1))),
              rw same (single_half p),
            ))
        | inr (inr (a, same)) ↦ inr (inr (omega (arith, a, m0), rw same (dual_half p)))
      ];
    }

module _ {S A B : Type 0} where
  -- The rest of a run, with what the first part has returned.
  pub and_then-Gives_done :
      (P : B → Type 0) (r : Run S A) (k : A → Step S B)
      → ((a : A) (b : Board S) → r ≡ done a b → Gives P (k a b))
      → Gives P (and_then r k)
  and_then-Gives_done P (done a b) k rest = rest a b refl
  and_then-Gives_done P (failed e b) k rest = tt
  and_then-Gives_done P waiting k rest = tt

module _ {S A : Type 0} where
  pub branch-Gives_if :
      (P : A → Type 0) (test : Bool) (m n : Step S A) (b : Board S)
      → (test ≡ true → Gives P (m b))
      → (test ≡ false → Gives P (n b))
      → Gives P ((if test then m else n) b)
  branch-Gives_if P true m n b p q = p refl
  branch-Gives_if P false m n b p q = q refl

module _ {S : Type 0} (bus : Bus S) where
  -- The words that `dqs_gate_detect` reads.
  abbrev pub GatesTell : Board S → ℕ → Type 0
  GatesTell b new =
      let b1 = seen bus pgsr0 b in
      IsFound (bus.value pgsr0 b.world) (bus.value unknown4 b1.world / 2 ^ 24 % 4)
        (bus.value unknown5 (seen bus unknown4 b1).world / 2 ^ 24 % 4) new

  with_detected-holds :
      (Q : ℕ → Type 0) (para1 : DramParameters) (found : Option ℕ) (b : Board S)
      → ((new : ℕ) → found ≡ some new → Q new)
      → Gives (λ para2. Q para2.dram_para2) (with_detected bus para1 found b)
  with_detected-holds Q para1 none b h = tt
  with_detected-holds Q para1 (some new) b h = h new refl

  pub dqs_gate_detect-GatesTell :
      (para1 : DramParameters) (b : Board S)
      → Gives (λ para2. GatesTell b para2.dram_para2) (dqs_gate_detect bus para1 b)
  unfolding dqs_gate_detect
  dqs_gate_detect-GatesTell para1 b =
      let status = bus.value pgsr0 b.world in
      let b1 = seen bus pgsr0 b in
      branch-Gives_if (λ para2. GatesTell b para2.dram_para2) (any_of status 0x400000) _ _ b1
        (λ set. with_detected-holds (GatesTell b) para1 _ _ (λ new e.
          detected-IsFound para1.dram_para2 status (bus.value unknown4 b1.world)
            (bus.value unknown5 (seen bus unknown4 b1).world) set e))
        (λ clear. record {
          no_error = λ _. dual_full para1.dram_para2;
          error = λ set. absurd (ground (arith, bit_and_bit 22 status));
        })
