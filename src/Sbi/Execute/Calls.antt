-- ===== src/Sbi/Execute/Calls.antt =====
-- How execute.rs answers a call of the supervisor.
use upstream_oreboot.Prelude.{ℕ, ◌*◌, ◌/◌, ◌%◌, ◌^◌, ◌<◌, ◌≡◌, ◌≢◌, ◌⊎◌, inl, inr, refl, arith}
use upstream_oreboot.Prelude.{false, ◌==◌, Bool-cases, ==_iff, bit_and}
use upstream_oreboot.Prelude.{wrapping_add}
use upstream_oreboot.Prelude.Bits.{bit_and_mask, bit_and_shift}
use upstream_oreboot.Sbi.Riscv.{Hart, SbiRet}
use upstream_oreboot.Sbi.Execute.{running, finished, finish_call, exit_mask, exit_magic}

-- The masked comparison reads the upper half of the error word.
pub exit_half : (e : ℕ) → bit_and e exit_mask ≡ e / 2 ^ 32 % 2 ^ 32 * 2 ^ 32
exit_half e = omega (arith, bit_and_shift 32 e 0xffffffff, bit_and_mask 32 (e / 2 ^ 32))

-- The hart after an answer that does not exit.
abbrev pub answered : SbiRet → Hart → Hart
answered ans h = record h {
  context = record h.context {
    a0 = ans.error;
    a1 = ans.value;
    mepc = wrapping_add h.context.mepc 4;
  };
}

-- A 64-bit error word whose upper half is the magic number breaks the loop with its lower half and
-- the value; every other answer goes to a0 and a1, skips the call and changes nothing else.
pub finish_call_lem :
    (ans : SbiRet) (h : Hart)
    → ans.error < 2 ^ 64
    → ((ans.error / 2 ^ 32 ≡ 0x114514)
        × (finish_call ans h ≡ finished (ans.error % 2 ^ 32) ans.value h))
      ⊎ ((ans.error / 2 ^ 32 ≢ 0x114514) × (finish_call ans h ≡ running (answered ans h)))
unfolding finish_call
finish_call_lem ans h fits = elim (Bool-cases (bit_and ans.error exit_mask == exit_magic)) [
  | inl e ↦ inl (
    omega (arith, exit_half ans.error, (==_iff (bit_and ans.error exit_mask) exit_magic).0 e),
    rw (e, bit_and_mask 32 ans.error) refl,
  )
  | inr e ↦ inr ((λ same. not_exit e (omega (arith, exit_half ans.error))), rw e refl)
]
  where
    not_exit :
        (bit_and ans.error exit_mask == exit_magic) ≡ false
        → bit_and ans.error exit_mask ≢ exit_magic
    not_exit e f = ground arith
