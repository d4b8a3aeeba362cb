-- ===== src/Nezha/Dram/Probe.antt =====
-- What the probe of the ranks and of the width leaves behind, src/mainboard/sunxi/nezha/bt0/src/mctl.rs.
use upstream_oreboot.Prelude.{ℕ, ◌≡◌, ◌⊎◌, inr, refl, arith}
use upstream_oreboot.Prelude.{any_of, ◌>>>◌, ◌|||◌, ◌&&&◌, Option, some, none}
use upstream_oreboot.Nezha.Dram.Bus.{Bus, Board, done}
use upstream_oreboot.Nezha.Dram.Ends.{seen}
use upstream_oreboot.Nezha.Dram.Params.{DramParameters}
use upstream_oreboot.Nezha.Dram.Channel.{mctl_core_init}
use upstream_oreboot.Nezha.Dram.Size.{dqs_gate_detect, detected, with_detected}
use upstream_oreboot.Nezha.Dram.Scan.{auto_scan_dram_rank_width, probe_parameters}
use upstream_oreboot.Nezha.Dram.Ranks.{GatesTell, dqs_gate_detect-GatesTell, and_then-Gives_done}
use upstream_oreboot.Nezha.Dram.Registers.{pgsr0, unknown4, unknown5}
use upstream_oreboot.Nezha.Dram.Kept.{
  Gives, and_then-Gives, branch-Gives, Gives-done, IsKept, mctl_core_init-Gives,
}

-- The parameters of the probe, and what it makes of them: a single rank of full or half width, or
-- two ranks of half or full width.
abbrev pub probed : ℕ → ℕ
probed para2 = (para2 &&& 0xfffffff0) ||| 0x1000

abbrev pub IsDetected : ℕ → ℕ → Type 0
IsDetected old new =
    (new ≡ probed old &&& 0xffff0ff0)
    ⊎ (new ≡ (probed old &&& 0xffff0ff0) ||| 0x1)
    ⊎ (new ≡ (probed old &&& 0xfffffff0) ||| 0x1001)
    ⊎ (new ≡ (probed old &&& 0xfffffff0) ||| 0x1000)

record IsDetectedFrom (para para' : DramParameters) : Type 0 where
  pub tpr13 : para'.dram_tpr13 ≡ para.dram_tpr13
  pub para1 : para'.dram_para1 ≡ para.dram_para1
  pub para2 : IsDetected para.dram_para2 para'.dram_para2

detected-IsDetected :
    (para2 old dx0 dx1 : ℕ) {new : ℕ}
    → para2 ≡ probed old
    → detected para2 dx0 dx1 ≡ some new
    → IsDetected old new
unfolding detected
detected-IsDetected para2 old dx0 dx1 probe e = ground arith

module _ {S : Type 0} (bus : Bus S) where
  with_detected-Gives :
      (para1 : DramParameters) (old : ℕ) (found : Option ℕ) (b : Board S)
      → ((new : ℕ) → found ≡ some new → IsDetected old new)
      → Gives (λ para2. IsDetected old para2.dram_para2) (with_detected bus para1 found b)
  with_detected-Gives para1 old none b h = tt
  with_detected-Gives para1 old (some new) b h = h new refl

  dqs_gate_detect-Gives :
      (para1 : DramParameters) (old : ℕ) (b : Board S)
      → para1.dram_para2 ≡ probed old
      → Gives (λ para2. IsDetected old para2.dram_para2) (dqs_gate_detect bus para1 b)
  unfolding dqs_gate_detect
  dqs_gate_detect-Gives para1 old b e =
      let b1 = seen bus pgsr0 b in
      let dx0 = (bus.value unknown4 b1.world >>> 24) &&& 0x3 in
      let dx1 = (bus.value unknown5 (seen bus unknown4 b1).world >>> 24) &&& 0x3 in
      branch-Gives (λ para2. IsDetected old para2.dram_para2)
        (any_of (bus.value pgsr0 b.world) 0x400000) _ _ (seen bus pgsr0 b)
        (with_detected-Gives para1 old _ _
          (λ new f. detected-IsDetected para1.dram_para2 old dx0 dx1 e f))
        (inr (inr (inr (rw e refl))))

module _ {S : Type 0} (bus : Bus S) (fuel : ℕ) where
  auto_scan_dram_rank_width-Gives :
      (para : DramParameters) (b : Board S)
      → Gives (IsDetectedFrom para) (auto_scan_dram_rank_width bus fuel para b)
  unfolding auto_scan_dram_rank_width probe_parameters
  auto_scan_dram_rank_width-Gives para b =
      and_then-Gives (IsKept (probe_parameters para)) (IsDetectedFrom para)
        (mctl_core_init bus fuel (probe_parameters para) b) _
        (mctl_core_init-Gives bus fuel (probe_parameters para) b)
        (λ para1 b1 kept.
          branch-Gives (IsDetectedFrom para) (any_of (bus.value pgsr0 b1.world) 0x100000) _ _
            (seen bus pgsr0 b1) tt
            (and_then-Gives (λ para2. IsDetected para.dram_para2 para2.dram_para2)
              (IsDetectedFrom para) (dqs_gate_detect bus para1 (seen bus pgsr0 b1)) _
              (dqs_gate_detect-Gives bus para1 para.dram_para2 _ kept.para2)
              (λ para2 b2 found. record { tpr13 = refl; para1 = refl; para2 = found })))

  -- What the probe does: it sets up the core with its own parameters, and reads the gates of the
  -- strobes behind the first reading of the status.
  pub record IsProbed (para : DramParameters) (b : Board S) (para' : DramParameters) : Type 0 where
    pub tpr13 : para'.dram_tpr13 ≡ para.dram_tpr13
    pub para1 : para'.dram_para1 ≡ para.dram_para1
    pub para2 : IsDetected para.dram_para2 para'.dram_para2
    pub with_core : DramParameters
    pub set_up : Board S
    pub core : mctl_core_init bus fuel (probe_parameters para) b ≡ done with_core set_up
    pub found : GatesTell bus (seen bus pgsr0 set_up) para'.dram_para2

  abbrev HasCore : DramParameters → Board S → DramParameters → Type 0
  HasCore para b para' =
      (with_core : DramParameters) × (set_up : Board S) × (mctl_core_init bus fuel
          (probe_parameters para) b
        ≡ done with_core set_up)
      × GatesTell bus (seen bus pgsr0 set_up) para'.dram_para2

  auto_scan_dram_rank_width-HasCore :
      (para : DramParameters) (b : Board S)
      → Gives (HasCore para b) (auto_scan_dram_rank_width bus fuel para b)
  unfolding auto_scan_dram_rank_width
  auto_scan_dram_rank_width-HasCore para b =
      and_then-Gives_done (HasCore para b) (mctl_core_init bus fuel (probe_parameters para) b) _
        (λ para1 b1 core.
          branch-Gives (HasCore para b) (any_of (bus.value pgsr0 b1.world) 0x100000) _ _
            (seen bus pgsr0 b1) tt
            (and_then-Gives (λ para2. GatesTell bus (seen bus pgsr0 b1) para2.dram_para2)
              (HasCore para b) (dqs_gate_detect bus para1 (seen bus pgsr0 b1)) _
              (dqs_gate_detect-GatesTell bus para1 (seen bus pgsr0 b1))
              (λ para2 b2 found. (para1, b1, core, found))))

  -- When the probe of the ranks and of the width succeeds, it leaves `dram_tpr13` and `dram_para1` as
  -- they were, whatever it set them to meanwhile. Of `dram_para2`, bit 12 says whether there are two
  -- ranks and bit 0 whether the width is half, as the gates of the strobes tell after the set-up of
  -- the core: without an error two ranks of full width, and with one what the gates of both lanes say.
  pub auto_scan_dram_rank_width-IsProbed :
      (para : DramParameters) (b : Board S) {para' : DramParameters} {b' : Board S}
      → auto_scan_dram_rank_width bus fuel para b ≡ done para' b'
      → IsProbed para b para'
  auto_scan_dram_rank_width-IsProbed para b e =
      let flags =
        Gives-done (IsDetectedFrom para) (auto_scan_dram_rank_width bus fuel para b) e
          (auto_scan_dram_rank_width-Gives para b) in
      let (with_core, set_up, core, found) =
        Gives-done (HasCore para b) (auto_scan_dram_rank_width bus fuel para b) e
          (auto_scan_dram_rank_width-HasCore para b) in
      record {
        tpr13 = flags.tpr13;
        para1 = flags.para1;
        para2 = flags.para2;
        with_core = with_core;
        set_up = set_up;
        core = core;
        found = found;
      }
