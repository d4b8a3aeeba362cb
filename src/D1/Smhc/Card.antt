-- ===== src/D1/Smhc/Card.antt =====
-- Card types and the card status of src/soc/src/sunxi/d1/smhc/card.rs.
use upstream_oreboot.Prelude.{ℕ, ◌+◌, ◌*◌, ◌^◌, ◌<◌, ◌≡◌, refl, ap, ◌∙◌, arith, Bool}
use upstream_oreboot.Prelude.{◌==◌, if◌then◌else◌, ◌>>>◌, bit_and}
use upstream_oreboot.Prelude.Bits.{bit_and_mask}

pub data CardType : Type 0 where
  sd1 sd2 sdhc : CardType

pub data CardCurrentState : Type 0 where
  idle ready ident stby tran data_state rcv prg dis reserved : CardCurrentState

unfoldable pub from_u32 : ℕ → CardCurrentState
from_u32 value =
    if value == 0
    then CardCurrentState.idle
    else if value == 1
    then CardCurrentState.ready
    else if value == 2
    then CardCurrentState.ident
    else if value == 3
    then CardCurrentState.stby
    else if value == 4
    then CardCurrentState.tran
    else if value == 5
    then CardCurrentState.data_state
    else if value == 6
    then CardCurrentState.rcv
    else if value == 7
    then CardCurrentState.prg
    else if value == 8
    then CardCurrentState.dis
    else CardCurrentState.reserved

-- The card status in R1 response format.
pub record CardStatus : Type 0 where
  pub word : ℕ

has_bit : ℕ → ℕ → Bool
has_bit w bit = bit_and w bit == bit

unfoldable pub auth_seq_error : CardStatus → Bool
unfolding has_bit
auth_seq_error s = has_bit s.word (2 ^ 3)

unfoldable pub app_cmd : CardStatus → Bool
unfolding has_bit
app_cmd s = has_bit s.word (2 ^ 5)

unfoldable pub ready_for_data : CardStatus → Bool
unfolding has_bit
ready_for_data s = has_bit s.word (2 ^ 8)

unfoldable pub current_state : CardStatus → CardCurrentState
current_state s = from_u32 (bit_and (s.word >>> 9) 0xf)

unfoldable pub error : CardStatus → Bool
unfolding has_bit
error s = has_bit s.word (2 ^ 19)

unfoldable pub cc_error : CardStatus → Bool
unfolding has_bit
cc_error s = has_bit s.word (2 ^ 20)

unfoldable pub is_locked : CardStatus → Bool
unfolding has_bit
is_locked s = has_bit s.word (2 ^ 25)

-- The code of each state in bits 9 to 12 of the response; the codes from 9 on are reserved.
abbrev pub state_code : CardCurrentState → ℕ
state_code CardCurrentState.idle = 0
state_code CardCurrentState.ready = 1
state_code CardCurrentState.ident = 2
state_code CardCurrentState.stby = 3
state_code CardCurrentState.tran = 4
state_code CardCurrentState.data_state = 5
state_code CardCurrentState.rcv = 6
state_code CardCurrentState.prg = 7
state_code CardCurrentState.dis = 8
state_code CardCurrentState.reserved = 9

from_u32-state_code : (s : CardCurrentState) → from_u32 (state_code s) ≡ s
unfolding from_u32
from_u32-state_code CardCurrentState.idle = refl
from_u32-state_code CardCurrentState.ready = refl
from_u32-state_code CardCurrentState.ident = refl
from_u32-state_code CardCurrentState.stby = refl
from_u32-state_code CardCurrentState.tran = refl
from_u32-state_code CardCurrentState.data_state = refl
from_u32-state_code CardCurrentState.rcv = refl
from_u32-state_code CardCurrentState.prg = refl
from_u32-state_code CardCurrentState.dis = refl
from_u32-state_code CardCurrentState.reserved = refl

state_code-lt : (s : CardCurrentState) → state_code s < 16
state_code-lt s = ground arith

field_of_word :
    (low code high : ℕ)
    → low < 2 ^ 9
    → code < 16
    → bit_and ((low + code * 2 ^ 9 + high * 2 ^ 13) >>> 9) 0xf ≡ code
field_of_word low code high hl hc =
    bit_and_mask 4 ((low + code * 2 ^ 9 + high * 2 ^ 13) >>> 9) ∙ omega arith

-- A state that stands in bits 9 to 12 of a response is read back, whatever the other bits are.
pub current_state-state_code :
    (low high : ℕ) (s : CardCurrentState)
    → low < 2 ^ 9
    → current_state (record { word = low + state_code s * 2 ^ 9 + high * 2 ^ 13 }) ≡ s
unfolding current_state
current_state-state_code low high s h =
    ap from_u32 (field_of_word low (state_code s) high h (state_code-lt s)) ∙ from_u32-state_code s
