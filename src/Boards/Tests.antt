-- ===== src/Boards/Tests.antt =====
-- Runs of the accessors on a driver whose registers are a function of the address.
use mu2e_pcie_utils.Boards.Ports.{
  cfo_jitter_attenuator_csr_reg, dtc_port, cfo_port, dtc_accepts, cfo_accepts, cfo_needs_verify,
  dtc_board, cfo_board,
}
use mu2e_pcie_utils.Prelude.{
  ◌≢◌, if_both, ◌<◌, ◌>>=◌, ◌⊎◌, sym, ℕ, ◌%◌, ◌^◌, ◌≡◌, refl, true, false, ◌==◌, eq→==, ne→==,
  if◌then◌else◌, All, none, ok, ℤ, pos, arith,
}
use mu2e_pcie_utils.Device.Ring.{Direction, Engine, ChannelInfo}
use mu2e_pcie_utils.Boards.Base.{cfo_index, Board, link_3, link_cfo, link_all}
use native.Mathlib.Nat.{mod-lt, mod-eq_of_lt}
use mu2e_pcie_utils.Device.Backend.{Backend, RegAccess}
use mu2e_pcie_utils.Device.State.{Device}
use mu2e_pcie_utils.Device.Register as Register
use mu2e_pcie_utils.Boards.Ports.Memory.{
  IsRegisterFile, read-device, write-device, check-device, device_bank, dtc_accepts-same,
  cfo_accepts-same,
}
use mu2e_pcie_utils.Boards.Ports.Checks.{dtc_bits, cfo_bits, write_dtc_lem, write_cfo_lem}
use mu2e_pcie_utils.Registers.Access.{write_register, write_tries}
use mu2e_pcie_utils.Registers.Access.Verified.{Judged}
use mu2e_pcie_utils.Boards.Counters.{
  clear_counter, read_counter, receive_byte_count, rxcdr_unlock_count,
}
use mu2e_pcie_utils.Boards.Framed.{IsFramed, IsAccepted}
use mu2e_pcie_utils.Boards.Counters.Apart.{clear_counter-read_counter}
use mu2e_pcie_utils.Boards.Evb.{Info, IsInfo}
use mu2e_pcie_utils.Boards.Evb.Accessors.{with_info, evb_setters, evb_readers}
use mu2e_pcie_utils.Boards.Dtc.EventBuilding.{
  set_evb_info, set_dtc_id, read_dtc_id, set_evb_mode, read_evb_mode, set_evb_local_parition_id,
  read_evb_local_parition_id, set_evb_local_mac_address, read_evb_local_mac_address,
}
use mu2e_pcie_utils.Boards.Reset.{reset_serdes}
use mu2e_pcie_utils.Boards.Reset.Returns.{reset_serdes-returns}
use mu2e_pcie_utils.Boards.Reset.Seen.{Seen, reset_serdes-Seen}
use mu2e_pcie_utils.Boards.ModeBytes.{set_cfo_emulation_mode_byte, read_cfo_emulation_mode_byte}
use mu2e_pcie_utils.Boards.ModeBytes.List as ModeBytes
use mu2e_pcie_utils.Boards.ModeBytes.List.{mode_bytes_lem}
use mu2e_pcie_utils.Boards.Bank.{IsBank}
use mu2e_pcie_utils.Boards.Flags.Accessors.{flags, IsAccessor, flags-IsAccessor}
use mu2e_pcie_utils.Boards.Flags.Laws.{RoundTrip, flags-RoundTrip}
use mu2e_pcie_utils.Boards.Flags.Misplaced.{
  SelectMisplaced, ToggleMisplaced, ResetMisplaced, misplaced_lem,
}

abbrev update : ℕ → ℕ → (ℕ → ℕ) → ℕ → ℕ
update a v w c = if c == a then v else w c

abbrev access : RegAccess → (ℕ → ℕ) → ℤ × RegAccess × (ℕ → ℕ)
access reg w =
    if reg.access_type == 0
    then (pos 0, record reg { val = w reg.reg_offset % 2 ^ 32 }, w)
    else (pos 0, reg, update reg.reg_offset reg.val w)

abbrev driver : Backend
driver = record {
  World = ℕ → ℕ;
  now = λ w. 0;
  usleep = λ us w. w;
  open_device = λ i w. (true, w);
  map_memory = λ e d i w. (true, w);
  get_info = λ i w. (pos 0, i, w);
  buf_give = λ n w. (pos 0, w);
  buf_xmit = λ n w. (pos 0, w);
  reg_access = access;
  dcs_lock = λ w. (pos 0, w);
  dcs_release = λ w. (pos 0, w);
  is_again = λ z w. false;
  others = λ w o. o;
  byte_count = λ e i w. pos 0;
  copy_in = λ e i bytes w. w;
  sim_read_data = λ e t w. (pos 0, 0, w);
  sim_read_release = λ e n w. (pos 0, w);
  sim_read_register = λ a t w. (pos 0, w a % 2 ^ 32, w);
  sim_write_register = λ a t v w. (pos 0, update a v w);
  sim_write_data = λ e bytes w. (pos 0, w);
  disabled = pos 0;
}

abbrev driver_file : IsRegisterFile driver
driver_file = record {
  contents = λ w a. w a % 2 ^ 32;
  written = λ a v w. update a v w;
  contents_lt = λ w a. mod-lt (w a) (omega arith);
  contents-written = λ a v w h. rw (eq→== a a refl) (mod-eq_of_lt h);
  contents-written_other = λ a c v w ne. rw (ne→== c a (λ e. ne (sym e))) refl;
  reg_read = λ a v w. refl;
  reg_write = λ a v w. refl;
  reg_check = λ a v w. refl;
  sim_read = λ a t w. refl;
  sim_write = λ a t v w. refl;
}

-- A board with all registers zero, on which `DTC_Link_ID` counts the links.
abbrev dtc : Board
dtc = dtc_board driver 0 1 cfo_index

abbrev cfo : Board
cfo = cfo_board driver 0 1 cfo_index

abbrev ring_info : Engine → Direction → ChannelInfo
ring_info chn dir = record {
  chn = chn;
  dir = dir;
  tmo_ms = pos 0;
  buff_size = 65536;
  num_buffs = 8;
  hw_idx = 0;
  sw_idx = 0;
}

abbrev idle : Device (ℕ → ℕ)
idle = record {
  world = λ a. 0;
  channel_info = ring_info;
  buffers_held = 0;
  simulated = false;
  active_index = 0;
  mapped = true;
  dcs_lock_held = none;
  read_size = 0;
  write_size = 0;
}

-- After a write of the enables of the event markers.
abbrev marked : Device (ℕ → ℕ)
marked = record idle { world = update 0x91F8 0x3f (λ a. 0) }

marked_answer : write_tries (dtc_port driver 0) 2 0x91F8 0x3f idle ≡ (pos 0, 0x3f, marked)
unfolding write_tries Register.write_register_checked Register.write_access
marked_answer = refl

abbrev attenuated : Device (ℕ → ℕ)
attenuated = record idle { world = update 0x9500 0x30 (λ a. 0) }

attenuated_answer : write_tries (cfo_port driver 0) 2 0x9500 0x30 idle ≡ (pos 0, 0x30, attenuated)
unfolding write_tries Register.write_register_checked Register.write_access
attenuated_answer = refl

abbrev dtc_bank : IsBank (dtc_port driver 0)
dtc_bank = device_bank driver 0 driver_file (λ a. true) dtc_accepts dtc_accepts-same

abbrev cfo_bank : IsBank (cfo_port driver 0)
cfo_bank = device_bank driver 0 driver_file cfo_needs_verify cfo_accepts cfo_accepts-same

flags-IsAccessor_example : All (IsAccessor dtc idle) flags
flags-IsAccessor_example = flags-IsAccessor dtc idle

flags-RoundTrip_example : All (RoundTrip dtc dtc_bank idle) flags
flags-RoundTrip_example = flags-RoundTrip dtc dtc_bank idle refl

misplaced_lem_example :
    SelectMisplaced dtc dtc_bank true idle
    × ToggleMisplaced dtc dtc_bank idle
    × ResetMisplaced dtc dtc_bank idle
misplaced_lem_example = misplaced_lem dtc dtc_bank true idle refl

write_dtc_lem_example :
    Judged
      (dtc_bits 0x91F8)
      0x91F8
      0x3f
      0x3f
      marked
      (write_register (dtc_port driver 0) 1 0x3f 0x91F8 idle)
write_dtc_lem_example =
    write_dtc_lem driver 0 1 0x91F8 0x3f 0x3f idle marked marked_answer refl (omega arith)
      (omega arith)

write_cfo_lem_example :
    (cfo_jitter_attenuator_csr_reg ≡ 0x9318)
      × (write_register (cfo_port driver 0) 1 0x30 0x9500 idle ≡ ok (0x30, attenuated))
    ⊎ (cfo_jitter_attenuator_csr_reg ≢ 0x9318)
      × Judged
          (cfo_bits 0x9500)
          0x9500
          0x30
          0x30
          attenuated
          (write_register (cfo_port driver 0) 1 0x30 0x9500 idle)
write_cfo_lem_example =
    write_cfo_lem driver 0 1 0x9500 0x30 0x30 idle attenuated attenuated_answer refl (omega arith)
      (omega arith)

abbrev framed_dtc : IsFramed (dtc_port driver 0)
framed_dtc = record {
  contents = λ s a. s.world a % 2 ^ 32;
  stored = λ a v s. record s { world = update a v s.world };
  answered = λ a v s. v;
  read_lem = read-device driver 0 driver_file;
  write_lem = write-device driver 0 driver_file;
  write_checked_lem = check-device driver 0 driver_file;
  contents-stored_other = λ a c v s ne. driver_file.contents-written_other a c v s.world ne;
}

accepted : (a v : ℕ) (s : Device (ℕ → ℕ)) → IsAccepted dtc framed_dtc a v s
accepted a v s = dtc_bank.agrees a v (framed_dtc.stored a v s)

abbrev counter_cleared : Device (ℕ → ℕ)
counter_cleared = record idle { world = update 0x920C 0 (λ a. 0) }

clear_counter-read_counter_example :
    (clear_counter receive_byte_count dtc link_3 idle ≡ ok counter_cleared)
    × (((receive_byte_count ≡ rxcdr_unlock_count) × (link_3 ≡ link_cfo))
        ⊎ (read_counter rxcdr_unlock_count dtc link_cfo none counter_cleared ≡ (
            read_counter rxcdr_unlock_count dtc link_cfo none idle >>= λ r.
            ok (r.0, counter_cleared))))
clear_counter-read_counter_example =
    clear_counter-read_counter dtc framed_dtc receive_byte_count rxcdr_unlock_count link_3 link_cfo
      idle refl refl

-- The number 5, the mode 1, the partition 2 and the address 3.
abbrev programmed : Device (ℕ → ℕ)
programmed = record idle { world = λ a. if a == 0x9154 then 0x0501_0203 else 0 }

abbrev programmed_info : Info
programmed_info = record { dtc_id = 5; mode = 1; partition = 2; mac = 3 }

programmed-IsInfo : IsInfo programmed_info
programmed-IsInfo = (omega arith, omega arith, omega arith, omega arith)

abbrev info_stored : Info → Device (ℕ → ℕ)
info_stored j = with_info dtc dtc_bank programmed programmed_info programmed-IsInfo refl j

evb_setters_example :
    (set_evb_info dtc 7 2 1 9 programmed
      ≡ ok (info_stored (record { dtc_id = 7; mode = 2; partition = 1; mac = 9 })))
    × (set_dtc_id dtc 7 programmed ≡ ok (info_stored (record programmed_info { dtc_id = 7 })))
    × (set_evb_mode dtc 2 programmed ≡ ok (info_stored (record programmed_info { mode = 2 })))
    × (set_evb_local_parition_id dtc 1 programmed
        ≡ ok (info_stored (record programmed_info { partition = 1 })))
    × (set_evb_local_mac_address dtc 9 programmed
        ≡ ok (info_stored (record programmed_info { mac = 9 })))
evb_setters_example =
    evb_setters dtc dtc_bank programmed programmed_info programmed-IsInfo refl 7 2 1 9 (omega arith)
      (omega arith)

evb_readers_example :
    (read_dtc_id dtc none programmed ≡ ok (5, programmed))
    × (read_evb_mode dtc none programmed ≡ ok (1, programmed))
    × (read_evb_local_mac_address dtc none programmed ≡ ok (3, programmed))
    × (read_evb_local_parition_id dtc none programmed ≡ ok (0, programmed))
evb_readers_example = evb_readers dtc dtc_bank programmed programmed_info programmed-IsInfo refl

-- A device on which each reset is done at once.
abbrev ready : Device (ℕ → ℕ)
ready = record idle { world = λ a. if a == 0x9138 then 0x3F3F_3F3F else 0 }

abbrev returned : (t : Device (ℕ → ℕ)) × (reset_serdes dtc link_all 10 ready ≡ ok t)
returned =
    reset_serdes-returns dtc framed_dtc link_all 10 0 ready (accepted _ _ _) (accepted _ _ _)
      (omega arith) refl

reset_serdes-Seen_example : Seen dtc link_all returned.0
reset_serdes-Seen_example = reset_serdes-Seen dtc link_all 10 ready returned.0 returned.1

-- An event mode with the byte 9 at 3 and 7 elsewhere.
abbrev emulating : Device (ℕ → ℕ)
emulating = record idle {
  world = λ a. if a == 0x91C0 then 0x0907_0707 else if a == 0x91C4 then 0xAA00_0707 else 0;
}

abbrev mode_seven : ℕ → ℕ
mode_seven = ModeBytes.update 3 9 (λ i. 7)

mode_seven_lt : (i : ℕ) → mode_seven i < 2 ^ 8
mode_seven_lt i = if_both (λ (t : ℕ). t < 2 ^ 8) (3 == i) (λ _. omega arith) (λ _. omega arith)

mode_bytes_lem_example :
    (read_cfo_emulation_mode_byte dtc 3 none emulating ≡ ok (9, emulating))
    × ((t : Device (ℕ → ℕ)) × (set_cfo_emulation_mode_byte dtc 3 5 emulating ≡ ok t)
        × ModeBytes.Shows dtc dtc_bank t (ModeBytes.update 3 5 mode_seven))
mode_bytes_lem_example =
    mode_bytes_lem dtc dtc_bank emulating mode_seven mode_seven_lt (refl, refl) 3 5 (omega arith)
      (omega arith)
