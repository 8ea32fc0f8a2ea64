-- ===== src/Boards/Ports/Memory.antt =====
-- A driver and a simulator that keep what is written to a register make boards of the kind that the
-- laws of the accessors are about (dtcInterfaceLib/mu2edev.cpp below, the boards above).
use mu2e_pcie_utils.Prelude.{
  inr, inl, arith, Bool-cases, ℕ, ◌^◌, ◌<◌, ◌≡◌, ◌≢◌, refl, Bool, true, ℤ, pos,
}
use mu2e_pcie_utils.Device.Backend.{Backend}
use mu2e_pcie_utils.Device.State.{Device}
use mu2e_pcie_utils.Device.Register.{
  retry_access, read_register, write_access, write_register, write_register_checked,
}
use mu2e_pcie_utils.Boards.Bank.{IsBank}
use mu2e_pcie_utils.Boards.Ports.{dtc_accepts, cfo_accepts, device_port}

-- What the driver's `ioctl` and the simulator do with registers that keep what is written: an access
-- succeeds, reads the value, writes it, or writes it and reads it back.
pub record IsRegisterFile (b : Backend) : Type 0 where
  pub contents : b.World → ℕ → ℕ
  pub written : ℕ → ℕ → b.World → b.World
  pub contents_lt : (w : b.World) (a : ℕ) → contents w a < 2 ^ 32
  pub contents-written : (a v : ℕ) (w : b.World) → v < 2 ^ 32 → contents (written a v w) a ≡ v
  pub contents-written_other :
      (a c v : ℕ) (w : b.World) → a ≢ c → contents (written a v w) c ≡ contents w c
  pub reg_read :
      (a v : ℕ) (w : b.World)
      → b.reg_access (record { reg_offset = a; access_type = 0; val = v }) w
        ≡ (pos 0, record { reg_offset = a; access_type = 0; val = contents w a }, w)
  pub reg_write :
      (a v : ℕ) (w : b.World)
      → b.reg_access (record { reg_offset = a; access_type = 1; val = v }) w
        ≡ (pos 0, record { reg_offset = a; access_type = 1; val = v }, written a v w)
  pub reg_check :
      (a v : ℕ) (w : b.World)
      → b.reg_access (record { reg_offset = a; access_type = 2; val = v }) w
        ≡ (pos 0, record { reg_offset = a; access_type = 2; val = v }, written a v w)
  pub sim_read :
      (a : ℕ) (t : ℤ) (w : b.World) → b.sim_read_register a t w ≡ (pos 0, contents w a, w)
  pub sim_write :
      (a : ℕ) (t : ℤ) (v : ℕ) (w : b.World) → b.sim_write_register a t v w ≡ (pos 0, written a v w)

module _ (b : Backend) (garbage : ℕ) (file : IsRegisterFile b) where
  abbrev stored : ℕ → ℕ → Device b.World → Device b.World
  stored a v s = record s { world = file.written a v s.world }

  pub read-device :
      (a : ℕ) (s : Device b.World)
      → read_register b garbage a (pos 100) s ≡ (pos 0, file.contents s.world a, s)
  unfolding read_register retry_access
  read-device a s = elim (Bool-cases s.simulated) [
    | inl sim ↦ rw (sim, file.sim_read a (pos 100) s.world) refl
    | inr real ↦ rw (real, file.reg_read a garbage s.world) refl
  ]

  pub check-device :
      (a v : ℕ) (s : Device b.World)
      → write_register_checked b a (pos 100) v s ≡ (pos 0, v, stored a v s)
  unfolding write_register_checked write_access
  check-device a v s = elim (Bool-cases s.simulated) [
    | inl sim ↦ rw (sim, file.sim_write a (pos 100) v s.world) refl
    | inr real ↦ rw (real, file.reg_check a v s.world) refl
  ]

  pub write-device :
      (a v : ℕ) (s : Device b.World) → write_register b a (pos 100) v s ≡ (pos 0, stored a v s)
  unfolding write_register write_access
  write-device a v s = elim (Bool-cases s.simulated) [
    | inl sim ↦ rw (sim, file.sim_write a (pos 100) v s.world) refl
    | inr real ↦ rw (real, file.reg_write a v s.world) refl
  ]

  module _ (needs : ℕ → Bool) (accepts : ℕ → ℕ → ℕ → Bool)
      (same : (a v : ℕ) → accepts a v v ≡ true) where
    -- The laws of the registers, from those of the driver and the simulator.
    abbrev pub device_bank : IsBank (device_port b garbage needs accepts)
    device_bank = record {
      memory = record {
        contents = λ s a. file.contents s.world a;
        contents_lt = λ s a. file.contents_lt s.world a;
        written = stored;
        read_lem = read-device;
        write_lem = write-device;
        write_checked_lem = check-device;
        contents-written = λ a v s h. file.contents-written a v s.world h;
      };
      agrees = λ a v s. rw (same a v) refl;
      contents-written_other = λ a c v s ne. file.contents-written_other a c v s.world ne;
    }

pub dtc_accepts-same : (a v : ℕ) → dtc_accepts a v v ≡ true
dtc_accepts-same a v = ground arith

pub cfo_accepts-same : (a v : ℕ) → cfo_accepts a v v ≡ true
cfo_accepts-same a v = ground arith
